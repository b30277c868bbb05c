-- ===== src/Network/NetworkService/Order.antt =====
-- When messages are sent.
use with_boost.Common.{
  ℕ, ◌≡◌, refl, sym, ap, subst, ◌∙◌, Bool, true, false, ◌&&◌, Bool-cases, and-split, inl, inr, List,
  [], ◌∷◌, ◌++◌, Text, if◌then◌else◌,
}
use with_boost.Network.Protocol.{type_code, image}
use with_boost.Network.MessageProcessor.{
  NetworkCallbacks, Call, calls, on_image_meta, on_login_result, on_login_fail, on_camera_list,
  on_device_status, on_ai_result, on_meta_result, on_assign, process_message,
}
use with_boost.Network.NetworkService.{
  NetworkService, idle, Task, resolves, sends, marks_connected, marks_disconnected, processes,
  takes_meta, closes, Effect, marked, message_sent, connected_called, called, udp_started,
  meta_expected, disconnect_returned, Event, connects, begins_disconnect, joins, runs_task,
  asks_to_send, udp_control, connecting_ends, handshake_done, read_ends, receive_fails,
  message_read, send, is_out_of_work, wrapped, take_call, perform, execute, run_task, step, run,
}

-- A message is sent only while the connection is marked, from the mark at the start on.
pub Ordered : Bool → List Effect → Type 0
Ordered mark [] = Unit
Ordered mark (marked b ∷ out) = Ordered b out
Ordered mark (message_sent msg ∷ out) = (mark ≡ true) × Ordered mark out
Ordered mark (other ∷ out) = Ordered mark out

-- The mark that is set last.
pub last_mark : Bool → List Effect → Bool
last_mark mark [] = mark
last_mark mark (marked b ∷ out) = last_mark b out
last_mark mark (other ∷ out) = last_mark mark out

abbrev pub Follows : Bool → NetworkService × List Effect → Type 0
Follows mark r = Ordered mark r.1 × (last_mark mark r.1 ≡ r.0.connected)

Ordered-append :
    (mark : Bool) (xs ys : List Effect)
    → Ordered mark xs
    → Ordered (last_mark mark xs) ys
    → Ordered mark (xs ++ ys)
unfolding Ordered last_mark
Ordered-append mark [] ys h k = k
Ordered-append mark (marked b ∷ xs) ys h k = Ordered-append b xs ys h k
Ordered-append mark (message_sent msg ∷ xs) ys h k = (h.0, Ordered-append mark xs ys h.1 k)
Ordered-append mark (connected_called ∷ xs) ys h k = Ordered-append mark xs ys h k
Ordered-append mark (called c ∷ xs) ys h k = Ordered-append mark xs ys h k
Ordered-append mark (udp_started ∷ xs) ys h k = Ordered-append mark xs ys h k
Ordered-append mark (meta_expected t ∷ xs) ys h k = Ordered-append mark xs ys h k
Ordered-append mark (disconnect_returned ∷ xs) ys h k = Ordered-append mark xs ys h k

last_mark-append :
    (mark : Bool) (xs ys : List Effect)
    → last_mark mark (xs ++ ys) ≡ last_mark (last_mark mark xs) ys
unfolding last_mark
last_mark-append mark [] ys = refl
last_mark-append mark (marked b ∷ xs) ys = last_mark-append b xs ys
last_mark-append mark (message_sent msg ∷ xs) ys = last_mark-append mark xs ys
last_mark-append mark (connected_called ∷ xs) ys = last_mark-append mark xs ys
last_mark-append mark (called c ∷ xs) ys = last_mark-append mark xs ys
last_mark-append mark (udp_started ∷ xs) ys = last_mark-append mark xs ys
last_mark-append mark (meta_expected t ∷ xs) ys = last_mark-append mark xs ys
last_mark-append mark (disconnect_returned ∷ xs) ys = last_mark-append mark xs ys

-- Two results one after the other.
then-Follows :
    (mark : Bool) (r r' : NetworkService × List Effect)
    → Follows mark r
    → Follows r.0.connected r'
    → Follows mark (r'.0, r.1 ++ r'.1)
then-Follows mark r r' h k = (
  Ordered-append mark r.1 r'.1 h.0 (subst (λ b. Ordered b r'.1) (sym h.1) k.0),
  last_mark-append mark r.1 r'.1 ∙ ap (λ b. last_mark b r'.1) h.1 ∙ k.1,
)

either-Follows :
    (mark b : Bool) (r r' : NetworkService × List Effect)
    → Follows mark r
    → Follows mark r'
    → Follows mark (if b then r else r')
either-Follows mark true r r' h k = h
either-Follows mark false r r' h k = k

either-connected :
    (mark b : Bool) (s s' : NetworkService)
    → s.connected ≡ mark
    → s'.connected ≡ mark
    → (if b then s else s').connected ≡ mark
either-connected mark true s s' h k = h
either-connected mark false s s' h k = k

send-connected :
    (type : ℕ) (body : Text) (s : NetworkService) → (send type body s).connected ≡ s.connected
unfolding send
send-connected type body s = either-connected s.connected s.is_running _ s refl refl

connected_out :
    (mark b : Bool)
    → Ordered mark (marked true ∷ (if b then connected_called ∷ [] else []))
      × (last_mark mark (marked true ∷ (if b then connected_called ∷ [] else [])) ≡ true)
unfolding Ordered last_mark
connected_out mark true = (tt, refl)
connected_out mark false = (tt, refl)

meta_out :
    (mark u m : Bool) (json : Text)
    → let out =
        (if u then [] else udp_started ∷ [])
        ++ (meta_expected json ∷ (if m then called (calls on_image_meta json) ∷ [] else [])) in
      Ordered mark out × (last_mark mark out ≡ mark)
unfolding Ordered last_mark
meta_out mark true true json = (tt, refl)
meta_out mark true false json = (tt, refl)
meta_out mark false true json = (tt, refl)
meta_out mark false false json = (tt, refl)

module _ (has_connected_callback : Bool) (callbacks : NetworkCallbacks) (port_reply : Text) where
  take_call-Follows :
      (c : Call) (s : NetworkService)
      → Follows s.connected (take_call has_connected_callback callbacks port_reply c s)
  unfolding Ordered last_mark take_call
  take_call-Follows (calls on_image_meta json) s = (tt, refl)
  take_call-Follows (calls on_login_result json) s = (tt, refl)
  take_call-Follows (calls on_login_fail json) s = (tt, refl)
  take_call-Follows (calls on_camera_list json) s = (tt, refl)
  take_call-Follows (calls on_device_status json) s = (tt, refl)
  take_call-Follows (calls on_ai_result json) s = (tt, refl)
  take_call-Follows (calls on_meta_result json) s = (tt, refl)
  take_call-Follows (calls on_assign json) s = (tt, refl)

  perform-Follows :
      (cs : List Call) (s : NetworkService)
      → Follows s.connected (perform has_connected_callback callbacks port_reply cs s)
  unfolding perform Ordered last_mark
  perform-Follows [] s = (tt, refl)
  perform-Follows (c ∷ cs) s =
      let first = take_call has_connected_callback callbacks port_reply c s in
      then-Follows s.connected first
        (perform has_connected_callback callbacks port_reply cs first.0) (take_call-Follows c s)
        (perform-Follows cs first.0)

  execute-Follows :
      (t : Task) (s : NetworkService)
      → Follows s.connected (execute has_connected_callback callbacks port_reply t s)
  unfolding Ordered last_mark execute
  execute-Follows resolves s = (tt, refl)
  execute-Follows (sends type body) s = elim (Bool-cases (s.has_session && s.connected)) [
    | inl e ↦ rw (execute, e) (((and-split s.has_session s.connected e).1, tt), refl)
    | inr e ↦ rw (execute, e) (tt, refl)
  ]
  execute-Follows marks_connected s = connected_out s.connected has_connected_callback
  execute-Follows marks_disconnected s = (tt, refl)
  execute-Follows (processes msg) s =
      either-Follows s.connected s.has_processor _ (s, [])
        (perform-Follows (process_message (wrapped has_connected_callback callbacks port_reply) msg)
          s)
        (tt, refl)
  execute-Follows (takes_meta json) s =
      let (ordered, last) = meta_out s.connected s.has_udp callbacks.has_image_meta json in
      (
        ordered,
        last
            ∙ sym (either-connected s.connected s.has_udp s _ refl refl)
            ∙ sym (send-connected (type_code image) port_reply _),
      )
  execute-Follows closes s = (tt, refl)

  step-Follows :
      (e : Event has_connected_callback callbacks port_reply) (s : NetworkService)
      → Follows s.connected (step has_connected_callback callbacks port_reply e s)
  unfolding step run_task Ordered last_mark
  step-Follows connects s = (tt, sym (either-connected s.connected s.is_running s _ refl refl))
  step-Follows begins_disconnect s =
      (tt, sym (either-connected s.connected s.is_running _ s refl refl))
  step-Follows joins s =
      either-Follows s.connected (s.is_running && is_out_of_work s)
        (record idle { connected = s.connected }, disconnect_returned ∷ []) (s, []) (tt, refl)
        (tt, refl)
  step-Follows runs_task s = run_task-Follows s.queue
    where
      run_task-Follows :
          (queue : List Task)
          → Follows s.connected (elim queue as (λ q. NetworkService × List Effect) [
            | [] ↦ (s, [])
            | t ∷ ts ↦
                execute has_connected_callback callbacks port_reply t (record s { queue = ts })
          ])
      run_task-Follows [] = (tt, refl)
      run_task-Follows (t ∷ ts) = execute-Follows t (record s { queue = ts })
  step-Follows (asks_to_send type body) s = (tt, sym (send-connected type body s))
  step-Follows (udp_control body) s = (
    tt,
    sym (either-connected s.connected s.has_udp _ s (send-connected (type_code image) body s) refl),
  )
  step-Follows (connecting_ends ok) s = (
    tt,
    sym (
        either-connected s.connected s.is_connecting _ s
          (either-connected s.connected ok _ _ refl refl) refl),
  )
  step-Follows handshake_done s =
      (tt, sym (either-connected s.connected s.is_reading _ s refl refl))
  step-Follows read_ends s = (tt, sym (either-connected s.connected s.is_reading _ s refl refl))
  step-Follows receive_fails s = (tt, refl)
  step-Follows (message_read msg) s =
      (tt, sym (either-connected s.connected s.is_reading _ s refl refl))

  pub run-Ordered :
      (es : List (Event has_connected_callback callbacks port_reply)) (s : NetworkService)
      → let r = run has_connected_callback callbacks port_reply es s in
        Ordered s.connected r.1 × (last_mark s.connected r.1 ≡ r.0.connected)
  unfolding run Ordered last_mark
  run-Ordered [] s = (tt, refl)
  run-Ordered (e ∷ es) s =
      let first = step has_connected_callback callbacks port_reply e s in
      then-Follows s.connected first (run has_connected_callback callbacks port_reply es first.0)
        (step-Follows e s) (run-Ordered es first.0)
