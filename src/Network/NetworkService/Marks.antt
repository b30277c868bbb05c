-- ===== src/Network/NetworkService/Marks.antt =====
-- The marks of the connection that tasks set.
pub mod Passes
use mathlib.Core.Bool.{true≢false}
use mathlib.Core.List.{append_assoc, append-nil}
use with_boost.Common.{
  ℕ, ◌≡◌, ◌≢◌, refl, sym, ap, ◌∙◌, Bool, true, false, ◌&&◌, Bool-cases, and-split, inl, inr, List,
  [], ◌∷◌, ◌++◌, is_empty, not, Text, if◌then◌else◌, ◌==◌, suc, ◌-◌,
}
use with_boost.Network.Protocol.{type_code, image, Message}
use with_boost.Network.MessageProcessor.{
  NetworkCallbacks, Call, calls, on_image_meta, on_login_result, on_login_fail, on_camera_list,
  on_device_status, on_ai_result, on_meta_result, on_assign, process_message,
}
use with_boost.Network.NetworkService.{
  NetworkService, idle, Task, resolves, sends, marks_connected, marks_disconnected, processes,
  takes_meta, closes, Effect, marked, message_sent, connected_called, called, udp_started,
  meta_expected, disconnect_returned, Event, connects, begins_disconnect, joins, runs_task,
  asks_to_send, udp_control, connecting_ends, handshake_done, read_ends, receive_fails,
  message_read, connect, begin_disconnect, join, end_connecting, send, is_out_of_work, wrapped,
  take_call, perform, execute, run_task, step, run,
}
use with_boost.Network.NetworkService.Order.{Ordered, last_mark, run-Ordered}

-- The marks that were set.
pub marks_in : List Effect → List Bool
marks_in [] = []
marks_in (marked b ∷ out) = b ∷ marks_in out
marks_in (other ∷ out) = marks_in out

-- The marks that the queue still has to set.
unfoldable pub pending : List Task → List Bool
pending [] = []
pending (marks_connected ∷ ts) = true ∷ pending ts
pending (marks_disconnected ∷ ts) = false ∷ pending ts
pending (closes ∷ ts) = false ∷ pending ts
pending (other ∷ ts) = pending ts

pub marks_in-append : (xs ys : List Effect) → marks_in (xs ++ ys) ≡ marks_in xs ++ marks_in ys
unfolding marks_in
marks_in-append [] ys = refl
marks_in-append (marked b ∷ xs) ys = ap (◌∷◌ b) (marks_in-append xs ys)
marks_in-append (message_sent msg ∷ xs) ys = marks_in-append xs ys
marks_in-append (connected_called ∷ xs) ys = marks_in-append xs ys
marks_in-append (called c ∷ xs) ys = marks_in-append xs ys
marks_in-append (udp_started ∷ xs) ys = marks_in-append xs ys
marks_in-append (meta_expected t ∷ xs) ys = marks_in-append xs ys
marks_in-append (disconnect_returned ∷ xs) ys = marks_in-append xs ys

pub pending-append : (xs ys : List Task) → pending (xs ++ ys) ≡ pending xs ++ pending ys
unfolding pending
pending-append [] ys = refl
pending-append (marks_connected ∷ xs) ys = ap (◌∷◌ true) (pending-append xs ys)
pending-append (marks_disconnected ∷ xs) ys = ap (◌∷◌ false) (pending-append xs ys)
pending-append (closes ∷ xs) ys = ap (◌∷◌ false) (pending-append xs ys)
pending-append (resolves ∷ xs) ys = pending-append xs ys
pending-append (sends type body ∷ xs) ys = pending-append xs ys
pending-append (processes msg ∷ xs) ys = pending-append xs ys
pending-append (takes_meta json ∷ xs) ys = pending-append xs ys

-- A stopped service has nothing to do.
abbrev pub Rests : NetworkService → Type 0
Rests s = s.is_running ≡ false → (s.queue ≡ []) × (s.is_reading ≡ false) × (s.is_connecting ≡ false)

pub either-Rests :
    (b : Bool) (r r' : NetworkService)
    → (b ≡ true → Rests r)
    → (b ≡ false → Rests r')
    → Rests (if b then r else r')
either-Rests true r r' h k = h refl
either-Rests false r r' h k = k refl

-- From `s`, these marks are set, the queue has those that it had, and the service runs as it did.
abbrev pub Sets : NetworkService → List Bool → NetworkService × List Effect → Type 0
Sets s ms r =
    (marks_in r.1 ≡ ms) × (pending r.0.queue ≡ pending s.queue) × (r.0.is_running ≡ s.is_running)

either-Sets :
    (s : NetworkService) (ms : List Bool) (b : Bool) (r r' : NetworkService × List Effect)
    → Sets s ms r
    → Sets s ms r'
    → Sets s ms (if b then r else r')
either-Sets s ms true r r' h k = h
either-Sets s ms false r r' h k = k

-- A task without a mark at the end of the queue.
post_unmarked :
    (t : Task) (ts : List Task) → pending (t ∷ []) ≡ [] → pending (ts ++ t ∷ []) ≡ pending ts
post_unmarked t ts h =
    pending-append ts (t ∷ []) ∙ ap (λ ms. pending ts ++ ms) h ∙ append-nil (pending ts)

-- The queue of `r` has the marks of that of `s`, and it runs as `s` does.
abbrev pub Keeps : NetworkService → NetworkService → Type 0
Keeps s r = (pending r.queue ≡ pending s.queue) × (r.is_running ≡ s.is_running)

pub either-Keeps :
    (s : NetworkService) (b : Bool) (r r' : NetworkService)
    → Keeps s r
    → Keeps s r'
    → Keeps s (if b then r else r')
either-Keeps s true r r' h k = h
either-Keeps s false r r' h k = k

pub send-Keeps : (type : ℕ) (body : Text) (s : NetworkService) → Keeps s (send type body s)
unfolding pending send
send-Keeps type body s =
    either-Keeps s s.is_running _ s (post_unmarked (sends type body) s.queue refl, refl)
      (refl, refl)

pub cons≢nil : (t : Task) (ts : List Task) → t ∷ ts ≢ []
cons≢nil t ts e = cc

empty : (ts : List Task) → is_empty ts ≡ true → ts ≡ []
empty [] h = refl
empty (t ∷ ts) h = cc

pub worked_off : (s : NetworkService) → s.is_running && is_out_of_work s ≡ true → s.queue ≡ []
unfolding is_out_of_work
worked_off s h = empty s.queue (and-split _ _ (and-split _ _ (and-split s.is_running _ h).1).1).0

connected_marks :
    (b : Bool) → marks_in (marked true ∷ (if b then connected_called ∷ [] else [])) ≡ true ∷ []
unfolding marks_in
connected_marks true = refl
connected_marks false = refl

sent_marks : (b : Bool) (msg : Message) → marks_in (if b then message_sent msg ∷ [] else []) ≡ []
unfolding marks_in
sent_marks true msg = refl
sent_marks false msg = refl

meta_marks :
    (u m : Bool) (json : Text)
    → marks_in (
        (if u then [] else udp_started ∷ [])
        ++ (meta_expected json ∷ (if m then called (calls on_image_meta json) ∷ [] else [])))
      ≡ []
unfolding marks_in
meta_marks true true json = refl
meta_marks true false json = refl
meta_marks false true json = refl
meta_marks false false json = refl

module _ (has_connected_callback : Bool) (callbacks : NetworkCallbacks) (port_reply : Text) where
  take_call-Sets :
      (c : Call) (s : NetworkService)
      → Sets s [] (take_call has_connected_callback callbacks port_reply c s)
  unfolding take_call marks_in pending
  take_call-Sets (calls on_image_meta json) s =
      (refl, post_unmarked (takes_meta json) s.queue refl, refl)
  take_call-Sets (calls on_login_result json) s = (refl, refl, refl)
  take_call-Sets (calls on_login_fail json) s = (refl, refl, refl)
  take_call-Sets (calls on_camera_list json) s = (refl, refl, refl)
  take_call-Sets (calls on_device_status json) s = (refl, refl, refl)
  take_call-Sets (calls on_ai_result json) s = (refl, refl, refl)
  take_call-Sets (calls on_meta_result json) s = (refl, refl, refl)
  take_call-Sets (calls on_assign json) s = (refl, refl, refl)

  perform-Sets :
      (cs : List Call) (s : NetworkService)
      → Sets s [] (perform has_connected_callback callbacks port_reply cs s)
  unfolding perform marks_in
  perform-Sets [] s = (refl, refl, refl)
  perform-Sets (c ∷ cs) s =
      let first = take_call has_connected_callback callbacks port_reply c s in
      let others = perform has_connected_callback callbacks port_reply cs first.0 in
      let h = take_call-Sets c s in
      let k = perform-Sets cs first.0 in
      (
        marks_in-append first.1 others.1 ∙ ap (λ ms. ms ++ marks_in others.1) h.0 ∙ k.0,
        k.1 ∙ h.1,
        k.2 ∙ h.2,
      )

  pub execute-Sets :
      (t : Task) (s : NetworkService)
      → Sets s (pending (t ∷ [])) (execute has_connected_callback callbacks port_reply t s)
  unfolding execute pending marks_in
  execute-Sets resolves s = (refl, refl, refl)
  execute-Sets (sends type body) s = (sent_marks (s.has_session && s.connected) _, refl, refl)
  execute-Sets marks_connected s = (connected_marks has_connected_callback, refl, refl)
  execute-Sets marks_disconnected s = (refl, refl, refl)
  execute-Sets (processes msg) s =
      either-Sets s [] s.has_processor _ (s, [])
        (perform-Sets (process_message (wrapped has_connected_callback callbacks port_reply) msg) s)
        (refl, refl, refl)
  execute-Sets (takes_meta json) s =
      let started =
        if s.has_udp then s else record s { has_udp = true; receiving = suc s.receiving } in
      let sent = send-Keeps (type_code image) port_reply started in
      let same = either-Keeps s s.has_udp s _ (refl, refl) (refl, refl) in
      (meta_marks s.has_udp callbacks.has_image_meta json, sent.0 ∙ same.0, sent.1 ∙ same.1)
  execute-Sets closes s = (refl, refl, refl)
