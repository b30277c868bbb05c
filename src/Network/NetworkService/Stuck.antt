-- ===== src/Network/NetworkService/Stuck.antt =====
-- What a UDP session does to `disconnect`.
use with_boost.Common.{
  ℕ, suc, ◌<◌, ◌≡◌, refl, Bool, true, false, not, ◌&&◌, ◌==◌, List, [], ◌∷◌, ◌++◌, Text, is_empty,
  if◌then◌else◌, All, All-append, arith,
}
use with_boost.Network.Protocol.{type_code, image}
use with_boost.Network.MessageProcessor.{
  NetworkCallbacks, Call, calls, on_image_meta, on_login_result, on_login_fail, on_camera_list,
  on_device_status, on_ai_result, on_meta_result, on_assign, process_message,
}
use with_boost.Network.NetworkService.{
  NetworkService, idle, Task, resolves, sends, marks_connected, marks_disconnected, processes,
  takes_meta, closes, Effect, connected_called, called, udp_started, meta_expected,
  disconnect_returned, Event, connects, begins_disconnect, joins, runs_task, asks_to_send,
  udp_control, connecting_ends, handshake_done, read_ends, receive_fails, message_read, connect,
  send, is_out_of_work, wrapped, take_call, perform, execute, run_task, step, run,
}

pub is_return : Effect → Bool
is_return disconnect_returned = true
is_return other = false

-- The thread is there and a receive is pending.
abbrev pub IsReceiving : NetworkService → Type 0
IsReceiving s = (s.is_running ≡ true) × (0 < s.receiving)

-- So it is still, and no disconnection has returned.
abbrev pub RunsOn : NetworkService × List Effect → Type 0
RunsOn r = IsReceiving r.0 × All (λ e. is_return e ≡ false) r.1

either-IsReceiving :
    (b : Bool) (s s' : NetworkService)
    → IsReceiving s
    → IsReceiving s'
    → IsReceiving (if b then s else s')
either-IsReceiving true s s' h k = h
either-IsReceiving false s s' h k = k

send-IsReceiving :
    (type : ℕ) (body : Text) (s : NetworkService) → IsReceiving s → IsReceiving (send type body s)
unfolding send
send-IsReceiving type body s h = either-IsReceiving s.is_running _ s h h

busy : (s : NetworkService) → IsReceiving s → is_out_of_work s ≡ false
unfolding is_out_of_work
busy s h =
    go (not s.is_guarded) (is_empty s.queue) (not s.is_connecting) (not s.is_reading) s.receiving
      h.1
  where
    go : (a b c d : Bool) (n : ℕ) → 0 < n → (a && (b && (c && (d && (n == 0))))) ≡ false
    go a b c d n l = ground (arith, l)

meta_out-none :
    (u m : Bool) (json : Text)
    → All
        (λ e. is_return e ≡ false)
        ((if u then [] else udp_started ∷ [])
          ++ (meta_expected json ∷ (if m then called (calls on_image_meta json) ∷ [] else [])))
unfolding is_return
meta_out-none true true json = (refl, (refl, tt))
meta_out-none true false json = (refl, tt)
meta_out-none false true json = (refl, (refl, (refl, tt)))
meta_out-none false false json = (refl, (refl, tt))

single-none :
    (b : Bool) (e : Effect)
    → is_return e ≡ false
    → All (λ e. is_return e ≡ false) (if b then e ∷ [] else [])
single-none true e h = (h, tt)
single-none false e h = tt

module _ (has_connected_callback : Bool) (callbacks : NetworkCallbacks) (port_reply : Text) where
  unfoldable pub is_receive_failure : Event has_connected_callback callbacks port_reply → Bool
  is_receive_failure receive_fails = true
  is_receive_failure other = false

  take_call-RunsOn :
      (c : Call) (s : NetworkService)
      → IsReceiving s
      → RunsOn (take_call has_connected_callback callbacks port_reply c s)
  unfolding take_call is_return
  take_call-RunsOn (calls on_image_meta json) s h = (h, tt)
  take_call-RunsOn (calls on_login_result json) s h = (h, (refl, tt))
  take_call-RunsOn (calls on_login_fail json) s h = (h, (refl, tt))
  take_call-RunsOn (calls on_camera_list json) s h = (h, (refl, tt))
  take_call-RunsOn (calls on_device_status json) s h = (h, (refl, tt))
  take_call-RunsOn (calls on_ai_result json) s h = (h, (refl, tt))
  take_call-RunsOn (calls on_meta_result json) s h = (h, (refl, tt))
  take_call-RunsOn (calls on_assign json) s h = (h, (refl, tt))

  perform-RunsOn :
      (cs : List Call) (s : NetworkService)
      → IsReceiving s
      → RunsOn (perform has_connected_callback callbacks port_reply cs s)
  unfolding perform
  perform-RunsOn [] s h = (h, tt)
  perform-RunsOn (c ∷ cs) s h =
      let (first, quiet) = take_call-RunsOn c s h in
      let (rest, still) = perform-RunsOn cs _ first in
      (rest, All-append (λ e. is_return e ≡ false) _ _ quiet still)

  started-IsReceiving :
      (u : Bool) (s : NetworkService)
      → IsReceiving s
      → IsReceiving (if u then s else record s { has_udp = true; receiving = suc s.receiving })
  started-IsReceiving u s h =
      either-IsReceiving u s (record s { has_udp = true; receiving = suc s.receiving }) h
        (h.0, omega arith)

  execute-RunsOn :
      (t : Task) (s : NetworkService)
      → IsReceiving s
      → RunsOn (execute has_connected_callback callbacks port_reply t s)
  unfolding execute is_return
  execute-RunsOn resolves s h = (h, tt)
  execute-RunsOn (sends type body) s h = (h, single-none (s.has_session && s.connected) _ refl)
  execute-RunsOn marks_connected s h =
      (h, (refl, single-none has_connected_callback connected_called refl))
  execute-RunsOn marks_disconnected s h = (h, (refl, tt))
  execute-RunsOn (processes msg) s h = go s.has_processor
    where
      go :
          (b : Bool)
          → RunsOn (
              if b
              then perform has_connected_callback callbacks port_reply
                  (process_message (wrapped has_connected_callback callbacks port_reply) msg)
                  s
              else (s, []))
      go true =
          perform-RunsOn (process_message (wrapped has_connected_callback callbacks port_reply) msg)
            s h
      go false = (h, tt)
  execute-RunsOn (takes_meta json) s h = (
    send-IsReceiving (type_code image) port_reply _ (started-IsReceiving s.has_udp s h),
    meta_out-none s.has_udp callbacks.has_image_meta json,
  )
  execute-RunsOn closes s h = (h, (refl, tt))

  step-RunsOn :
      (e : Event has_connected_callback callbacks port_reply) (s : NetworkService)
      → is_receive_failure e ≡ false
      → IsReceiving s
      → RunsOn (step has_connected_callback callbacks port_reply e s)
  unfolding step run_task is_receive_failure is_return
  step-RunsOn connects s q h = rw (step, connect, h.0) ((refl, h.1), tt)
  step-RunsOn begins_disconnect s q h = (either-IsReceiving s.is_running _ s h h, tt)
  step-RunsOn joins s q h = go s.is_running (is_out_of_work s) (busy s h)
    where
      go :
          (a b : Bool)
          → b ≡ false
          → RunsOn (
              if a && b
              then (record idle { connected = s.connected }, disconnect_returned ∷ [])
              else (s, []))
      go true b k = rw k (h, tt)
      go false b k = (h, tt)
  step-RunsOn runs_task s q h = go s.queue
    where
      go :
          (queue : List Task)
          → RunsOn (elim queue as (λ q. NetworkService × List Effect) [
            | [] ↦ (s, [])
            | t ∷ ts ↦
                execute has_connected_callback callbacks port_reply t (record s { queue = ts })
          ])
      go [] = (h, tt)
      go (t ∷ ts) = execute-RunsOn t (record s { queue = ts }) h
  step-RunsOn (asks_to_send type body) s q h = (send-IsReceiving type body s h, tt)
  step-RunsOn (udp_control body) s q h =
      (either-IsReceiving s.has_udp _ s (send-IsReceiving (type_code image) body s h) h, tt)
  step-RunsOn (connecting_ends ok) s q h =
      (either-IsReceiving s.is_connecting _ s (either-IsReceiving ok _ _ h h) h, tt)
  step-RunsOn handshake_done s q h = (either-IsReceiving s.is_reading _ s h h, tt)
  step-RunsOn read_ends s q h = (either-IsReceiving s.is_reading _ s h h, tt)
  step-RunsOn receive_fails s q h = cc
  step-RunsOn (message_read msg) s q h = (either-IsReceiving s.is_reading _ s h h, tt)

  -- A receive of a UDP session is pending. Then, whatever happens but a receive that fails, the thread never ends: no
  -- disconnection returns, neither one that waits already nor a later one.
  pub run-RunsOn :
      (es : List (Event has_connected_callback callbacks port_reply)) (s : NetworkService)
      → All (λ e. is_receive_failure e ≡ false) es
      → s.is_running ≡ true
      → 0 < s.receiving
      → let r = run has_connected_callback callbacks port_reply es s in
        ((r.0.is_running ≡ true) × (0 < r.0.receiving)) × All (λ e. is_return e ≡ false) r.1
  unfolding run
  run-RunsOn [] s q h k = ((h, k), tt)
  run-RunsOn (e ∷ es) s q h k =
      let (first, quiet) = step-RunsOn e s q.0 (h, k) in
      let (rest, still) = run-RunsOn es _ q.1 first.0 first.1 in
      (rest, All-append (λ e. is_return e ≡ false) _ _ quiet still)
