-- ===== src/Network/NetworkService/Marks/Passes.antt =====
-- The order in which marks are queued and set.
use mathlib.Core.Bool.{true≢false}
use mathlib.Core.List.{append_assoc, append-nil}
use with_boost.Common.{
  ℕ, ◌≡◌, refl, sym, ap, ◌∙◌, Bool, true, false, ◌&&◌, List, [], ◌∷◌, ◌++◌, Text, if◌then◌else◌,
  ◌-◌,
}
use with_boost.Network.Protocol.{type_code, image}
use with_boost.Network.MessageProcessor.{NetworkCallbacks}
use with_boost.Network.NetworkService.{
  NetworkService, idle, Task, marks_connected, marks_disconnected, processes, closes, Effect,
  disconnect_returned, Event, connects, begins_disconnect, joins, runs_task, asks_to_send,
  udp_control, connecting_ends, handshake_done, read_ends, receive_fails, message_read, connect,
  begin_disconnect, join, end_connecting, send, is_out_of_work, execute, run_task, step, run,
}
use with_boost.Network.NetworkService.Order.{Ordered, last_mark, run-Ordered}
use with_boost.Network.NetworkService.Marks.{
  marks_in, pending, marks_in-append, pending-append, Rests, Keeps, either-Keeps, either-Rests,
  send-Keeps, cons≢nil, worked_off, execute-Sets,
}

module _ (has_connected_callback : Bool) (callbacks : NetworkCallbacks) (port_reply : Text) where
  -- The marks that an event queues: of a handshake and of an end of a session that reads, and of a
  -- disconnection of a service that runs.
  pub queued_marks : Event has_connected_callback callbacks port_reply → NetworkService → List Bool
  queued_marks handshake_done s = if s.is_reading then true ∷ [] else []
  queued_marks read_ends s = if s.is_reading then false ∷ [] else []
  queued_marks begins_disconnect s = if s.is_running then false ∷ [] else []
  queued_marks other s = []

  pub all_queued_marks :
      List (Event has_connected_callback callbacks port_reply) → NetworkService → List Bool
  all_queued_marks [] s = []
  all_queued_marks (e ∷ es) s =
      queued_marks e s
      ++ all_queued_marks es (step has_connected_callback callbacks port_reply e s).0

  -- From `s` to a state that rests if it is stopped: the marks set and those still queued are those that were
  -- queued, with these behind them.
  abbrev pub Passes : NetworkService → List Bool → NetworkService × List Effect → Type 0
  Passes s ms r = (marks_in r.1 ++ pending r.0.queue ≡ pending s.queue ++ ms) × Rests r.0

  either-Passes :
      (s : NetworkService) (b : Bool) (ms : Bool → List Bool) (r r' : NetworkService)
      → (b ≡ true → Passes s (ms true) (r, []))
      → (b ≡ false → Passes s (ms false) (r', []))
      → Passes s (ms b) (if b then r else r', [])
  either-Passes s true ms r r' h k = h refl
  either-Passes s false ms r r' h k = k refl

  Keeps-Passes : (s r : NetworkService) → Keeps s r → Rests r → Passes s [] (r, [])
  unfolding marks_in
  Keeps-Passes s r k h = (k.0 ∙ sym (append-nil (pending s.queue)), h)

  posts-Passes :
      (s : NetworkService) (t : Task)
      → s.is_reading ≡ true
      → Rests s
      → Passes s (pending (t ∷ [])) (record s { queue = s.queue ++ t ∷ [] }, [])
  unfolding marks_in
  posts-Passes s t e h =
      (pending-append s.queue (t ∷ []), (λ stopped. absurd (true≢false (sym e ∙ (h stopped).1))))

  connect-Passes : (s : NetworkService) → Rests s → Passes s [] (connect s, [])
  unfolding connect marks_in pending
  connect-Passes s h =
      either-Passes s s.is_running (λ b. []) s _ (λ e. Keeps-Passes s s (refl, refl) h)
        (λ e. (
          ap pending (sym (h e).0) ∙ sym (append-nil (pending s.queue)),
          (λ stopped. absurd (true≢false stopped)),
        ))

  begin_disconnect-Passes :
      (s : NetworkService)
      → Rests s
      → Passes s (if s.is_running then false ∷ [] else []) (begin_disconnect s, [])
  unfolding begin_disconnect marks_in pending
  begin_disconnect-Passes s h =
      either-Passes s s.is_running (λ b. if b then false ∷ [] else []) _ s
        (λ e. (
          pending-append s.queue (closes ∷ []),
          (λ stopped. absurd (true≢false (sym e ∙ stopped))),
        ))
        (λ e. Keeps-Passes s s (refl, refl) h)

  join-Passes : (s : NetworkService) → Rests s → Passes s [] (join s)
  unfolding join is_out_of_work marks_in pending
  join-Passes s h = go (s.is_running && is_out_of_work s) refl
    where
      go :
          (b : Bool)
          → s.is_running && is_out_of_work s ≡ b
          → Passes s [] (
              if b
              then (record idle { connected = s.connected }, disconnect_returned ∷ [])
              else (s, []))
      go true e = (
        ap pending (sym (worked_off s e)) ∙ sym (append-nil (pending s.queue)),
        (λ stopped. (refl, refl, refl)),
      )
      go false e = Keeps-Passes s s (refl, refl) h

  run_task-Passes :
      (s : NetworkService) (queue : List Task)
      → s.queue ≡ queue
      → Rests s
      → Passes s [] (elim queue as (λ q. NetworkService × List Effect) [
        | [] ↦ (s, [])
        | t ∷ ts ↦ execute has_connected_callback callbacks port_reply t (record s { queue = ts })
      ])
  run_task-Passes s [] e h = Keeps-Passes s s (refl, refl) h
  run_task-Passes s (t ∷ ts) e h =
      let r = execute has_connected_callback callbacks port_reply t (record s { queue = ts }) in
      let k =
        execute-Sets has_connected_callback callbacks port_reply t (record s { queue = ts }) in
      (
        ap (λ ms. ms ++ pending r.0.queue) k.0
            ∙ ap (λ ms. pending (t ∷ []) ++ ms) k.1
            ∙ sym (pending-append (t ∷ []) ts)
            ∙ sym (ap pending e)
            ∙ sym (append-nil (pending s.queue)),
        (λ stopped. absurd (cons≢nil _ _ (sym e ∙ (h (sym k.2 ∙ stopped)).0))),
      )

  send-Rests : (type : ℕ) (body : Text) (s : NetworkService) → Rests s → Rests (send type body s)
  unfolding send
  send-Rests type body s h =
      either-Rests s.is_running _ s (λ e stopped. absurd (true≢false (sym e ∙ stopped))) (λ e. h)

  step-Passes :
      (e : Event has_connected_callback callbacks port_reply) (s : NetworkService)
      → Rests s
      → Passes s (queued_marks e s) (step has_connected_callback callbacks port_reply e s)
  unfolding step run_task end_connecting queued_marks pending
  step-Passes connects s h = connect-Passes s h
  step-Passes begins_disconnect s h = begin_disconnect-Passes s h
  step-Passes joins s h = join-Passes s h
  step-Passes runs_task s h = run_task-Passes s s.queue refl h
  step-Passes (asks_to_send type body) s h =
      Keeps-Passes s (send type body s) (send-Keeps type body s) (send-Rests type body s h)
  step-Passes (udp_control body) s h =
      Keeps-Passes s (if s.has_udp then send (type_code image) body s else s)
        (either-Keeps s s.has_udp _ s (send-Keeps (type_code image) body s) (refl, refl))
        (either-Rests s.has_udp _ s (λ e. send-Rests (type_code image) body s h) (λ e. h))
  step-Passes (connecting_ends ok) s h =
      Keeps-Passes s (end_connecting has_connected_callback callbacks port_reply ok s)
        (either-Keeps s s.is_connecting _ s (either-Keeps s ok _ _ (refl, refl) (refl, refl))
          (refl, refl))
        (either-Rests s.is_connecting _ s
          (λ e.
            either-Rests ok _ _ (λ f stopped. absurd (true≢false (sym e ∙ (h stopped).2)))
              (λ f stopped. absurd (true≢false (sym e ∙ (h stopped).2))))
          (λ e. h))
  step-Passes handshake_done s h =
      either-Passes s s.is_reading (λ b. if b then true ∷ [] else []) _ s
        (λ e. posts-Passes s marks_connected e h) (λ e. Keeps-Passes s s (refl, refl) h)
  step-Passes read_ends s h =
      either-Passes s s.is_reading (λ b. if b then false ∷ [] else []) _ s
        (λ e. (
          (posts-Passes s marks_disconnected e h).0,
          (λ stopped. absurd (true≢false (sym e ∙ (h stopped).1))),
        ))
        (λ e. Keeps-Passes s s (refl, refl) h)
  step-Passes receive_fails s h =
      Keeps-Passes s (record s { receiving = s.receiving - 1 }) (refl, refl) h
  step-Passes (message_read msg) s h =
      either-Passes s s.is_reading (λ b. []) _ s (λ e. posts-Passes s (processes msg) e h)
        (λ e. Keeps-Passes s s (refl, refl) h)

  run-Passes :
      (es : List (Event has_connected_callback callbacks port_reply)) (s : NetworkService)
      → Rests s
      → Passes s (all_queued_marks es s) (run has_connected_callback callbacks port_reply es s)
  unfolding run all_queued_marks
  run-Passes [] s h = Keeps-Passes s s (refl, refl) h
  run-Passes (e ∷ es) s h =
      let first = step has_connected_callback callbacks port_reply e s in
      let others = run has_connected_callback callbacks port_reply es first.0 in
      let k = step-Passes e s h in
      let l = run-Passes es first.0 k.1 in
      let ms = all_queued_marks es first.0 in
      (
        ap (λ xs. xs ++ pending others.0.queue) (marks_in-append first.1 others.1)
            ∙ append_assoc (marks_in first.1) (marks_in others.1) (pending others.0.queue)
            ∙ ap (λ xs. marks_in first.1 ++ xs) l.0
            ∙ sym (append_assoc (marks_in first.1) (pending first.0.queue) ms)
            ∙ ap (λ xs. xs ++ ms) k.0
            ∙ append_assoc (pending s.queue) (queued_marks e s) ms,
        l.1,
      )

  -- From a service that, where it is stopped, has no task, no session that reads and no connecting, over any sequence of
  -- events: a message is sent only while the connection is marked, as it is at the start or by the last
  -- mark before it; the flag `connected` is that mark in the end; and the marks set, followed by those
  -- of the tasks still queued, are those of the tasks queued at the start, followed by a true one for
  -- each handshake of a session that reads, a false one for each end of such a session, and a false one
  -- for each disconnection begun while the service runs, in the order of these events.
  pub run-marks :
      (es : List (Event has_connected_callback callbacks port_reply)) (s : NetworkService)
      → Rests s
      → let r = run has_connected_callback callbacks port_reply es s in
        Ordered s.connected r.1
        × (last_mark s.connected r.1 ≡ r.0.connected)
        × (marks_in r.1 ++ pending r.0.queue ≡ pending s.queue ++ all_queued_marks es s)
  run-marks es s h =
      let (ordered, last) = run-Ordered has_connected_callback callbacks port_reply es s in
      (ordered, last, (run-Passes es s h).0)
