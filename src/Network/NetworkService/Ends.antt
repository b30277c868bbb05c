-- ===== src/Network/NetworkService/Ends.antt =====
-- When a disconnection returns.
use with_boost.Common.{
  ℕ, zero, suc, ◌≡◌, refl, ap, ◌∙◌, Bool, true, false, List, [], ◌∷◌, ◌++◌, Text, length, All,
}
use with_boost.Network.MessageProcessor.{NetworkCallbacks}
use with_boost.Network.NetworkService.{
  NetworkService, idle, Task, resolves, sends, marks_connected, marks_disconnected, processes,
  takes_meta, closes, Event, begins_disconnect, joins, runs_task, read_ends, step, run, run_task,
  execute, join, is_out_of_work, begin_disconnect,
}

-- A task that starts nothing: a message to send, or a mark.
unfoldable pub is_quiet : Task → Bool
is_quiet (sends type body) = true
is_quiet marks_connected = true
is_quiet marks_disconnected = true
is_quiet other = false

module _ (has_connected_callback : Bool) (callbacks : NetworkCallbacks) (port_reply : Text) where
  abbrev pub Script : Type 0
  Script = List (Event has_connected_callback callbacks port_reply)

  -- The closing, the end of the read, its mark, and the join.
  abbrev pub rest : Script
  rest = runs_task ∷ read_ends ∷ runs_task ∷ joins ∷ []

  abbrev pub runs_tasks : ℕ → Script
  runs_tasks zero = rest
  runs_tasks (suc n) = runs_task ∷ runs_tasks n

  abbrev leaving : List Task → (a r u p c : Bool) → NetworkService
  leaving ts a r u p c = record {
    is_running = true;
    is_guarded = false;
    queue = ts ++ closes ∷ [];
    is_connecting = false;
    has_session = a;
    is_reading = r;
    has_udp = u;
    receiving = 0;
    has_processor = p;
    connected = c;
  }

  drained :
      (ts : List Task) (a r u p c : Bool)
      → All (λ t. is_quiet t ≡ true) ts
      → (run has_connected_callback callbacks port_reply
          (runs_tasks (length ts))
          (leaving ts a r u p c)).0
        ≡ idle
  unfolding run step run_task execute join is_out_of_work is_quiet
  drained [] a true u p c h = refl
  drained [] a false u p c h = refl
  drained (sends type body ∷ ts) a r u p c h = drained ts a r u p c h.1
  drained (marks_connected ∷ ts) a r u p c h = drained ts a r u p true h.1
  drained (marks_disconnected ∷ ts) a r u p c h = drained ts a r u p false h.1
  drained (resolves ∷ ts) a r u p c h = cc
  drained (processes msg ∷ ts) a r u p c h = cc
  drained (takes_meta json ∷ ts) a r u p c h = cc
  drained (closes ∷ ts) a r u p c h = cc

  -- The thread runs, no connecting and no receive is pending, and the queue has only messages to send and marks: a
  -- disconnection returns as soon as the queue is run, the read of the session has ended and its mark is run, and leaves a
  -- service as it is at the start.
  pub run-idle :
      (s : NetworkService)
      → s.is_running ≡ true
      → s.is_connecting ≡ false
      → s.receiving ≡ 0
      → All (λ t. is_quiet t ≡ true) s.queue
      → (run has_connected_callback callbacks port_reply
          (begins_disconnect ∷ runs_tasks (length s.queue))
          s).0
        ≡ idle
  unfolding run step begin_disconnect
  run-idle s h k l q =
      ap
        (λ x.
          (run has_connected_callback callbacks port_reply
            (begins_disconnect ∷ runs_tasks (length s.queue)) x).0)
        same
      ∙ drained s.queue s.has_session s.is_reading s.has_udp s.has_processor s.connected q
    where
      same : s ≡ record s { is_running = true; is_connecting = false; receiving = 0 }
      same = λ i. record s { is_running = h i; is_connecting = k i; receiving = l i }
