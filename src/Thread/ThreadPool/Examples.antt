-- ===== src/Thread/ThreadPool/Examples.antt =====
-- A pool of one thread, from its first task to its end.
use with_boost.Common.{◌≡◌, ◌≤◌, ◌⊎◌, refl, true, false, [], ◌∷◌, arith}
use with_boost.Thread.ThreadPool.{
  ThreadPool, create, enqueue, submit_future, Work, stops, takes, finishes, exits, waits,
  notifies_one, works, submits_future, Reach, here, next,
}
use with_boost.Thread.ThreadPool.Drain.{IsAccounted, Reach-IsAccounted, create-IsAccounted}
use with_boost.Thread.ThreadPool.Exit.{exited_drained}
use with_boost.Thread.ThreadPool.Ends.{Works, none, more, effort, IsDone, drains}

-- Its thread sleeps.
abbrev asleep : ThreadPool
asleep = record {
  awake = 0;
  waiting = 1;
  running = [];
  exited = 0;
  queue = [];
  stop = false;
  notifying = 0;
  stopping = false;
  accepted = [];
  started = [];
}

-- Two tasks are queued, before the notification of either.
abbrev queued : ThreadPool
queued = record asleep { queue = 7 ∷ 8 ∷ []; notifying = 2; accepted = 7 ∷ 8 ∷ [] }

abbrev woken : ThreadPool
woken = record queued { awake = 1; waiting = 0; notifying = 1 }

abbrev first_taken : ThreadPool
first_taken = record woken { awake = 0; running = 7 ∷ []; queue = 8 ∷ []; started = 7 ∷ [] }

abbrev first_done : ThreadPool
first_done = record first_taken { awake = 1; running = [] }

abbrev second_taken : ThreadPool
second_taken = record woken { awake = 0; running = 8 ∷ []; queue = []; started = 7 ∷ 8 ∷ [] }

abbrev second_done : ThreadPool
second_done = record second_taken { awake = 1; running = [] }

abbrev ended : ThreadPool
ended = record second_done { awake = 0; exited = 1; stop = true; stopping = true }

queued-Reach : Reach false (create 1) queued
unfolding create submit_future enqueue
queued-Reach =
    let sleeps = next here (works (waits (create 1) 0 refl refl refl)) in
    next (next sleeps (submits_future asleep 7)) (submits_future (submit_future asleep 7).1 8)

ended-Reach : Reach false (create 1) ended
ended-Reach =
    let one = next queued-Reach (works (notifies_one queued 1 0 refl refl)) in
    let two = next one (works (takes woken 7 (8 ∷ []) 0 refl refl)) in
    let three = next two (works (finishes first_taken [] 7 [] refl)) in
    let four = next three (works (takes first_done 8 [] 0 refl refl)) in
    let five = next four (works (finishes second_taken [] 8 [] refl)) in
    let stopped = record second_done { stop = true; stopping = true } in
    next (next five (stops second_done)) (works (exits stopped 0 refl refl refl))

Reach-IsAccounted_example : IsAccounted (create 1).awake ended
Reach-IsAccounted_example = Reach-IsAccounted (create-IsAccounted 1) ended-Reach

exited_drained_example : (ended.stop ≡ true) × (ended.queue ≡ []) × (ended.started ≡ ended.accepted)
exited_drained_example = exited_drained 1 ended-Reach (omega arith)

two-Works : Works queued first_taken 2
two-Works =
    more (more none (notifies_one queued 1 0 refl refl)) (takes woken 7 (8 ∷ []) 0 refl refl)

drains_example :
    (2 ≤ effort (create 1).awake queued)
    × (((r : ThreadPool) × Work first_taken r) ⊎ IsDone (create 1).awake first_taken)
drains_example = drains 1 queued-Reach two-Works
