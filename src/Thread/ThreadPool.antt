-- ===== src/Thread/ThreadPool.antt =====
-- Src/Thread/ThreadPool.hpp and ThreadPool.cpp as a step relation: threads are counted, tasks are
-- numbers, and the history of the tasks accepted and started is kept beside the state.
pub mod Drain
pub mod Exit
pub mod Alert
pub mod Ends
mod Examples
use with_boost.Common.{
  ℕ, zero, suc, ◌+◌, ◌≡◌, Bool, true, false, List, [], ◌∷◌, ◌++◌, ◌==◌, if◌then◌else◌,
}

-- Of the threads in the loop, `awake` are to test the condition under the lock, and `waiting` sleep in `cv_.wait`.
-- `notifying` counts the submissions that have queued their task and are still to call `notify_one`,
-- and `stopping` is whether the destructor, with `stop_` set, is still to call `notify_all`.
pub record ThreadPool : Type 0 where
  pub awake : ℕ
  pub waiting : ℕ
  pub running : List ℕ
  pub exited : ℕ
  pub queue : List ℕ
  pub stop : Bool
  pub notifying : ℕ
  pub stopping : Bool
  pub accepted : List ℕ
  pub started : List ℕ

-- The constructor: no threads asked for means one.
unfoldable pub create : ℕ → ThreadPool
create thread_count = record {
  awake = if thread_count == 0 then 1 else thread_count;
  waiting = 0;
  running = [];
  exited = 0;
  queue = [];
  stop = false;
  notifying = 0;
  stopping = false;
  accepted = [];
  started = [];
}

-- What both overloads of `Submit` do under the lock, behind which they call `notify_one`.
unfoldable pub enqueue : ThreadPool → ℕ → ThreadPool
enqueue p task = record p {
  queue = p.queue ++ task ∷ [];
  notifying = suc p.notifying;
  accepted = p.accepted ++ task ∷ [];
}

-- The overload of `Submit` for `std::function<void()>`: it does not look at `stop_`.
unfoldable pub submit : ThreadPool → ℕ → ThreadPool
submit p task = enqueue p task

-- The template `Submit`: `false` is the exception of a stopped pool.
unfoldable pub submit_future : ThreadPool → ℕ → Bool × ThreadPool
submit_future p task = if p.stop then (false, p) else (true, enqueue p task)

-- What goes on without a further call: the round of `WorkLoop`, and the notifications that are still to come.
pub data Work : ThreadPool → ThreadPool → Type 0 where
  takes :
      (p : ThreadPool) (task : ℕ) (rest : List ℕ) (n : ℕ)
      → p.queue ≡ task ∷ rest
      → p.awake ≡ suc n
      → Work p (record p {
        awake = n;
        queue = rest;
        running = task ∷ p.running;
        started = p.started ++ task ∷ [];
      })
  finishes :
      (p : ThreadPool) (before : List ℕ) (task : ℕ) (after : List ℕ)
      → p.running ≡ before ++ task ∷ after
      → Work p (record p { awake = suc p.awake; running = before ++ after })
  exits :
      (p : ThreadPool) (n : ℕ)
      → p.stop ≡ true
      → p.queue ≡ []
      → p.awake ≡ suc n
      → Work p (record p { awake = n; exited = suc p.exited })
  waits :
      (p : ThreadPool) (n : ℕ)
      → p.stop ≡ false
      → p.queue ≡ []
      → p.awake ≡ suc n
      → Work p (record p { awake = n; waiting = suc p.waiting })
  notifies_one :
      (p : ThreadPool) (n w : ℕ)
      → p.notifying ≡ suc n
      → p.waiting ≡ suc w
      → Work p (record p { notifying = n; waiting = w; awake = suc p.awake })
  notifies_none :
      (p : ThreadPool) (n : ℕ)
      → p.notifying ≡ suc n
      → p.waiting ≡ 0
      → Work p (record p { notifying = n })
  notifies_all :
      (p : ThreadPool)
      → p.stopping ≡ true
      → Work p (record p { stopping = false; waiting = 0; awake = p.waiting + p.awake })

-- What the pool's threads and its users may do; `wakes` is a wake-up without a notification. `raw` says
-- whether the overload that does not look at `stop_` is in use.
pub data Step (raw : Bool) : ThreadPool → ThreadPool → Type 0 where
  submits : (p : ThreadPool) (task : ℕ) → raw ≡ true → Step raw p (submit p task)
  submits_future : (p : ThreadPool) (task : ℕ) → Step raw p (submit_future p task).1
  stops : (p : ThreadPool) → Step raw p (record p { stop = true; stopping = true })
  wakes :
      (p : ThreadPool) (w : ℕ)
      → p.waiting ≡ suc w
      → Step raw p (record p { waiting = w; awake = suc p.awake })
  works : {p q : ThreadPool} → Work p q → Step raw p q

pub data Reach (raw : Bool) (p : ThreadPool) : ThreadPool → Type 0 where
  here : Reach raw p p
  next : {q r : ThreadPool} → Reach raw p q → Step raw q r → Reach raw p r
