-- ===== src/Thread/ThreadPool/Alert.antt =====
-- No wake-up of a thread is lost.
use mathlib.Core.Bool.{true≢false}
use with_boost.Common.{
  ℕ, ◌+◌, ◌≤◌, ◌<◌, ◌≡◌, refl, sym, ap, ◌∙◌, Bool, true, false, [], ◌∷◌, arith, length,
  length-append, if◌then◌else◌,
}
use with_boost.Thread.ThreadPool.{
  ThreadPool, create, enqueue, submit, submit_future, Work, takes, finishes, exits, waits,
  notifies_one, notifies_none, notifies_all, Step, submits, submits_future, stops, wakes, works,
  Reach, here, next,
}

-- While a thread waits, each task queued has a thread that is awake, or a notification that is to come, and a
-- pool that is stopped has its notification of all threads to come.
pub record IsAlert (p : ThreadPool) : Type 0 where
  pub woken : 0 < p.waiting → length p.queue ≤ p.awake + p.notifying
  pub told : 0 < p.waiting → p.stop ≡ true → p.stopping ≡ true

enqueue-IsAlert : (p : ThreadPool) (task : ℕ) → IsAlert p → IsAlert (enqueue p task)
unfolding enqueue
enqueue-IsAlert p task w = record {
  woken = λ h. omega (arith, w.woken h, length-append p.queue (task ∷ []));
  told = w.told;
}

submit_future-IsAlert : (p : ThreadPool) (task : ℕ) → IsAlert p → IsAlert (submit_future p task).1
unfolding submit_future
submit_future-IsAlert p task w = choose p.stop
  where
    answer : Bool → Bool × ThreadPool
    answer b = if b then (false, p) else (true, enqueue p task)

    choose : (b : Bool) → IsAlert (answer b).1
    choose true = w
    choose false = enqueue-IsAlert p task w

pub Work-IsAlert : {p q : ThreadPool} → Work p q → IsAlert p → IsAlert q
Work-IsAlert (takes p task rest n e i) w = record {
  woken = λ h. omega (arith, w.woken h, ap length e, i);
  told = w.told;
}
Work-IsAlert (finishes p before task after e) w = record {
  woken = λ h. omega (arith, w.woken h);
  told = w.told;
}
Work-IsAlert (exits p n s e i) w = record { woken = λ h. omega (arith, ap length e); told = w.told }
Work-IsAlert (waits p n s e i) w = record {
  woken = λ h. omega (arith, ap length e);
  told = λ h t. absurd (true≢false (sym t ∙ s));
}
Work-IsAlert (notifies_one p n v i e) w = record {
  woken = λ h. omega (arith, w.woken (omega (arith, e)), i);
  told = λ h. w.told (omega (arith, e));
}
Work-IsAlert (notifies_none p n i e) w = record {
  woken = λ h. absurd (omega (arith, h, e));
  told = λ h. absurd (omega (arith, h, e));
}
Work-IsAlert (notifies_all p e) w = record {
  woken = λ h. absurd (omega (arith, h));
  told = λ h. absurd (omega (arith, h));
}

Step-IsAlert : {raw : Bool} {p q : ThreadPool} → Step raw p q → IsAlert p → IsAlert q
unfolding submit
Step-IsAlert (submits p task r) w = enqueue-IsAlert p task w
Step-IsAlert (submits_future p task) w = submit_future-IsAlert p task w
Step-IsAlert (stops p) w = record { woken = w.woken; told = λ h t. refl }
Step-IsAlert (wakes p v e) w = record {
  woken = λ h. omega (arith, w.woken (omega (arith, e)));
  told = λ h. w.told (omega (arith, e));
}
Step-IsAlert (works r) w = Work-IsAlert r w

pub Reach-IsAlert : {raw : Bool} {p q : ThreadPool} → IsAlert p → Reach raw p q → IsAlert q
Reach-IsAlert w here = w
Reach-IsAlert w (next r s) = Step-IsAlert s (Reach-IsAlert w r)

pub create-IsAlert : (thread_count : ℕ) → IsAlert (create thread_count)
unfolding create
create-IsAlert thread_count = record {
  woken = λ h. absurd (omega (arith, h));
  told = λ h. absurd (omega (arith, h));
}
