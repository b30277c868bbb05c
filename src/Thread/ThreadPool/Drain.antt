-- ===== src/Thread/ThreadPool/Drain.antt =====
-- Tasks start in the order in which they were accepted, and no thread is lost.
use mathlib.Core.List.{append_assoc}
use with_boost.Common.{
  ℕ, ◌+◌, ◌<◌, ◌≡◌, refl, sym, ap, ◌∙◌, Bool, true, false, [], ◌∷◌, ◌++◌, arith, length,
  length-append, if◌then◌else◌,
}
use with_boost.Thread.ThreadPool.{
  ThreadPool, create, enqueue, submit, submit_future, Work, takes, finishes, exits, waits,
  notifies_one, notifies_none, notifies_all, Step, submits, submits_future, stops, wakes, works,
  Reach, here, next,
}

-- The tasks accepted are those started and those queued, in order; no thread is lost; and a thread
-- has gone only from a stopped pool.
pub record IsAccounted (threads : ℕ) (p : ThreadPool) : Type 0 where
  pub in_order : p.accepted ≡ p.started ++ p.queue
  pub threads_kept : p.awake + p.waiting + length p.running + p.exited ≡ threads
  pub gone_stopped : 0 < p.exited → p.stop ≡ true

enqueue-IsAccounted :
    {n : ℕ} (p : ThreadPool) (task : ℕ) → IsAccounted n p → IsAccounted n (enqueue p task)
unfolding enqueue
enqueue-IsAccounted p task w = record {
  in_order = ap (λ ts. ts ++ task ∷ []) w.in_order ∙ append_assoc p.started p.queue (task ∷ []);
  threads_kept = w.threads_kept;
  gone_stopped = w.gone_stopped;
}

submit_future-IsAccounted :
    {n : ℕ} (p : ThreadPool) (task : ℕ) → IsAccounted n p → IsAccounted n (submit_future p task).1
unfolding submit_future
submit_future-IsAccounted {n} p task w = choose p.stop
  where
    answer : Bool → Bool × ThreadPool
    answer b = if b then (false, p) else (true, enqueue p task)

    choose : (b : Bool) → IsAccounted n (answer b).1
    choose true = w
    choose false = enqueue-IsAccounted p task w

pub Work-IsAccounted : {n : ℕ} {p q : ThreadPool} → Work p q → IsAccounted n p → IsAccounted n q
Work-IsAccounted (takes p task rest n e i) w = record {
  in_order = w.in_order ∙ ap (◌++◌ p.started) e ∙ sym (append_assoc p.started (task ∷ []) rest);
  threads_kept = omega (arith, w.threads_kept);
  gone_stopped = w.gone_stopped;
}
Work-IsAccounted (finishes p before task after e) w = record {
  in_order = w.in_order;
  threads_kept = omega (
    arith,
    w.threads_kept,
    ap length e,
    length-append before (task ∷ after),
    length-append before after,
  );
  gone_stopped = w.gone_stopped;
}
Work-IsAccounted (exits p n s e i) w = record {
  in_order = w.in_order;
  threads_kept = omega (arith, w.threads_kept);
  gone_stopped = λ h. s;
}
Work-IsAccounted (waits p n s e i) w = record {
  in_order = w.in_order;
  threads_kept = omega (arith, w.threads_kept);
  gone_stopped = w.gone_stopped;
}
Work-IsAccounted (notifies_one p n v i e) w = record {
  in_order = w.in_order;
  threads_kept = omega (arith, w.threads_kept);
  gone_stopped = w.gone_stopped;
}
Work-IsAccounted (notifies_none p n i e) w = record {
  in_order = w.in_order;
  threads_kept = w.threads_kept;
  gone_stopped = w.gone_stopped;
}
Work-IsAccounted (notifies_all p e) w = record {
  in_order = w.in_order;
  threads_kept = omega (arith, w.threads_kept);
  gone_stopped = w.gone_stopped;
}

Step-IsAccounted :
    {raw : Bool} {n : ℕ} {p q : ThreadPool} → Step raw p q → IsAccounted n p → IsAccounted n q
unfolding submit
Step-IsAccounted (submits p task r) w = enqueue-IsAccounted p task w
Step-IsAccounted (submits_future p task) w = submit_future-IsAccounted p task w
Step-IsAccounted (stops p) w = record {
  in_order = w.in_order;
  threads_kept = w.threads_kept;
  gone_stopped = λ h. refl;
}
Step-IsAccounted (wakes p v e) w = record {
  in_order = w.in_order;
  threads_kept = omega (arith, w.threads_kept);
  gone_stopped = w.gone_stopped;
}
Step-IsAccounted (works r) w = Work-IsAccounted r w

-- In every state that the pool reaches, with or without the unchecked overload, the tasks accepted
-- are those started and then those queued, in the order of their acceptance; the awake,
-- waiting, busy and gone threads are those created, and a thread is gone only from a stopped pool.
pub Reach-IsAccounted :
    {raw : Bool} {n : ℕ} {p q : ThreadPool} → IsAccounted n p → Reach raw p q → IsAccounted n q
Reach-IsAccounted w here = w
Reach-IsAccounted w (next r s) = Step-IsAccounted s (Reach-IsAccounted w r)

pub create-IsAccounted :
    (thread_count : ℕ) → IsAccounted (create thread_count).awake (create thread_count)
unfolding create
create-IsAccounted thread_count = record {
  in_order = refl;
  threads_kept = omega arith;
  gone_stopped = λ h. absurd (omega arith);
}
