-- ===== src/Thread/ThreadPool/Exit.antt =====
-- What holds once threads have returned from their loop.
use mathlib.Core.Bool.{true≢false, false≢true}
use mathlib.Core.List.{append-nil}
use with_boost.Common.{
  ℕ, ◌<◌, ◌≡◌, refl, sym, ap, ◌∙◌, Bool, true, false, [], ◌++◌, arith, length, if◌then◌else◌,
}
use with_boost.Thread.ThreadPool.{
  ThreadPool, create, enqueue, submit_future, Work, takes, finishes, exits, waits, notifies_one,
  notifies_none, notifies_all, Step, submits, submits_future, stops, wakes, works, Reach, here,
  next,
}
use with_boost.Thread.ThreadPool.Drain.{Reach-IsAccounted, create-IsAccounted}

abbrev pub IsWorkedOff : ThreadPool → Type 0
IsWorkedOff p = 0 < p.exited → (p.stop ≡ true) × (p.queue ≡ [])

submit_future-IsWorkedOff :
    (p : ThreadPool) (task : ℕ) → IsWorkedOff p → IsWorkedOff (submit_future p task).1
unfolding submit_future enqueue
submit_future-IsWorkedOff p task w = choose p.stop refl
  where
    answer : Bool → Bool × ThreadPool
    answer b = if b then (false, p) else (true, enqueue p task)

    choose : (b : Bool) → p.stop ≡ b → IsWorkedOff (answer b).1
    choose true e = w
    choose false e = λ h. absurd (true≢false (sym (w h).0 ∙ e))

pub Work-IsWorkedOff : {p q : ThreadPool} → Work p q → IsWorkedOff p → IsWorkedOff q
Work-IsWorkedOff (takes p task rest n e i) w =
    λ h. absurd (omega (arith, ap length (sym e ∙ (w h).1)))
Work-IsWorkedOff (finishes p before task after e) w = w
Work-IsWorkedOff (exits p n s e i) w = λ h. (s, e)
Work-IsWorkedOff (waits p n s e i) w = w
Work-IsWorkedOff (notifies_one p n v i e) w = w
Work-IsWorkedOff (notifies_none p n i e) w = w
Work-IsWorkedOff (notifies_all p e) w = w

Step-IsWorkedOff : {p q : ThreadPool} → Step false p q → IsWorkedOff p → IsWorkedOff q
Step-IsWorkedOff (submits p task r) w = absurd (false≢true r)
Step-IsWorkedOff (submits_future p task) w = submit_future-IsWorkedOff p task w
Step-IsWorkedOff (stops p) w = λ h. (refl, (w h).1)
Step-IsWorkedOff (wakes p v e) w = w
Step-IsWorkedOff (works r) w = Work-IsWorkedOff r w

pub Reach-IsWorkedOff : {p q : ThreadPool} → IsWorkedOff p → Reach false p q → IsWorkedOff q
Reach-IsWorkedOff w here = w
Reach-IsWorkedOff w (next r s) = Step-IsWorkedOff s (Reach-IsWorkedOff w r)

pub create-IsWorkedOff : (thread_count : ℕ) → IsWorkedOff (create thread_count)
unfolding create
create-IsWorkedOff thread_count = λ h. absurd (omega (arith, h))

-- Where only the overload that tests `stop_` is used: once a thread of a new pool has returned, the pool
-- is stopped, its queue is empty, and every task ever accepted has been started, in order.
pub exited_drained :
    (thread_count : ℕ) {q : ThreadPool}
    → Reach false (create thread_count) q
    → 0 < q.exited
    → (q.stop ≡ true) × (q.queue ≡ []) × (q.started ≡ q.accepted)
unfolding create
exited_drained thread_count {q} r h =
    let (s, e) = Reach-IsWorkedOff (create-IsWorkedOff thread_count) r h in
    let w = Reach-IsAccounted (create-IsAccounted thread_count) r in
    (s, e, sym (w.in_order ∙ ap (◌++◌ q.started) e ∙ append-nil q.started))
