-- ===== src/Thread/ThreadPool/Ends.antt =====
-- What the threads of a pool come to without a further call.
use mathlib.Core.Bool.{true≢false}
use mathlib.Core.List.{append-nil}
use with_boost.Common.{
  ℕ, zero, suc, ◌+◌, ◌*◌, ◌≤◌, ◌<◌, ◌≡◌, refl, sym, ap, ◌∙◌, false, Bool-cases, ◌⊎◌, inl, inr, List,
  [], ◌∷◌, ◌++◌, arith, length, length-append, if◌then◌else◌,
}
use with_boost.Thread.ThreadPool.{
  ThreadPool, create, Work, takes, finishes, exits, waits, notifies_one, notifies_none,
  notifies_all, Reach,
}
use with_boost.Thread.ThreadPool.Drain.{
  IsAccounted, Work-IsAccounted, Reach-IsAccounted, create-IsAccounted,
}
use with_boost.Thread.ThreadPool.Exit.{
  IsWorkedOff, create-IsWorkedOff, Work-IsWorkedOff, Reach-IsWorkedOff,
}
use with_boost.Thread.ThreadPool.Alert.{IsAlert, Work-IsAlert, Reach-IsAlert, create-IsAlert}

-- A number of such steps.
pub data Works (p : ThreadPool) : ThreadPool → ℕ → Type 0 where
  none : Works p p 0
  more : {q r : ThreadPool} {k : ℕ} → Works p q k → Work q r → Works p r (suc k)

-- What they can still be.
abbrev pub effort : ℕ → ThreadPool → ℕ
effort threads p =
    2 * length p.queue
    + 2 * length p.running
    + p.awake
    + 2 * p.notifying
    + (if p.stopping then suc threads else 0)

record IsSound (threads : ℕ) (p : ThreadPool) : Type 0 where
  accounted : IsAccounted threads p
  worked_off : IsWorkedOff p
  alert : IsAlert p

Work-IsSound : {n : ℕ} {p q : ThreadPool} → Work p q → IsSound n p → IsSound n q
Work-IsSound r w = record {
  accounted = Work-IsAccounted r w.accounted;
  worked_off = Work-IsWorkedOff r w.worked_off;
  alert = Work-IsAlert r w.alert;
}

Work-effort :
    {threads : ℕ} {p q : ThreadPool}
    → Work p q
    → IsAccounted threads p
    → effort threads q < effort threads p
Work-effort (takes p task rest n e i) w = omega (arith, ap length e, i)
Work-effort (finishes p before task after e) w =
    omega (arith, ap length e, length-append before (task ∷ after), length-append before after)
Work-effort (exits p n s e i) w = omega (arith, i)
Work-effort (waits p n s e i) w = omega (arith, i)
Work-effort (notifies_one p n v i e) w = omega (arith, i)
Work-effort (notifies_none p n i e) w = omega (arith, i)
Work-effort (notifies_all p e) w = rw e (omega (arith, w.threads_kept))

Works-IsSound :
    {threads : ℕ} {p q : ThreadPool} {k : ℕ}
    → Works p q k
    → IsSound threads p
    → IsSound threads q × (k + effort threads q ≤ effort threads p)
Works-IsSound none w = (w, omega arith)
Works-IsSound (more u r) w =
    let (v, l) = Works-IsSound u w in
    (Work-IsSound r v, omega (arith, l, Work-effort r v.accounted))

-- A step can be made, or all is done: no task is queued, every task accepted has been started, and if
-- the pool is stopped all threads have returned.
abbrev pub IsDone : ℕ → ThreadPool → Type 0
IsDone threads q =
    (q.queue ≡ [])
    × (q.started ≡ q.accepted)
    × (q.running ≡ [])
    × ((q.stop ≡ false) ⊎ (q.exited ≡ threads))

abbrev CanWork : ThreadPool → Type 0
CanWork q = (r : ThreadPool) × Work q r

nat_cases : (n : ℕ) → (n ≡ 0) ⊎ ((m : ℕ) × (n ≡ suc m))
nat_cases zero = inl refl
nat_cases (suc m) = inr (m, refl)

list_cases : (xs : List ℕ) → (xs ≡ []) ⊎ ((x : ℕ) × (ys : List ℕ) × (xs ≡ x ∷ ys))
list_cases [] = inl refl
list_cases (x ∷ xs) = inr (x, xs, refl)

-- An awake thread can always go on.
awake-CanWork : (q : ThreadPool) (n : ℕ) → q.awake ≡ suc n → CanWork q
awake-CanWork q n i = elim (list_cases q.queue) [
  | inr (task, rest, e) ↦ (_, takes q task rest n e i)
  | inl e ↦ elim (Bool-cases q.stop) [ inl s ↦ (_, exits q n s e i) | inr s ↦ (_, waits q n s e i) ]
]

notifying-CanWork : (q : ThreadPool) (n : ℕ) → q.notifying ≡ suc n → CanWork q
notifying-CanWork q n i = elim (nat_cases q.waiting) [
  | inl e ↦ (_, notifies_none q n i e)
  | inr (w, e) ↦ (_, notifies_one q n w i e)
]

-- Where no thread is awake or busy and no notification is to come, nothing is left to be done.
still-IsDone :
    {threads : ℕ} (q : ThreadPool)
    → IsSound threads q
    → 0 < threads
    → q.awake ≡ 0
    → q.notifying ≡ 0
    → q.running ≡ []
    → q.stopping ≡ false
    → IsDone threads q
still-IsDone {threads} q w t a n r s =
    let kept = w.accounted.threads_kept in
    let empty : q.queue ≡ [] = elim (list_cases q.queue) [
      | inl e ↦ e
      | inr (task, rest, e) ↦ elim (nat_cases q.waiting) [
        | inl i ↦ (w.worked_off (omega (arith, kept, a, ap length r, i, t))).1
        | inr (v, i) ↦ absurd (omega (arith, w.alert.woken (omega (arith, i)), a, n, ap length e))
      ]
    ] in
    let over : (q.stop ≡ false) ⊎ (q.exited ≡ threads) = elim (Bool-cases q.stop) [
      | inr e ↦ inl e
      | inl e ↦ elim (nat_cases q.waiting) [
        | inl i ↦ inr (omega (arith, kept, a, ap length r, i))
        | inr (v, i) ↦ absurd (true≢false (sym (w.alert.told (omega (arith, i)) e) ∙ s))
      ]
    ] in
    (empty, sym (w.accounted.in_order ∙ ap (◌++◌ q.started) empty ∙ append-nil q.started), r, over)

works_on :
    {threads : ℕ} (q : ThreadPool) → IsSound threads q → 0 < threads → CanWork q ⊎ IsDone threads q
works_on q w t = elim (nat_cases q.awake) [
  | inr (n, i) ↦ inl (awake-CanWork q n i)
  | inl a ↦ elim (nat_cases q.notifying) [
    | inr (n, i) ↦ inl (notifying-CanWork q n i)
    | inl n ↦ elim (list_cases q.running) [
      | inr (task, rest, e) ↦ inl (_, finishes q [] task rest e)
      | inl r ↦ elim (Bool-cases q.stopping) [
        | inl s ↦ inl (_, notifies_all q s)
        | inr s ↦ inr (still-IsDone q w t a n r s)
      ]
    ]
  ]
]

some_thread : (thread_count : ℕ) → 0 < (create thread_count).awake
unfolding create
some_thread zero = omega arith
some_thread (suc n) = ground arith

-- In a pool whose users call only the overload that tests `stop_`, from any state that it reaches, and under whatever
-- schedule: the threads and the notifications to come make at most `effort` steps without a further
-- call, and after any of these steps a next one can be made, or else no task is queued or running, every
-- task accepted has been started, in order, and all threads have returned if the pool is stopped.
pub drains :
    (thread_count : ℕ) {p q : ThreadPool} {k : ℕ}
    → Reach false (create thread_count) p
    → Works p q k
    → let threads = (create thread_count).awake in
      (k ≤ effort threads p) × (((r : ThreadPool) × Work q r) ⊎ IsDone threads q)
drains thread_count {p} {q} {k} reach u =
    let threads = (create thread_count).awake in
    let start : IsSound threads p = record {
      accounted = Reach-IsAccounted (create-IsAccounted thread_count) reach;
      worked_off = Reach-IsWorkedOff (create-IsWorkedOff thread_count) reach;
      alert = Reach-IsAlert (create-IsAlert thread_count) reach;
    } in
    let (w, l) = Works-IsSound u start in
    (omega (arith, l), works_on q w (some_thread thread_count))
