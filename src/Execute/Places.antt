-- ===== src/Execute/Places.antt =====
-- Where each job is: nothing is duplicated, and without an error nothing is lost.
use monte_carlo.Prelude.{
  ℕ, ◌+◌, ◌≤◌, ◌≡◌, ◌∙◌, arith, refl, [], ◌∷◌, total, total-append, total_middle, inl, inr,
}
use monte_carlo.Exception.{Result-cases, Result, ok}
use monte_carlo.Queue.Order.{pop_items-cases}
use monte_carlo.Execute.{
  WorkerPc, computing, submitting, SchedulerPc, pushing, finished, CoordinatorPc, consuming, Shared,
  System, Move, starts, takes, computes, submits, records, leaves, closes_last, MainMove, assigns,
  assigned, receives, consumes, coordinator_records, Step, worker_step, main_step, Steps, none_yet,
  one_more, after_compute,
}
use monte_carlo.Execute.Invariant.{
  IsClean, Inv, counts_of, is_failing, Counts, plus, others, counts-before, Steps-Inv,
}

-- A weight of jobs is counted wherever a job is, as itself or as the result of it.
module _ {Job Done : Type 0} (weight : Job → ℕ) (job_of : Done → Job) where
  abbrev pub done_weight : Done → ℕ
  done_weight r = weight (job_of r)

  abbrev pub held : WorkerPc Job Done → ℕ
  held (computing job) = weight job
  held (submitting r) = done_weight r
  held _ = 0

  abbrev pub unassigned : SchedulerPc Job → ℕ
  unassigned (pushing jobs) = total weight jobs
  unassigned finished = 0

  abbrev pub received : CoordinatorPc Done → ℕ
  received (consuming r) = done_weight r
  received _ = 0

module _ {Job Done Store : Type 0} (weight : Job → ℕ) (job_of : Done → Job) where
  abbrev pub shared_weight : Shared Job Done Store → ℕ
  shared_weight m =
      unassigned weight job_of m.scheduler
      + total weight m.assignments.items
      + total (done_weight weight job_of) m.completions.items
      + received weight job_of m.coordinator
      + total (done_weight weight job_of) m.consumed

  abbrev pub placed : System Job Done Store → ℕ
  placed s = shared_weight s.shared + total (held weight job_of) s.workers

  module _ (begin : Result (Unit {0})) (work : ℕ → Job → Result Done)
      (consume : Store → Done → Result Store)
      (answers : (i : ℕ) (job : Job) (r : Done) → work i job ≡ ok r → job_of r ≡ job) where
    work-cases : (i : ℕ) (job : Job) → held weight job_of (after_compute (work i job)) ≤ weight job
    work-cases i job = elim (Result-cases (work i job)) [
      | inl (r, e) ↦ rw (e, answers i job r e) (omega arith)
      | inr (e, h) ↦ rw h (omega arith)
    ]

    work-kept :
        (i : ℕ) (job : Job)
        → is_failing {Job = Job} (after_compute (work i job)) ≡ 0
        → held weight job_of (after_compute (work i job)) ≡ weight job
    work-kept i job = elim (Result-cases (work i job)) [
      | inl (r, e) ↦ rw (e, answers i job r e) (λ h. refl)
      | inr (e, h) ↦ rw h (λ k. absurd (omega arith))
    ]

    Move-weight :
        (m m' : Shared Job Done Store) (p p' : WorkerPc Job Done) {i : ℕ}
        → Move begin work consume i m p m' p'
        → shared_weight m' + held weight job_of p' ≤ shared_weight m + held weight job_of p
    Move-weight m m' p p' (starts at same next) = ground arith
    Move-weight m m' p p' (takes job q at popped changed next) =
        ground (arith, pop_items-cases m.assignments.items m.assignments q job popped)
    Move-weight m m' p p' {i} (computes job at same next) = ground (arith, work-cases i job)
    Move-weight m m' p p' (submits r accepted q at pushed changed next) =
        ground (arith, total-append (done_weight weight job_of) m.completions.items (r ∷ []))
    Move-weight m m' p p' (records f at changed next) = ground arith
    Move-weight m m' p p' (leaves at changed next) = ground arith
    Move-weight m m' p p' (closes_last at changed next) = ground arith

    MainMove-weight :
        (m m' : Shared Job Done Store)
        → MainMove begin work consume m m'
        → shared_weight m' ≤ shared_weight m
    MainMove-weight m m' (assigns job jobs accepted q at pushed changed) =
        ground (arith, total-append weight m.assignments.items (job ∷ []))
    MainMove-weight m m' (assigned at changed) = ground arith
    MainMove-weight m m' (receives r q at popped changed) =
        ground (arith, pop_items-cases m.completions.items m.completions q r popped)
    MainMove-weight m m' (consumes r at changed) =
        ground (arith, total-append (done_weight weight job_of) m.consumed (r ∷ []))
    MainMove-weight m m' (coordinator_records f at changed) = ground arith

    pub Step-weight :
        (s t : System Job Done Store) → Step begin work consume s t → placed t ≤ placed s
    Step-weight s t (worker_step before after p p' at move next) =
        rw (at, next)
          (omega (
            arith,
            total_middle (held weight job_of) before after p,
            total_middle (held weight job_of) before after p',
            Move-weight s.shared t.shared p p' move,
          ))
    Step-weight s t (main_step move same) =
        rw same (omega (arith, MainMove-weight s.shared t.shared move))

    -- While no error is recorded or about to be, nothing is lost.
    Move-kept :
        (m m' : Shared Job Done Store) (p p' : WorkerPc Job Done) (c : Counts) {i : ℕ}
        → Move begin work consume i m p m' p'
        → Inv m (plus c p)
        → IsClean m' (plus c p')
        → shared_weight m' + held weight job_of p' ≡ shared_weight m + held weight job_of p
    Move-kept m m' p p' c (starts at same next) h k = ground arith
    Move-kept m m' p p' c (takes job q at popped changed next) h k =
        ground (arith, pop_items-cases m.assignments.items m.assignments q job popped)
    Move-kept m m' p p' c {i} (computes job at same next) h k = ground (arith, work-kept i job)
    Move-kept m m' p p' c (submits r accepted q at pushed changed next) h k =
        ground (arith, total-append (done_weight weight job_of) m.completions.items (r ∷ []))
    Move-kept m m' p p' c (records f at changed next) h k = ground arith
    Move-kept m m' p p' c (leaves at changed next) h k = ground arith
    Move-kept m m' p p' c (closes_last at changed next) h k = ground arith

    Move-IsClean :
        (m m' : Shared Job Done Store) (p p' : WorkerPc Job Done) (c : Counts) {i : ℕ}
        → Move begin work consume i m p m' p'
        → Inv m (plus c p)
        → IsClean m' (plus c p')
        → IsClean m (plus c p)
    Move-IsClean m m' p p' c (starts at same next) h k = ground arith
    Move-IsClean m m' p p' c (takes job q at popped changed next) h k = ground arith
    Move-IsClean m m' p p' c (computes job at same next) h k = ground arith
    Move-IsClean m m' p p' c (submits r accepted q at pushed changed next) h k = ground arith
    Move-IsClean m m' p p' c (records f at changed next) h k = ground arith
    Move-IsClean m m' p p' c (leaves at changed next) h k = ground arith
    Move-IsClean m m' p p' c (closes_last at changed next) h k = ground arith

    MainMove-kept :
        (m m' : Shared Job Done Store) (c : Counts)
        → MainMove begin work consume m m'
        → Inv m c
        → IsClean m' c
        → (shared_weight m' ≡ shared_weight m) × IsClean m c
    MainMove-kept m m' c (assigns job jobs accepted q at pushed changed) h k =
        ground (arith, total-append weight m.assignments.items (job ∷ []))
    MainMove-kept m m' c (assigned at changed) h k = ground arith
    MainMove-kept m m' c (receives r q at popped changed) h k =
        ground (arith, pop_items-cases m.completions.items m.completions q r popped)
    MainMove-kept m m' c (consumes r at changed) h k =
        ground (arith, total-append (done_weight weight job_of) m.consumed (r ∷ []))
    MainMove-kept m m' c (coordinator_records f at changed) h k = ground arith

    Step-kept :
        (s t : System Job Done Store)
        → Step begin work consume s t
        → Inv s.shared (counts_of s.workers)
        → IsClean t.shared (counts_of t.workers)
        → (placed t ≡ placed s) × IsClean s.shared (counts_of s.workers)
    Step-kept s t (worker_step before after p p' at move next) h k =
        let before_is = counts-before begin work consume before after in
        let h' : Inv s.shared (plus (others before after) p) = rw (← before_is p, ← at) h in
        let k' : IsClean t.shared (plus (others before after) p') = rw (← before_is p', ← next) k in
        (
          rw (at, next)
              (omega (
                arith,
                total_middle (held weight job_of) before after p,
                total_middle (held weight job_of) before after p',
                Move-kept s.shared t.shared p p' (others before after) move h' k',
              )),
          rw (at, before_is p)
              (Move-IsClean s.shared t.shared p p' (others before after) move h' k'),
        )
    Step-kept s t (main_step move same) h k =
        let (kept, clean) =
          MainMove-kept s.shared t.shared (counts_of s.workers) move h (rw (← same) k) in
        (rw same (omega (arith, kept)), clean)

    pub Steps-weight :
        (s t : System Job Done Store) (n : ℕ) → Steps begin work consume s n t → placed t ≤ placed s
    Steps-weight s t n none_yet = omega arith
    Steps-weight s t n (one_more {t = u} steps step) =
        omega (arith, Steps-weight s u _ steps, Step-weight u t step)

    pub Steps-kept :
        (s t : System Job Done Store) (n : ℕ)
        → Steps begin work consume s n t
        → Inv s.shared (counts_of s.workers)
        → IsClean t.shared (counts_of t.workers)
        → placed t ≡ placed s
    Steps-kept s t n none_yet h k = refl
    Steps-kept s t n (one_more {t = u} steps step) h k =
        let (kept, clean) = Step-kept u t step (Steps-Inv begin work consume s u _ steps h) k in
        kept ∙ Steps-kept s u _ steps h clean
