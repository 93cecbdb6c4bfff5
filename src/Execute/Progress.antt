-- ===== src/Execute/Progress.antt =====
-- No deadlock: until every thread is done, some thread can take a step; and so every execution
-- can be completed.
use monte_carlo.Prelude.{
  ℕ, zero, suc, ◌-◌, ◌≤◌, ◌<◌, ◌≡◌, ◌∙◌, arith, refl, [], ◌∷◌, ◌++◌, false, length, total,
  length-append, ◌==◌, ltb, inl, inr, ◌⊎◌, Bool-cases, ltb→lt, if◌then◌else◌,
}
use monte_carlo.Exception.{Result}
use monte_carlo.Queue.{close}
use monte_carlo.Execute.{
  WorkerPc, starting, taking, computing, submitting, worker_failing, leaving, closing_last, gone,
  SchedulerPc, pushing, finished, CoordinatorPc, waiting, consuming, coordinator_failing, joined,
  Shared, System, Move, starts, takes, computes, submits, records, leaves, closes_last, MainMove,
  assigns, assigned, receives, consumes, coordinator_records, Step, worker_step, main_step, Steps,
  none_yet, one_more, after_take, after_start, after_compute, after_submit, record_step,
  worker_after_record,
}
use monte_carlo.Execute.Invariant.{Inv, Step-Inv, counts_of}
use monte_carlo.Execute.Measure.{rank, Step-rank}
use monte_carlo.Execute.Ready.{
  is_active, active_worker, active_or_out, counted-active, CanPop, CanPush, pop_ready, push_ready,
  closed_or_open, room_or_full,
}

module _ {Job Done Store : Type 0} (begin : Result (Unit {0})) (work : ℕ → Job → Result Done)
    (consume : Store → Done → Result Store) where
  abbrev pub Enabled : System Job Done Store → Type 0
  Enabled s = (t : System Job Done Store) × Step begin work consume s t

  -- An active worker moves, unless one of its queues makes it wait.
  worker_moves :
      (i : ℕ) (m : Shared Job Done Store) (p : WorkerPc Job Done)
      → is_active p ≡ 1
      → CanPop m.assignments
      → CanPush m.completions
      → (m' : Shared Job Done Store) × (p' : WorkerPc Job Done) × Move begin work consume i m p m'
          p'
  worker_moves i m starting a pops pushes = (m, after_start begin, starts refl refl refl)
  worker_moves i m taking a pops pushes =
      let (job, q, popped) = pop_ready m.assignments.items m.assignments pops in
      (record m { assignments = q }, after_take job, takes job q refl popped refl refl)
  worker_moves i m (computing job) a pops pushes =
      (m, after_compute (work i job), computes job refl refl refl)
  worker_moves i m (submitting r) a pops pushes =
      let (accepted, q, pushed) = push_ready r m.completions pushes in
      (
        record m { completions = q },
        after_submit accepted,
        submits r accepted q refl pushed refl refl,
      )
  worker_moves i m (worker_failing f) a pops pushes =
      (record_step f m, worker_after_record f, records f refl refl refl)
  worker_moves i m leaving a pops pushes = (
    record m { workers_remaining = m.workers_remaining - 1 },
    if m.workers_remaining == 1 then closing_last else gone,
    leaves refl refl refl,
  )
  worker_moves i m closing_last a pops pushes =
      (record m { completions = close m.completions }, gone, closes_last refl refl refl)
  worker_moves i m gone a pops pushes = absurd (omega arith)

  some_worker_moves :
      (s : System Job Done Store)
      → 0 < total is_active s.workers
      → CanPop s.shared.assignments
      → CanPush s.shared.completions
      → Enabled s
  some_worker_moves s h pops pushes =
      let (before, after, p, at, active) = active_worker s.workers h in
      let (m', p', move) = worker_moves (length before) s.shared p active pops pushes in
      (
        record { shared = m'; workers = before ++ (p' ∷ after) },
        worker_step before after p p' at move refl,
      )

  -- The threads that the caller has joined are over.
  pub record IsFinal (s : System Job Done Store) : Type 0 where
    pub scheduler_over : s.shared.scheduler ≡ finished
    pub coordinator_over : s.shared.coordinator ≡ joined
    pub workers_over : total is_active s.workers ≡ 0

  main_moves :
      (s : System Job Done Store) (m' : Shared Job Done Store)
      → MainMove begin work consume s.shared m'
      → Enabled s
  main_moves s m' move = (record { shared = m'; workers = s.workers }, main_step move refl)

  -- The scheduler moves, or is over, or waits for room.
  scheduler_moves :
      (s : System Job Done Store) (sched : SchedulerPc Job)
      → s.shared.scheduler ≡ sched
      → 0 < s.shared.assignments.capacity
      → Enabled s
        ⊎ ((sched ≡ finished)
            ⊎ ((0 < length s.shared.assignments.items) × (s.shared.assignments.closed ≡ false)))
  scheduler_moves s finished at room = inr (inl refl)
  scheduler_moves s (pushing []) at room = inl (main_moves s _ (assigned at refl))
  scheduler_moves s (pushing (job ∷ jobs)) at room = elim (room_or_full s.shared.assignments room) [
    | inr full ↦ inr (inr full)
    | inl ready ↦
        let (accepted, q, pushed) = push_ready job s.shared.assignments ready in
        inl (main_moves s _ (assigns job jobs accepted q at pushed refl))
  ]

  -- With some active worker, and no wait on the completions.
  workers_or_scheduler :
      (s : System Job Done Store)
      → Inv s.shared (counts_of s.workers)
      → 0 < total is_active s.workers
      → CanPush s.shared.completions
      → Enabled s
  workers_or_scheduler s h active pushes =
      elim (scheduler_moves s s.shared.scheduler refl h.room_assignments) [
        | inl moved ↦ moved
        | inr (inl over) ↦ some_worker_moves s active (inr (h.finished_closed over)) pushes
        | inr (inr (full, open')) ↦ some_worker_moves s active (inl full) pushes
      ]

  coordinator_moves :
      (s : System Job Done Store) (c : CoordinatorPc Done)
      → s.shared.coordinator ≡ c
      → Inv s.shared (counts_of s.workers)
      → 0 < length s.workers
      → Enabled s ⊎ IsFinal s
  coordinator_moves s (consuming r) at h some_worker = inl (main_moves s _ (consumes r at refl))
  coordinator_moves s (coordinator_failing f) at h some_worker =
      inl (main_moves s _ (coordinator_records f at refl))
  coordinator_moves s waiting at h some_worker =
      elim (closed_or_open s.shared.completions h.room_completions) [
        | inl ready ↦
            let (r, q, popped) = pop_ready s.shared.completions.items s.shared.completions ready in
            inl (main_moves s _ (receives r q at popped refl))
        | inr (room, open') ↦ inl (
            workers_or_scheduler s h (ground (arith, h.none_left, counted-active s.workers))
              (inl room))
      ]
  coordinator_moves s joined at h some_worker =
      elim (scheduler_moves s s.shared.scheduler refl h.room_assignments) [
        | inl moved ↦ inl moved
        | inr (inl over) ↦ elim (Bool-cases (ltb 0 (total is_active s.workers))) [
          | inl active ↦ inl (
              some_worker_moves s (ltb→lt 0 (total is_active s.workers) active)
                (inr (h.finished_closed over)) (inr (h.joined_closed at)))
          | inr none_active ↦
              inr (record {
                scheduler_over = over;
                coordinator_over = at;
                workers_over = ground arith;
              })
        ]
        | inr (inr (full, open')) ↦ inl (
            some_worker_moves s (ground (arith, h.out_closed, active_or_out s.workers)) (inl full)
              (inr (h.joined_closed at)))
      ]

  progress :
      (s : System Job Done Store)
      → Inv s.shared (counts_of s.workers)
      → 0 < length s.workers
      → Enabled s ⊎ IsFinal s
  progress s h some_worker = coordinator_moves s s.shared.coordinator refl h some_worker

  Step-length :
      (s t : System Job Done Store)
      → Step begin work consume s t
      → length t.workers ≡ length s.workers
  Step-length s t (worker_step before after p p' at move next) =
      rw (at, next)
        (omega (arith, length-append before (p ∷ after), length-append before (p' ∷ after)))
  Step-length s t (main_step move same) = rw same refl

  pub Steps-length :
      (s t : System Job Done Store) (n : ℕ)
      → Steps begin work consume s n t
      → length t.workers ≡ length s.workers
  Steps-length s t n none_yet = refl
  Steps-length s t n (one_more {t = u} steps step) = Step-length u t step ∙ Steps-length s u _ steps

  first-Step :
      (s u t : System Job Done Store) (n : ℕ)
      → Step begin work consume s u
      → Steps begin work consume u n t
      → Steps begin work consume s (suc n) t
  first-Step s u t n step none_yet = one_more none_yet step
  first-Step s u t n step (one_more {t = v} steps last) =
      one_more (first-Step s u v _ step steps) last

  -- To the end, within so many steps.
  abbrev pub Ending : System Job Done Store → Type 0
  Ending s = (k : ℕ) × (t : System Job Done Store) × Steps begin work consume s k t × IsFinal t

  pub completes :
      (fuel : ℕ) (s : System Job Done Store)
      → rank s ≤ fuel
      → Inv s.shared (counts_of s.workers)
      → 0 < length s.workers
      → Ending s
  completes zero s small h some_worker = elim (progress s h some_worker) [
    | inr final ↦ (0, s, none_yet, final)
    | inl (u, step) ↦ absurd (omega (arith, Step-rank begin work consume s u step))
  ]
  completes (suc fuel) s small h some_worker = elim (progress s h some_worker) [
    | inr final ↦ (0, s, none_yet, final)
    | inl (u, step) ↦
        let (k, t, steps, final) =
          completes fuel u (omega (arith, Step-rank begin work consume s u step))
            (Step-Inv begin work consume s u step h) (omega (arith, Step-length s u step)) in
        (suc k, t, first-Step s u t k step steps, final)
  ]
