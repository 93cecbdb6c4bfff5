-- ===== src/Execute/Measure.antt =====
-- Every step makes a measure smaller, so no execution goes on for ever.
use monte_carlo.Prelude.{
  ℕ, zero, suc, ◌+◌, ◌*◌, ◌≤◌, ◌<◌, ◌≡◌, arith, refl, [], ◌∷◌, length, total, total_middle,
  length-append, replicate,
}
use monte_carlo.Exception.{Result}
use monte_carlo.Queue.Order.{pop_items-cases}
use monte_carlo.Execute.{
  storing, closing_assignments, closing_completions, WorkerPc, starting, taking, computing,
  submitting, worker_failing, leaving, closing_last, gone, SchedulerPc, pushing, finished,
  CoordinatorPc, waiting, consuming, coordinator_failing, joined, Shared, System, Move, starts,
  takes, computes, submits, records, leaves, closes_last, MainMove, assigns, assigned, receives,
  consumes, coordinator_records, Step, worker_step, main_step, Steps, none_yet, one_more,
}

module _ {Job Done : Type 0} where
  -- The steps that a worker has still before it.
  abbrev pub worker_rank : WorkerPc Job Done → ℕ
  worker_rank (computing job) = 10
  worker_rank (submitting r) = 9
  worker_rank starting = 7
  worker_rank taking = 6
  worker_rank (worker_failing (storing e)) = 5
  worker_rank (worker_failing closing_assignments) = 4
  worker_rank (worker_failing closing_completions) = 3
  worker_rank leaving = 2
  worker_rank closing_last = 1
  worker_rank gone = 0

abbrev pub scheduler_rank : {Job : Type 0} → SchedulerPc Job → ℕ
scheduler_rank (pushing jobs) = 6 * length jobs + 1
scheduler_rank finished = 0

abbrev pub coordinator_rank : {Done : Type 0} → CoordinatorPc Done → ℕ
coordinator_rank (consuming r) = 5
coordinator_rank waiting = 4
coordinator_rank (coordinator_failing (storing e)) = 3
coordinator_rank (coordinator_failing closing_assignments) = 2
coordinator_rank (coordinator_failing closing_completions) = 1
coordinator_rank joined = 0

module _ {Job Done Store : Type 0} where
  abbrev pub shared_rank : Shared Job Done Store → ℕ
  shared_rank m =
      scheduler_rank m.scheduler
      + 5 * length m.assignments.items
      + 2 * length m.completions.items
      + coordinator_rank m.coordinator

  abbrev pub rank : System Job Done Store → ℕ
  rank s = shared_rank s.shared + total worker_rank s.workers

  module _ (begin : Result (Unit {0})) (work : ℕ → Job → Result Done)
      (consume : Store → Done → Result Store) where
    Move-rank :
        (m m' : Shared Job Done Store) (p p' : WorkerPc Job Done) {i : ℕ}
        → Move begin work consume i m p m' p'
        → shared_rank m' + worker_rank p' < shared_rank m + worker_rank p
    Move-rank m m' p p' (starts at same next) = ground arith
    Move-rank m m' p p' (takes job q at popped changed next) =
        ground (arith, pop_items-cases m.assignments.items m.assignments q job popped)
    Move-rank m m' p p' (computes job at same next) = ground arith
    Move-rank m m' p p' (submits r accepted q at pushed changed next) =
        ground (arith, length-append m.completions.items (r ∷ []))
    Move-rank m m' p p' (records f at changed next) = ground arith
    Move-rank m m' p p' (leaves at changed next) = ground arith
    Move-rank m m' p p' (closes_last at changed next) = ground arith

    MainMove-rank :
        (m m' : Shared Job Done Store)
        → MainMove begin work consume m m'
        → shared_rank m' < shared_rank m
    MainMove-rank m m' (assigns job jobs accepted q at pushed changed) =
        ground (arith, length-append m.assignments.items (job ∷ []))
    MainMove-rank m m' (assigned at changed) = ground arith
    MainMove-rank m m' (receives r q at popped changed) =
        ground (arith, pop_items-cases m.completions.items m.completions q r popped)
    MainMove-rank m m' (consumes r at changed) = ground arith
    MainMove-rank m m' (coordinator_records f at changed) = ground arith

    pub Step-rank : (s t : System Job Done Store) → Step begin work consume s t → rank t < rank s
    Step-rank s t (worker_step before after p p' at move next) =
        rw (at, next)
          (omega (
            arith,
            total_middle worker_rank before after p,
            total_middle worker_rank before after p',
            Move-rank s.shared t.shared p p' move,
          ))
    Step-rank s t (main_step move same) =
        rw same (omega (arith, MainMove-rank s.shared t.shared move))

    pub Steps-rank :
        (s t : System Job Done Store) (n : ℕ) → Steps begin work consume s n t → n + rank t ≤ rank s
    Steps-rank s t n none_yet = omega arith
    Steps-rank s t n (one_more {t = u} steps step) =
        omega (arith, Steps-rank s u _ steps, Step-rank u t step)

pub total-starting_rank :
    (Job Done : Type 0) (n : ℕ)
    → total (worker_rank {Job = Job} {Done = Done}) (replicate n starting) ≡ 7 * n
total-starting_rank Job Done zero = refl
total-starting_rank Job Done (suc n) = omega (arith, total-starting_rank Job Done n)
