-- ===== src/Execute/Finish.antt =====
-- What an execution of `execute_missing_blocks` achieves, under any interleaving.
use monte_carlo.Prelude.{
  ℕ, ◌+◌, ◌*◌, ◌≤◌, ◌<◌, ◌≡◌, ◌∙◌, ap, arith, refl, List, [], ◌∷◌, false, none, length, total,
  total-replicate_zero, length-replicate,
}
use monte_carlo.Exception.{Result, ok}
use monte_carlo.Queue.{BoundedQueue}
use monte_carlo.Execute.{WorkerPc, starting, System, Steps, initial}
use monte_carlo.Execute.Invariant.{
  Inv, IsClean, counts_of, initial-Inv, Steps-Inv, is_out, is_failing,
}
use monte_carlo.Execute.Measure.{rank, Steps-rank, total-starting_rank}
use monte_carlo.Execute.Progress.{IsFinal, Ending, completes, Steps-length}
use monte_carlo.Execute.Ready.{is_active}
use monte_carlo.Execute.Places.{placed, held, done_weight, Steps-weight, Steps-kept}

-- Both queues as `execute_missing_blocks` makes them.
pub record IsNew {A : Type 0} (q : BoundedQueue A) : Type 0 where
  pub room : 0 < q.capacity
  pub open_ : q.closed ≡ false
  pub empty : q.items ≡ []

module _ {Job Done : Type 0} where
  over-out :
      (ws : List (WorkerPc Job Done))
      → total is_active ws ≡ 0
      → (total is_out ws ≡ length ws) × (total is_failing ws ≡ 0)
  over-out [] h = (refl, refl)
  over-out (p ∷ ws) h = ground (arith, over-out ws)

  over-held :
      (weight : Job → ℕ) (job_of : Done → Job) (ws : List (WorkerPc Job Done))
      → total is_active ws ≡ 0
      → total (held weight job_of) ws ≡ 0
  over-held weight job_of [] h = refl
  over-held weight job_of (p ∷ ws) h = ground (arith, over-held weight job_of ws)

module _ {Job Done Store : Type 0} (begin : Result (Unit {0})) (work : ℕ → Job → Result Done)
    (consume : Store → Done → Result Store) where
  module _ (a : BoundedQueue Job) (c : BoundedQueue Done) (n : ℕ) (pending : List Job)
      (store : Store) (fresh_a : IsNew a) (fresh_c : IsNew c) (some_worker : 0 < n) where
    abbrev start : System Job Done Store
    start = initial a c n pending store

    start-Inv : Inv start.shared (counts_of start.workers)
    start-Inv =
        initial-Inv a c n pending store fresh_a.room fresh_c.room fresh_a.open_ fresh_c.open_
          some_worker

    workers_kept :
        (k : ℕ) (t : System Job Done Store)
        → Steps begin work consume start k t
        → length t.workers ≡ n
    workers_kept k t steps =
        Steps-length begin work consume start t k steps ∙ length-replicate n starting

    -- However the threads have been interleaved so far, at most 6 * jobs + 7 * workers + 5 steps
    -- were taken, and the execution can be continued to the state in which the scheduler, the
    -- coordinator and every worker are over: there is no deadlock, no endless run, and no thread
    -- that is never joined, whether or not a worker or `consume_result` throws.
    pub execution_ends :
        (k : ℕ) (t : System Job Done Store)
        → Steps begin work consume start k t
        → (k ≤ 6 * length pending + 7 * n + 5) × Ending begin work consume t
    execution_ends k t steps = (
      omega (
        arith,
        Steps-rank begin work consume start t k steps,
        total-starting_rank Job Done n,
        ap (λ (l : List Job). length l) fresh_a.empty,
        ap (λ (l : List Done). length l) fresh_c.empty,
      ),
      completes begin work consume (rank t) t (omega arith)
          (Steps-Inv begin work consume start t k steps start-Inv)
          (omega (arith, workers_kept k t steps)),
    )

    module _ (job_of : Done → Job)
        (answers : (i : ℕ) (job : Job) (r : Done) → work i job ≡ ok r → job_of r ≡ job) where
      pub placed-start : (weight : Job → ℕ) → placed weight job_of start ≡ total weight pending
      placed-start weight = omega (
        arith,
        total-replicate_zero (held weight job_of) n starting refl,
        ap (λ (l : List Job). total weight l) fresh_a.empty,
        ap (λ (l : List Done). total (done_weight weight job_of) l) fresh_c.empty,
      )

      -- At any moment, each job has been consumed at most as often as it was pending: counted with
      -- any weight of jobs, the consumed results weigh no more than the pending jobs.
      pub consumed_at_most_once :
          (k : ℕ) (t : System Job Done Store) (weight : Job → ℕ)
          → Steps begin work consume start k t
          → total (λ r. weight (job_of r)) t.shared.consumed ≤ total weight pending
      consumed_at_most_once k t weight steps = omega (
        arith,
        Steps-weight weight job_of begin work consume answers start t k steps,
        placed-start weight,
      )

      final-IsClean :
          (t : System Job Done Store)
          → IsFinal begin work consume t
          → t.shared.first_error ≡ none
          → IsClean t.shared (counts_of t.workers)
      final-IsClean t final e = record {
        no_error = e;
        no_worker = (over-out t.workers final.workers_over).1;
        no_coordinator = ground (arith, final.coordinator_over);
      }

      weight-none : {A : Type 0} (f : A → ℕ) (xs : List A) → length xs ≡ 0 → total f xs ≡ 0
      weight-none f [] h = refl
      weight-none f (x ∷ xs) h = absurd (omega arith)

      -- When every thread is over and no error was recorded, each pending job has been consumed
      -- exactly as often as it was pending.
      pub consumed_exactly_once :
          (k : ℕ) (t : System Job Done Store) (weight : Job → ℕ)
          → Steps begin work consume start k t
          → IsFinal begin work consume t
          → t.shared.first_error ≡ none
          → total (λ r. weight (job_of r)) t.shared.consumed ≡ total weight pending
      consumed_exactly_once k t weight steps final e =
          let h = Steps-Inv begin work consume start t k steps start-Inv in
          let clean = final-IsClean t final e in
          let (out, failing) = over-out t.workers final.workers_over in
          let assigned_none = h.clean_out clean (omega (arith, out, workers_kept k t steps)) in
          let completed_none = h.clean_joined clean final.coordinator_over in
          ground (
            arith,
            final.scheduler_over,
            final.coordinator_over,
            over-held weight job_of t.workers final.workers_over,
            weight-none weight t.shared.assignments.items assigned_none,
            weight-none (done_weight weight job_of) t.shared.completions.items completed_none,
            Steps-kept weight job_of begin work consume answers start t k steps start-Inv clean,
            placed-start weight,
          )
