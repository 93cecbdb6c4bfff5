-- ===== src/Execute/Tests.antt =====
-- One job, one worker and queues of capacity two, from the start to the end.
use monte_carlo.Prelude.{
  ℕ, ◌+◌, ◌*◌, ◌/◌, ◌≤◌, ◌≡◌, refl, arith, List, [], ◌∷◌, Bool, true, false, none, some, length,
  total,
}
use monte_carlo.Exception.{Result, ok}
use monte_carlo.Queue.{BoundedQueue}
use monte_carlo.Execute.{
  WorkerPc, starting, taking, computing, submitting, leaving, closing_last, gone, SchedulerPc,
  pushing, finished, CoordinatorPc, waiting, consuming, joined, System, Steps, none_yet, one_more,
  worker_step, main_step, starts, takes, computes, submits, leaves, closes_last, assigns, assigned,
  receives, consumes,
}
use monte_carlo.Execute.Progress.{IsFinal, Ending}
use monte_carlo.Execute.Finish.{IsNew, execution_ends, consumed_at_most_once, consumed_exactly_once}

abbrev pub queue_of : {A : Type 0} → List A → ℕ → Bool → BoundedQueue A
queue_of items depth closed = record {
  items = items;
  capacity = 2;
  closed = closed;
  max_depth = depth;
}

queue_of-IsNew : {A : Type 0} → IsNew {A = A} (queue_of [] 0 false)
queue_of-IsNew = record { room = omega arith; open_ = refl; empty = refl }

module _ {Job Done Store : Type 0} where
  abbrev pub state :
      BoundedQueue Job
      → BoundedQueue Done
      → ℕ
      → SchedulerPc Job
      → CoordinatorPc Done
      → Store
      → List Done
      → WorkerPc Job Done
      → System Job Done Store
  state assignments completions remaining scheduler coordinator store consumed worker = record {
    shared = record {
      assignments = assignments;
      completions = completions;
      first_error = none;
      workers_remaining = remaining;
      scheduler = scheduler;
      coordinator = coordinator;
      store = store;
      consumed = consumed;
    };
    workers = worker ∷ [];
  }

module _ {Job Done Store : Type 0} (work : ℕ → Job → Result Done)
    (consume : Store → Done → Result Store) (job : Job) (r : Done) (s s' : Store) where
  abbrev pub first_state : System Job Done Store
  first_state =
      state (queue_of [] 0 false) (queue_of [] 0 false) 1 (pushing (job ∷ [])) waiting s [] starting

  abbrev pub last_state : System Job Done Store
  last_state = state (queue_of [] 1 true) (queue_of [] 1 true) 0 finished joined s' (r ∷ []) gone

  abbrev before_work : System Job Done Store
  before_work =
      state (queue_of [] 1 true) (queue_of [] 0 false) 1 finished waiting s [] (computing job)

  abbrev after_work : System Job Done Store
  after_work =
      state (queue_of [] 1 true) (queue_of [] 0 false) 1 finished waiting s [] (submitting r)

  abbrev before_consume : System Job Done Store
  before_consume =
      state (queue_of [] 1 true) (queue_of [] 1 false) 1 finished (consuming r) s [] taking

  abbrev after_it : System Job Done Store
  after_it = state (queue_of [] 1 true) (queue_of [] 1 false) 1 finished waiting s' (r ∷ []) taking

  abbrev Run : System Job Done Store → ℕ → System Job Done Store → Type 0
  Run = Steps (ok tt) work consume

  assigned-Run : Run first_state 4 before_work
  assigned-Run =
      one_more
        {t = state (queue_of (job ∷ []) 1 true) (queue_of [] 0 false) 1 finished waiting s []
          taking}
        (one_more
          {t = state (queue_of (job ∷ []) 1 false) (queue_of [] 0 false) 1 (pushing []) waiting s []
            taking}
          (one_more
            {t = state (queue_of [] 0 false) (queue_of [] 0 false) 1 (pushing (job ∷ [])) waiting s
              [] taking}
            (one_more none_yet
              (worker_step [] [] starting taking refl (starts refl refl refl) refl))
            (main_step (assigns job [] true _ refl refl refl) refl))
          (main_step (assigned refl refl) refl))
        (worker_step [] [] taking (computing job) refl (takes (some job) _ refl refl refl refl)
          refl)

  worked-Run : work 0 job ≡ ok r → Run first_state 5 after_work
  worked-Run e = one_more assigned-Run (
      worker_step [] [] (computing job) (submitting r) refl (computes job refl refl (rw e refl))
        refl)

  received-Run : work 0 job ≡ ok r → Run first_state 7 before_consume
  received-Run e =
      one_more
        {t = state (queue_of [] 1 true) (queue_of (r ∷ []) 1 false) 1 finished waiting s [] taking}
        (one_more (worked-Run e) (
          worker_step [] [] (submitting r) taking refl (submits r true _ refl refl refl refl) refl))
        (main_step (receives (some r) _ refl refl refl) refl)

  consumed-Run : work 0 job ≡ ok r → consume s r ≡ ok s' → Run first_state 8 after_it
  consumed-Run e e' = one_more (received-Run e) (main_step (consumes r refl (rw e' refl)) refl)

  pub whole-Run : work 0 job ≡ ok r → consume s r ≡ ok s' → Run first_state 12 last_state
  whole-Run e e' =
      one_more
        {t = state (queue_of [] 1 true) (queue_of [] 1 true) 0 finished waiting s' (r ∷ []) gone}
        (one_more
          {t = state (queue_of [] 1 true) (queue_of [] 1 false) 0 finished waiting s' (r ∷ [])
            closing_last}
          (one_more
            {t = state (queue_of [] 1 true) (queue_of [] 1 false) 1 finished waiting s' (r ∷ [])
              leaving}
            (one_more (consumed-Run e e')
              (worker_step [] [] taking leaving refl (takes none _ refl refl refl refl) refl))
            (worker_step [] [] leaving closing_last refl (leaves refl refl refl) refl))
          (worker_step [] [] closing_last gone refl (closes_last refl refl refl) refl))
        (main_step (receives none _ refl refl refl) refl)

  pub last_state-IsFinal : IsFinal (ok tt) work consume last_state
  last_state-IsFinal = record {
    scheduler_over = refl;
    coordinator_over = refl;
    workers_over = refl;
  }

-- The job 7 is doubled, and the results are added up.
abbrev double : ℕ → ℕ → Result ℕ
double worker job = ok (2 * job)

abbrev add_up : ℕ → ℕ → Result ℕ
add_up sum r = ok (sum + r)

abbrev doubled_state : System ℕ ℕ ℕ
doubled_state = last_state double add_up 7 14 100 114

doubled_run : Steps (ok tt) double add_up (first_state double add_up 7 14 100 114) 12 doubled_state
doubled_run = whole-Run double add_up 7 14 100 114 refl refl

abbrev half : ℕ → ℕ
half r = r / 2

half-double : (i job r : ℕ) → double i job ≡ ok r → half r ≡ job
half-double i job r h = let e : 2 * job ≡ r = cc in omega arith

abbrev one_job : List ℕ
one_job = 7 ∷ []

abbrev as_weight : ℕ → ℕ
as_weight n = n

execution_ends_example :
    (12 ≤ 6 * length one_job + 7 * 1 + 5) × Ending (ok tt) double add_up doubled_state
execution_ends_example =
    execution_ends (ok tt) double add_up (queue_of [] 0 false) (queue_of [] 0 false) 1 one_job 100
      queue_of-IsNew queue_of-IsNew (omega arith) 12 doubled_state doubled_run

consumed_at_most_once_example : total (λ r. as_weight (half r)) (14 ∷ []) ≤ total as_weight one_job
consumed_at_most_once_example =
    consumed_at_most_once (ok tt) double add_up (queue_of [] 0 false) (queue_of [] 0 false) 1
      one_job 100 queue_of-IsNew queue_of-IsNew (omega arith) half half-double 12 doubled_state
      as_weight doubled_run

consumed_exactly_once_example : total (λ r. as_weight (half r)) (14 ∷ []) ≡ total as_weight one_job
consumed_exactly_once_example =
    consumed_exactly_once (ok tt) double add_up (queue_of [] 0 false) (queue_of [] 0 false) 1
      one_job 100 queue_of-IsNew queue_of-IsNew (omega arith) half half-double 12 doubled_state
      as_weight doubled_run (last_state-IsFinal double add_up 7 14 100 114) refl
