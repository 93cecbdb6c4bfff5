-- ===== src/Execute.antt =====
-- `execute_missing_blocks` of src/runtime/engine.cpp: a scheduler, workers and the coordinator
-- over two bounded queues, interleaved in any order. A step is a critical section, the call of
-- `consume_result`, or the computation of one block. Jobs and results are abstract here; timings,
-- and a thread that cannot be created, are left out.
pub mod Places
pub mod Invariant
pub mod Ready
pub mod Progress
pub mod Measure
pub mod Finish
pub mod Trace
pub mod Faultless
pub mod Tests
use monte_carlo.Prelude.{
  ℕ, zero, suc, ◌+◌, ◌-◌, ◌≡◌, List, [], ◌∷◌, ◌++◌, Bool, true, false, Option, none, some, ◌==◌,
  ltb, max, length, if◌then◌else◌, replicate,
}
use monte_carlo.Exception.{Result, ok, err, Exception}
use monte_carlo.Queue.{BoundedQueue, push, pop, close}

-- Where a call of `record_error` stands.
pub data Recording : Type 0 where
  storing : Exception → Recording
  closing_assignments closing_completions : Recording

pub data WorkerPc (Job Done : Type 0) : Type 0 where
  starting : WorkerPc Job Done  -- before the kernel is made
  taking : WorkerPc Job Done  -- assignments.pop
  computing : Job → WorkerPc Job Done
  submitting : Done → WorkerPc Job Done  -- completions.push
  worker_failing : Recording → WorkerPc Job Done
  leaving : WorkerPc Job Done  -- workers_remaining.fetch_sub
  closing_last : WorkerPc Job Done  -- completions.close
  gone : WorkerPc Job Done

pub data SchedulerPc (Job : Type 0) : Type 0 where
  pushing : List Job → SchedulerPc Job
  finished : SchedulerPc Job

pub data CoordinatorPc (Done : Type 0) : Type 0 where
  waiting : CoordinatorPc Done  -- completions.pop
  consuming : Done → CoordinatorPc Done
  coordinator_failing : Recording → CoordinatorPc Done
  joined : CoordinatorPc Done  -- after the loop

-- All but the workers. `store` is what `consume_result` changes; `consumed` is a history of the
-- results that it took without throwing.
pub record Shared (Job Done Store : Type 0) : Type 0 where
  pub assignments : BoundedQueue Job
  pub completions : BoundedQueue Done
  pub first_error : Option Exception
  pub workers_remaining : ℕ
  pub scheduler : SchedulerPc Job
  pub coordinator : CoordinatorPc Done
  pub store : Store
  pub consumed : List Done

pub record System (Job Done Store : Type 0) : Type 0 where
  pub shared : Shared Job Done Store
  pub workers : List (WorkerPc Job Done)

-- `if (!first_error) first_error = error;`
abbrev pub keep_first : Option Exception → Exception → Option Exception
keep_first none e = some e
keep_first (some first) e = some first

-- actual_worker_count
abbrev pub worker_count_of : ℕ → ℕ → ℕ
worker_count_of requested missing = if ltb missing requested then missing else requested

-- The capacity of a queue: twice the workers, unless it is configured.
abbrev pub capacity_of : ℕ → ℕ → ℕ
capacity_of configured workers = if configured == 0 then max 1 (workers + workers) else configured

-- One critical section of `record_error`.
abbrev pub record_step :
    {Job Done Store : Type 0} → Recording → Shared Job Done Store → Shared Job Done Store
record_step (storing e) m = record m { first_error = keep_first m.first_error e }
record_step closing_assignments m = record m { assignments = close m.assignments }
record_step closing_completions m = record m { completions = close m.completions }

abbrev pub worker_after_record : {Job Done : Type 0} → Recording → WorkerPc Job Done
worker_after_record (storing e) = worker_failing closing_assignments
worker_after_record closing_assignments = worker_failing closing_completions
worker_after_record closing_completions = leaving

abbrev pub coordinator_after_record : {Done : Type 0} → Recording → CoordinatorPc Done
coordinator_after_record (storing e) = coordinator_failing closing_assignments
coordinator_after_record closing_assignments = coordinator_failing closing_completions
coordinator_after_record closing_completions = joined

abbrev pub after_start : {Job Done : Type 0} → Result (Unit {0}) → WorkerPc Job Done
after_start (ok u) = taking
after_start (err e) = worker_failing (storing e)

abbrev pub after_take : {Job Done : Type 0} → Option Job → WorkerPc Job Done
after_take none = leaving
after_take (some job) = computing job

abbrev pub after_compute : {Job Done : Type 0} → Result Done → WorkerPc Job Done
after_compute (ok r) = submitting r
after_compute (err e) = worker_failing (storing e)

abbrev pub after_submit : {Job Done : Type 0} → Bool → WorkerPc Job Done
after_submit true = taking
after_submit false = leaving

abbrev pub after_receive : {Done : Type 0} → Option Done → CoordinatorPc Done
after_receive none = joined
after_receive (some r) = consuming r

-- The loop of the scheduler ends when a push is refused.
abbrev pub after_assign : {Job : Type 0} → Bool → List Job → SchedulerPc Job
after_assign true jobs = pushing jobs
after_assign false jobs = pushing []

-- After `consume_result`.
abbrev pub after_consume :
    {Job Done Store : Type 0} → Result Store → Done → Shared Job Done Store → Shared Job Done Store
after_consume (ok store) r m = record m {
  coordinator = waiting;
  store = store;
  consumed = m.consumed ++ (r ∷ []);
}
after_consume (err e) r m = record m { coordinator = coordinator_failing (storing e) }

-- `begin` makes the kernel of a worker, `work` computes one job, `consume` is `consume_result`.
module _ {Job Done Store : Type 0} (begin : Result (Unit {0})) (work : ℕ → Job → Result Done)
    (consume : Store → Done → Result Store) where
  -- One step of the worker with this `worker_index`.
  pub data Move (worker : ℕ) (m : Shared Job Done Store) (p : WorkerPc Job Done)
      (m' : Shared Job Done Store) (p' : WorkerPc Job Done) : Type 0 where
    starts : p ≡ starting → m' ≡ m → p' ≡ after_start begin → Move worker m p m' p'
    takes :
        (job : Option Job) (q : BoundedQueue Job)
        → p ≡ taking
        → pop m.assignments ≡ some (job, q)
        → m' ≡ record m { assignments = q }
        → p' ≡ after_take job
        → Move worker m p m' p'
    computes :
        (job : Job)
        → p ≡ computing job
        → m' ≡ m
        → p' ≡ after_compute (work worker job)
        → Move worker m p m' p'
    submits :
        (r : Done) (accepted : Bool) (q : BoundedQueue Done)
        → p ≡ submitting r
        → push r m.completions ≡ some (accepted, q)
        → m' ≡ record m { completions = q }
        → p' ≡ after_submit accepted
        → Move worker m p m' p'
    records :
        (f : Recording)
        → p ≡ worker_failing f
        → m' ≡ record_step f m
        → p' ≡ worker_after_record f
        → Move worker m p m' p'
    leaves :
        p ≡ leaving
        → m' ≡ record m { workers_remaining = m.workers_remaining - 1 }
        → p' ≡ (if m.workers_remaining == 1 then closing_last else gone)
        → Move worker m p m' p'
    closes_last :
        p ≡ closing_last
        → m' ≡ record m { completions = close m.completions }
        → p' ≡ gone
        → Move worker m p m' p'

  -- One step of the scheduler or of the coordinator.
  pub data MainMove (m m' : Shared Job Done Store) : Type 0 where
    assigns :
        (job : Job) (jobs : List Job) (accepted : Bool) (q : BoundedQueue Job)
        → m.scheduler ≡ pushing (job ∷ jobs)
        → push job m.assignments ≡ some (accepted, q)
        → m' ≡ record m { assignments = q; scheduler = after_assign accepted jobs }
        → MainMove m m'
    assigned :
        m.scheduler ≡ pushing []
        → m' ≡ record m { assignments = close m.assignments; scheduler = finished }
        → MainMove m m'
    receives :
        (r : Option Done) (q : BoundedQueue Done)
        → m.coordinator ≡ waiting
        → pop m.completions ≡ some (r, q)
        → m' ≡ record m { completions = q; coordinator = after_receive r }
        → MainMove m m'
    consumes :
        (r : Done)
        → m.coordinator ≡ consuming r
        → m' ≡ after_consume (consume m.store r) r m
        → MainMove m m'
    coordinator_records :
        (f : Recording)
        → m.coordinator ≡ coordinator_failing f
        → m' ≡ record (record_step f m) { coordinator = coordinator_after_record f }
        → MainMove m m'

  pub data Step (s t : System Job Done Store) : Type 0 where
    worker_step :
        (before after : List (WorkerPc Job Done)) (p p' : WorkerPc Job Done)
        → s.workers ≡ before ++ (p ∷ after)
        → Move (length before) s.shared p t.shared p'
        → t.workers ≡ before ++ (p' ∷ after)
        → Step s t
    main_step : MainMove s.shared t.shared → t.workers ≡ s.workers → Step s t

  -- So many steps.
  pub data Steps (s : System Job Done Store) : ℕ → System Job Done Store → Type 0 where
    none_yet : Steps s 0 s
    one_more : {n : ℕ} {t u : System Job Done Store} → Steps s n t → Step t u → Steps s (suc n) u

module _ {Job Done Store : Type 0} where
  -- The threads have been made, and none has done anything.
  abbrev pub initial :
      BoundedQueue Job → BoundedQueue Done → ℕ → List Job → Store → System Job Done Store
  initial assignments completions workers pending store = record {
    shared = record {
      assignments = assignments;
      completions = completions;
      first_error = none;
      workers_remaining = workers;
      scheduler = pushing pending;
      coordinator = waiting;
      store = store;
      consumed = [];
    };
    workers = replicate workers starting;
  }
