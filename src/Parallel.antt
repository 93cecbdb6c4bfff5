-- ===== src/Parallel.antt =====
-- `compute_block` and `run_parallel` of src/runtime/engine.cpp: the blocks of a run computed by
-- workers, committed by the coordinator and reduced. A kernel is given by the three members that
-- the engine uses of it; metrics are left out.
pub mod Observe
pub mod Leaves
pub mod Accept
pub mod Faultless
pub mod Sequential
pub mod Started
pub mod Returns
pub mod Confidence
pub mod Tests
use monte_carlo.Prelude.{
  ℕ, zero, suc, ◌+◌, ◌%◌, ◌≡◌, List, [], ◌∷◌, ◌++◌, Bool, true, false, not, none, some, Option, ltb,
  leb, ◌==◌, ◌!=◌, ◌&&◌, ◌||◌, if◌then◌else◌, length, set, replicate, bytes_of,
}
use monte_carlo.Exception.{
  Result, ok, err, Exception, ◌>>=◌, ◌>>◌, throw_if, invalid_argument, runtime_error, what,
}
use monte_carlo.Float64.{Float64}
use monte_carlo.RunSpec.{RunSpec}
use monte_carlo.Aggregate.{AggregateStats, empty_stats, add}
use monte_carlo.Hash.{Digest}
use monte_carlo.Layout.{ScenarioBlock, BlockResult, EngineConfig, make_blocks, add64}
use monte_carlo.Codec.{aggregate_payload_hash}
use monte_carlo.Reduce.{reduce_block_results}
use monte_carlo.Coordinator.{
  CoordinatorState, make_coordinator_state, commit_result, is_accepted, to_string,
}
use monte_carlo.Queue.{BoundedQueue, make_queue}
use monte_carlo.Execute.{System, Shared, Steps, initial, worker_count_of, capacity_of}
use monte_carlo.Execute.Progress.{IsFinal}

-- What `compute_block_with_concrete_kernel` uses of its `Kernel`.
pub record Kernel (D : Type 0) : Type 0 where
  pub spec : RunSpec D
  pub antithetic_pair_mean : ℕ → Result D
  pub discounted_payoff : ℕ → Result D

-- The state that `run_parallel` keeps across the results.
pub record Collected (D : Type 0) : Type 0 where
  pub coordinator : CoordinatorState
  pub leaves : List (AggregateStats D)
  pub received : List Bool

pub record RunResult (D : Type 0) : Type 0 where
  pub aggregate : AggregateStats D
  pub scenarios_processed : ℕ
  pub block_count : ℕ
  pub workers_used : ℕ

-- `blocks[index]` for the `pending_indices`.
abbrev pub pending_blocks : List ScenarioBlock → List Bool → List ScenarioBlock
pending_blocks [] received = []
pending_blocks (b ∷ bs) [] = []
pending_blocks (b ∷ bs) (r ∷ rs) = let rest = pending_blocks bs rs in if r then rest else b ∷ rest

-- `std::find(received.begin(), received.end(), false) == received.end()`
abbrev pub all_received : List Bool → Bool
all_received [] = true
all_received (r ∷ rs) = r && all_received rs

module _ {D : Type 0} ⦃fp : Float64 D⦄ where
  -- `for (scenario = start; scenario < end; scenario += stride) aggregate.add(observe(scenario))`,
  -- at most one round for each unit of fuel.
  pub observe_range : (ℕ → Result D) → ℕ → ℕ → ℕ → ℕ → AggregateStats D → Result (AggregateStats D)
  observe_range observe stride zero scenario end aggregate = ok aggregate
  observe_range observe stride (suc rounds) scenario end aggregate = elim (ltb scenario end) [
    | true ↦ do
      x ← observe scenario
      aggregate' ← add aggregate x
      observe_range observe stride rounds (add64 scenario stride) end aggregate'
    | false ↦ ok aggregate
  ]

  -- The loops of `compute_block_with_concrete_kernel`: a round advances by one scenario at least, so as many
  -- rounds as the block's end are enough.
  pub observe_block : Kernel D → ScenarioBlock → Result (AggregateStats D)
  observe_block kernel block =
      if kernel.spec.antithetic
      then observe_range kernel.antithetic_pair_mean 2 block.end_scenario block.start_scenario
          block.end_scenario empty_stats
      else observe_range kernel.discounted_payoff 1 block.end_scenario block.start_scenario
          block.end_scenario empty_stats

  -- compute_block_with_concrete_kernel
  pub compute_block : Kernel D → ScenarioBlock → Result (AggregateStats D)
  compute_block kernel block = do
    throw_if
        (leb block.end_scenario block.start_scenario
          || ltb kernel.spec.total_scenarios block.end_scenario)
        (invalid_argument (what "invalid scenario block range"))
    throw_if
        (kernel.spec.antithetic && (block.start_scenario % 2 != 0 || block.end_scenario % 2 != 0))
        (invalid_argument (what "antithetic block boundaries must be even"))
    observe_block kernel block

  -- The result that worker `worker` builds for an assigned block.
  pub block_result :
      Kernel D → Digest → Digest → Digest → ℕ → ScenarioBlock → Result (BlockResult D)
  block_result kernel spec_hash layout_hash build_fingerprint worker block = do
    aggregate ← compute_block kernel block
    checksum ← aggregate_payload_hash aggregate kernel.spec.stats_schema_version
    ok (record {
      block = block;
      aggregate = aggregate;
      run_spec_hash = spec_hash;
      execution_layout_hash = layout_hash;
      build_fingerprint = build_fingerprint;
      payload_checksum = checksum;
      rng_version = kernel.spec.rng_version;
      stats_schema_version = kernel.spec.stats_schema_version;
      worker_id = worker;
    })

  -- `consume_result` of `run_parallel`.
  pub collect : Collected D → BlockResult D → Result (Collected D)
  collect s completed = do
    (validation, coordinator) ← commit_result completed s.coordinator
    throw_if (not (is_accepted validation.status)) (
        runtime_error (
          what "coordinator rejected block result as "
          ++ to_string validation.status
          ++ what ": "
          ++ validation.reason))
    ok (record {
      coordinator = coordinator;
      leaves = set s.leaves completed.block.block_id completed.aggregate;
      received = set s.received completed.block.block_id true;
    })

  -- The start of `run_parallel`: the blocks, and nothing received.
  pub start_run : Digest → RunSpec D → EngineConfig → Result (List ScenarioBlock × Collected D)
  start_run build_hash spec config = do
    blocks ← make_blocks spec config
    coordinator ← make_coordinator_state build_hash spec config blocks
    ok (
      blocks,
      record {
        coordinator = coordinator;
        leaves = replicate (length blocks) empty_stats;
        received = replicate (length blocks) false;
      },
    )

  -- The end of `run_parallel`, after `execute_missing_blocks` has returned.
  pub finish_run : RunSpec D → List ScenarioBlock → ℕ → Collected D → Result (RunResult D)
  finish_run spec blocks workers s = do
    throw_if (not (all_received s.received))
        (runtime_error (what "parallel run ended before every block completed"))
    aggregate ← reduce_block_results s.leaves
    ok (record {
      aggregate = aggregate;
      scenarios_processed = spec.total_scenarios;
      block_count = length blocks;
      workers_used = workers;
    })

  -- The threads of a run that has these blocks, before any of them has moved.
  abbrev pub threads :
      EngineConfig
      → List ScenarioBlock
      → Collected D
      → ℕ
      → Result (System ScenarioBlock (BlockResult D) (Collected D))
  threads config blocks s workers = do
    assignments ← make_queue (capacity_of config.assignment_queue_capacity workers)
    completions ← make_queue (capacity_of config.completion_queue_capacity workers)
    ok (initial assignments completions workers (pending_blocks blocks s.received) s)

  -- The number of workers of a run with these blocks left.
  abbrev pub workers_for : EngineConfig → List ScenarioBlock → Collected D → ℕ
  workers_for config blocks s =
      worker_count_of config.worker_count (length (pending_blocks blocks s.received))

  -- The value that `run_parallel` returns or the exception that it throws, after one of its
  -- interleavings. `begin` is what the construction of a worker's kernel comes to.
  pub data RunParallel (begin : Result (Unit {0})) (kernel : Kernel D) (build_hash : Digest)
      (config : EngineConfig) (outcome : Result (RunResult D)) : Type 0 where
    not_started :
        (e : Exception)
        → start_run build_hash kernel.spec config ≡ err e
        → outcome ≡ err e
        → RunParallel begin kernel build_hash config outcome
    executed :
        (blocks : List ScenarioBlock) (s : Collected D)
        (first last : System ScenarioBlock (BlockResult D) (Collected D)) (k : ℕ)
        → start_run build_hash kernel.spec config ≡ ok (blocks, s)
        → threads config blocks s (workers_for config blocks s) ≡ ok first
        → Steps begin
            (block_result kernel s.coordinator.run_spec_hash s.coordinator.execution_layout_hash
              s.coordinator.build_fingerprint)
            collect
            first
            k
            last
        → IsFinal begin
            (block_result kernel s.coordinator.run_spec_hash s.coordinator.execution_layout_hash
              s.coordinator.build_fingerprint)
            collect
            last
        → outcome ≡ elim last.shared.first_error [
          | none ↦ finish_run kernel.spec blocks (workers_for config blocks s) last.shared.store
          | some e ↦ err e
        ]
        → RunParallel begin kernel build_hash config outcome
