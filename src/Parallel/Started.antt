-- ===== src/Parallel/Started.antt =====
-- A run of src/runtime/engine.cpp that `run_parallel` has started, up to its end.
use monte_carlo.Prelude.{
  ℕ, ◌≤◌, ◌<◌, ◌≡◌, ◌∙◌, sym, ap, subst, arith, refl, List, [], ◌∷◌, true, false, none, some, ◌==◌,
  length, get_elem?, replicate, length-replicate, total,
}
use monte_carlo.Exception.{ok}
use monte_carlo.Float64.{Float64}
use monte_carlo.RunSpec.Valid.{validate_iff}
use monte_carlo.Aggregate.{AggregateStats, empty_stats}
use monte_carlo.Aggregate.Merge.{IsValid}
use monte_carlo.Reduce.{reduce_block_results}
use monte_carlo.Hash.{Digest}
use monte_carlo.Layout.{ScenarioBlock, BlockResult, EngineConfig, make_blocks, block_count_of}
use monte_carlo.Layout.Partition.{
  make_blocks-eq-ok, canonical-ids, canonical-incarnations, worker_count_pos, make_blocks-Tiles,
  Tiles,
}
use monte_carlo.Coordinator.{committed_in}
use monte_carlo.Coordinator.Universe.{IsFresh, make_coordinator_state-make_blocks}
use monte_carlo.Queue.{BoundedQueue, make_queue}
use monte_carlo.Execute.{System, Steps, initial, capacity_of}
use monte_carlo.Execute.Progress.{IsFinal}
use monte_carlo.Execute.Finish.{IsNew}
use monte_carlo.Parallel.{
  Kernel, Collected, RunResult, compute_block, block_result, collect, all_received, start_run,
  finish_run, threads, workers_for, pending_blocks,
}
use monte_carlo.Parallel.Leaves.{compute_all, compute_all-each, compute_all-lem, IsFilled}
use monte_carlo.Parallel.Accept.{IsRunOf}
use monte_carlo.Parallel.Faultless.{final-received, all_received-every, none_committed}
use monte_carlo.Parallel.Sequential.{executed-IsFilled, none_received}

pending-all :
    (blocks : List ScenarioBlock) → pending_blocks blocks (replicate (length blocks) false) ≡ blocks
pending-all [] = refl
pending-all (b ∷ bs) = ap (λ (l : List ScenarioBlock). b ∷ l) (pending-all bs)

Tiles-some : (total : ℕ) (bs : List ScenarioBlock) → Tiles 0 0 total bs → 1 ≤ total → 0 < length bs
Tiles-some total [] h k = absurd (omega arith)
Tiles-some total (b ∷ bs) h k = omega arith

capacity_of-pos : (configured n : ℕ) → 0 < capacity_of configured n
capacity_of-pos configured n = ground arith

make_queue-IsNew :
    {A : Type 0} (capacity : ℕ)
    → 0 < capacity
    → (q : BoundedQueue A) × (make_queue capacity ≡ ok q) × IsNew q
make_queue-IsNew capacity pos =
    let open_for : (capacity == 0) ≡ false = ground arith in
    (
      record { items = []; capacity = capacity; closed = false; max_depth = 0 },
      rw open_for refl,
      record { room = pos; open_ = refl; empty = refl },
    )

module _ {D : Type 0} ⦃fp : Float64 D⦄ (kernel : Kernel D) (build_hash : Digest)
    (config : EngineConfig) where
  pub threads-IsNew :
      (blocks : List ScenarioBlock) (s : Collected D) (n : ℕ)
      → (a : BoundedQueue ScenarioBlock) × (c : BoundedQueue (BlockResult D)) × IsNew a
        × IsNew c
        × (threads config blocks s n ≡ ok (initial a c n (pending_blocks blocks s.received) s))
  threads-IsNew blocks s n =
      let (a, made_a, new_a) =
        make_queue-IsNew (capacity_of config.assignment_queue_capacity n)
          (capacity_of-pos config.assignment_queue_capacity n) in
      let (c, made_c, new_c) =
        make_queue-IsNew (capacity_of config.completion_queue_capacity n)
          (capacity_of-pos config.completion_queue_capacity n) in
      (a, c, new_a, new_c, rw (made_a, made_c) refl)

  -- The coordinator of a run has been made from its blocks.
  pub record IsStarted (blocks : List ScenarioBlock) (s : Collected D) : Type 0 where
    pub fresh : IsFresh build_hash kernel.spec config blocks s.coordinator
    pub no_leaves : s.leaves ≡ replicate (length blocks) empty_stats
    pub none_yet_received : s.received ≡ replicate (length blocks) false

  pub start_run-IsStarted :
      (blocks : List ScenarioBlock)
      → make_blocks kernel.spec config ≡ ok blocks
      → (s : Collected D) × (start_run build_hash kernel.spec config ≡ ok (blocks, s))
        × IsStarted blocks s
  unfolding start_run
  start_run-IsStarted blocks made =
      let (c, coordinated, fresh) =
        make_coordinator_state-make_blocks build_hash kernel.spec config blocks made in
      (
        record {
          coordinator = c;
          leaves = replicate (length blocks) empty_stats;
          received = replicate (length blocks) false;
        },
        rw (made, coordinated) refl,
        record { fresh = fresh; no_leaves = refl; none_yet_received = refl },
      )

  finish_run-returns :
      (blocks : List ScenarioBlock) (workers : ℕ) (s : Collected D) (a : AggregateStats D)
      → all_received s.received ≡ true
      → reduce_block_results s.leaves ≡ ok a
      → (r : RunResult D) × (finish_run kernel.spec blocks workers s ≡ ok r) × (r.aggregate ≡ a)
  unfolding finish_run
  finish_run-returns blocks workers s a all reduced = (
    record {
      aggregate = a;
      scenarios_processed = kernel.spec.total_scenarios;
      block_count = length blocks;
      workers_used = workers;
    },
    rw (all, reduced) refl,
    refl,
  )

  module _ (blocks : List ScenarioBlock) (s : Collected D)
      (made : make_blocks kernel.spec config ≡ ok blocks) (started : IsStarted blocks s) where
    -- A run has a worker at least.
    pub some_worker : 0 < workers_for config blocks s
    some_worker =
        let (valid, config_valid, few, blocks_are) =
          make_blocks-eq-ok kernel.spec config blocks made in
        let some_block =
          Tiles-some kernel.spec.total_scenarios blocks
            (make_blocks-Tiles kernel.spec config blocks made).0
            ((validate_iff kernel.spec).0 valid).common.some_scenarios in
        rw (started.none_yet_received, pending-all blocks)
          (ground (arith, worker_count_pos kernel.spec config config_valid))

    ids : (i : ℕ) (b : ScenarioBlock) → get_elem? blocks i ≡ some b → b.block_id ≡ i
    ids i b at = omega (
      arith,
      canonical-ids kernel.spec.total_scenarios config.block_size
          (block_count_of kernel.spec.total_scenarios config.block_size) 0 i b
          (subst (λ l. get_elem? l i ≡ some b) (make_blocks-eq-ok kernel.spec config blocks made).3
            at),
    )

    incarnations : (i : ℕ) (b : ScenarioBlock) → get_elem? blocks i ≡ some b → b.run_incarnation ≡ 0
    incarnations i b at =
        canonical-incarnations kernel.spec.total_scenarios config.block_size
          (block_count_of kernel.spec.total_scenarios config.block_size) 0 i b
          (subst (λ l. get_elem? l i ≡ some b) (make_blocks-eq-ok kernel.spec config blocks made).3
            at)

    started-IsRunOf :
        IsRunOf kernel blocks s.coordinator.run_spec_hash s.coordinator.execution_layout_hash
          s.coordinator.build_fingerprint s.coordinator
    started-IsRunOf = record {
      same_spec = refl;
      same_layout = refl;
      same_build = refl;
      incarnation = started.fresh.incarnation;
      same_rng = started.fresh.same_rng;
      same_schema = started.fresh.same_schema;
      same_antithetic = started.fresh.same_antithetic;
      same_blocks = started.fresh.same_blocks;
    }

    started-free : (j : ℕ) → committed_in (get_elem? s.coordinator.committed_payloads j) ≡ none
    started-free j = rw started.fresh.nothing_committed (none_committed (length blocks) j)

    started-IsFilled : IsFilled kernel blocks s
    started-IsFilled = record {
      leaves_fit = rw started.no_leaves (length-replicate (length blocks) empty_stats);
      received_fit = rw started.none_yet_received (length-replicate (length blocks) false);
      filled = λ i marked. absurd (
          none_received (length blocks) i
            (subst (λ l. get_elem? l i ≡ some true) started.none_yet_received marked));
    }

    pending_is : pending_blocks blocks s.received ≡ blocks
    pending_is = rw started.none_yet_received (pending-all blocks)

    module _ (leaves : List (AggregateStats D)) (aggregate : AggregateStats D)
        (computed : compute_all kernel blocks ≡ ok leaves)
        (reduced : reduce_block_results leaves ≡ ok aggregate)
        (valid : (b : ScenarioBlock) (a : AggregateStats D)
          → compute_block kernel b ≡ ok a
          → IsValid a) where
      -- The end of every execution of a started run.
      pub last-returns :
          (k : ℕ) (n : ℕ) (a : BoundedQueue ScenarioBlock) (c : BoundedQueue (BlockResult D))
          (last : System ScenarioBlock (BlockResult D) (Collected D))
          → IsNew a
          → IsNew c
          → 0 < n
          → Steps
              (ok tt)
              (block_result kernel s.coordinator.run_spec_hash s.coordinator.execution_layout_hash
                s.coordinator.build_fingerprint)
              collect
              (initial a c n (pending_blocks blocks s.received) s)
              k
              last
          → IsFinal
              (ok tt)
              (block_result kernel s.coordinator.run_spec_hash s.coordinator.execution_layout_hash
                s.coordinator.build_fingerprint)
              collect
              last
          → (last.shared.first_error ≡ none)
            × ((r : RunResult D) × (finish_run kernel.spec blocks n last.shared.store ≡ ok r)
                × (r.aggregate ≡ aggregate))
      last-returns k n a c last new_a new_c pos steps final =
          let v =
            (validate_iff kernel.spec).0 (make_blocks-eq-ok kernel.spec config blocks made).0 in
          let h1 = s.coordinator.run_spec_hash in
          let h2 = s.coordinator.execution_layout_hash in
          let h3 = s.coordinator.build_fingerprint in
          let filled =
            executed-IsFilled (ok tt) kernel h1 h2 h3 blocks n k s a c last new_a.empty new_c.empty
              ids started-IsFilled steps in
          let (no_error, every) =
            final-received kernel blocks h1 h2 h3 v.common.stats v.common.scenarios_fit valid ids
              incarnations (λ i b at. compute_all-each kernel blocks leaves i b computed at) s
              started-IsRunOf started-free started-IsFilled.received_fit a c n new_a new_c pos k
              last
              (subst
                (λ bs.
                  Steps (ok tt) (block_result kernel h1 h2 h3) collect (initial a c n bs s) k last)
                pending_is steps)
              final in
          let all =
            all_received-every last.shared.store.received
              (λ j lt. every j (omega (arith, filled.received_fit))) in
          let same_leaves : leaves ≡ last.shared.store.leaves = ok-inj (
            sym computed
            ∙ compute_all-lem kernel blocks last.shared.store.leaves filled.leaves_fit
                (λ i lt. filled.filled i (every i lt))) in
          (
            no_error,
            finish_run-returns blocks n last.shared.store aggregate all
                (subst (λ l. reduce_block_results l ≡ ok aggregate) same_leaves reduced),
          )
        where
          ok-inj : {A : Type 0} {x y : A} → ok x ≡ ok y → x ≡ y
          ok-inj e = cc
