-- ===== src/Parallel/Sequential.antt =====
-- `run_parallel` of src/runtime/engine.cpp against a run without threads, whatever the
-- interleaving.
use monte_carlo.Prelude.{
  ℕ, zero, suc, ◌<◌, ◌≡◌, ◌≢◌, ◌∙◌, sym, subst, arith, refl, List, [], ◌∷◌, Bool, true, false, not,
  none, some, Option, length, get_elem?, replicate, All, length-replicate,
}
use monte_carlo.Exception.{Result, ok, err, Exception, >>=-eq-ok, throw_if-eq-ok}
use monte_carlo.Float64.{Float64}
use monte_carlo.Aggregate.{empty_stats}
use monte_carlo.Hash.{Digest}
use monte_carlo.Layout.{ScenarioBlock, BlockResult, EngineConfig, make_blocks, block_count_of}
use monte_carlo.Layout.Partition.{make_blocks-eq-ok, canonical-ids}
use monte_carlo.Reduce.{reduce_block_results}
use monte_carlo.Coordinator.{make_coordinator_state}
use monte_carlo.Queue.{BoundedQueue, make_queue}
use monte_carlo.Execute.{System, Steps, initial, WorkerPc, starting, capacity_of}
use monte_carlo.Execute.Trace.{Steps-store, Steps-Meets}
use monte_carlo.Parallel.{
  Kernel, Collected, RunResult, RunParallel, not_started, executed, pending_blocks, all_received,
  block_result, collect, start_run, finish_run, threads, workers_for,
}
use monte_carlo.Parallel.Leaves.{
  compute_all-lem, run_sequential, run_sequential_lem, IsListed, IsComputed, IsFilled,
  block_result-IsComputed, collected-IsFilled,
}

All-pending :
    (P : ScenarioBlock → Type 0) (blocks : List ScenarioBlock) (received : List Bool)
    → ((i : ℕ) (b : ScenarioBlock) → get_elem? blocks i ≡ some b → P b)
    → All P (pending_blocks blocks received)
All-pending P [] received h = tt
All-pending P (b ∷ bs) [] h = tt
All-pending P (b ∷ bs) (true ∷ rs) h = All-pending P bs rs (λ i c at. h (suc i) c at)
All-pending P (b ∷ bs) (false ∷ rs) h = (h 0 b refl, All-pending P bs rs (λ i c at. h (suc i) c at))

pub all_received-lem :
    (received : List Bool) (i : ℕ)
    → all_received received ≡ true
    → i < length received
    → get_elem? received i ≡ some true
all_received-lem [] i h lt = absurd (omega arith)
all_received-lem (true ∷ rs) zero h lt = refl
all_received-lem (false ∷ rs) i h lt = cc
all_received-lem (true ∷ rs) (suc i) h lt = all_received-lem rs i h (omega arith)

pub none_received : (n i : ℕ) → ◌≢◌ {A = Option Bool} (get_elem? (replicate n false) i) (some true)
none_received zero i h = cc
none_received (suc n) zero h = cc
none_received (suc n) (suc i) h = none_received n i h

All-starting :
    {D : Type 0} (P : WorkerPc ScenarioBlock (BlockResult D) → Type 0) (n : ℕ)
    → P starting
    → All P (replicate n starting)
All-starting P zero h = tt
All-starting P (suc n) h = (h, All-starting P n h)

module _ {D : Type 0} ⦃fp : Float64 D⦄ (begin : Result (Unit {0})) (kernel : Kernel D) where
  -- A system that has made its moves holds only leaves of its blocks.
  pub executed-IsFilled :
      (h1 h2 h3 : Digest) (blocks : List ScenarioBlock) (n k : ℕ) (s : Collected D)
      (assignments : BoundedQueue ScenarioBlock) (completions : BoundedQueue (BlockResult D))
      (last : System ScenarioBlock (BlockResult D) (Collected D))
      → assignments.items ≡ []
      → completions.items ≡ []
      → ((i : ℕ) (b : ScenarioBlock) → get_elem? blocks i ≡ some b → b.block_id ≡ i)
      → IsFilled kernel blocks s
      → Steps begin
          (block_result kernel h1 h2 h3)
          collect
          (initial assignments completions n (pending_blocks blocks s.received) s)
          k
          last
      → IsFilled kernel blocks last.shared.store
  executed-IsFilled h1 h2 h3 blocks n k s a c last empty_a empty_c ids filled steps =
      let work = block_result kernel h1 h2 h3 in
      let first = initial a c n (pending_blocks blocks s.received) s in
      let (meets, workers) =
        Steps-Meets begin work collect (IsListed kernel blocks) (IsComputed kernel blocks)
          (block_result-IsComputed kernel blocks h1 h2 h3) first last k steps
          (record {
            assignments = rw empty_a tt;
            completions = rw empty_c tt;
            scheduler =
                All-pending (IsListed kernel blocks) blocks s.received
                  (λ i b at. subst (λ j. get_elem? blocks j ≡ some b) (sym (ids i b at)) at);
            coordinator = tt;
            consumed = tt;
          })
          (All-starting _ n tt) in
      collected-IsFilled kernel blocks s last.shared.store last.shared.consumed meets.consumed
        (Steps-store begin work collect s first last k steps refl) filled

  finish_run-eq-ok :
      (blocks : List ScenarioBlock) (workers : ℕ) (s : Collected D) (r : RunResult D)
      → finish_run kernel.spec blocks workers s ≡ ok r
      → (all_received s.received ≡ true) × (reduce_block_results s.leaves ≡ ok r.aggregate)
  unfolding finish_run
  finish_run-eq-ok blocks workers s r h =
      let (all, h') = throw_if-eq-ok (not (all_received s.received)) _ _ h in
      let (aggregate, reduced, h'') = >>=-eq-ok (reduce_block_results s.leaves) _ h' in
      (ground arith, reduced ∙ ground arith)

  start_run-eq-ok :
      (build_hash : Digest) (config : EngineConfig) (blocks : List ScenarioBlock) (s : Collected D)
      → start_run build_hash kernel.spec config ≡ ok (blocks, s)
      → (make_blocks kernel.spec config ≡ ok blocks)
        × (s.leaves ≡ replicate (length blocks) empty_stats)
        × (s.received ≡ replicate (length blocks) false)
  unfolding start_run
  start_run-eq-ok build_hash config blocks s h =
      let (blocks', made, h') = >>=-eq-ok (make_blocks kernel.spec config) _ h in
      let (c, fresh, h'') =
        >>=-eq-ok (make_coordinator_state build_hash kernel.spec config blocks') _ h' in
      let same : blocks' ≡ blocks = cc in
      let leaves : s.leaves ≡ replicate (length blocks') empty_stats = cc in
      let received : s.received ≡ replicate (length blocks') false = cc in
      rw (← same) (made, leaves, received)

  threads-eq-ok :
      (config : EngineConfig) (blocks : List ScenarioBlock) (s : Collected D) (n : ℕ)
      (first : System ScenarioBlock (BlockResult D) (Collected D))
      → threads config blocks s n ≡ ok first
      → (a : BoundedQueue ScenarioBlock) × (c : BoundedQueue (BlockResult D)) × (a.items ≡ [])
        × (c.items ≡ [])
        × (initial a c n (pending_blocks blocks s.received) s ≡ first)
  threads-eq-ok config blocks s n first h =
      let (a, made_a, h') =
        >>=-eq-ok (make_queue (capacity_of config.assignment_queue_capacity n)) _ h in
      let (c, made_c, h'') =
        >>=-eq-ok (make_queue (capacity_of config.completion_queue_capacity n)) _ h' in
      (a, c, make_queue-empty _ a made_a, make_queue-empty _ c made_c, ok-inj h'')
    where
      ok-inj : {A : Type 0} {x y : A} → ok x ≡ ok y → x ≡ y
      ok-inj e = cc

      make_queue-empty :
          {A : Type 0} (capacity : ℕ) (q : BoundedQueue A)
          → make_queue capacity ≡ ok q
          → q.items ≡ []
      make_queue-empty capacity q h = ground arith

  sequential-leaves :
      (config : EngineConfig) (blocks : List ScenarioBlock) (s : Collected D) (workers : ℕ)
      (r : RunResult D)
      → make_blocks kernel.spec config ≡ ok blocks
      → IsFilled kernel blocks s
      → finish_run kernel.spec blocks workers s ≡ ok r
      → run_sequential kernel config ≡ ok r.aggregate
  sequential-leaves config blocks s workers r made filled h =
      let (all, reduced) = finish_run-eq-ok blocks workers s r h in
      let computed = compute_all-lem kernel blocks s.leaves filled.leaves_fit (λ i lt.
        filled.filled i (all_received-lem s.received i all (omega (arith, filled.received_fit)))) in
      run_sequential_lem kernel config blocks s.leaves made computed ∙ reduced

  -- Whatever the number of workers, the capacities of the queues and the interleaving of the
  -- threads: when a parallel run returns, its aggregate is the one of the run that computes the
  -- blocks one after the other and reduces them.
  pub RunParallel-sequential :
      (build_hash : Digest) (config : EngineConfig) (r : RunResult D)
      → RunParallel begin kernel build_hash config (ok r)
      → run_sequential kernel config ≡ ok r.aggregate
  RunParallel-sequential build_hash config r (not_started e failed thrown) = cc
  RunParallel-sequential build_hash config r
        (executed blocks s first last k started made steps final outcome) =
      let (cut, leaves_are, received_are) = start_run-eq-ok build_hash config blocks s started in
      let (a, c, empty_a, empty_c, first_is) =
        threads-eq-ok config blocks s (workers_for config blocks s) first made in
      let filled =
        executed-IsFilled s.coordinator.run_spec_hash s.coordinator.execution_layout_hash
          s.coordinator.build_fingerprint blocks (workers_for config blocks s) k s a c last empty_a
          empty_c
          (λ i b at. omega (
            arith,
            canonical-ids kernel.spec.total_scenarios config.block_size
                (block_count_of kernel.spec.total_scenarios config.block_size) 0 i b
                (subst (λ l. get_elem? l i ≡ some b)
                  (make_blocks-eq-ok kernel.spec config blocks cut).3 at),
          ))
          (record {
            leaves_fit = rw leaves_are (length-replicate (length blocks) empty_stats);
            received_fit = rw received_are (length-replicate (length blocks) false);
            filled = λ i marked. absurd (
                none_received (length blocks) i
                  (subst (λ l. get_elem? l i ≡ some true) received_are marked));
          })
          (rw first_is steps) in
      returned config blocks (workers_for config blocks s) last.shared.store r
        last.shared.first_error (sym outcome) filled cut
    where
      returned :
          (config : EngineConfig) (blocks : List ScenarioBlock) (workers : ℕ) (t : Collected D)
          (r : RunResult D) (error : Option Exception)
          → (elim error [ none ↦ finish_run kernel.spec blocks workers t | some e ↦ err e ]) ≡ ok r
          → IsFilled kernel blocks t
          → make_blocks kernel.spec config ≡ ok blocks
          → run_sequential kernel config ≡ ok r.aggregate
      returned config blocks workers t r none h filled made =
          sequential-leaves config blocks t workers r made filled h
      returned config blocks workers t r (some e) h filled made = cc
