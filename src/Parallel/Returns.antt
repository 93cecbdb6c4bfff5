-- ===== src/Parallel/Returns.antt =====
-- `run_parallel` of src/runtime/engine.cpp returns whenever the blocks can be computed.
use monte_carlo.Prelude.{ℕ, ◌≡◌, ◌≢◌, ◌∙◌, sym, subst, List, none}
use monte_carlo.Exception.{Result, ok, err, Exception}
use monte_carlo.Float64.{Float64}
use monte_carlo.Aggregate.{AggregateStats}
use monte_carlo.Aggregate.Merge.{IsValid}
use monte_carlo.Reduce.{reduce_block_results}
use monte_carlo.Hash.{Digest}
use monte_carlo.Layout.{ScenarioBlock, BlockResult, EngineConfig, make_blocks}
use monte_carlo.Execute.{System, Steps, none_yet, initial}
use monte_carlo.Execute.Progress.{IsFinal}
use monte_carlo.Execute.Finish.{execution_ends}
use monte_carlo.Parallel.{
  Kernel, Collected, RunResult, RunParallel, not_started, executed, compute_block, block_result,
  collect, start_run, finish_run, threads, workers_for, pending_blocks,
}
use monte_carlo.Parallel.Leaves.{run_sequential, run_sequential-eq-ok, compute_all}
use monte_carlo.Parallel.Started.{
  IsStarted, start_run-IsStarted, threads-IsNew, some_worker, last-returns,
}

module _ {D : Type 0} ⦃fp : Float64 D⦄ (kernel : Kernel D) (build_hash : Digest)
    (config : EngineConfig) where
  -- What a started run has, for the pair that `start_run` returns.
  abbrev Begun : List (AggregateStats D) → List ScenarioBlock × Collected D → Type 0
  Begun leaves p =
      (make_blocks kernel.spec config ≡ ok p.0)
      × IsStarted kernel build_hash config p.0 p.1
      × (compute_all kernel p.0 ≡ ok leaves)

  returned-inj : {A : Type 0} {x y : A} → ok x ≡ ok y → x ≡ y
  returned-inj e = cc

  module _ (aggregate : AggregateStats D)
      (sequential : run_sequential kernel config ≡ ok aggregate) where
    begun :
        (leaves : List (AggregateStats D)) × ((p : List ScenarioBlock × Collected D) × (start_run
              build_hash kernel.spec config
            ≡ ok p)
          × Begun leaves p)
        × (reduce_block_results leaves ≡ ok aggregate)
    begun =
        let (blocks, leaves, made, computed, reduced) =
          run_sequential-eq-ok kernel config aggregate sequential in
        let (s, start, started) = start_run-IsStarted kernel build_hash config blocks made in
        (leaves, ((blocks, s), start, (made, started, computed)), reduced)

    module _
        (valid : (b : ScenarioBlock) (a : AggregateStats D)
          → compute_block kernel b ≡ ok a
          → IsValid a) where
      executed-returns :
          (blocks : List ScenarioBlock) (s : Collected D)
          (first last : System ScenarioBlock (BlockResult D) (Collected D)) (k : ℕ)
          → start_run build_hash kernel.spec config ≡ ok (blocks, s)
          → threads config blocks s (workers_for config blocks s) ≡ ok first
          → Steps
              (ok tt)
              (block_result kernel s.coordinator.run_spec_hash s.coordinator.execution_layout_hash
                s.coordinator.build_fingerprint)
              collect
              first
              k
              last
          → IsFinal
              (ok tt)
              (block_result kernel s.coordinator.run_spec_hash s.coordinator.execution_layout_hash
                s.coordinator.build_fingerprint)
              collect
              last
          → (last.shared.first_error ≡ none)
            × ((r : RunResult D) × (finish_run kernel.spec blocks
                    (workers_for config blocks s)
                    last.shared.store
                  ≡ ok r)
                × (r.aggregate ≡ aggregate))
      executed-returns blocks s first last k start made_threads steps final =
          let (leaves, (p, start', has), reduced) = begun in
          let (made, started, computed) =
            subst (Begun leaves) (returned-inj (sym start' ∙ start)) has in
          let (a, c, new_a, new_c, made_threads') =
            threads-IsNew kernel build_hash config blocks s (workers_for config blocks s) in
          let first_is = returned-inj (sym made_threads ∙ made_threads') in
          last-returns kernel build_hash config blocks s made started leaves aggregate computed
            reduced valid k (workers_for config blocks s) a c last new_a new_c
            (some_worker kernel build_hash config blocks s made started)
            (subst
              (λ f.
                Steps (ok tt)
                  (block_result kernel s.coordinator.run_spec_hash
                    s.coordinator.execution_layout_hash s.coordinator.build_fingerprint)
                  collect f k last)
              first_is steps)
            final

      -- If the blocks can be computed and reduced one after the other, every aggregate that
      -- `compute_block` returns meets its invariant, whatever the block, and the kernels can be
      -- made, then every interleaving of a parallel run returns the same aggregate: no result is
      -- rejected, and no block is missing at the end.
      pub RunParallel-returns :
          (outcome : Result (RunResult D))
          → RunParallel (ok tt) kernel build_hash config outcome
          → (r : RunResult D) × (outcome ≡ ok r) × (r.aggregate ≡ aggregate)
      RunParallel-returns outcome (not_started e failed thrown) =
          let (leaves, (p, start, has), reduced) = begun in
          absurd (ok-ne-err p e (sym start ∙ failed))
        where
          ok-ne-err : {A : Type 0} (x : A) (e : Exception) → ok x ≢ err e
          ok-ne-err x e h = cc
      RunParallel-returns outcome (executed blocks s first last k start made steps final ends) =
          let (no_error, (r, finished_, same)) =
            executed-returns blocks s first last k start made steps final in
          (r, rw (ends, no_error) finished_, same)

      -- If the blocks can be computed and reduced one after the other, every aggregate that
      -- `compute_block` returns meets its invariant, whatever the block, and the kernels can be
      -- made, then some interleaving of a parallel run returns, with the same aggregate.
      pub RunParallel-ends :
          (r : RunResult D) × RunParallel (ok tt) kernel build_hash config (ok r)
          × (r.aggregate ≡ aggregate)
      RunParallel-ends =
          let (leaves, ((blocks, s), start, (made, started, computed)), reduced) = begun in
          let n = workers_for config blocks s in
          let (a, c, new_a, new_c, made_threads) =
            threads-IsNew kernel build_hash config blocks s n in
          let work =
            block_result kernel s.coordinator.run_spec_hash s.coordinator.execution_layout_hash
              s.coordinator.build_fingerprint in
          let first = initial a c n (pending_blocks blocks s.received) s in
          let (few, (k, last, steps, final)) =
            execution_ends (ok tt) work collect a c n (pending_blocks blocks s.received) s new_a
              new_c (some_worker kernel build_hash config blocks s made started) 0 first none_yet in
          let (no_error, (r, finished_, same)) =
            executed-returns blocks s first last k start made_threads steps final in
          (
            r,
            executed blocks s first last k start made_threads steps final
                (rw no_error (sym finished_)),
            same,
          )
