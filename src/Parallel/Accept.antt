-- ===== src/Parallel/Accept.antt =====
-- The coordinator of `run_parallel` takes each result that its workers build, once.
use monte_carlo.Prelude.{
  ℕ, ◌≤◌, ◌<◌, ◌≡◌, ◌≢◌, ◌∙◌, sym, ap, subst, arith, refl, List, [], ◌∷◌, true, not, none, some,
  Option, ◌==◌, if◌then◌else◌, length, set, get_elem?, get_elem?-set_self, get_elem?-set_ne,
  length-set, Bool-cases, inl, inr, total, ◌⊎◌,
}
use monte_carlo.Exception.{ok, >>=-eq-ok, throw_if-eq-ok}
use monte_carlo.Float64.{Float64}
use monte_carlo.RunSpec.{max_scenarios}
use monte_carlo.Aggregate.{AggregateStats}
use monte_carlo.Aggregate.Merge.{IsValid}
use monte_carlo.Hash.{Digest, sha256}
use monte_carlo.Layout.{ScenarioBlock, BlockResult}
use monte_carlo.Codec.{aggregate_payload_hash, aggregate_bytes}
use monte_carlo.Codec.Hashes.{aggregate_payload_hash_lem}
use monte_carlo.Coordinator.{
  CoordinatorState, Validation, commit_result, is_accepted, after_commit, committed_in,
}
use monte_carlo.Coordinator.Commit.{commit_result-accepts, commit_result-eq-ok}
use monte_carlo.Execute.Trace.{consume_all}
use monte_carlo.Parallel.{Kernel, Collected, compute_block, block_result, collect}
use monte_carlo.Parallel.Leaves.{IsListed, IsComputed, entered}
use monte_carlo.Parallel.Observe.{compute_block-n}

-- 1 for the block `j`, else 0.
abbrev pub only : ℕ → ScenarioBlock → ℕ
only j b = if b.block_id == j then 1 else 0

module _ {D : Type 0} ⦃fp : Float64 D⦄ (kernel : Kernel D) (blocks : List ScenarioBlock)
    (h1 h2 h3 : Digest) where
  -- A result as a worker of the run builds it.
  pub record IsResult (r : BlockResult D) : Type 0 where
    pub computed : IsComputed kernel blocks r
    pub same_spec : r.run_spec_hash ≡ h1
    pub same_layout : r.execution_layout_hash ≡ h2
    pub same_build : r.build_fingerprint ≡ h3
    pub same_rng : r.rng_version ≡ kernel.spec.rng_version
    pub same_schema : r.stats_schema_version ≡ kernel.spec.stats_schema_version
    pub valid : IsValid r.aggregate
    pub own_checksum : r.payload_checksum ≡ sha256 (aggregate_bytes r.aggregate 1)

  -- The coordinator of the run, whatever it has committed.
  pub record IsRunOf (s : CoordinatorState) : Type 0 where
    pub same_spec : s.run_spec_hash ≡ h1
    pub same_layout : s.execution_layout_hash ≡ h2
    pub same_build : s.build_fingerprint ≡ h3
    pub incarnation : s.run_incarnation ≡ 0
    pub same_rng : s.rng_version ≡ kernel.spec.rng_version
    pub same_schema : s.stats_schema_version ≡ kernel.spec.stats_schema_version
    pub same_antithetic : s.antithetic ≡ kernel.spec.antithetic
    pub same_blocks : s.blocks ≡ blocks

  abbrev slot : Collected D → ℕ → Option Digest
  slot s j = committed_in (get_elem? s.coordinator.committed_payloads j)

  -- What `collect` has done when it returns.
  collect-eq-ok :
      (s s' : Collected D) (r : BlockResult D)
      → collect s r ≡ ok s'
      → (v : Validation) × (s'.coordinator ≡ after_commit r v s.coordinator)
        × (s'.received ≡ set s.received r.block.block_id true)
  unfolding collect
  collect-eq-ok s s' r e =
      let (p, committed, e') = >>=-eq-ok (commit_result r s.coordinator) _ e in
      let (accepted_, e'') = throw_if-eq-ok (not (is_accepted p.0.status)) _ _ e' in
      let (validated, state_is) = commit_result-eq-ok r s.coordinator p.1 p.0 committed in
      let coordinator_is : p.1 ≡ s'.coordinator = cc in
      let received_is : set s.received r.block.block_id true ≡ s'.received = cc in
      (p.0, sym coordinator_is ∙ state_is, sym received_is)

  after_commit-IsRunOf :
      (r : BlockResult D) (v : Validation) (s : CoordinatorState)
      → IsRunOf s
      → IsRunOf (after_commit r v s)
  after_commit-IsRunOf r v s h = elim (Bool-cases (is_accepted v.status)) [
    | inl e ↦ rw e (record {
      same_spec = h.same_spec;
      same_layout = h.same_layout;
      same_build = h.same_build;
      incarnation = h.incarnation;
      same_rng = h.same_rng;
      same_schema = h.same_schema;
      same_antithetic = h.same_antithetic;
      same_blocks = h.same_blocks;
    })
    | inr e ↦ rw e h
  ]

  after_commit-slot :
      (r : BlockResult D) (v : Validation) (s : CoordinatorState) (j : ℕ)
      → only j r.block ≡ 0
      → get_elem? (after_commit r v s).committed_payloads j ≡ get_elem? s.committed_payloads j
  after_commit-slot r v s j other = elim (Bool-cases (is_accepted v.status)) [
    | inl e ↦ rw e (
        get_elem?-set_ne s.committed_payloads r.block.block_id j (some r.payload_checksum)
          (λ same. ground arith))
    | inr e ↦ rw e refl
  ]

  -- The results so far leave alone the slots of the other blocks.
  pub collected-slot :
      (s s' : Collected D) (rs : List (BlockResult D)) (j : ℕ)
      → consume_all collect s rs ≡ ok s'
      → IsRunOf s.coordinator
      → IsRunOf s'.coordinator
        × (total (λ r. only j r.block) rs ≡ 0
            → get_elem? s'.coordinator.committed_payloads j
              ≡ get_elem? s.coordinator.committed_payloads j)
  collected-slot s s' [] j e h = let same : s ≡ s' = cc in rw (← same) (h, λ k. refl)
  collected-slot s s' (r ∷ rs) j e h =
      let (mid, first, later) = >>=-eq-ok (collect s r) _ e in
      let (v, state_is, received_is) = collect-eq-ok s mid r first in
      let run : IsRunOf mid.coordinator = rw state_is (after_commit-IsRunOf r v s.coordinator h) in
      let (run', slots) = collected-slot mid s' rs j later run in
      (
        run',
        λ k.
            slots (omega arith)
            ∙ ap (λ (c : CoordinatorState). get_elem? c.committed_payloads j) state_is
            ∙ after_commit-slot r v s.coordinator j (omega arith),
      )

  -- What is received stays so, and each result marks its own block.
  pub collected-received :
      (s s' : Collected D) (rs : List (BlockResult D)) (j : ℕ)
      → consume_all collect s rs ≡ ok s'
      → j < length s.received
      → (get_elem? s.received j ≡ some true) ⊎ (1 ≤ total (λ r. only j r.block) rs)
      → get_elem? s'.received j ≡ some true
  collected-received s s' [] j e lt h =
      let same : s ≡ s' = cc in
      rw (← same) (elim h [ inl marked ↦ marked | inr some_result ↦ absurd (omega arith) ])
  collected-received s s' (r ∷ rs) j e lt h =
      let (mid, first, later) = >>=-eq-ok (collect s r) _ e in
      let (v, state_is, received_is) = collect-eq-ok s mid r first in
      let lt' : j < length mid.received =
        rw received_is (omega (arith, length-set s.received r.block.block_id true)) in
      collected-received mid s' rs j later lt' (elim (Bool-cases (r.block.block_id == j)) [
        | inl same ↦
            let at : r.block.block_id ≡ j = ground arith in
            inl (rw (received_is, at) (get_elem?-set_self s.received j true lt))
        | inr other ↦
            let ne : r.block.block_id ≢ j = λ w. ground arith in
            let kept = get_elem?-set_ne s.received r.block.block_id j true ne in
            elim h [
              | inl marked ↦ inl (rw received_is (kept ∙ marked))
              | inr some_result ↦ inr (ground arith)
            ]
      ])

  -- The coordinator takes a result of the run for a block that has nothing committed.
  pub collect-accepts :
      (s : Collected D) (r : BlockResult D)
      → kernel.spec.stats_schema_version ≡ 1
      → kernel.spec.total_scenarios ≤ max_scenarios
      → r.block.run_incarnation ≡ 0
      → IsRunOf s.coordinator
      → IsResult r
      → committed_in (get_elem? s.coordinator.committed_payloads r.block.block_id) ≡ none
      → (s' : Collected D) × (collect s r ≡ ok s')
  unfolding collect
  collect-accepts s r schema fits first_run run result free =
      let (v, committed, status) =
        commit_result-accepts r s.coordinator (run.same_schema ∙ schema) (record {
          same_spec = result.same_spec ∙ sym run.same_spec;
          same_layout = result.same_layout ∙ sym run.same_layout;
          same_build = result.same_build ∙ sym run.same_build;
          same_incarnation = first_run ∙ sym run.incarnation;
          same_rng = result.same_rng ∙ sym run.same_rng;
          same_schema = result.same_schema ∙ sym run.same_schema;
          expected = r.block;
          known_block =
              subst (λ bs. get_elem? bs r.block.block_id ≡ some r.block) (sym run.same_blocks)
                result.computed.0;
          same_start = refl;
          same_end = refl;
          same_count =
              rw run.same_antithetic
                (compute_block-n kernel r.block r.aggregate fits result.computed.1);
          valid_aggregate = result.valid;
          own_checksum = result.own_checksum;
          uncommitted = free;
          same_lease = refl;
        }) in
      (entered s r (after_commit r v s.coordinator), rw (committed, status) refl)

  module _ (schema : kernel.spec.stats_schema_version ≡ 1)
      (valid : (b : ScenarioBlock) (a : AggregateStats D)
        → compute_block kernel b ≡ ok a
        → IsValid a) where
    -- What a worker builds of an aggregate.
    abbrev built : ℕ → ScenarioBlock → AggregateStats D → Digest → BlockResult D
    built worker b a checksum = record {
      block = b;
      aggregate = a;
      run_spec_hash = h1;
      execution_layout_hash = h2;
      build_fingerprint = h3;
      payload_checksum = checksum;
      rng_version = kernel.spec.rng_version;
      stats_schema_version = kernel.spec.stats_schema_version;
      worker_id = worker;
    }

    hash_lem :
        (b : ScenarioBlock) (a : AggregateStats D)
        → compute_block kernel b ≡ ok a
        → aggregate_payload_hash a kernel.spec.stats_schema_version
          ≡ ok (sha256 (aggregate_bytes a 1))
    hash_lem b a computed = rw schema (aggregate_payload_hash_lem a (valid b a computed))

    ok-inj : {A : Type 0} {x y : A} → ok x ≡ ok y → x ≡ y
    ok-inj e = cc

    pub block_result-IsResult :
        (i : ℕ) (b : ScenarioBlock) (r : BlockResult D)
        → IsListed kernel blocks b
        → block_result kernel h1 h2 h3 i b ≡ ok r
        → IsResult r
    unfolding block_result
    block_result-IsResult i b r listed e =
        let (a, computed, e') = >>=-eq-ok (compute_block kernel b) _ e in
        let (checksum, hashed, e'') =
          >>=-eq-ok (aggregate_payload_hash a kernel.spec.stats_schema_version) _ e' in
        let same : built i b a checksum ≡ r = cc in
        subst IsResult same (record {
          computed = (listed, computed);
          same_spec = refl;
          same_layout = refl;
          same_build = refl;
          same_rng = refl;
          same_schema = refl;
          valid = valid b a computed;
          own_checksum = ok-inj (sym hashed ∙ hash_lem b a computed);
        })

    -- A worker builds a result for each block that can be computed.
    pub block_result-total :
        (i : ℕ) (b : ScenarioBlock) (a : AggregateStats D)
        → compute_block kernel b ≡ ok a
        → (r : BlockResult D) × (block_result kernel h1 h2 h3 i b ≡ ok r) × (r.block ≡ b)
    unfolding block_result
    block_result-total i b a computed = (
      built i b a (sha256 (aggregate_bytes a 1)),
      rw (computed, hash_lem b a computed) refl,
      refl,
    )
