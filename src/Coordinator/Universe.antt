-- ===== src/Coordinator/Universe.antt =====
-- The blocks of `make_blocks` are a block universe that `make_coordinator_state` takes.
use monte_carlo.Prelude.{
  ℕ, zero, suc, ◌+◌, ◌-◌, ◌*◌, ◌/◌, ◌%◌, ◌^◌, ◌<◌, ◌≤◌, ◌≡◌, ◌∙◌, ap, subst, arith, refl, List,
  length, min, Bool, true, false, none, ◌==◌, ◌!=◌, ◌&&◌, ◌||◌, leb, replicate,
}
use monte_carlo.Exception.{ok, Returns→ok}
use monte_carlo.Float64.{Float64}
use monte_carlo.RunSpec.{RunSpec, max_scenarios}
use monte_carlo.RunSpec.Valid.{validate_iff}
use monte_carlo.Hash.{Digest}
use monte_carlo.Layout.{
  ScenarioBlock, EngineConfig, block_count_of, canonical_blocks, make_blocks, add64,
}
use monte_carlo.Layout.Partition.{
  canonical_block_lem, count_lem, start-lt, length-canonical_blocks, make_blocks-eq-ok,
  block_size_pos, last-le, canonical_block-fields, config-even, canonical_blocks-suc,
  canonical_blocks-zero,
}
use monte_carlo.Codec.{run_spec_hash, execution_layout_hash}
use monte_carlo.Codec.Hashes.{run_spec_hash_total, execution_layout_hash_total}
use monte_carlo.Coordinator.{
  CoordinatorState, make_coordinator_state, check_universe, front_incarnation,
}

even-mul : (id size : ℕ) → size % 2 ≡ 0 → id * size % 2 ≡ 0
even-mul id size h =
    let e : size ≡ 2 * (size / 2) = omega arith in
    let e' : id * size ≡ id * (2 * (size / 2)) = ap (λ n. id * n) e in omega arith

canonical_guard : (x y z : ℕ) → y < z → (x != x || (y != y || (z != z || leb z y))) ≡ false
canonical_guard x y z h = ground arith

parity_guard :
    (a : Bool) (x y : ℕ)
    → (a ≡ true → (x % 2 ≡ 0) × (y % 2 ≡ 0))
    → (a && (x % 2 != 0 || y % 2 != 0)) ≡ false
parity_guard true x y h = let (p, q) = h refl in rw (p, q) refl
parity_guard false x y h = refl

module _ (total size : ℕ) (antithetic : Bool) (some_total : 1 ≤ total)
    (fits : total ≤ max_scenarios) (pos : 0 < size)
    (even : antithetic ≡ true → (size % 2 ≡ 0) × (total % 2 ≡ 0)) where
  check_universe-canonical :
      (n id : ℕ)
      → id + n ≡ 1 + (total - 1) / size
      → check_universe total size antithetic 0 id
          (min (id * size) total)
          (canonical_blocks total size n id)
        ≡ ok total
  unfolding check_universe
  check_universe-canonical zero id e =
      let over : id ≡ 1 + (total - 1) / size = omega arith in
      rw (canonical_blocks-zero total size id, over)
        (ap ok (omega (arith, last-le total size some_total fits pos)))
  check_universe-canonical (suc n) id e =
      let below : id ≤ (total - 1) / size = omega arith in
      let (starts, ends) = canonical_block_lem total size some_total fits pos id below in
      let lt : id * size < total = start-lt total size some_total fits pos id below in
      let rest = check_universe-canonical n (id + 1) (omega arith) in
      let (numbered, incarnation, lease) = canonical_block-fields total size id in
      let here : min (id * size) total ≡ id * size = omega arith in
      let length64 : (total + 2 ^ 64 - id * size) % 2 ^ 64 ≡ total - id * size = omega arith in
      let next : add64 (id * size) (min size (total - id * size)) ≡ min ((id + 1) * size) total =
        omega arith in
      rw
        (
          canonical_blocks-suc total size n id,
          here,
          numbered,
          starts,
          ends,
          incarnation,
          lease,
          length64,
          next,
          rest,
        )
        (rw
          (
            canonical_guard id (id * size) (min ((id + 1) * size) total) (omega arith),
            parity_guard antithetic (id * size) (min ((id + 1) * size) total) (λ a.
                let (size_even, total_even) = even a in
                (even-mul id size size_even, omega (arith, even-mul (id + 1) size size_even))),
          )
          refl)

front_incarnation-canonical :
    (total size n id : ℕ) → front_incarnation (canonical_blocks total size n id) ≡ 0
unfolding front_incarnation
front_incarnation-canonical total size zero id = rw (canonical_blocks-zero total size id) refl
front_incarnation-canonical total size (suc n) id =
    rw (canonical_blocks-suc total size n id) ((canonical_block-fields total size id).1)

module _ {D : Type 0} ⦃fp : Float64 D⦄ (build_hash : Digest) (spec : RunSpec D)
    (config : EngineConfig) where
  -- What `make_coordinator_state` makes of the blocks of a run.
  pub record IsFresh (blocks : List ScenarioBlock) (s : CoordinatorState) : Type 0 where
    pub same_spec : run_spec_hash spec ≡ ok s.run_spec_hash
    pub same_layout : execution_layout_hash spec config ≡ ok s.execution_layout_hash
    pub same_build : s.build_fingerprint ≡ build_hash
    pub incarnation : s.run_incarnation ≡ 0
    pub same_rng : s.rng_version ≡ spec.rng_version
    pub same_schema : s.stats_schema_version ≡ spec.stats_schema_version
    pub same_antithetic : s.antithetic ≡ spec.antithetic
    pub same_blocks : s.blocks ≡ blocks
    pub nothing_committed : s.committed_payloads ≡ replicate (length blocks) none

  -- Every block universe that `make_blocks` makes is taken by `make_coordinator_state`, whose
  -- state has the identities of the run, the blocks, and nothing committed for any of them.
  pub make_coordinator_state-make_blocks :
      (blocks : List ScenarioBlock)
      → make_blocks spec config ≡ ok blocks
      → (s : CoordinatorState) × (make_coordinator_state build_hash spec config blocks ≡ ok s)
        × IsFresh blocks s
  unfolding make_coordinator_state
  make_coordinator_state-make_blocks blocks h =
      let (valid, config_valid, few, blocks_are) = make_blocks-eq-ok spec config blocks h in
      let v = (validate_iff spec).0 valid in
      let total = spec.total_scenarios in
      let size = config.block_size in
      let pos = block_size_pos spec config config_valid in
      let some_total = v.common.some_scenarios in
      let fits = v.common.scenarios_fit in
      let count = block_count_of total size in
      let count_is : count ≡ 1 + (total - 1) / size = count_lem total size some_total fits pos in
      let covered =
        check_universe-canonical total size spec.antithetic some_total fits pos
          (λ a. (config-even spec config config_valid a, v.common.even a)) count 0
          (omega (arith, count_is)) in
      let (spec_hash, hashed) = Returns→ok (run_spec_hash spec) (run_spec_hash_total spec valid) in
      let (layout_hash, layout_hashed) =
        Returns→ok (execution_layout_hash spec config)
          (execution_layout_hash_total spec config valid config_valid few) in
      let at_zero : min (0 * size) total ≡ 0 = omega arith in
      let long : length blocks ≡ count =
        ap (λ (l : List ScenarioBlock). length l) blocks_are
        ∙ length-canonical_blocks total size count 0 in
      let front : front_incarnation blocks ≡ 0 =
        rw blocks_are (front_incarnation-canonical total size count 0) in
      let whole : check_universe total size spec.antithetic 0 0 0 blocks ≡ ok total =
        rw blocks_are (
          subst
            (λ i.
              check_universe total size spec.antithetic 0 0 i (canonical_blocks total size count 0)
              ≡ ok total)
            at_zero covered) in
      let right_size : (length blocks != count) ≡ false = ground arith in
      let some_block : (length blocks == 0) ≡ false = ground arith in
      let to_the_end : (total != total) ≡ false = ground arith in
      (
        record {
          run_spec_hash = spec_hash;
          execution_layout_hash = layout_hash;
          build_fingerprint = build_hash;
          run_incarnation = 0;
          rng_version = spec.rng_version;
          stats_schema_version = spec.stats_schema_version;
          antithetic = spec.antithetic;
          blocks = blocks;
          committed_payloads = replicate (length blocks) none;
        },
        rw
            (
              valid, config_valid, right_size, some_block, front, whole, to_the_end, hashed,
              layout_hashed,
            )
            refl,
        record {
          same_spec = hashed;
          same_layout = layout_hashed;
          same_build = refl;
          incarnation = refl;
          same_rng = refl;
          same_schema = refl;
          same_antithetic = refl;
          same_blocks = refl;
          nothing_committed = refl;
        },
      )
