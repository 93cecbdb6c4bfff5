-- ===== src/Coordinator/Classify.antt =====
-- Which results `validate_result` accepts, and that it always classifies.
use monte_carlo.Prelude.{
  ℕ, ◌+◌, ◌-◌, ◌/◌, ◌%◌, ◌^◌, ◌<◌, ◌≤◌, if◌then◌else◌, ◌≡◌, ◌↔◌, arith, refl, List, Bool, true,
  false, Option, none, some, bytes_eq, bytes_eq→eq, bytes_eq_refl, get_elem?, sym, ◌∙◌,
}
use monte_carlo.Exception.{ok, Returns, what}
use monte_carlo.Float64.{Float64}
use monte_carlo.Aggregate.{AggregateStats, invariant_error}
use monte_carlo.Aggregate.Merge.{IsValid, invariant_error_iff}
use monte_carlo.Hash.{Digest, sha256}
use monte_carlo.Layout.{ScenarioBlock, BlockResult}
use monte_carlo.Codec.{aggregate_payload_hash, aggregate_bytes}
use monte_carlo.Codec.Hashes.{aggregate_payload_hash_lem}
use monte_carlo.Coordinator.{
  CoordinatorState, Validation, accepted, validate_result, classify_block, classify_payload,
  classify_committed, expected_observations, range_mismatch, committed_in,
}

pub expected_observations_lem :
    (antithetic : Bool) (b : ScenarioBlock)
    → b.start_scenario ≤ b.end_scenario
    → b.end_scenario < 2 ^ 64
    → expected_observations antithetic b ≡ (
        if antithetic
        then (b.end_scenario - b.start_scenario) / 2
        else b.end_scenario - b.start_scenario)
unfolding expected_observations
expected_observations_lem antithetic b h k =
    let e : (b.end_scenario + 2 ^ 64 - b.start_scenario) % 2 ^ 64
        ≡ b.end_scenario - b.start_scenario =
      omega arith in
    rw e refl

range_lem :
    (found expected : ScenarioBlock)
    → range_mismatch found expected ≡ false
    → (found.start_scenario ≡ expected.start_scenario)
      × (found.end_scenario ≡ expected.end_scenario)
unfolding range_mismatch
range_lem found expected h = ground arith

lem_range :
    (found expected : ScenarioBlock)
    → found.start_scenario ≡ expected.start_scenario
    → found.end_scenario ≡ expected.end_scenario
    → range_mismatch found expected ≡ false
unfolding range_mismatch
lem_range found expected h k = ground arith

bytes_eq_of_eq : (xs ys : List ℕ) → xs ≡ ys → bytes_eq xs ys ≡ true
bytes_eq_of_eq xs ys e = rw e (bytes_eq_refl ys)

abbrev result_is_valid : Validation
result_is_valid = record { status = accepted; reason = what "result is valid" }

classify_committed-free :
    (checksum : Digest) (found expected : ℕ)
    → found ≡ expected
    → classify_committed none checksum found expected ≡ result_is_valid
unfolding classify_committed
classify_committed-free checksum found expected h = ground arith

classify_committed-accepted :
    (slot : Option Digest) (checksum : Digest) (found expected : ℕ)
    → (classify_committed slot checksum found expected).status ≡ accepted
    → (slot ≡ none) × (found ≡ expected)
unfolding classify_committed
classify_committed-accepted none checksum found expected h = ground arith
classify_committed-accepted (some c) checksum found expected h = ground arith

module _ {D : Type 0} ⦃fp : Float64 D⦄ where
  -- An aggregate with the expected count and a valid content can be hashed.
  payload_hash_total :
      (s : AggregateStats D) (n schema : ℕ)
      → schema ≡ 1
      → invariant_error s (some n) ≡ none
      → aggregate_payload_hash s schema ≡ ok (sha256 (aggregate_bytes s 1))
  payload_hash_total s n schema e h =
      rw e (aggregate_payload_hash_lem s ((invariant_error_iff s n).0 h).1)

  classify_payload_total :
      (result : BlockResult D) (expected : ScenarioBlock) (slot : Option (Option Digest)) (a : Bool)
      → result.stats_schema_version ≡ 1
      → Returns (classify_payload result expected slot a)
  unfolding classify_payload
  classify_payload_total result expected slot a schema = ground (
    arith,
    payload_hash_total result.aggregate (expected_observations a expected)
        result.stats_schema_version schema,
  )

  classify_block_total :
      (result : BlockResult D) (state : CoordinatorState) (expected : Option ScenarioBlock)
      → result.stats_schema_version ≡ 1
      → Returns (classify_block result state expected)
  unfolding classify_block
  classify_block_total result state none schema = tt
  classify_block_total result state (some expected) schema = ground (
    arith,
    classify_payload_total result expected
        (get_elem? state.committed_payloads result.block.block_id) state.antithetic schema,
  )

  -- Classification is total: under the supported statistics schema, `validate_result` never
  -- throws, whatever the result contains.
  pub validate_result_total :
      (result : BlockResult D) (state : CoordinatorState)
      → state.stats_schema_version ≡ 1
      → Returns (validate_result result state)
  unfolding validate_result
  validate_result_total result state schema =
      ground
        (arith, classify_block_total result state (get_elem? state.blocks result.block.block_id))

  -- What makes a result acceptable: the identities of the run, the block's range, the expected
  -- observation count, a valid aggregate with its own checksum, nothing committed for the block
  -- yet, and the current lease.
  pub record IsAcceptable (r : BlockResult D) (s : CoordinatorState) : Type 0 where
    pub same_spec : r.run_spec_hash ≡ s.run_spec_hash
    pub same_layout : r.execution_layout_hash ≡ s.execution_layout_hash
    pub same_build : r.build_fingerprint ≡ s.build_fingerprint
    pub same_incarnation : r.block.run_incarnation ≡ s.run_incarnation
    pub same_rng : r.rng_version ≡ s.rng_version
    pub same_schema : r.stats_schema_version ≡ s.stats_schema_version
    pub expected : ScenarioBlock
    pub known_block : get_elem? s.blocks r.block.block_id ≡ some expected
    pub same_start : r.block.start_scenario ≡ expected.start_scenario
    pub same_end : r.block.end_scenario ≡ expected.end_scenario
    pub same_count : r.aggregate.n ≡ expected_observations s.antithetic expected
    pub valid_aggregate : IsValid r.aggregate
    pub own_checksum : r.payload_checksum ≡ sha256 (aggregate_bytes r.aggregate 1)
    pub uncommitted : committed_in (get_elem? s.committed_payloads r.block.block_id) ≡ none
    pub same_lease : r.block.lease_epoch ≡ expected.lease_epoch

  classify_payload-accepted :
      (r : BlockResult D) (e : ScenarioBlock) (slot : Option (Option Digest)) (a : Bool)
      (v : Validation)
      → r.stats_schema_version ≡ 1
      → classify_payload r e slot a ≡ ok v
      → v.status ≡ accepted
      → (invariant_error r.aggregate (some (expected_observations a e)) ≡ none)
        × (bytes_eq (sha256 (aggregate_bytes r.aggregate 1)) r.payload_checksum ≡ true)
        × ((classify_committed
              (committed_in slot)
              r.payload_checksum
              r.block.lease_epoch
              e.lease_epoch).status
            ≡ accepted)
  unfolding classify_payload
  classify_payload-accepted r e slot a v schema h k = ground (
    arith,
    payload_hash_total r.aggregate (expected_observations a e) r.stats_schema_version schema,
  )

  classify_block-accepted :
      (r : BlockResult D) (s : CoordinatorState) (e : Option ScenarioBlock) (v : Validation)
      → classify_block r s e ≡ ok v
      → v.status ≡ accepted
      → (b : ScenarioBlock) × (e ≡ some b)
        × (range_mismatch r.block b ≡ false)
        × (classify_payload r b (get_elem? s.committed_payloads r.block.block_id) s.antithetic
            ≡ ok v)
  unfolding classify_block
  classify_block-accepted r s none v h k = cc
  classify_block-accepted r s (some b) v h k = (b, refl, ground arith, ground arith)

  validate_result-accepted :
      (r : BlockResult D) (s : CoordinatorState) (v : Validation)
      → validate_result r s ≡ ok v
      → v.status ≡ accepted
      → (bytes_eq r.run_spec_hash s.run_spec_hash ≡ true)
        × (bytes_eq r.execution_layout_hash s.execution_layout_hash ≡ true)
        × (bytes_eq r.build_fingerprint s.build_fingerprint ≡ true)
        × (r.block.run_incarnation ≡ s.run_incarnation)
        × (r.rng_version ≡ s.rng_version)
        × (r.stats_schema_version ≡ s.stats_schema_version)
        × (classify_block r s (get_elem? s.blocks r.block.block_id) ≡ ok v)
  unfolding validate_result
  validate_result-accepted r s v h k = ground arith

  accepted-IsAcceptable :
      (r : BlockResult D) (s : CoordinatorState) (v : Validation)
      → s.stats_schema_version ≡ 1
      → validate_result r s ≡ ok v
      → v.status ≡ accepted
      → IsAcceptable r s
  accepted-IsAcceptable r s v schema h k =
      let (h0, h1, h2, h3, h4, h5, h6) = validate_result-accepted r s v h k in
      let (b, known, range, payload) = classify_block-accepted r s _ v h6 k in
      let (count, checksum, rest) =
        classify_payload-accepted r b _ s.antithetic v (h5 ∙ schema) payload k in
      let (free, lease) = classify_committed-accepted _ r.payload_checksum _ _ rest in
      let (n, valid) = (invariant_error_iff r.aggregate _).0 count in
      record {
        same_spec = bytes_eq→eq r.run_spec_hash s.run_spec_hash h0;
        same_layout = bytes_eq→eq r.execution_layout_hash s.execution_layout_hash h1;
        same_build = bytes_eq→eq r.build_fingerprint s.build_fingerprint h2;
        same_incarnation = h3;
        same_rng = h4;
        same_schema = h5;
        expected = b;
        known_block = known;
        same_start = (range_lem r.block b range).0;
        same_end = (range_lem r.block b range).1;
        same_count = n;
        valid_aggregate = valid;
        own_checksum =
            sym (bytes_eq→eq (sha256 (aggregate_bytes r.aggregate 1)) r.payload_checksum checksum);
        uncommitted = free;
        same_lease = lease;
      }

  IsAcceptable-payload :
      (r : BlockResult D) (s : CoordinatorState) (a : IsAcceptable r s)
      (slot : Option (Option Digest))
      → r.stats_schema_version ≡ 1
      → committed_in slot ≡ none
      → classify_payload r a.expected slot s.antithetic ≡ ok result_is_valid
  unfolding classify_payload
  IsAcceptable-payload r s a slot schema free =
      let counted =
        (invariant_error_iff r.aggregate (expected_observations s.antithetic a.expected)).1
          (a.same_count, a.valid_aggregate) in
      rw
        (
          counted,
          payload_hash_total r.aggregate (expected_observations s.antithetic a.expected)
              r.stats_schema_version schema counted,
          bytes_eq_of_eq (sha256 (aggregate_bytes r.aggregate 1)) r.payload_checksum
              (sym a.own_checksum),
          free,
          classify_committed-free r.payload_checksum r.block.lease_epoch a.expected.lease_epoch
              a.same_lease,
          classify_payload,
        )
        refl

  IsAcceptable-block :
      (r : BlockResult D) (s : CoordinatorState) (a : IsAcceptable r s)
      → s.stats_schema_version ≡ 1
      → classify_block r s (some a.expected) ≡ ok result_is_valid
  unfolding classify_block
  IsAcceptable-block r s a schema = rw (lem_range r.block a.expected a.same_start a.same_end) (
      IsAcceptable-payload r s a (get_elem? s.committed_payloads r.block.block_id)
        (a.same_schema ∙ schema) a.uncommitted)

  IsAcceptable-accepted :
      (r : BlockResult D) (s : CoordinatorState)
      → s.stats_schema_version ≡ 1
      → IsAcceptable r s
      → (v : Validation) × (validate_result r s ≡ ok v) × (v.status ≡ accepted)
  unfolding validate_result
  IsAcceptable-accepted r s schema a = (
    result_is_valid,
    rw
        (
          bytes_eq_of_eq r.run_spec_hash s.run_spec_hash a.same_spec,
          bytes_eq_of_eq r.execution_layout_hash s.execution_layout_hash a.same_layout,
          bytes_eq_of_eq r.build_fingerprint s.build_fingerprint a.same_build,
        )
        (ground (arith, a.known_block, IsAcceptable-block r s a schema)),
    refl,
  )

  -- Under the supported statistics schema, `validate_result` accepts exactly the acceptable
  -- results.
  pub validate_result-accepted_iff :
      (r : BlockResult D) (s : CoordinatorState)
      → s.stats_schema_version ≡ 1
      → ((v : Validation) × (validate_result r s ≡ ok v) × (v.status ≡ accepted)) ↔ IsAcceptable r s
  validate_result-accepted_iff r s schema =
      (λ (v, h, k). accepted-IsAcceptable r s v schema h k, IsAcceptable-accepted r s schema)
