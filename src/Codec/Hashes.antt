-- ===== src/Codec/Hashes.antt =====
-- When the payload encoders and the hashes of them return.
use monte_carlo.Prelude.{ℕ, ◌≡◌, ◌≤◌, List, none, arith, refl, ltb, false, ◌!=◌}
use monte_carlo.Exception.{ok, Returns, throw_if-eq-ok, throw_some-eq-ok}
use monte_carlo.Float64.{Float64}
use monte_carlo.RunSpec.{RunSpec}
use monte_carlo.RunSpec
use monte_carlo.Aggregate.{AggregateStats, invariant_error}
use monte_carlo.Aggregate.Merge.{IsValid}
use monte_carlo.Hash.{sha256}
use monte_carlo.Layout.{EngineConfig, validate_config, block_count_of}
use monte_carlo.Codec.{
  run_spec_bytes, encode_run_spec_payload, run_spec_hash, aggregate_bytes, encode_aggregate_payload,
  aggregate_payload_hash, encode_execution_layout_payload, execution_layout_hash,
}

module _ {D : Type 0} ⦃fp : Float64 D⦄ where
  pub encode_aggregate_payload_lem :
      (s : AggregateStats D) → IsValid s → encode_aggregate_payload s 1 ≡ ok (aggregate_bytes s 1)
  unfolding encode_aggregate_payload
  encode_aggregate_payload_lem s v = rw v refl

  pub aggregate_payload_hash_lem :
      (s : AggregateStats D)
      → IsValid s
      → aggregate_payload_hash s 1 ≡ ok (sha256 (aggregate_bytes s 1))
  unfolding aggregate_payload_hash
  aggregate_payload_hash_lem s v = rw (encode_aggregate_payload_lem s v) refl

  pub run_spec_hash_lem :
      (spec : RunSpec D)
      → RunSpec.validate spec ≡ ok tt
      → run_spec_hash spec ≡ ok (sha256 (run_spec_bytes spec))
  unfolding run_spec_hash encode_run_spec_payload
  run_spec_hash_lem spec h = rw h refl

  pub run_spec_hash_total :
      (spec : RunSpec D) → RunSpec.validate spec ≡ ok tt → Returns (run_spec_hash spec)
  run_spec_hash_total spec h = rw (run_spec_hash_lem spec h) tt

  pub execution_layout_hash_total :
      (spec : RunSpec D) (config : EngineConfig)
      → RunSpec.validate spec ≡ ok tt
      → validate_config config spec ≡ ok tt
      → block_count_of spec.total_scenarios config.block_size ≤ config.max_materialized_blocks
      → Returns (execution_layout_hash spec config)
  unfolding execution_layout_hash encode_execution_layout_payload
  execution_layout_hash_total spec config h k small =
      let fits : ltb config.max_materialized_blocks
            (block_count_of spec.total_scenarios config.block_size)
          ≡ false =
        ground arith in
      rw (h, k, fits, run_spec_hash_lem spec h) tt

  -- What an encoding that returned shows of its arguments.
  pub encode_aggregate_payload-eq-ok :
      (s : AggregateStats D) (schema : ℕ) {bytes : List ℕ}
      → encode_aggregate_payload s schema ≡ ok bytes
      → (schema ≡ 1) × (IsValid s × (aggregate_bytes s schema ≡ bytes))
  unfolding encode_aggregate_payload
  encode_aggregate_payload-eq-ok s schema h =
      let (e, h') = throw_if-eq-ok (schema != 1) _ _ h in
      let (v, h'') = throw_some-eq-ok (invariant_error s none) _ _ h' in
      (ground arith, (v, ok-inj h''))
    where
      ok-inj : {a b : List ℕ} → ok a ≡ ok b → a ≡ b
      ok-inj h = ground arith
