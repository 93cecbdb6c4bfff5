-- ===== src/Codec.antt =====
-- src/codec.cpp: the canonical little-endian payloads and the hashes of them.
pub mod Hashes
use monte_carlo.Prelude.{
  ℕ, zero, suc, ◌+◌, ◌*◌, ◌/◌, ◌%◌, ◌^◌, List, [], ◌∷◌, ◌++◌, Bool, true, false, Option, none, some,
  ltb, ◌!=◌, if◌then◌else◌, bytes_of,
}
use monte_carlo.Exception.{
  Result, ok, err, ◌>>=◌, ◌>>◌, throw_if, throw_some, invalid_argument, length_error, what,
}
use monte_carlo.Float64.{Float64, f_zero}
use monte_carlo.RunSpec.{
  RunSpec, HestonParams, ModelType, gbm, heston, model_code, payoff_code, run_spec_schema_version,
  supported_stats_schema_version,
}
use monte_carlo.RunSpec
use monte_carlo.Aggregate.{AggregateStats, invariant_error}
use monte_carlo.Hash.{Digest, sha256}
use monte_carlo.Layout.{EngineConfig, validate_config, block_count_of}

abbrev pub block_partition_version : ℕ
block_partition_version = 1

abbrev pub reduction_tree_version : ℕ
reduction_tree_version = 1

-- `count` bytes of `value`, least significant first: the loop of `append_u32` and `append_u64`.
unfoldable pub little_endian : ℕ → ℕ → List ℕ
little_endian zero value = []
little_endian (suc count) value = value % 2 ^ 8 ∷ little_endian count (value / 2 ^ 8)

-- What `append_u8`, `append_u32` and `append_u64` append.
abbrev pub u8_bytes : ℕ → List ℕ
u8_bytes value = value % 2 ^ 8 ∷ []

abbrev pub u32_bytes : ℕ → List ℕ
u32_bytes value = little_endian 4 value

abbrev pub u64_bytes : ℕ → List ℕ
u64_bytes value = little_endian 8 value

abbrev pub bool_byte : Bool → ℕ
bool_byte b = if b then 1 else 0

module _ {D : Type 0} ⦃fp : Float64 D⦄ where
  open fp use {to_bits}

  -- What `append_double` appends.
  abbrev pub double_bytes : D → List ℕ
  double_bytes value = u64_bytes (to_bits value)

  -- The tail of the Heston model; on an empty optional `spec.heston->` is undefined.
  pub heston_bytes : Option (HestonParams D) → List ℕ
  heston_bytes none = []
  heston_bytes (some h) =
      u32_bytes h.discretization_version
      ++ (double_bytes h.initial_variance
          ++ (double_bytes h.mean_reversion_rate
              ++ (double_bytes h.long_run_variance
                  ++ (double_bytes h.volatility_of_variance ++ double_bytes h.correlation))))

  -- The switch over the model at the end of `encode_run_spec_payload`.
  pub model_bytes : RunSpec D → List ℕ
  model_bytes spec = elim spec.model_type [
    | gbm ↦ double_bytes spec.volatility
    | heston ↦ heston_bytes spec.heston_params
    | ModelType.other n ↦ []
  ]

  pub run_spec_bytes : RunSpec D → List ℕ
  run_spec_bytes spec =
      u32_bytes run_spec_schema_version
      ++ (u64_bytes spec.engine_version
          ++ (u64_bytes spec.rng_version
              ++ (u32_bytes spec.stats_schema_version
                  ++ (u8_bytes (model_code spec.model_type)
                      ++ (u8_bytes (payoff_code spec.payoff_type)
                          ++ (u8_bytes (bool_byte spec.antithetic)
                              ++ (u8_bytes 0
                                  ++ (u64_bytes spec.global_seed
                                      ++ (u64_bytes spec.total_scenarios
                                          ++ (u32_bytes spec.num_time_steps
                                              ++ (double_bytes spec.maturity
                                                  ++ (double_bytes spec.spot
                                                      ++ (double_bytes spec.strike
                                                          ++ (double_bytes spec.rate
                                                            ++ model_bytes spec))))))))))))))

  pub encode_run_spec_payload : RunSpec D → Result (List ℕ)
  encode_run_spec_payload spec = do RunSpec.validate spec; ok (run_spec_bytes spec)

  unfoldable pub aggregate_bytes : AggregateStats D → ℕ → List ℕ
  aggregate_bytes aggregate schema =
      u32_bytes 1
      ++ (u32_bytes schema
          ++ (u64_bytes aggregate.n
              ++ (double_bytes aggregate.mean
                  ++ (double_bytes aggregate.m2
                      ++ (double_bytes aggregate.min ++ double_bytes aggregate.max)))))

  pub encode_aggregate_payload : AggregateStats D → ℕ → Result (List ℕ)
  encode_aggregate_payload aggregate schema = do
    throw_if (schema != supported_stats_schema_version)
        (invalid_argument (what "unsupported aggregate statistics schema"))
    throw_some (invariant_error aggregate none) invalid_argument
    ok (aggregate_bytes aggregate schema)

  pub run_spec_hash : RunSpec D → Result Digest
  run_spec_hash spec = do bytes ← encode_run_spec_payload spec; ok (sha256 bytes)

  pub encode_execution_layout_payload : RunSpec D → EngineConfig → Result (List ℕ)
  encode_execution_layout_payload spec config = do
    RunSpec.validate spec
    validate_config config spec
    let block_count = block_count_of spec.total_scenarios config.block_size
    throw_if (ltb config.max_materialized_blocks block_count)
        (length_error (what "execution layout exceeds max_materialized_blocks"))
    spec_hash ← run_spec_hash spec
    ok (
        spec_hash
        ++ (u32_bytes block_partition_version
            ++ (u32_bytes reduction_tree_version
                ++ (u64_bytes config.block_size ++ u64_bytes block_count))))

  pub aggregate_payload_hash : AggregateStats D → ℕ → Result Digest
  aggregate_payload_hash aggregate schema = do
    bytes ← encode_aggregate_payload aggregate schema
    ok (sha256 bytes)

  pub execution_layout_hash : RunSpec D → EngineConfig → Result Digest
  execution_layout_hash spec config = do
    bytes ← encode_execution_layout_payload spec config
    ok (sha256 bytes)
