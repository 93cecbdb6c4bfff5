-- ===== src/Persistence/Payload.antt =====
-- `decode_run_spec_payload`, `decode_aggregate_payload` and `append_string` of
-- src/persistence_codec.cpp.
pub mod RoundTrip
use monte_carlo.Prelude.{
  ℕ, zero, suc, ◌^◌, ◌-◌, List, [], ◌∷◌, ◌++◌, Bool, true, false, Option, none, some, ltb, leb,
  ◌==◌, ◌!=◌, ◌||◌, length, bytes_of, if◌then◌else◌,
}
use monte_carlo.Exception.{Result, ok, err, runtime_error, length_error, throw_if, throw_some, what}
use monte_carlo.Exception
use monte_carlo.Float64.{Float64}
use monte_carlo.RunSpec.{
  RunSpec, HestonParams, ModelType, PayoffType, gbm, heston, european_call, asian_call,
  run_spec_schema_version,
}
use monte_carlo.RunSpec
use monte_carlo.Aggregate.{AggregateStats, invariant_error}
use monte_carlo.Codec.{u32_bytes}
use monte_carlo.Reader.{Read, u8, u32, u64, binary64, finish, reject_if, lift, pure, ◌>>=◌, ◌>>◌}

-- What `append_string` appends.
unfoldable pub string_bytes : List ℕ → ℕ → Result (List ℕ)
string_bytes value maximum_size =
    elim (ltb maximum_size (length value) || ltb (2 ^ 32 - 1) (length value)) [
      | true ↦ err (length_error (what "durable string exceeds its schema limit"))
      | false ↦ ok (u32_bytes (length value) ++ value)
    ]

-- static_cast<ModelType> and static_cast<PayoffType>
unfoldable pub model_of : ℕ → ModelType
model_of n = if n == 1 then gbm else if n == 2 then heston else ModelType.other n

unfoldable pub payoff_of : ℕ → PayoffType
payoff_of n = if n == 1 then european_call else if n == 2 then asian_call else PayoffType.other n

module _ {D : Type 0} ⦃fp : Float64 D⦄ where
  open fp use {from_bits}

  read_heston : Read (HestonParams D)
  read_heston = do
    discretization_version ← u32
    initial_variance ← binary64
    mean_reversion_rate ← binary64
    long_run_variance ← binary64
    volatility_of_variance ← binary64
    correlation ← binary64
    pure (record {
      initial_variance = initial_variance;
      mean_reversion_rate = mean_reversion_rate;
      long_run_variance = long_run_variance;
      volatility_of_variance = volatility_of_variance;
      correlation = correlation;
      discretization_version = discretization_version;
    })

  -- The switch over the model: the volatility and the Heston parameters. The volatility of a
  -- Heston run keeps the default of `RunSpec`, 0.2.
  pub read_model : ModelType → Read (D × Option (HestonParams D))
  unfolding read_heston
  read_model gbm = do volatility ← binary64; pure (volatility, none)
  read_model heston = do params ← read_heston; pure (from_bits 0x3FC999999999999A, some params)
  read_model (ModelType.other n) =
      lift (err (runtime_error (what "persisted RunSpec model is unsupported")))

  -- The fields before the switch, then the switch.
  pub read_run_spec : Read (RunSpec D)
  read_run_spec = do
    schema ← u32
    reject_if (schema != run_spec_schema_version)
        (runtime_error (what "unsupported persisted RunSpec schema"))
    engine_version ← u64
    rng_version ← u64
    stats_schema_version ← u32
    model ← u8
    payoff ← u8
    antithetic ← u8
    reject_if (ltb 1 antithetic) (runtime_error (what "persisted RunSpec flags are invalid"))
    reserved ← u8
    reject_if (reserved != 0) (runtime_error (what "persisted RunSpec flags are invalid"))
    global_seed ← u64
    total_scenarios ← u64
    num_time_steps ← u32
    maturity ← binary64
    spot ← binary64
    strike ← binary64
    rate ← binary64
    parameters ← read_model (model_of model)
    finish
    pure (record {
      global_seed = global_seed;
      total_scenarios = total_scenarios;
      num_time_steps = num_time_steps;
      maturity = maturity;
      spot = spot;
      strike = strike;
      rate = rate;
      volatility = parameters.0;
      heston_params = parameters.1;
      payoff_type = payoff_of payoff;
      antithetic = antithetic == 1;
      model_type = model_of model;
      engine_version = engine_version;
      rng_version = rng_version;
      stats_schema_version = stats_schema_version;
    })

  checked_run_spec : Read (RunSpec D)
  checked_run_spec = do spec ← read_run_spec; lift (RunSpec.validate spec); pure spec

  pub decode_run_spec_payload : List ℕ → Result (RunSpec D)
  decode_run_spec_payload bytes = Exception.map (λ p. p.0) (checked_run_spec bytes)

  read_aggregate : ℕ → Read (AggregateStats D)
  read_aggregate expected_schema = do
    version ← u32
    reject_if (version != 1) (runtime_error (what "persisted aggregate schema mismatch"))
    schema ← u32
    reject_if (schema != expected_schema)
        (runtime_error (what "persisted aggregate schema mismatch"))
    n ← u64
    mean ← binary64
    m2 ← binary64
    min ← binary64
    max ← binary64
    finish
    let aggregate : AggregateStats D = record { n = n; mean = mean; m2 = m2; min = min; max = max }
    lift (
        throw_some (invariant_error aggregate none)
          (λ e. runtime_error (what "invalid persisted aggregate: " ++ e)))
    pure aggregate

  pub decode_aggregate_payload : List ℕ → ℕ → Result (AggregateStats D)
  decode_aggregate_payload bytes expected_schema =
      Exception.map (λ p. p.0) (read_aggregate expected_schema bytes)
