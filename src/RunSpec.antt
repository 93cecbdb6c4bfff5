-- ===== src/RunSpec.antt =====
-- include/mc/run_spec.hpp and src/run_spec.cpp: the parameters of a run and their validation.
pub mod Valid
pub mod Tests
use monte_carlo.Prelude.{
  ℕ, ◌%◌, ◌^◌, List, Bool, true, false, Option, none, some, ltb, ◌==◌, ◌!=◌, ◌&&◌, ◌||◌, not,
  bytes_of,
}
use monte_carlo.Exception.{Result, ok, err, ◌>>=◌, ◌>>◌, throw_if, invalid_argument, what}
use monte_carlo.Float64.{Float64, f_zero, f_one}

abbrev pub supported_engine_version : ℕ
supported_engine_version = 2

abbrev pub supported_rng_version : ℕ
supported_rng_version = 2

abbrev pub run_spec_schema_version : ℕ
run_spec_schema_version = 1

abbrev pub supported_stats_schema_version : ℕ
supported_stats_schema_version = 1

abbrev pub heston_discretization_version : ℕ
heston_discretization_version = 1

abbrev pub max_scenarios : ℕ
max_scenarios = 2 ^ 40

abbrev pub max_time_steps : ℕ
max_time_steps = 2 ^ 24

-- A scoped enumeration over `std::uint8_t` holds any byte: `other` is one with no enumerator.
pub data ModelType : Type 0 where
  gbm heston : ModelType
  other : ℕ → ModelType

pub data PayoffType : Type 0 where
  european_call asian_call : PayoffType
  other : ℕ → PayoffType

-- static_cast<std::uint8_t>(model_type)
unfoldable pub model_code : ModelType → ℕ
model_code gbm = 1
model_code heston = 2
model_code (ModelType.other n) = n

unfoldable pub payoff_code : PayoffType → ℕ
payoff_code european_call = 1
payoff_code asian_call = 2
payoff_code (PayoffType.other n) = n

pub record HestonParams (D : Type 0) : Type 0 where
  pub initial_variance : D
  pub mean_reversion_rate : D
  pub long_run_variance : D
  pub volatility_of_variance : D
  pub correlation : D
  pub discretization_version : ℕ

pub record RunSpec (D : Type 0) : Type 0 where
  pub global_seed : ℕ
  pub total_scenarios : ℕ
  pub num_time_steps : ℕ
  pub maturity : D
  pub spot : D
  pub strike : D
  pub rate : D
  pub volatility : D
  pub heston_params : Option (HestonParams D)
  pub payoff_type : PayoffType
  pub antithetic : Bool
  pub model_type : ModelType
  pub engine_version : ℕ
  pub rng_version : ℕ
  pub stats_schema_version : ℕ

-- The switch on `payoff_type`.
validate_payoff : PayoffType → Result (Unit {0})
validate_payoff european_call = ok tt
validate_payoff asian_call = ok tt
validate_payoff (PayoffType.other n) = err (invalid_argument (what "unsupported payoff type"))

module _ {D : Type 0} ⦃fp : Float64 D⦄ where
  open fp use {is_finite, flt, fle, fneg}

  validate_heston : HestonParams D → Result (Unit {0})
  validate_heston h = do
    throw_if (h.discretization_version != heston_discretization_version)
        (invalid_argument (what "unsupported Heston discretization version"))
    throw_if (not (is_finite h.initial_variance) || flt h.initial_variance f_zero)
        (invalid_argument (what "Heston initial variance must be finite and nonnegative"))
    throw_if (not (is_finite h.mean_reversion_rate) || flt h.mean_reversion_rate f_zero)
        (invalid_argument (what "Heston mean reversion must be finite and nonnegative"))
    throw_if (not (is_finite h.long_run_variance) || flt h.long_run_variance f_zero)
        (invalid_argument (what "Heston long-run variance must be finite and nonnegative"))
    throw_if (not (is_finite h.volatility_of_variance) || flt h.volatility_of_variance f_zero)
        (invalid_argument (what "Heston volatility of variance must be finite and nonnegative"))
    throw_if
        (not (is_finite h.correlation)
          || (flt h.correlation (fneg f_one) || flt f_one h.correlation))
        (invalid_argument (what "Heston correlation must be finite and in [-1, 1]"))

  -- The switch on `model_type`: exactly one parameter set is active.
  validate_model : ModelType → Option (HestonParams D) → D → Result (Unit {0})
  validate_model gbm (some h) volatility =
      err (invalid_argument (what "GBM runs must not contain Heston parameters"))
  validate_model gbm none volatility =
      throw_if (not (is_finite volatility) || fle volatility f_zero)
        (invalid_argument (what "GBM volatility must be finite and positive"))
  validate_model heston none volatility =
      err (invalid_argument (what "Heston runs require Heston parameters"))
  validate_model heston (some h) volatility = validate_heston h
  validate_model (ModelType.other n) o volatility =
      err (invalid_argument (what "unsupported model type"))

  -- The checks of `RunSpec::validate` before its two switches.
  validate_common : RunSpec D → Result (Unit {0})
  validate_common s = do
    throw_if (s.engine_version != supported_engine_version)
        (invalid_argument (what "unsupported engine version"))
    throw_if (s.rng_version != supported_rng_version)
        (invalid_argument (what "unsupported RNG version"))
    throw_if (s.stats_schema_version != supported_stats_schema_version)
        (invalid_argument (what "unsupported statistics schema version"))
    throw_if (s.total_scenarios == 0 || ltb max_scenarios s.total_scenarios)
        (invalid_argument (what "total_scenarios must be in [1, 2^40]"))
    throw_if (s.num_time_steps == 0 || ltb max_time_steps s.num_time_steps)
        (invalid_argument (what "num_time_steps must be in [1, 2^24]"))
    throw_if (not (is_finite s.maturity) || fle s.maturity f_zero)
        (invalid_argument (what "maturity must be finite and positive"))
    throw_if (not (is_finite s.spot) || fle s.spot f_zero)
        (invalid_argument (what "spot must be finite and positive"))
    throw_if (not (is_finite s.strike) || fle s.strike f_zero)
        (invalid_argument (what "strike must be finite and positive"))
    throw_if (not (is_finite s.rate)) (invalid_argument (what "rate must be finite"))
    throw_if (s.antithetic && s.total_scenarios % 2 != 0)
        (invalid_argument (what "antithetic runs require an even scenario count"))

  -- RunSpec::validate
  pub validate : RunSpec D → Result (Unit {0})
  validate s = do
    validate_common s
    validate_payoff s.payoff_type
    validate_model s.model_type s.heston_params s.volatility
