-- ===== src/RunSpec/Tests.antt =====
-- A run of ten scenarios over the words of Sample.
use monte_carlo.Prelude.{◌≡◌, ◌↔◌, refl, none, false}
use monte_carlo.Exception.{ok}
use monte_carlo.Sample.{Word, word, word_float}
use monte_carlo.RunSpec.{
  RunSpec, gbm, european_call, validate, validate_common, validate_payoff, validate_model,
}
use monte_carlo.RunSpec.Valid.{IsValid, validate_iff}

abbrev pub ten_scenarios : RunSpec Word
ten_scenarios = record {
  global_seed = 1;
  total_scenarios = 10;
  num_time_steps = 1;
  maturity = word 1;
  spot = word 100;
  strike = word 100;
  rate = word 0;
  volatility = word 2;
  heston_params = none;
  payoff_type = european_call;
  antithetic = false;
  model_type = gbm;
  engine_version = 2;
  rng_version = 2;
  stats_schema_version = 1;
}

pub validate-ten_scenarios : validate ten_scenarios ≡ ok tt
unfolding validate validate_common validate_payoff validate_model
validate-ten_scenarios = refl

abbrev pub two_scenarios : RunSpec Word
two_scenarios = record ten_scenarios { total_scenarios = 2 }

pub validate-two_scenarios : validate two_scenarios ≡ ok tt
unfolding validate validate_common validate_payoff validate_model
validate-two_scenarios = refl

validate_iff_example : (validate ten_scenarios ≡ ok tt) ↔ IsValid ten_scenarios
validate_iff_example = validate_iff ten_scenarios
