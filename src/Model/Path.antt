-- ===== src/Model/Path.antt =====
-- What the kernels of src/models/gbm.cpp and src/models/heston.cpp share: the payoff of a path.
use monte_carlo.Prelude.{ℕ, ◌-◌, ◌%◌, Bool, if◌then◌else◌, List, ◌++◌, ◌!=◌, ◌&&◌}
use monte_carlo.Exception.{Result, ok, err, logic_error, what}
use monte_carlo.Float64.{Float64, f_zero, fmax}
use monte_carlo.RunSpec.{RunSpec, PayoffType, european_call, asian_call}
use monte_carlo.Layout.{to_decimal}

module _ {D : Type 0} ⦃fp : Float64 D⦄ where
  open fp use {from_bits, of_u64, fsub, fdiv}

  -- 0.5 and -1.0
  abbrev pub f_half : D
  f_half = from_bits 0x3FE0000000000000

  abbrev pub f_minus_one : D
  f_minus_one = from_bits 0xBFF0000000000000

  -- payoff_from_path, which both kernels declare alike
  unfoldable pub payoff_from_path : RunSpec D → PayoffType → D → D → Result D
  payoff_from_path spec european_call terminal_price running_sum =
      ok (fmax (fsub terminal_price spec.strike) f_zero)
  payoff_from_path spec asian_call terminal_price running_sum =
      let average = fdiv running_sum (of_u64 spec.num_time_steps) in
      ok (fmax (fsub average spec.strike) f_zero)
  payoff_from_path spec (PayoffType.other n) terminal_price running_sum =
      err (logic_error (what "unreachable payoff type"))

-- `antithetic ? scenario_id & ~1 : scenario_id`, the scenario whose random numbers are used
abbrev pub random_scenario : Bool → ℕ → ℕ
random_scenario antithetic scenario_id =
    if antithetic then scenario_id - scenario_id % 2 else scenario_id

-- `antithetic && scenario_id % 2U != 0U`
abbrev pub is_negated : Bool → ℕ → Bool
is_negated antithetic scenario_id = antithetic && scenario_id % 2 != 0

-- The text of an exception that names a scenario and a step.
abbrev pub at_step : List ℕ → ℕ → ℕ → List ℕ
at_step text scenario_id step = text ++ to_decimal scenario_id ++ what ", step " ++ to_decimal step
