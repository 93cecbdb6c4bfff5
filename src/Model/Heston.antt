-- ===== src/Model/Heston.antt =====
-- `HestonKernel` of src/models/heston.cpp: full-truncation Euler steps of price and variance.
pub mod Pairing
pub mod Tests
use monte_carlo.Prelude.{
  ℕ, zero, suc, ◌+◌, ◌%◌, ◌^◌, Bool, true, false, not, ◌||◌, ◌==◌, ◌!=◌, ◌&&◌, if◌then◌else◌, leb,
  bytes_of, Option, none, some,
}
use monte_carlo.Exception.{
  Result, ok, err, ◌>>=◌, ◌>>◌, throw_if, invalid_argument, domain_error, logic_error, out_of_range,
  what,
}
use monte_carlo.Float64.{Float64, f_zero, f_one, fmax}
use monte_carlo.RunSpec.{RunSpec, HestonParams, ModelType, heston, model_code}
use monte_carlo.RunSpec
use monte_carlo.Rng.{standard_normal}
use monte_carlo.Layout.{add64}
use monte_carlo.Model.Path.{
  f_half, f_minus_one, payoff_from_path, random_scenario, is_negated, at_step,
}

pub record HestonKernel (D : Type 0) : Type 0 where
  pub spec : RunSpec D
  pub parameters : HestonParams D  -- *spec_.heston
  pub dt : D
  pub sqrt_dt : D
  pub rate_dt : D
  pub mean_reversion_dt : D
  pub volatility_of_variance_sqrt_dt : D
  pub orthogonal_weight : D
  pub discount_factor : D

pub record HestonPath (D : Type 0) : Type 0 where
  pub price : D
  pub variance : D
  pub sum : D

module _ {D : Type 0} ⦃fp : Float64 D⦄ where
  open fp use {of_u64, fadd, fsub, fmul, fdiv, fneg, fsqrt, fexp, fle, is_finite}

  -- The members that the constructor computes.
  heston_constants : RunSpec D → HestonParams D → HestonKernel D
  heston_constants spec h =
      let dt = fdiv spec.maturity (of_u64 spec.num_time_steps) in
      let sqrt_dt = fsqrt dt in
      record {
        spec = spec;
        parameters = h;
        dt = dt;
        sqrt_dt = sqrt_dt;
        rate_dt = fmul spec.rate dt;
        mean_reversion_dt = fmul h.mean_reversion_rate dt;
        volatility_of_variance_sqrt_dt = fmul h.volatility_of_variance sqrt_dt;
        orthogonal_weight = fsqrt (fmax f_zero (fsub f_one (fmul h.correlation h.correlation)));
        discount_factor = fexp (fmul (fneg spec.rate) spec.maturity);
      }

  heston_invalid : HestonKernel D → Bool
  heston_invalid k =
      not (is_finite k.dt)
      || (fle k.dt f_zero
          || (not (is_finite k.sqrt_dt)
              || (fle k.sqrt_dt f_zero
                  || (not (is_finite k.rate_dt)
                      || (not (is_finite k.mean_reversion_dt)
                          || (not (is_finite k.volatility_of_variance_sqrt_dt)
                              || (not (
                                    is_finite
                                      (fmul k.mean_reversion_dt k.parameters.long_run_variance))
                                  || (not (is_finite (fmul k.parameters.initial_variance k.dt))
                                      || (not (
                                            is_finite (
                                              fmul (fsqrt k.parameters.initial_variance) k.sqrt_dt))
                                          || (not (
                                                is_finite
                                                  (fmul k.parameters.long_run_variance k.dt))
                                              || (not (is_finite k.orthogonal_weight)
                                                  || (not (is_finite k.discount_factor)
                                                      || fle k.discount_factor f_zero))))))))))))

  heston_checked : HestonKernel D → Result (HestonKernel D)
  heston_checked k =
      if heston_invalid k
      then err (invalid_argument (what "Heston parameters produce invalid derived constants"))
      else ok k

  -- `*spec_.heston`: `validate` has thrown unless it has a value.
  heston_with : RunSpec D → Option (HestonParams D) → Result (HestonKernel D)
  heston_with spec none = err (logic_error (what "bad optional access"))
  heston_with spec (some h) = heston_checked (heston_constants spec h)

  -- HestonKernel::HestonKernel
  pub heston_kernel : RunSpec D → Result (HestonKernel D)
  heston_kernel spec = do
    RunSpec.validate spec
    throw_if (model_code spec.model_type != model_code heston)
        (invalid_argument (what "Heston kernel requires a Heston run specification"))
    heston_with spec spec.heston_params

  heston_start : HestonKernel D → HestonPath D
  heston_start k = record {
    price = k.spec.spot;
    variance = k.parameters.initial_variance;
    sum = f_zero;
  }

  -- rho * z_asset + orthogonal_weight * z_orthogonal
  correlated : HestonKernel D → D → D → D
  correlated k z_asset z_orthogonal =
      fadd (fmul k.parameters.correlation z_asset) (fmul k.orthogonal_weight z_orthogonal)

  -- The drift of the exponent and of the variance, at the truncated variance.
  price_drift : HestonKernel D → HestonPath D → D
  price_drift k p = fsub k.rate_dt (fmul (fmul f_half (fmax p.variance f_zero)) k.dt)

  variance_drift : HestonKernel D → HestonPath D → D
  variance_drift k p =
      fadd p.variance
        (fmul k.mean_reversion_dt (fsub k.parameters.long_run_variance (fmax p.variance f_zero)))

  price_scale : HestonKernel D → HestonPath D → D
  price_scale k p = fmul (fsqrt (fmax p.variance f_zero)) k.sqrt_dt

  variance_scale : HestonKernel D → HestonPath D → D
  variance_scale k p = fmul k.volatility_of_variance_sqrt_dt (fsqrt (fmax p.variance f_zero))

  -- The path after a step with this exponent and this next variance.
  heston_moved : D → D → HestonPath D → HestonPath D
  heston_moved exponent next_variance p =
      let next = fmul p.price (fexp exponent) in
      record { price = next; variance = next_variance; sum = fadd p.sum next }

  -- The guard and the assignments of one round of `discounted_payoff_with_sign`.
  heston_checked_move : ℕ → ℕ → D → HestonPath D → Result (HestonPath D)
  heston_checked_move scenario_id step exponent p' = do
    throw_if
        (not (is_finite exponent)
          || (not (is_finite p'.price) || (fle p'.price f_zero || not (is_finite p'.variance))))
        (domain_error
          (at_step (what "Heston path became numerically invalid at scenario ") scenario_id step))
    throw_if (not (is_finite p'.sum)) (
        domain_error (at_step (what "Heston running sum overflowed at scenario ") scenario_id step))
    ok p'

  signed_exponent : HestonKernel D → D → D → HestonPath D → D
  signed_exponent k shock_sign z_asset p =
      fadd (price_drift k p) (fmul (price_scale k p) (fmul shock_sign z_asset))

  signed_variance : HestonKernel D → D → D → HestonPath D → D
  signed_variance k shock_sign shock p =
      fadd (variance_drift k p) (fmul (variance_scale k p) (fmul shock_sign shock))

  heston_step : HestonKernel D → ℕ → ℕ → D → D → D → HestonPath D → Result (HestonPath D)
  heston_step k scenario_id step shock_sign z_asset z_orthogonal p =
      let exponent = signed_exponent k shock_sign z_asset p in
      heston_checked_move scenario_id step exponent (
        heston_moved exponent (signed_variance k shock_sign (correlated k z_asset z_orthogonal) p)
          p)

  heston_walk : HestonKernel D → ℕ → D → ℕ → ℕ → HestonPath D → Result (HestonPath D)
  heston_walk k scenario_id shock_sign zero step p = ok p
  heston_walk k scenario_id shock_sign (suc rounds) step p = do
    z_asset ← standard_normal k.spec.global_seed scenario_id step 0 0
    z_orthogonal ← standard_normal k.spec.global_seed scenario_id step 1 0
    p' ← heston_step k scenario_id step shock_sign z_asset z_orthogonal p
    heston_walk k scenario_id shock_sign rounds (step + 1) p'

  heston_discounted : HestonKernel D → HestonPath D → Result D
  heston_discounted k p = do
    payoff ← payoff_from_path k.spec k.spec.payoff_type p.price p.sum
    ok (fmul k.discount_factor payoff)

  discounted_payoff_with_sign : HestonKernel D → ℕ → D → Result D
  discounted_payoff_with_sign k random_scenario_id shock_sign = do
    p ← heston_walk k random_scenario_id shock_sign k.spec.num_time_steps 0 (heston_start k)
    discounted ← heston_discounted k p
    throw_if (not (is_finite discounted))
        (domain_error (what "Heston simulation produced a non-finite payoff"))
    ok discounted

  -- HestonKernel::discounted_payoff
  pub heston_discounted_payoff : HestonKernel D → ℕ → Result D
  heston_discounted_payoff k scenario_id = do
    throw_if (leb k.spec.total_scenarios scenario_id)
        (out_of_range (what "scenario_id is outside the run specification"))
    discounted_payoff_with_sign k (random_scenario k.spec.antithetic scenario_id)
        (if is_negated k.spec.antithetic scenario_id then f_minus_one else f_one)

  positive_exponent : HestonKernel D → D → HestonPath D → D
  positive_exponent k z_asset p = fadd (price_drift k p) (fmul (price_scale k p) z_asset)

  negative_exponent : HestonKernel D → D → HestonPath D → D
  negative_exponent k z_asset q = fsub (price_drift k q) (fmul (price_scale k q) z_asset)

  positive_moved : HestonKernel D → D → D → HestonPath D → HestonPath D
  positive_moved k z_asset shock p =
      heston_moved (positive_exponent k z_asset p)
        (fadd (variance_drift k p) (fmul (variance_scale k p) shock)) p

  negative_moved : HestonKernel D → D → D → HestonPath D → HestonPath D
  negative_moved k z_asset shock q =
      heston_moved (negative_exponent k z_asset q)
        (fsub (variance_drift k q) (fmul (variance_scale k q) shock)) q

  -- One round of the loop of `antithetic_pair_mean`.
  heston_pair_step :
      HestonKernel D
      → ℕ
      → ℕ
      → D
      → D
      → HestonPath D
      → HestonPath D
      → Result (HestonPath D × HestonPath D)
  heston_pair_step k scenario_id step z_asset z_orthogonal p q = do
    let shock = correlated k z_asset z_orthogonal
    let p' = positive_moved k z_asset shock p
    let q' = negative_moved k z_asset shock q
    throw_if
        (not (is_finite (positive_exponent k z_asset p))
          || (not (is_finite (negative_exponent k z_asset q))
              || (not (is_finite p'.price)
                  || (not (is_finite q'.price)
                      || (fle p'.price f_zero
                          || (fle q'.price f_zero
                              || (not (is_finite p'.variance) || not (is_finite q'.variance))))))))
        (domain_error (
          at_step (what "antithetic Heston path became numerically invalid at scenario ")
            scenario_id step))
    throw_if (not (is_finite p'.sum) || not (is_finite q'.sum)) (
        domain_error
          (at_step (what "antithetic Heston running sum overflowed at scenario ") scenario_id step))
    ok (p', q')

  heston_pair_walk :
      HestonKernel D
      → ℕ
      → ℕ
      → ℕ
      → HestonPath D
      → HestonPath D
      → Result (HestonPath D × HestonPath D)
  heston_pair_walk k scenario_id zero step p q = ok (p, q)
  heston_pair_walk k scenario_id (suc rounds) step p q = do
    z_asset ← standard_normal k.spec.global_seed scenario_id step 0 0
    z_orthogonal ← standard_normal k.spec.global_seed scenario_id step 1 0
    (p', q') ← heston_pair_step k scenario_id step z_asset z_orthogonal p q
    heston_pair_walk k scenario_id rounds (step + 1) p' q'

  -- The end of `antithetic_pair_mean`.
  pub heston_mean : D → D → Result D
  heston_mean positive negative =
      let mean = fmul f_half (fadd positive negative) in
      if is_finite mean
      then ok mean
      else err (domain_error (what "Heston simulation produced a non-finite pair mean"))

  -- HestonKernel::antithetic_pair_mean
  pub heston_antithetic_pair_mean : HestonKernel D → ℕ → Result D
  heston_antithetic_pair_mean k even_scenario_id = do
    throw_if (not k.spec.antithetic)
        (logic_error (what "antithetic pair requested for a plain run"))
    throw_if (even_scenario_id % 2 != 0 || leb k.spec.total_scenarios (add64 even_scenario_id 1))
        (out_of_range (what "antithetic pair must start at a valid even scenario"))
    (p, q) ←
        heston_pair_walk k even_scenario_id k.spec.num_time_steps 0 (heston_start k)
          (heston_start k)
    positive ← heston_discounted k p
    negative ← heston_discounted k q
    heston_mean positive negative
