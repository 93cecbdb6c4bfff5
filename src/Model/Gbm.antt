-- ===== src/Model/Gbm.antt =====
-- `GbmKernel` of src/models/gbm.cpp: geometric Brownian motion, one exact step after the other.
pub mod Pairing
pub mod Tests
use monte_carlo.Prelude.{
  ℕ, zero, suc, ◌+◌, ◌%◌, ◌^◌, Bool, true, false, not, ◌||◌, ◌==◌, ◌!=◌, ◌&&◌, if◌then◌else◌, leb,
  bytes_of,
}
use monte_carlo.Exception.{
  Result, ok, err, ◌>>=◌, ◌>>◌, throw_if, invalid_argument, domain_error, logic_error, out_of_range,
  what,
}
use monte_carlo.Float64.{Float64, f_zero}
use monte_carlo.RunSpec.{RunSpec, ModelType, gbm, model_code}
use monte_carlo.RunSpec
use monte_carlo.Rng.{standard_normal}
use monte_carlo.Layout.{add64}
use monte_carlo.Model.Path.{f_half, payoff_from_path, random_scenario, is_negated, at_step}

pub record GbmKernel (D : Type 0) : Type 0 where
  pub spec : RunSpec D
  pub drift_per_step : D
  pub diffusion_per_step : D
  pub discount_factor : D

-- The price and the running sum along a path.
pub record GbmPath (D : Type 0) : Type 0 where
  pub price : D
  pub sum : D

module _ {D : Type 0} ⦃fp : Float64 D⦄ where
  open fp use {of_u64, fadd, fsub, fmul, fdiv, fneg, fsqrt, fexp, fle, is_finite}

  -- GbmKernel::GbmKernel
  pub gbm_kernel : RunSpec D → Result (GbmKernel D)
  gbm_kernel spec = do
    RunSpec.validate spec
    throw_if (model_code spec.model_type != model_code gbm)
        (invalid_argument (what "GBM kernel requires a GBM run specification"))
    let dt = fdiv spec.maturity (of_u64 spec.num_time_steps)
    let drift = fmul (fsub spec.rate (fmul (fmul f_half spec.volatility) spec.volatility)) dt
    let diffusion = fmul spec.volatility (fsqrt dt)
    let discount = fexp (fmul (fneg spec.rate) spec.maturity)
    throw_if
        (not (is_finite dt)
          || (not (is_finite drift)
              || (not (is_finite diffusion) || (not (is_finite discount) || fle discount f_zero))))
        (invalid_argument
          (what "GBM parameters produce non-finite or underflowed derived constants"))
    ok (record {
      spec = spec;
      drift_per_step = drift;
      diffusion_per_step = diffusion;
      discount_factor = discount;
    })

  gbm_exponent : GbmKernel D → D → D
  gbm_exponent k normal = fadd k.drift_per_step (fmul k.diffusion_per_step normal)

  gbm_next : GbmKernel D → D → D → D
  gbm_next k normal price = fmul price (fexp (gbm_exponent k normal))

  gbm_start : GbmKernel D → GbmPath D
  gbm_start k = record { price = k.spec.spot; sum = f_zero }

  gbm_moved : GbmKernel D → D → GbmPath D → GbmPath D
  gbm_moved k normal p =
      let next = gbm_next k normal p.price in record { price = next; sum = fadd p.sum next }

  -- One round of the loop of `discounted_payoff`.
  gbm_step : GbmKernel D → ℕ → ℕ → D → GbmPath D → Result (GbmPath D)
  gbm_step k scenario_id step normal p = do
    throw_if
        (not (is_finite (gbm_exponent k normal))
          || (not (is_finite (gbm_next k normal p.price))
              || fle (gbm_next k normal p.price) f_zero))
        (domain_error
          (at_step (what "GBM path became numerically invalid at scenario ") scenario_id step))
    throw_if (not (is_finite (gbm_moved k normal p).sum))
        (domain_error (at_step (what "GBM running sum overflowed at scenario ") scenario_id step))
    ok (gbm_moved k normal p)

  -- The loop, from `step` on with `rounds` left.
  gbm_walk : GbmKernel D → ℕ → ℕ → ℕ → GbmPath D → Result (GbmPath D)
  gbm_walk k scenario_id zero step p = ok p
  gbm_walk k scenario_id (suc rounds) step p = do
    normal ←
        standard_normal k.spec.global_seed (random_scenario k.spec.antithetic scenario_id) step 0 0
    p' ←
        gbm_step k scenario_id step
          (if is_negated k.spec.antithetic scenario_id then fneg normal else normal) p
    gbm_walk k scenario_id rounds (step + 1) p'

  gbm_discounted : GbmKernel D → GbmPath D → Result D
  gbm_discounted k p = do
    payoff ← payoff_from_path k.spec k.spec.payoff_type p.price p.sum
    ok (fmul k.discount_factor payoff)

  -- GbmKernel::discounted_payoff
  pub gbm_discounted_payoff : GbmKernel D → ℕ → Result D
  gbm_discounted_payoff k scenario_id = do
    throw_if (leb k.spec.total_scenarios scenario_id)
        (out_of_range (what "scenario_id is outside the run specification"))
    p ← gbm_walk k scenario_id k.spec.num_time_steps 0 (gbm_start k)
    discounted ← gbm_discounted k p
    throw_if (not (is_finite discounted))
        (domain_error (what "GBM simulation produced a non-finite payoff"))
    ok discounted

  -- One round of the loop of `antithetic_pair_mean`.
  gbm_pair_step : GbmKernel D → ℕ → ℕ → D → GbmPath D → GbmPath D → Result (GbmPath D × GbmPath D)
  gbm_pair_step k scenario_id step normal p q = do
    throw_if
        (not (is_finite (gbm_exponent k normal))
          || (not (is_finite (gbm_exponent k (fneg normal)))
              || (not (is_finite (gbm_next k normal p.price))
                  || (not (is_finite (gbm_next k (fneg normal) q.price))
                      || (fle (gbm_next k normal p.price) f_zero
                          || fle (gbm_next k (fneg normal) q.price) f_zero)))))
        (domain_error (
          at_step (what "antithetic GBM path became numerically invalid at scenario ") scenario_id
            step))
    throw_if
        (not (is_finite (gbm_moved k normal p).sum)
          || not (is_finite (gbm_moved k (fneg normal) q).sum))
        (domain_error
          (at_step (what "antithetic GBM running sum overflowed at scenario ") scenario_id step))
    ok (gbm_moved k normal p, gbm_moved k (fneg normal) q)

  gbm_pair_walk : GbmKernel D → ℕ → ℕ → ℕ → GbmPath D → GbmPath D → Result (GbmPath D × GbmPath D)
  gbm_pair_walk k scenario_id zero step p q = ok (p, q)
  gbm_pair_walk k scenario_id (suc rounds) step p q = do
    normal ← standard_normal k.spec.global_seed scenario_id step 0 0
    (p', q') ← gbm_pair_step k scenario_id step normal p q
    gbm_pair_walk k scenario_id rounds (step + 1) p' q'

  -- The end of `antithetic_pair_mean`.
  pub gbm_mean : D → D → Result D
  gbm_mean positive negative =
      let mean = fmul f_half (fadd positive negative) in
      if is_finite mean
      then ok mean
      else err (domain_error (what "GBM simulation produced a non-finite pair mean"))

  -- GbmKernel::antithetic_pair_mean
  pub gbm_antithetic_pair_mean : GbmKernel D → ℕ → Result D
  gbm_antithetic_pair_mean k even_scenario_id = do
    throw_if (not k.spec.antithetic)
        (logic_error (what "antithetic pair requested for a plain run"))
    throw_if (even_scenario_id % 2 != 0 || leb k.spec.total_scenarios (add64 even_scenario_id 1))
        (out_of_range (what "antithetic pair must start at a valid even scenario"))
    (p, q) ← gbm_pair_walk k even_scenario_id k.spec.num_time_steps 0 (gbm_start k) (gbm_start k)
    positive ← gbm_discounted k p
    negative ← gbm_discounted k q
    gbm_mean positive negative
