-- ===== src/RunSpec/Valid.antt =====
-- Which run specifications `RunSpec::validate` lets pass.
use monte_carlo.Prelude.{◌%◌, ◌≤◌, ◌≡◌, ◌↔◌, true, false, Option, none, some, arith, refl}
use monte_carlo.Exception.{ok, >>=-eq-ok}
use monte_carlo.Float64.{Float64, f_zero, f_one}
use monte_carlo.RunSpec.{
  RunSpec, ModelType, PayoffType, HestonParams, gbm, heston, european_call, asian_call,
  validate_payoff, validate_heston, validate_model, validate_common, validate, max_scenarios,
  max_time_steps,
}

abbrev pub PayoffKnown : PayoffType → Type 0
PayoffKnown european_call = Unit
PayoffKnown asian_call = Unit
PayoffKnown (PayoffType.other n) = ⊥

validate_payoff_iff : (p : PayoffType) → (validate_payoff p ≡ ok tt) ↔ PayoffKnown p
unfolding validate_payoff
validate_payoff_iff european_call = (λ h. tt, λ k. refl)
validate_payoff_iff asian_call = (λ h. tt, λ k. refl)
validate_payoff_iff (PayoffType.other n) = (λ h. cc, λ k. absurd k)

module _ {D : Type 0} ⦃fp : Float64 D⦄ where
  open fp use {is_finite, flt, fle, fneg}

  abbrev pub IsPositive : D → Type 0
  IsPositive x = (is_finite x ≡ true) × (fle x f_zero ≡ false)

  abbrev pub IsNonnegative : D → Type 0
  IsNonnegative x = (is_finite x ≡ true) × (flt x f_zero ≡ false)

  pub record IsHestonValid (h : HestonParams D) : Type 0 where
    pub version : h.discretization_version ≡ 1
    pub initial : IsNonnegative h.initial_variance
    pub reversion : IsNonnegative h.mean_reversion_rate
    pub long_run : IsNonnegative h.long_run_variance
    pub vol_of_var : IsNonnegative h.volatility_of_variance
    pub correlation_finite : is_finite h.correlation ≡ true
    pub correlation_low : flt h.correlation (fneg f_one) ≡ false
    pub correlation_high : flt f_one h.correlation ≡ false

  -- Exactly the parameter set of the model is there, and it is in range.
  abbrev pub ModelMatches : ModelType → Option (HestonParams D) → D → Type 0
  ModelMatches gbm none v = IsPositive v
  ModelMatches heston (some h) v = IsHestonValid h
  ModelMatches _ _ v = ⊥

  pub record IsCommonValid (s : RunSpec D) : Type 0 where
    pub engine : s.engine_version ≡ 2
    pub rng : s.rng_version ≡ 2
    pub stats : s.stats_schema_version ≡ 1
    pub some_scenarios : 1 ≤ s.total_scenarios
    pub scenarios_fit : s.total_scenarios ≤ max_scenarios
    pub some_steps : 1 ≤ s.num_time_steps
    pub steps_fit : s.num_time_steps ≤ max_time_steps
    pub maturity_positive : IsPositive s.maturity
    pub spot_positive : IsPositive s.spot
    pub strike_positive : IsPositive s.strike
    pub rate_finite : is_finite s.rate ≡ true
    pub even : s.antithetic ≡ true → s.total_scenarios % 2 ≡ 0

  pub record IsValid (s : RunSpec D) : Type 0 where
    pub common : IsCommonValid s
    pub payoff : PayoffKnown s.payoff_type
    pub model : ModelMatches s.model_type s.heston_params s.volatility

  validate_common-IsCommonValid : (s : RunSpec D) → validate_common s ≡ ok tt → IsCommonValid s
  unfolding validate_common
  validate_common-IsCommonValid s h = ground arith

  IsCommonValid-validate_common : (s : RunSpec D) → IsCommonValid s → validate_common s ≡ ok tt
  unfolding validate_common
  IsCommonValid-validate_common s v = ground arith

  validate_heston_iff : (h : HestonParams D) → (validate_heston h ≡ ok tt) ↔ IsHestonValid h
  unfolding validate_heston
  validate_heston_iff h = (λ e. ground arith, λ v. ground arith)

  validate_model_iff :
      (m : ModelType) (o : Option (HestonParams D)) (v : D)
      → (validate_model m o v ≡ ok tt) ↔ ModelMatches m o v
  unfolding validate_model
  validate_model_iff gbm none v = (λ e. ground arith, λ k. ground arith)
  validate_model_iff gbm (some h) v = (λ e. cc, λ k. absurd k)
  validate_model_iff heston none v = (λ e. cc, λ k. absurd k)
  validate_model_iff heston (some h) v = validate_heston_iff h
  validate_model_iff (ModelType.other n) none v = (λ e. cc, λ k. absurd k)
  validate_model_iff (ModelType.other n) (some h) v = (λ e. cc, λ k. absurd k)

  -- `RunSpec::validate` accepts exactly the specifications with the supported versions, scenario
  -- and step counts within the counter layout, finite and positive market data, an even scenario
  -- count if antithetic, a known payoff, and the in-range parameter set of its model and no other.
  pub validate_iff : (s : RunSpec D) → (validate s ≡ ok tt) ↔ IsValid s
  unfolding validate
  validate_iff s = (passes, accepts)
    where
      passes : validate s ≡ ok tt → IsValid s
      passes h =
          let (a, common, rest) = >>=-eq-ok (validate_common s) _ h in
          let (b, payoff, model) = >>=-eq-ok (validate_payoff s.payoff_type) _ rest in
          record {
            common = validate_common-IsCommonValid s common;
            payoff = (validate_payoff_iff s.payoff_type).0 payoff;
            model = (validate_model_iff s.model_type s.heston_params s.volatility).0 model;
          }

      accepts : IsValid s → validate s ≡ ok tt
      accepts v =
          rw
            (
              IsCommonValid-validate_common s v.common,
              (validate_payoff_iff s.payoff_type).1 v.payoff,
            )
            ((validate_model_iff s.model_type s.heston_params s.volatility).1 v.model)
