-- ===== src/Model/Gbm/Pairing.antt =====
-- `GbmKernel::antithetic_pair_mean` of src/models/gbm.cpp against two calls of
-- `discounted_payoff`.
use monte_carlo.Prelude.{
  ℕ, zero, suc, ◌+◌, ◌%◌, ◌^◌, ◌<◌, ◌≡◌, ◌∙◌, sym, ap, arith, refl, true, false, not, ◌||◌, leb,
}
use monte_carlo.Exception.{ok, ◌>>=◌, >>=-eq-ok, throw_if-eq-ok}
use monte_carlo.Float64.{Float64, f_zero}
use monte_carlo.Rng.{standard_normal}
use monte_carlo.Model.Path.{random_scenario, is_negated}
use monte_carlo.Model.Gbm.{
  GbmKernel, GbmPath, gbm_exponent, gbm_next, gbm_start, gbm_moved, gbm_step, gbm_walk,
  gbm_discounted, gbm_discounted_payoff, gbm_pair_step, gbm_pair_walk, gbm_mean,
  gbm_antithetic_pair_mean,
}

module _ {D : Type 0} ⦃fp : Float64 D⦄ (k : GbmKernel D) where
  open fp use {fadd, fmul, fneg, fle, is_finite}

  ok-inj : {A : Type 0} {x y : A} → ok x ≡ ok y → x ≡ y
  ok-inj e = cc

  gbm_step-eq-ok :
      (scenario_id step : ℕ) (normal : D) (p p' : GbmPath D)
      → gbm_step k scenario_id step normal p ≡ ok p'
      → ((is_finite (gbm_exponent k normal) ≡ true)
          × (is_finite (gbm_next k normal p.price) ≡ true)
          × (fle (gbm_next k normal p.price) f_zero ≡ false)
          × (is_finite (gbm_moved k normal p).sum ≡ true))
        × (gbm_moved k normal p ≡ p')
  unfolding gbm_step
  gbm_step-eq-ok scenario_id step normal p p' h =
      let (sound, h') =
        throw_if-eq-ok
          (not (is_finite (gbm_exponent k normal))
            || (not (is_finite (gbm_next k normal p.price))
                || fle (gbm_next k normal p.price) f_zero))
          _ _ h in
      let (fits, h'') = throw_if-eq-ok (not (is_finite (gbm_moved k normal p).sum)) _ _ h' in
      (ground arith, ok-inj h'')

  gbm_pair_step-both :
      (i j scenario_id step : ℕ) (normal : D) (p p' q q' : GbmPath D)
      → gbm_step k i step normal p ≡ ok p'
      → gbm_step k j step (fneg normal) q ≡ ok q'
      → gbm_pair_step k scenario_id step normal p q ≡ ok (p', q')
  unfolding gbm_pair_step
  gbm_pair_step-both i j scenario_id step normal p p' q q' h g =
      let ((e, n, above, fits), moved) = gbm_step-eq-ok i step normal p p' h in
      let ((e', n', above', fits'), moved') = gbm_step-eq-ok j step (fneg normal) q q' g in
      rw (e, e', n, n', above, above', fits, fits', moved, moved') refl

  module _ (i : ℕ) (pairs : k.spec.antithetic ≡ true) (even : i % 2 ≡ 0) where
    even_scenario : random_scenario k.spec.antithetic i ≡ i
    even_scenario = rw pairs (omega arith)

    odd_scenario : random_scenario k.spec.antithetic (i + 1) ≡ i
    odd_scenario = rw pairs (omega arith)

    even_sign : is_negated k.spec.antithetic i ≡ false
    even_sign = rw (pairs, even) refl

    odd_sign : is_negated k.spec.antithetic (i + 1) ≡ true
    odd_sign = let odd : (i + 1) % 2 ≡ 1 = omega arith in rw (pairs, odd) refl

    even_round :
        (rounds step : ℕ) (p : GbmPath D)
        → gbm_walk k i (suc rounds) step p ≡ (do
          normal ← standard_normal k.spec.global_seed i step 0 0
          p' ← gbm_step k i step normal p
          gbm_walk k i rounds (step + 1) p')
    unfolding gbm_walk
    even_round rounds step p = rw (even_scenario, even_sign) refl

    odd_round :
        (rounds step : ℕ) (q : GbmPath D)
        → gbm_walk k (i + 1) (suc rounds) step q ≡ (do
          normal ← standard_normal k.spec.global_seed i step 0 0
          q' ← gbm_step k (i + 1) step (fneg normal) q
          gbm_walk k (i + 1) rounds (step + 1) q')
    unfolding gbm_walk
    odd_round rounds step q = rw (odd_scenario, odd_sign) refl

    gbm_pair_walk-both :
        (rounds step : ℕ) (p p' q q' : GbmPath D)
        → gbm_walk k i rounds step p ≡ ok p'
        → gbm_walk k (i + 1) rounds step q ≡ ok q'
        → gbm_pair_walk k i rounds step p q ≡ ok (p', q')
    unfolding gbm_pair_walk
    gbm_pair_walk-both zero step p p' q q' h g =
        let same : p ≡ p' = unfold gbm_walk in ok-inj h in
        let same' : q ≡ q' = unfold gbm_walk in ok-inj g in rw (same, same') refl
    gbm_pair_walk-both (suc rounds) step p p' q q' h g =
        let (normal, drawn, h') =
          >>=-eq-ok (standard_normal k.spec.global_seed i step 0 0) _
            (sym (even_round rounds step p) ∙ h) in
        let (p1, stepped, h'') = >>=-eq-ok (gbm_step k i step normal p) _ h' in
        let (normal', drawn', g') =
          >>=-eq-ok (standard_normal k.spec.global_seed i step 0 0) _
            (sym (odd_round rounds step q) ∙ g) in
        let (q1, stepped', g'') = >>=-eq-ok (gbm_step k (i + 1) step (fneg normal') q) _ g' in
        let same : normal' ≡ normal = ok-inj (sym drawn' ∙ drawn) in
        rw
          (
            drawn,
            gbm_pair_step-both i (i + 1) i step normal p p1 q q1 stepped
                (ap (λ z. gbm_step k (i + 1) step (fneg z) q) (sym same) ∙ stepped'),
          )
          (gbm_pair_walk-both rounds (step + 1) p1 p' q1 q' h'' g'')

    discounted-eq-ok :
        (j : ℕ) (x : D)
        → gbm_discounted_payoff k j ≡ ok x
        → (leb k.spec.total_scenarios j ≡ false)
          × ((p : GbmPath D) × (gbm_walk k j k.spec.num_time_steps 0 (gbm_start k) ≡ ok p)
              × (gbm_discounted k p ≡ ok x))
    unfolding gbm_discounted_payoff
    discounted-eq-ok j x h =
        let (inside, h1) = throw_if-eq-ok (leb k.spec.total_scenarios j) _ _ h in
        let (p, walked, h2) = >>=-eq-ok (gbm_walk k j k.spec.num_time_steps 0 (gbm_start k)) _ h1 in
        let (y, paid, h3) = >>=-eq-ok (gbm_discounted k p) _ h2 in
        let (finite_, h4) = throw_if-eq-ok (not (is_finite y)) _ _ h3 in
        (inside, (p, walked, paid ∙ h4))

    -- Of an antithetic run: if the two scenarios of a pair, taken one by one, have the payoffs
    -- `x` and `y`, then the pair's mean, which draws each normal only once, is that of `x` and
    -- `y`, and throws only if this mean is not finite.
    pub gbm_antithetic_pair_mean-two_paths :
        (x y : D)
        → i + 1 < 2 ^ 64
        → gbm_discounted_payoff k i ≡ ok x
        → gbm_discounted_payoff k (i + 1) ≡ ok y
        → gbm_antithetic_pair_mean k i ≡ gbm_mean x y
    unfolding gbm_antithetic_pair_mean
    gbm_antithetic_pair_mean-two_paths x y fits h g =
        let (inside, (p, walked, paid)) = discounted-eq-ok i x h in
        let (inside', (q, walked', paid')) = discounted-eq-ok (i + 1) y g in
        let both =
          gbm_pair_walk-both k.spec.num_time_steps 0 (gbm_start k) p (gbm_start k) q walked
            walked' in
        let next : (i + 1) % 2 ^ 64 ≡ i + 1 = omega arith in
        rw (both, paid, paid', next, inside', even, pairs) refl
