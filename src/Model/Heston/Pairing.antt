-- ===== src/Model/Heston/Pairing.antt =====
-- `HestonKernel::antithetic_pair_mean` of src/models/heston.cpp against two calls of
-- `discounted_payoff`.
use monte_carlo.Prelude.{
  ℕ, zero, suc, ◌+◌, ◌%◌, ◌^◌, ◌<◌, ◌≡◌, ◌∙◌, sym, ap, ap₂, arith, refl, true, false, not, ◌||◌,
  leb,
}
use monte_carlo.Exception.{ok, >>=-eq-ok, throw_if-eq-ok}
use monte_carlo.Float64.{Float64, f_zero, f_one}
use monte_carlo.Rng.{standard_normal}
use monte_carlo.Model.Path.{random_scenario, is_negated, f_minus_one}
use monte_carlo.Model.Heston.{
  HestonKernel, HestonPath, heston_start, heston_moved, heston_checked_move, signed_exponent,
  signed_variance, heston_step, heston_walk, heston_discounted, discounted_payoff_with_sign,
  heston_discounted_payoff, positive_exponent, negative_exponent, positive_moved, negative_moved,
  heston_pair_step, heston_pair_walk, heston_mean, heston_antithetic_pair_mean, correlated,
  price_drift, price_scale, variance_drift, variance_scale,
}

-- Multiplying by 1.0 changes nothing, and adding a product with -1.0 is to subtract.
pub record SignLaws {D : Type 0} (fp : Float64 D) : Type 0 where
  pub times_one : (z : D) → fp.fmul (f_one ⦃fp = fp⦄) z ≡ z
  pub plus_negated :
      (a b z : D)
      → fp.fadd a (fp.fmul b (fp.fmul (f_minus_one ⦃fp = fp⦄) z)) ≡ fp.fsub a (fp.fmul b z)

module _ {D : Type 0} ⦃fp : Float64 D⦄ (laws : SignLaws fp) (k : HestonKernel D) where
  open fp use {fadd, fmul, fneg, fle, is_finite}

  ok-inj : {A : Type 0} {x y : A} → ok x ≡ ok y → x ≡ y
  ok-inj e = cc

  checked-eq-ok :
      (scenario_id step : ℕ) (exponent : D) (p p' : HestonPath D)
      → heston_checked_move scenario_id step exponent p ≡ ok p'
      → ((is_finite exponent ≡ true)
          × (is_finite p.price ≡ true)
          × (fle p.price f_zero ≡ false)
          × (is_finite p.variance ≡ true)
          × (is_finite p.sum ≡ true))
        × (p ≡ p')
  unfolding heston_checked_move
  checked-eq-ok scenario_id step exponent p p' h =
      let (sound, h') =
        throw_if-eq-ok
          (not (is_finite exponent)
            || (not (is_finite p.price) || (fle p.price f_zero || not (is_finite p.variance))))
          _ _ h in
      let (fits, h'') = throw_if-eq-ok (not (is_finite p.sum)) _ _ h' in (ground arith, ok-inj h'')

  positive_lem :
      (i step : ℕ) (z_asset z_orthogonal : D) (p : HestonPath D)
      → heston_step k i step f_one z_asset z_orthogonal p
        ≡ heston_checked_move i step
            (positive_exponent k z_asset p)
            (positive_moved k z_asset (correlated k z_asset z_orthogonal) p)
  unfolding heston_step signed_exponent signed_variance positive_exponent positive_moved
  positive_lem i step z_asset z_orthogonal p =
      ap₂ (λ e v. heston_checked_move i step e (heston_moved e v p))
        (ap (λ t. fadd (price_drift k p) (fmul (price_scale k p) t)) (laws.times_one z_asset))
        (ap (λ t. fadd (variance_drift k p) (fmul (variance_scale k p) t))
          (laws.times_one (correlated k z_asset z_orthogonal)))

  negative_lem :
      (i step : ℕ) (z_asset z_orthogonal : D) (q : HestonPath D)
      → heston_step k i step f_minus_one z_asset z_orthogonal q
        ≡ heston_checked_move i step
            (negative_exponent k z_asset q)
            (negative_moved k z_asset (correlated k z_asset z_orthogonal) q)
  unfolding heston_step signed_exponent signed_variance negative_exponent negative_moved
  negative_lem i step z_asset z_orthogonal q =
      ap₂ (λ e v. heston_checked_move i step e (heston_moved e v q))
        (laws.plus_negated (price_drift k q) (price_scale k q) z_asset)
        (laws.plus_negated (variance_drift k q) (variance_scale k q)
          (correlated k z_asset z_orthogonal))

  heston_pair_step-both :
      (i step : ℕ) (z_asset z_orthogonal : D) (p p' q q' : HestonPath D)
      → heston_step k i step f_one z_asset z_orthogonal p ≡ ok p'
      → heston_step k i step f_minus_one z_asset z_orthogonal q ≡ ok q'
      → heston_pair_step k i step z_asset z_orthogonal p q ≡ ok (p', q')
  unfolding heston_pair_step
  heston_pair_step-both i step z_asset z_orthogonal p p' q q' h g =
      let ((e, price, above, variance, sum), moved) =
        checked-eq-ok i step _ _ p' (sym (positive_lem i step z_asset z_orthogonal p) ∙ h) in
      let ((e', price', above', variance', sum'), moved') =
        checked-eq-ok i step _ _ q' (sym (negative_lem i step z_asset z_orthogonal q) ∙ g) in
      rw (e, e', price, price', above, above', variance, variance', sum, sum', moved, moved') refl

  heston_pair_walk-both :
      (i rounds step : ℕ) (p p' q q' : HestonPath D)
      → heston_walk k i f_one rounds step p ≡ ok p'
      → heston_walk k i f_minus_one rounds step q ≡ ok q'
      → heston_pair_walk k i rounds step p q ≡ ok (p', q')
  unfolding heston_walk heston_pair_walk
  heston_pair_walk-both i zero step p p' q q' h g =
      let same : p ≡ p' = ok-inj h in let same' : q ≡ q' = ok-inj g in rw (same, same') refl
  heston_pair_walk-both i (suc rounds) step p p' q q' h g =
      let (z, drawn, h1) = >>=-eq-ok (standard_normal k.spec.global_seed i step 0 0) _ h in
      let (o, drawn_o, h2) = >>=-eq-ok (standard_normal k.spec.global_seed i step 1 0) _ h1 in
      let (p1, stepped, h3) = >>=-eq-ok (heston_step k i step f_one z o p) _ h2 in
      let (z', drawn', g1) = >>=-eq-ok (standard_normal k.spec.global_seed i step 0 0) _ g in
      let (o', drawn_o', g2) = >>=-eq-ok (standard_normal k.spec.global_seed i step 1 0) _ g1 in
      let (q1, stepped', g3) = >>=-eq-ok (heston_step k i step f_minus_one z' o' q) _ g2 in
      let same : z' ≡ z = ok-inj (sym drawn' ∙ drawn) in
      let same_o : o' ≡ o = ok-inj (sym drawn_o' ∙ drawn_o) in
      rw
        (
          drawn,
          drawn_o,
          heston_pair_step-both i step z o p p1 q q1 stepped (
              ap₂ (λ a b. heston_step k i step f_minus_one a b q) (sym same) (sym same_o)
              ∙ stepped'),
        )
        (heston_pair_walk-both i rounds (step + 1) p1 p' q1 q' h3 g3)

  with_sign-eq-ok :
      (j : ℕ) (shock_sign x : D)
      → discounted_payoff_with_sign k j shock_sign ≡ ok x
      → (p : HestonPath D) × (heston_walk k j shock_sign k.spec.num_time_steps 0 (heston_start k)
          ≡ ok p)
        × (heston_discounted k p ≡ ok x)
  unfolding discounted_payoff_with_sign
  with_sign-eq-ok j shock_sign x h =
      let (p, walked, h2) =
        >>=-eq-ok (heston_walk k j shock_sign k.spec.num_time_steps 0 (heston_start k)) _ h in
      let (y, paid, h3) = >>=-eq-ok (heston_discounted k p) _ h2 in
      let (finite_, h4) = throw_if-eq-ok (not (is_finite y)) _ _ h3 in (p, walked, paid ∙ h4)

  module _ (i : ℕ) (pairs : k.spec.antithetic ≡ true) (even : i % 2 ≡ 0) where
    even_payoff :
        (x : D) → heston_discounted_payoff k i ≡ ok x → discounted_payoff_with_sign k i f_one ≡ ok x
    unfolding heston_discounted_payoff
    even_payoff x h =
        let (inside, h') = throw_if-eq-ok (leb k.spec.total_scenarios i) _ _ h in
        let same : random_scenario k.spec.antithetic i ≡ i = rw pairs (omega arith) in
        let plain : is_negated k.spec.antithetic i ≡ false = rw (pairs, even) refl in
        rw (same, plain) at h'

    odd_payoff :
        (y : D)
        → heston_discounted_payoff k (i + 1) ≡ ok y
        → (leb k.spec.total_scenarios (i + 1) ≡ false)
          × (discounted_payoff_with_sign k i f_minus_one ≡ ok y)
    unfolding heston_discounted_payoff
    odd_payoff y h =
        let (inside, h') = throw_if-eq-ok (leb k.spec.total_scenarios (i + 1)) _ _ h in
        let same : random_scenario k.spec.antithetic (i + 1) ≡ i = rw pairs (omega arith) in
        let odd : (i + 1) % 2 ≡ 1 = omega arith in
        let negated : is_negated k.spec.antithetic (i + 1) ≡ true = rw (pairs, odd) refl in
        (inside, rw (same, negated) at h')

    -- Of an antithetic run, by the laws of the sign of doubles: if the two scenarios of a pair,
    -- taken one by one, have the payoffs `x` and `y`, then the pair's mean, which draws each
    -- normal only once, is that of `x` and `y`, and throws only if this mean is not finite.
    pub heston_antithetic_pair_mean-two_paths :
        (x y : D)
        → i + 1 < 2 ^ 64
        → heston_discounted_payoff k i ≡ ok x
        → heston_discounted_payoff k (i + 1) ≡ ok y
        → heston_antithetic_pair_mean k i ≡ heston_mean x y
    unfolding heston_antithetic_pair_mean
    heston_antithetic_pair_mean-two_paths x y fits h g =
        let (inside, signed) = odd_payoff y g in
        let (p, walked, paid) = with_sign-eq-ok i f_one x (even_payoff x h) in
        let (q, walked', paid') = with_sign-eq-ok i f_minus_one y signed in
        let both =
          heston_pair_walk-both i k.spec.num_time_steps 0 (heston_start k) p (heston_start k) q
            walked walked' in
        let next : (i + 1) % 2 ^ 64 ≡ i + 1 = omega arith in
        rw (both, paid, paid', next, inside, even, pairs) refl
