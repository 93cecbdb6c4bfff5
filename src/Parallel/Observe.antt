-- ===== src/Parallel/Observe.antt =====
-- `compute_block` of src/runtime/engine.cpp observes each scenario of its block, or each
-- antithetic pair, once.
use monte_carlo.Prelude.{
  ℕ, zero, suc, ◌+◌, ◌-◌, ◌*◌, ◌/◌, ◌%◌, ◌^◌, ◌≤◌, ◌<◌, ◌≡◌, ◌∙◌, sym, ap, arith, refl, Bool, true,
  false, ◌&&◌, ◌||◌, ◌!=◌, leb, ltb, lt→ltb,
}
use monte_carlo.Exception.{Result, ok, ◌>>=◌, >>=-eq-ok, throw_if-eq-ok}
use monte_carlo.Float64.{Float64}
use monte_carlo.RunSpec.{max_scenarios}
use monte_carlo.Aggregate.{AggregateStats, empty_stats, add}
use monte_carlo.Aggregate.Observe.{add-n}
use monte_carlo.Layout.{ScenarioBlock, add64}
use monte_carlo.Coordinator.{expected_observations}
use monte_carlo.Coordinator.Classify.{expected_observations_lem}
use monte_carlo.Parallel.{Kernel, compute_block, observe_block, observe_range}

module _ {D : Type 0} ⦃fp : Float64 D⦄ where
  ok-inj : {x y : AggregateStats D} → ok x ≡ ok y → x ≡ y
  ok-inj e = cc

  observe_range-none :
      (observe : ℕ → Result D) (stride scenario end : ℕ) (s : AggregateStats D)
      → observe_range observe stride 0 scenario end s ≡ ok s
  unfolding observe_range
  observe_range-none observe stride scenario end s = refl

  observe_range-over :
      (observe : ℕ → Result D) (stride rounds scenario end : ℕ) (s : AggregateStats D)
      → ltb scenario end ≡ false
      → observe_range observe stride (suc rounds) scenario end s ≡ ok s
  unfolding observe_range
  observe_range-over observe stride rounds scenario end s h = rw (h, observe_range) refl

  -- A round that returns has added one observation.
  observe_range-more :
      (observe : ℕ → Result D) (stride rounds scenario end : ℕ) (s a : AggregateStats D)
      → ltb scenario end ≡ true
      → observe_range observe stride (suc rounds) scenario end s ≡ ok a
      → (x : D) × (s' : AggregateStats D) × (add s x ≡ ok s')
        × (observe_range observe stride rounds (add64 scenario stride) end s' ≡ ok a)
  unfolding observe_range
  observe_range-more observe stride rounds scenario end s a more h =
      let go : (do
        x ← observe scenario
        s' ← add s x
        observe_range observe stride rounds (add64 scenario stride) end s')
          ≡ ok a =
        sym (rw (more, observe_range) refl) ∙ h in
      let (x, observed, h') = >>=-eq-ok (observe scenario) _ go in
      let (s', added, h'') = >>=-eq-ok (add s x) _ h' in (x, s', added, h'')

  observe_range-n :
      (observe : ℕ → Result D) (stride rounds m scenario end : ℕ) (s a : AggregateStats D)
      → 0 < stride
      → m ≤ rounds
      → end ≡ scenario + m * stride
      → end < 2 ^ 64
      → s.n + m < 2 ^ 64
      → observe_range observe stride rounds scenario end s ≡ ok a
      → a.n ≡ s.n + m
  observe_range-n observe stride zero m scenario end s a pos enough at fits count h =
      let e : s ≡ a = ok-inj (sym (observe_range-none observe stride scenario end s) ∙ h) in
      let e' : s.n ≡ a.n = ap (λ (x : AggregateStats D). x.n) e in omega arith
  observe_range-n observe stride (suc rounds) zero scenario end s a pos enough at fits count h =
      let e : s ≡ a =
        ok-inj (sym (observe_range-over observe stride rounds scenario end s (ground arith)) ∙ h) in
      let e' : s.n ≡ a.n = ap (λ (x : AggregateStats D). x.n) e in omega arith
  observe_range-n observe stride (suc rounds) (suc m) scenario end s a pos enough at fits count h =
      let split : suc m * stride ≡ stride + m * stride = grind arith in
      let more : ltb scenario end ≡ true = lt→ltb _ _ (omega arith) in
      let (x, s', added, h') = observe_range-more observe stride rounds scenario end s a more h in
      let one : s'.n ≡ s.n + 1 = add-n s x s' (omega arith) added in
      omega (
        arith,
        observe_range-n observe stride rounds m (add64 scenario stride) end s' a pos (omega arith)
            (omega arith) fits (omega arith) h',
      )

  pub compute_block-range :
      (kernel : Kernel D) (b : ScenarioBlock) (a : AggregateStats D)
      → compute_block kernel b ≡ ok a
      → (b.start_scenario < b.end_scenario) × (b.end_scenario ≤ kernel.spec.total_scenarios)
  unfolding compute_block
  compute_block-range kernel b a h =
      let (range, h') =
        throw_if-eq-ok
          (leb b.end_scenario b.start_scenario || ltb kernel.spec.total_scenarios b.end_scenario) _
          _ h in
      (ground arith, ground arith)

  -- Of a valid run, an aggregate that `compute_block` returns has the number of observations that
  -- the coordinator expects of the block.
  pub compute_block-n :
      (kernel : Kernel D) (b : ScenarioBlock) (a : AggregateStats D)
      → kernel.spec.total_scenarios ≤ max_scenarios
      → compute_block kernel b ≡ ok a
      → a.n ≡ expected_observations kernel.spec.antithetic b
  unfolding compute_block observe_block
  compute_block-n kernel b a fits h =
      let (range, h') =
        throw_if-eq-ok
          (leb b.end_scenario b.start_scenario || ltb kernel.spec.total_scenarios b.end_scenario) _
          _ h in
      let (parity, h'') =
        throw_if-eq-ok
          (kernel.spec.antithetic && (b.start_scenario % 2 != 0 || b.end_scenario % 2 != 0)) _ _
          h' in
      let forward : b.start_scenario < b.end_scenario = ground arith in
      let within : b.end_scenario ≤ kernel.spec.total_scenarios = ground arith in
      counted kernel.spec.antithetic refl forward (omega arith)
        (parity_lem kernel.spec.antithetic b.start_scenario b.end_scenario parity) h''
    where
      parity_lem :
          (pairs : Bool) (x y : ℕ)
          → (pairs && (x % 2 != 0 || y % 2 != 0)) ≡ false
          → pairs ≡ true
          → (x % 2 ≡ 0) × (y % 2 ≡ 0)
      parity_lem true x y h e = ground arith
      parity_lem false x y h e = cc

      counted :
          (pairs : Bool)
          → kernel.spec.antithetic ≡ pairs
          → b.start_scenario < b.end_scenario
          → b.end_scenario < 2 ^ 64
          → (kernel.spec.antithetic ≡ true → (b.start_scenario % 2 ≡ 0) × (b.end_scenario % 2 ≡ 0))
          → observe_block kernel b ≡ ok a
          → a.n ≡ expected_observations kernel.spec.antithetic b
      counted true pairs forward fits64 even h =
          let (e0, e1) = even pairs in
          let expected = expected_observations_lem kernel.spec.antithetic b (omega arith) fits64 in
          rw (expected, pairs)
            (omega (
              arith,
              observe_range-n kernel.antithetic_pair_mean 2 b.end_scenario
                  ((b.end_scenario - b.start_scenario) / 2) b.start_scenario b.end_scenario
                  empty_stats a (omega arith) (omega arith) (omega arith) fits64 (omega arith)
                  (sym (rw pairs refl) ∙ h),
            ))
      counted false singles forward fits64 even h =
          let expected = expected_observations_lem kernel.spec.antithetic b (omega arith) fits64 in
          rw (expected, singles)
            (omega (
              arith,
              observe_range-n kernel.discounted_payoff 1 b.end_scenario
                  (b.end_scenario - b.start_scenario) b.start_scenario b.end_scenario empty_stats a
                  (omega arith) (omega arith) (omega arith) fits64 (omega arith)
                  (sym (rw singles refl) ∙ h),
            ))
