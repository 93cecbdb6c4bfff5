-- ===== src/Parallel/Confidence.antt =====
-- `confidence_bound` of src/runtime/engine.cpp, which gives the confidence interval of a run.
pub mod Tests
use monte_carlo.Prelude.{
  ℕ, ◌≤◌, ◌≡◌, ◌↔◌, arith, refl, Bool, true, false, not, Option, none, some, ◌||◌, if◌then◌else◌,
  ltb, bytes_of,
}
use monte_carlo.Exception.{Result, ok, err, ◌>>=◌, ◌>>◌, throw_if, invalid_argument, what}
use monte_carlo.Float64.{Float64, f_zero}
use monte_carlo.Aggregate.{AggregateStats, standard_error}
use monte_carlo.Parallel.{RunResult}

abbrev min_normal_confidence_observations : ℕ
min_normal_confidence_observations = 30

module _ {D : Type 0} ⦃fp : Float64 D⦄ where
  open fp use {fadd, fsub, fmul, fle, is_finite}

  -- The bounds around the mean, unless one of them is not finite.
  bound_of : D → D → Bool → Option D
  bound_of mean half_width upper =
      let low = fsub mean half_width in
      let high = fadd mean half_width in
      if not (is_finite half_width) || (not (is_finite low) || not (is_finite high))
      then none
      else some (if upper then high else low)

  bound_with : AggregateStats D → D → Bool → Option D → Option D
  bound_with aggregate z upper none = none
  bound_with aggregate z upper (some error) = bound_of aggregate.mean (fmul z error) upper

  confidence_bound : AggregateStats D → D → Bool → Result (Option D)
  confidence_bound aggregate z upper = do
    throw_if (not (is_finite z) || fle z f_zero)
        (invalid_argument (what "confidence critical value must be finite and positive"))
    ok (
        if ltb aggregate.n min_normal_confidence_observations
        then none
        else bound_with aggregate z upper (standard_error aggregate))

  -- RunResult::confidence_low and RunResult::confidence_high
  pub confidence_low : RunResult D → D → Result (Option D)
  confidence_low run z = confidence_bound run.aggregate z false

  pub confidence_high : RunResult D → D → Result (Option D)
  confidence_high run z = confidence_bound run.aggregate z true

  bound_with-both :
      (aggregate : AggregateStats D) (z low : D) (error : Option D)
      → bound_with aggregate z false error ≡ some low
      → (half_width : D) × (low ≡ fsub aggregate.mean half_width)
        × (bound_with aggregate z true error ≡ some (fadd aggregate.mean half_width))
        × (is_finite low ≡ true)
        × (is_finite (fadd aggregate.mean half_width) ≡ true)
  unfolding bound_with bound_of
  bound_with-both aggregate z low none h = cc
  bound_with-both aggregate z low (some error) h =
      (fmul z error, ground arith, ground arith, ground arith, ground arith)

  -- A run has a lower confidence bound only together with an upper one: they lie at one and the
  -- same half-width from its mean, both are finite, and it has 30 observations at least.
  pub confidence_low-confidence_high :
      (run : RunResult D) (z low : D)
      → confidence_low run z ≡ ok (some low)
      → (30 ≤ run.aggregate.n)
        × ((half_width : D) × (low ≡ fsub run.aggregate.mean half_width)
            × (confidence_high run z ≡ ok (some (fadd run.aggregate.mean half_width)))
            × (is_finite low ≡ true)
            × (is_finite (fadd run.aggregate.mean half_width) ≡ true))
  unfolding confidence_low confidence_high confidence_bound
  confidence_low-confidence_high run z low h =
      ground (arith, bound_with-both run.aggregate z low (standard_error run.aggregate))
