-- ===== src/Aggregate/Observe.antt =====
-- A run of `AggregateStats::add` over a sequence of observations.
use monte_carlo.Prelude.{
  ◌+◌, ◌%◌, ◌^◌, ◌<◌, ◌≡◌, inl, inr, true, false, arith, refl, List, [], ◌∷◌, length, All,
  Bool-cases, ◌==◌,
}
use monte_carlo.Exception.{Result, ok, ◌>>=◌}
use monte_carlo.Float64.{Float64, fmin, fmax}
use monte_carlo.Aggregate.{AggregateStats, empty_stats, add, next_observation, first_observation}

-- `<` on doubles is a strict order; every comparison with a NaN is false.
pub record StrictOrder {D : Type 0} (fp : Float64 D) : Type 0 where
  pub flt_irrefl : (x : D) → fp.flt x x ≡ false
  pub flt_trans : (x y z : D) → fp.flt x y ≡ true → fp.flt y z ≡ true → fp.flt x z ≡ true

module _ {D : Type 0} ⦃fp : Float64 D⦄ where
  open fp use {flt, is_finite}

  -- One `add` for each observation, in order; the first exception ends the run.
  pub add_all : AggregateStats D → List D → Result (AggregateStats D)
  add_all s [] = ok s
  add_all s (x ∷ xs) = do s' ← add s x; add_all s' xs

  -- Finite observations never make a run throw.
  pub add_all_total :
      (s : AggregateStats D) (xs : List D)
      → All (λ x. is_finite x ≡ true) xs
      → (r : AggregateStats D) × (add_all s xs ≡ ok r)
  unfolding add_all add
  add_all_total s [] h = (s, refl)
  add_all_total s (x ∷ xs) (fin, rest) = elim (Bool-cases (s.n == 0)) [
    | inl e ↦ rw (fin, e) (add_all_total (first_observation x) xs rest)
    | inr e ↦ rw (fin, e) (add_all_total (next_observation s x) xs rest)
  ]

  next_observation-n :
      (s : AggregateStats D) (x : D) → (next_observation s x).n ≡ (s.n + 1) % 2 ^ 64
  unfolding next_observation
  next_observation-n s x = refl

  pub add-n :
      (s : AggregateStats D) (x : D) (r : AggregateStats D)
      → s.n + 1 < 2 ^ 64
      → add s x ≡ ok r
      → r.n ≡ s.n + 1
  unfolding add next_observation
  add-n s x r fits h = ground arith

  -- No observation lies outside the recorded minimum and maximum.
  abbrev pub Within : AggregateStats D → D → Type 0
  Within s x = (flt x s.min ≡ false) × (flt s.max x ≡ false)

  module _ (order : StrictOrder fp) where
    fmin-keeps : (x a b : D) → flt x a ≡ false → flt x (fmin a b) ≡ false
    fmin-keeps x a b h = elim (Bool-cases (flt b a)) [
      | inl below ↦ rw below (elim (Bool-cases (flt x b)) [
        | inl lt ↦ absurd (cc (order.flt_trans x b a lt below))
        | inr ge ↦ ge
      ])
      | inr above ↦ rw above h
    ]

    fmax-keeps : (x a b : D) → flt a x ≡ false → flt (fmax a b) x ≡ false
    fmax-keeps x a b h = elim (Bool-cases (flt a b)) [
      | inl above ↦ rw above (elim (Bool-cases (flt b x)) [
        | inl lt ↦ absurd (cc (order.flt_trans a b x above lt))
        | inr ge ↦ ge
      ])
      | inr below ↦ rw below h
    ]

    fmin-new : (a b : D) → flt b (fmin a b) ≡ false
    fmin-new a b = elim (Bool-cases (flt b a)) [
      | inl below ↦ rw below (order.flt_irrefl b)
      | inr above ↦ rw above above
    ]

    fmax-new : (a b : D) → flt (fmax a b) b ≡ false
    fmax-new a b = elim (Bool-cases (flt a b)) [
      | inl above ↦ rw above (order.flt_irrefl b)
      | inr below ↦ rw below below
    ]

    next-keeps : (s : AggregateStats D) (x y : D) → Within s y → Within (next_observation s x) y
    unfolding next_observation
    next-keeps s x y w = (fmin-keeps y s.min x w.0, fmax-keeps y s.max x w.1)

    next-new : (s : AggregateStats D) (x : D) → Within (next_observation s x) x
    unfolding next_observation
    next-new s x = (fmin-new s.min x, fmax-new s.max x)

    -- From an aggregate that has observations, a run that returns counts every new one and has
    -- both the old and the new ones within its bounds.
    add_all-started :
        (s : AggregateStats D) (xs : List D) (r : AggregateStats D)
        → 0 < s.n
        → s.n + length xs < 2 ^ 64
        → add_all s xs ≡ ok r
        → (r.n ≡ s.n + length xs) × ((y : D) → Within s y → Within r y) × All (Within r) xs
    unfolding add_all add
    add_all-started s [] r p q h = let e : s ≡ r = cc in rw (← e) (omega arith, λ y w. w, tt)
    add_all-started s (x ∷ xs) r p q h =
        let (n, old, new) =
          add_all-started (next_observation s x) xs r (omega (arith, next_observation-n s x))
            (omega (arith, next_observation-n s x)) (ground arith) in
        (
          omega (arith, n, next_observation-n s x),
          λ y w. old y (next-keeps s x y w),
          (old x (next-new s x), new),
        )

    -- Over one or more finite observations, fewer than 2 ^ 64, a fresh aggregate returns, has
    -- counted each of them, and none lies below its minimum or above its maximum.
    pub add_all-bounds :
        (x : D) (xs : List D)
        → All (λ y. is_finite y ≡ true) (x ∷ xs)
        → 1 + length xs < 2 ^ 64
        → (r : AggregateStats D) × (add_all empty_stats (x ∷ xs) ≡ ok r)
          × (r.n ≡ 1 + length xs)
          × All (Within r) (x ∷ xs)
    unfolding add_all add
    add_all-bounds x xs (fin, rest) fits =
        let (r, e) = add_all_total (first_observation x) xs rest in
        let (n, old, new) =
          add_all-started (first_observation x) xs r (omega arith) (omega arith) e in
        (r, rw fin e, n, (old x (order.flt_irrefl x, order.flt_irrefl x), new))
