-- ===== src/Reduce/Tree.antt =====
-- The reduction is the evaluation of one binary tree, whose shape is set by the number of leaves.
use monte_carlo.Prelude.{
  ℕ, zero, suc, ◌≡◌, ◌↔◌, refl, sym, ap, ◌∙◌, List, [], ◌∷◌, ◌++◌, length, ltb, true, false,
  Bool-cases, inl, inr, append_assoc,
}
use monte_carlo.Exception.{Result, ok, ◌>>=◌, >>=-eq-ok}
use monte_carlo.Float64.{Float64}
use monte_carlo.Aggregate.{AggregateStats, merge}
use monte_carlo.Reduce.{next_level, reduce_levels}

pub data Tree {ℓ} (A : Type ℓ) : Type ℓ where
  leaf : A → Tree A
  node : Tree A → Tree A → Tree A

module _ {ℓ} {A : Type ℓ} where
  -- The trees of the next level, over those of this one.
  pub pairs : List (Tree A) → List (Tree A)
  pairs (s ∷ t ∷ rest) = node s t ∷ pairs rest
  pairs (t ∷ []) = t ∷ []
  pairs [] = []

  pub grow : ℕ → List (Tree A) → List (Tree A)
  grow zero ts = ts
  grow (suc fuel) ts = elim (ltb 1 (length ts)) [ true ↦ grow fuel (pairs ts) | false ↦ ts ]

  abbrev pub singles : List A → List (Tree A)
  singles [] = []
  singles (x ∷ xs) = leaf x ∷ singles xs

  -- The reduction tree over the leaves, in a list of its own.
  pub reduction_tree : List A → List (Tree A)
  reduction_tree xs = grow (length xs) (singles xs)

  -- The leaves from left to right.
  abbrev pub leaves_of : Tree A → List A
  leaves_of (leaf x) = x ∷ []
  leaves_of (node s t) = leaves_of s ++ leaves_of t

  abbrev pub all_leaves : List (Tree A) → List A
  all_leaves [] = []
  all_leaves (t ∷ ts) = leaves_of t ++ all_leaves ts

  all_leaves-pairs : (ts : List (Tree A)) → all_leaves (pairs ts) ≡ all_leaves ts
  unfolding pairs
  all_leaves-pairs [] = refl
  all_leaves-pairs (t ∷ []) = refl
  all_leaves-pairs (s ∷ t ∷ rest) =
      rw (all_leaves-pairs rest) (append_assoc (leaves_of s) (leaves_of t) (all_leaves rest))

  all_leaves-grow : (fuel : ℕ) (ts : List (Tree A)) → all_leaves (grow fuel ts) ≡ all_leaves ts
  unfolding grow
  all_leaves-grow zero ts = refl
  all_leaves-grow (suc fuel) ts = elim (Bool-cases (ltb 1 (length ts))) [
    | inl e ↦ rw (e, grow) (all_leaves-grow fuel (pairs ts) ∙ all_leaves-pairs ts)
    | inr e ↦ rw (e, grow) refl
  ]

  all_leaves-singles : (xs : List A) → all_leaves (singles xs) ≡ xs
  all_leaves-singles [] = refl
  all_leaves-singles (x ∷ xs) = ap (λ (l : List A). x ∷ l) (all_leaves-singles xs)

  -- The reduction tree has every leaf once, in block order.
  pub all_leaves-reduction_tree : (xs : List A) → all_leaves (reduction_tree xs) ≡ xs
  unfolding reduction_tree
  all_leaves-reduction_tree xs = all_leaves-grow (length xs) (singles xs) ∙ all_leaves-singles xs

module _ {D : Type 0} ⦃fp : Float64 D⦄ where
  abbrev pub eval : Tree (AggregateStats D) → Result (AggregateStats D)
  eval (leaf x) = ok x
  eval (node s t) = do x ← eval s; y ← eval t; merge x y

  abbrev pub evals : List (Tree (AggregateStats D)) → Result (List (AggregateStats D))
  evals [] = ok []
  evals (t ∷ ts) = do x ← eval t; xs ← evals ts; ok (x ∷ xs)

  evals-cons :
      (t : Tree (AggregateStats D)) (ts : List (Tree (AggregateStats D))) (x : AggregateStats D)
      (xs : List (AggregateStats D))
      → eval t ≡ ok x
      → evals ts ≡ ok xs
      → evals (t ∷ ts) ≡ ok (x ∷ xs)
  evals-cons t ts x xs h k = rw (h, k) refl

  evals-pair :
      (s t : Tree (AggregateStats D)) (rest : List (Tree (AggregateStats D)))
      (x y : AggregateStats D) (zs : List (AggregateStats D))
      → eval s ≡ ok x
      → eval t ≡ ok y
      → evals (pairs rest) ≡ next_level zs
      → evals (pairs (s ∷ t ∷ rest)) ≡ next_level (x ∷ y ∷ zs)
  unfolding pairs next_level
  evals-pair s t rest x y zs h k l = rw (h, k, l) refl

  evals-carried :
      (t : Tree (AggregateStats D)) (x : AggregateStats D)
      → eval t ≡ ok x
      → evals (pairs (t ∷ [])) ≡ next_level (x ∷ [])
  unfolding pairs next_level
  evals-carried t x h = evals-cons t [] x [] h refl

  evals-no_pairs : evals (pairs []) ≡ next_level []
  unfolding pairs next_level
  evals-no_pairs = refl

  evals-pairs :
      (ts : List (Tree (AggregateStats D))) (xs : List (AggregateStats D))
      → evals ts ≡ ok xs
      → evals (pairs ts) ≡ next_level xs
  evals-pairs [] xs h = let e : [] ≡ xs = cc in evals-no_pairs ∙ ap next_level e
  evals-pairs (t ∷ []) xs h =
      let (x, value, h1) = >>=-eq-ok (eval t) _ h in
      let e : x ∷ [] ≡ xs = cc in evals-carried t x value ∙ ap next_level e
  evals-pairs (s ∷ t ∷ rest) xs h =
      let (x, left, h1) = >>=-eq-ok (eval s) _ h in
      let (ys, others, h2) = >>=-eq-ok (evals (t ∷ rest)) _ h1 in
      let (y, right, h3) = >>=-eq-ok (eval t) _ others in
      let (zs, below, h4) = >>=-eq-ok (evals rest) _ h3 in
      let e : x ∷ y ∷ zs ≡ xs = cc in
      evals-pair s t rest x y zs left right (evals-pairs rest zs below) ∙ ap next_level e

  pairs-ok :
      (ts : List (Tree (AggregateStats D))) (ys : List (AggregateStats D))
      → evals (pairs ts) ≡ ok ys
      → (xs : List (AggregateStats D)) × (evals ts ≡ ok xs)
  unfolding pairs
  pairs-ok [] ys h = ([], refl)
  pairs-ok (t ∷ []) ys h = (ys, h)
  pairs-ok (s ∷ t ∷ rest) ys h =
      let (m, merged, h1) = >>=-eq-ok (eval (node s t)) _ h in
      let (x, left, h2) = >>=-eq-ok (eval s) _ merged in
      let (y, right, h3) = >>=-eq-ok (eval t) _ h2 in
      let (ms, others, h4) = >>=-eq-ok (evals (pairs rest)) _ h1 in
      let (xs, below) = pairs-ok rest ms others in
      (x ∷ y ∷ xs, evals-cons s (t ∷ rest) x (y ∷ xs) left (evals-cons t rest y xs right below))

  grow-ok :
      (fuel : ℕ) (ts : List (Tree (AggregateStats D))) (ys : List (AggregateStats D))
      → evals (grow fuel ts) ≡ ok ys
      → (xs : List (AggregateStats D)) × (evals ts ≡ ok xs)
  unfolding grow
  grow-ok zero ts ys h = (ys, h)
  grow-ok (suc fuel) ts ys h = elim (Bool-cases (ltb 1 (length ts))) [
    | inl e ↦
        let (zs, level) = grow-ok fuel (pairs ts) ys (rw (e, grow) at h) in pairs-ok ts zs level
    | inr e ↦ (ys, rw (e, grow) at h)
  ]

  length-evals :
      (ts : List (Tree (AggregateStats D))) (xs : List (AggregateStats D))
      → evals ts ≡ ok xs
      → length ts ≡ length xs
  length-evals [] xs h = let e : [] ≡ xs = cc in rw (← e) refl
  length-evals (t ∷ ts) xs h =
      let (x, value, h1) = >>=-eq-ok (eval t) _ h in
      let (ys, others, h2) = >>=-eq-ok (evals ts) _ h1 in
      let e : x ∷ ys ≡ xs = cc in rw (← e) (ap suc (length-evals ts ys others))

  -- Level by level or tree by tree: the same aggregates come out.
  reduce_levels_iff :
      (fuel : ℕ) (ts : List (Tree (AggregateStats D))) (xs ys : List (AggregateStats D))
      → evals ts ≡ ok xs
      → (reduce_levels fuel xs ≡ ok ys) ↔ (evals (grow fuel ts) ≡ ok ys)
  unfolding reduce_levels grow
  reduce_levels_iff zero ts xs ys h = (λ e. h ∙ e, λ e. sym h ∙ e)
  reduce_levels_iff (suc fuel) ts xs ys h = elim (Bool-cases (ltb 1 (length xs))) [
    | inl more ↦
        let more' : ltb 1 (length ts) ≡ true = rw (length-evals ts xs h) more in
        rw (more, more', reduce_levels, grow)
          (
            λ e.
                let (zs, level, e1) = >>=-eq-ok (next_level xs) _ e in
                (reduce_levels_iff fuel (pairs ts) zs ys (evals-pairs ts xs h ∙ level)).0 e1,
            λ e.
                let (zs, level) = grow-ok fuel (pairs ts) ys e in
                rw (sym (evals-pairs ts xs h) ∙ level)
                  ((reduce_levels_iff fuel (pairs ts) zs ys level).1 e),
          )
    | inr done ↦
        let done' : ltb 1 (length ts) ≡ false = rw (length-evals ts xs h) done in
        rw (done, done', reduce_levels, grow) (λ e. h ∙ e, λ e. sym h ∙ e)
  ]

  evals-singles : (xs : List (AggregateStats D)) → evals (singles xs) ≡ ok xs
  evals-singles [] = refl
  evals-singles (x ∷ xs) = rw (evals-singles xs) refl

  -- The reduction loop leaves exactly the values of the fixed reduction tree over its leaves,
  -- whenever either of the two is defined.
  pub reduce_levels-eq-reduction_tree :
      (leaves level : List (AggregateStats D))
      → (reduce_levels (length leaves) leaves ≡ ok level)
        ↔ (evals (reduction_tree leaves) ≡ ok level)
  unfolding reduction_tree
  reduce_levels-eq-reduction_tree leaves level =
      reduce_levels_iff (length leaves) (singles leaves) leaves level (evals-singles leaves)
