-- ===== src/Coordinator/Commit.antt =====
-- Committing: each block contributes one payload, once.
use monte_carlo.Prelude.{
  ℕ, ◌+◌, ◌≤◌, ◌≡◌, ◌≢◌, ◌<◌, if◌then◌else◌, inl, inr, arith, refl, List, [], ◌∷◌, true, false,
  Option, none, some, get_elem?, length, get_elem?-set_self, get_elem?-set_ne, get_elem?-lt,
  length-set, Bool-cases, ap, sym, ◌∙◌, ◌==◌,
}
use monte_carlo.Exception.{Result, ok, ◌>>=◌, >>=-eq-ok}
use monte_carlo.Float64.{Float64}
use monte_carlo.Hash.{Digest}
use monte_carlo.Layout.{BlockResult}
use monte_carlo.Coordinator.{
  CoordinatorState, Validation, ValidationStatus, accepted, validate_result, commit_result,
  is_accepted, committed_in, after_commit,
}
use monte_carlo.Coordinator.Classify.{validate_result-accepted_iff, IsAcceptable}

-- Every block has a slot.
pub record IsUniverse (s : CoordinatorState) : Type 0 where
  pub slots : length s.committed_payloads ≡ length s.blocks
  pub schema : s.stats_schema_version ≡ 1

is_accepted_iff : (v : ValidationStatus) → is_accepted v ≡ true → v ≡ accepted
is_accepted_iff accepted h = refl
is_accepted_iff v h = cc

-- What is committed for a block.
abbrev pub payload_of : CoordinatorState → ℕ → Option Digest
payload_of s id = committed_in (get_elem? s.committed_payloads id)

module _ {D : Type 0} ⦃fp : Float64 D⦄ where
  pub commit_result-eq-ok :
      (r : BlockResult D) (s s' : CoordinatorState) (v : Validation)
      → commit_result r s ≡ ok (v, s')
      → (validate_result r s ≡ ok v) × (s' ≡ after_commit r v s)
  unfolding commit_result
  commit_result-eq-ok r s s' v h =
      let (w, classified, e) = >>=-eq-ok (validate_result r s) _ h in
      let e0 : w ≡ v = cc in
      let e1 : after_commit r w s ≡ s' = cc in
      (classified ∙ ap ok e0, sym e1 ∙ ap (λ (x : Validation). after_commit r x s) e0)

  -- Committing an acceptable result enters its payload.
  pub commit_result-accepts :
      (r : BlockResult D) (s : CoordinatorState)
      → s.stats_schema_version ≡ 1
      → IsAcceptable r s
      → (v : Validation) × (commit_result r s ≡ ok (v, after_commit r v s)) × (v.status ≡ accepted)
  unfolding commit_result
  commit_result-accepts r s schema a =
      let (v, classified, status) = (validate_result-accepted_iff r s schema).1 a in
      (v, rw classified refl, status)

  -- A result is accepted only for a block of the run that has nothing committed.
  accepted-uncommitted :
      (r : BlockResult D) (s : CoordinatorState) (v : Validation)
      → IsUniverse s
      → validate_result r s ≡ ok v
      → v.status ≡ accepted
      → (payload_of s r.block.block_id ≡ none) × (r.block.block_id < length s.committed_payloads)
  accepted-uncommitted r s v u h k =
      let a = (validate_result-accepted_iff r s u.schema).0 (v, h, k) in
      (
        a.uncommitted,
        omega (arith, u.slots, get_elem?-lt s.blocks r.block.block_id a.expected a.known_block),
      )

  -- The effect of an accepted result on each slot, and of any other on none.
  module _ (r : BlockResult D) (s : CoordinatorState) (v : Validation) where
    payload_of-accepted :
        (k : ℕ)
        → is_accepted v.status ≡ true
        → r.block.block_id < length s.committed_payloads
        → payload_of (after_commit r v s) k
          ≡ (if r.block.block_id == k then some r.payload_checksum else payload_of s k)
    payload_of-accepted k acc lt = elim (Bool-cases (r.block.block_id == k)) [
      | inl e ↦
          let same : r.block.block_id ≡ k = ground arith in
          rw
            (
              acc,
              e,
              ← same,
              get_elem?-set_self s.committed_payloads r.block.block_id (some r.payload_checksum) lt,
            )
            refl
      | inr e ↦
          rw
            (
              acc,
              e,
              get_elem?-set_ne s.committed_payloads r.block.block_id k (some r.payload_checksum)
                  (λ w. ground arith),
            )
            refl
    ]

    payload_of-rejected :
        (k : ℕ) → is_accepted v.status ≡ false → payload_of (after_commit r v s) k ≡ payload_of s k
    payload_of-rejected k rej = rw rej refl

    IsUniverse-after_commit : IsUniverse s → IsUniverse (after_commit r v s)
    IsUniverse-after_commit u = elim (Bool-cases (is_accepted v.status)) [
      | inl acc ↦ rw acc (record {
        slots =
            length-set s.committed_payloads r.block.block_id (some r.payload_checksum) ∙ u.slots;
        schema = u.schema;
      })
      | inr rej ↦ rw rej u
    ]

  -- Each result in turn, with the classification that it got.
  unfoldable pub commit_all :
      List (BlockResult D)
      → CoordinatorState
      → Result (List (ℕ × ValidationStatus) × CoordinatorState)
  commit_all [] s = ok ([], s)
  commit_all (r ∷ rs) s = do
    (v, s') ← commit_result r s
    (trace, s'') ← commit_all rs s'
    ok ((r.block.block_id, v.status) ∷ trace, s'')

-- How many results for block `k` were accepted.
abbrev pub accepted_for : ℕ → List (ℕ × ValidationStatus) → ℕ
accepted_for k [] = 0
accepted_for k ((id, status) ∷ trace) =
    (if id == k then (if is_accepted status then 1 else 0) else 0) + accepted_for k trace

-- 1 for a block with a committed payload, else 0.
abbrev pub committed_count : Option Digest → ℕ
committed_count none = 0
committed_count (some d) = 1

committed_count-le : (o : Option Digest) → committed_count o ≤ 1
committed_count-le none = omega arith
committed_count-le (some d) = omega arith

some-ne-none : (d : Digest) → ◌≢◌ {A = Option Digest} (some d) none
some-ne-none d e = cc

module _ {D : Type 0} ⦃fp : Float64 D⦄ where
  -- One classified result: the number of accepted results for `k` goes with its slot.
  step_count :
      (r : BlockResult D) (s : CoordinatorState) (v : Validation) (k : ℕ)
      → IsUniverse s
      → validate_result r s ≡ ok v
      → accepted_for k ((r.block.block_id, v.status) ∷ []) + committed_count (payload_of s k)
        ≡ committed_count (payload_of (after_commit r v s) k)
  step_count r s v k u h = elim (Bool-cases (is_accepted v.status)) [
    | inl acc ↦
        let (free, lt) = accepted-uncommitted r s v u h (is_accepted_iff v.status acc) in
        rw (payload_of-accepted r s v k acc lt) (elim (Bool-cases (r.block.block_id == k)) [
          | inl e ↦
              let same : r.block.block_id ≡ k = ground arith in
              let free' : payload_of s k ≡ none = rw (← same) free in
              rw (e, acc, free') (omega arith)
          | inr e ↦ rw e (omega arith)
        ])
    | inr rej ↦ rw (payload_of-rejected r s v k rej) (elim (Bool-cases (r.block.block_id == k)) [
      | inl e ↦ rw (e, rej) (omega arith)
      | inr e ↦ rw e (omega arith)
    ])
  ]

  -- A committed payload stays.
  step-keeps :
      (r : BlockResult D) (s : CoordinatorState) (v : Validation) (k : ℕ) (d : Digest)
      → IsUniverse s
      → validate_result r s ≡ ok v
      → payload_of s k ≡ some d
      → payload_of (after_commit r v s) k ≡ some d
  step-keeps r s v k d u h p = elim (Bool-cases (is_accepted v.status)) [
    | inl acc ↦
        let (free, lt) = accepted-uncommitted r s v u h (is_accepted_iff v.status acc) in
        rw (payload_of-accepted r s v k acc lt) (elim (Bool-cases (r.block.block_id == k)) [
          | inl e ↦
              let same : r.block.block_id ≡ k = ground arith in
              let free' : payload_of s k ≡ none = rw (← same) free in
              absurd (some-ne-none d (sym p ∙ free'))
          | inr e ↦ rw e p
        ])
    | inr rej ↦ rw (payload_of-rejected r s v k rej) p
  ]

  commit_all-lem :
      (rs : List (BlockResult D)) (s s' : CoordinatorState) (trace : List (ℕ × ValidationStatus))
      (k : ℕ)
      → IsUniverse s
      → commit_all rs s ≡ ok (trace, s')
      → (accepted_for k trace + committed_count (payload_of s k)
          ≡ committed_count (payload_of s' k))
        × ((d : Digest) → payload_of s k ≡ some d → payload_of s' k ≡ some d)
  unfolding commit_all
  commit_all-lem [] s s' trace k u h =
      let e : [] ≡ trace = cc in let e' : s ≡ s' = cc in rw (← e, ← e') (omega arith, λ d p. p)
  commit_all-lem (r ∷ rs) s s' trace k u h =
      let (p, first, h1) = >>=-eq-ok (commit_result r s) _ h in
      let (q, rest, h2) = >>=-eq-ok (commit_all rs p.1) _ h1 in
      let (classified, e) = commit_result-eq-ok r s p.1 p.0 first in
      let u' = IsUniverse-after_commit r s p.0 u in
      let same_trace : (r.block.block_id, p.0.status) ∷ q.0 ≡ trace = cc in
      let same_state : q.1 ≡ s' = cc in
      let (count, keeps) =
        commit_all-lem rs (after_commit r p.0 s) q.1 q.0 k u'
          (ap (λ (t : CoordinatorState). commit_all rs t) (sym e) ∙ rest) in
      let here = step_count r s p.0 k u classified in
      let stays = step-keeps r s p.0 k in
      rw (← same_trace, ← same_state)
        (omega (arith, count, here), λ d w. keeps d (stays d u classified w))

  -- Over any sequence of results, whatever they contain and whatever their order: the number of
  -- accepted results for a block is what its slot gained, so at most one result is accepted for
  -- it, and none where a payload was already committed.
  pub commit_all-once :
      (rs : List (BlockResult D)) (s s' : CoordinatorState) (trace : List (ℕ × ValidationStatus))
      (k : ℕ)
      → IsUniverse s
      → commit_all rs s ≡ ok (trace, s')
      → (accepted_for k trace + committed_count (payload_of s k)
          ≡ committed_count (payload_of s' k))
        × (accepted_for k trace ≤ 1)
  commit_all-once rs s s' trace k u h =
      let n = (commit_all-lem rs s s' trace k u h).0 in
      (n, omega (arith, n, committed_count-le (payload_of s' k)))

  -- A payload that is committed for a block is never replaced by later results.
  pub commit_all-keeps :
      (rs : List (BlockResult D)) (s s' : CoordinatorState) (trace : List (ℕ × ValidationStatus))
      (k : ℕ) (d : Digest)
      → IsUniverse s
      → commit_all rs s ≡ ok (trace, s')
      → payload_of s k ≡ some d
      → payload_of s' k ≡ some d
  commit_all-keeps rs s s' trace k d u h = (commit_all-lem rs s s' trace k u h).1 d
