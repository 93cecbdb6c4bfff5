-- ===== src/Hash/Stream.antt =====
-- The hasher is a function of the bytes it was given, not of the pieces they came in.
use monte_carlo.Prelude.{
  ℕ, zero, suc, ◌+◌, ◌-◌, ◌%◌, ◌^◌, ◌≤◌, ◌<◌, ◌≡◌, refl, sym, ap, ◌∙◌, arith, List, [], ◌∷◌, ◌++◌,
  append_assoc, append-nil, ap₂, length, take, drop, min, ◌==◌, Bool-cases, inl, inr, length-append,
  length-take, take-append-drop,
}
use monte_carlo.Hash.{Hasher, update, finalize, sha256, new_hasher, absorb, absorb_blocks}
use monte_carlo.Hash.Rounds.{State, transform}
use monte_carlo.Hash.Absorb.{
  split, absorb_blocks-short, absorb_blocks-suc, absorb_blocks-fuel, absorb_blocks-append,
  absorb_blocks-rest,
}

-- Fewer bytes are buffered than a block has.
pub record IsValid (h : Hasher) : Type 0 where
  pub partial : length h.buffer < 64

abbrev after : State × List ℕ → ℕ → Hasher
after r total = record { state = r.0; buffer = r.1; total_bytes = total }

eq-nil_of_length : (xs : List ℕ) → length xs ≡ 0 → xs ≡ []
eq-nil_of_length [] h = refl
eq-nil_of_length (x ∷ xs) h = absurd (omega arith)

-- The buffer topped up with `copied` bytes.
module _ (h : Hasher) (bytes : List ℕ) (v : IsValid h) where
  abbrev copied : ℕ
  copied = min (64 - length h.buffer) (length bytes)

  abbrev filled : List ℕ
  filled = h.buffer ++ take copied bytes

  abbrev total : ℕ
  total = (h.total_bytes + length bytes) % 2 ^ 64

  filled-drop : filled ++ drop copied bytes ≡ h.buffer ++ bytes
  filled-drop =
      append_assoc h.buffer (take copied bytes) (drop copied bytes)
      ∙ ap (λ (l : List ℕ). h.buffer ++ l) (take-append-drop copied bytes)

  length-filled : length filled ≡ length h.buffer + copied
  length-filled =
      length-append h.buffer (take copied bytes)
      ∙ ap (λ (n : ℕ). length h.buffer + n) (length-take copied bytes (omega arith))

  joined-length : length filled + length (drop copied bytes) ≡ length h.buffer + length bytes
  joined-length =
      sym (length-append filled (drop copied bytes))
      ∙ ap length filled-drop
      ∙ length-append h.buffer bytes

  -- `update` absorbs the buffer followed by the new bytes.
  update_lem :
      (fuel : ℕ)
      → length h.buffer + length bytes ≤ fuel
      → update h bytes ≡ after (absorb_blocks fuel h.state (h.buffer ++ bytes)) total
  unfolding update absorb
  update_lem fuel p = elim (Bool-cases (length h.buffer == 0)) [
    | inl e ↦
        let empty : h.buffer ≡ [] = eq-nil_of_length h.buffer (ground arith) in
        rw (e, empty)
          (ap (λ (r : State × List ℕ). after r total)
            (absorb_blocks-fuel (length bytes) fuel h.state bytes (omega arith) (omega arith)))
    | inr e ↦ rw e (elim (Bool-cases (length filled == 64)) [
      | inl full ↦ rw full (when_full fuel p (ground arith))
      | inr partial ↦
          rw (partial, filled-drop)
            (ap (λ (r : State × List ℕ). after r total)
              (sym (
                absorb_blocks-short fuel h.state (h.buffer ++ bytes)
                  (ground (arith, length-append h.buffer bytes, length-filled, v.partial)))))
    ])
  ]
    where
      when_full :
          (fuel : ℕ)
          → length h.buffer + length bytes ≤ fuel
          → length filled ≡ 64
          → absorb (transform filled h.state) (drop copied bytes) total
            ≡ after (absorb_blocks fuel h.state (h.buffer ++ bytes)) total
      when_full zero p e = absurd (omega (arith, joined-length))
      when_full (suc fuel) p e =
          rw (← filled-drop, absorb_blocks-suc fuel h.state filled (drop copied bytes) e)
            (ap (λ (r : State × List ℕ). after r total)
              (absorb_blocks-fuel (length (drop copied bytes)) fuel (transform filled h.state)
                (drop copied bytes) (omega arith) (omega (arith, joined-length))))

pub IsValid-update : (h : Hasher) (bytes : List ℕ) → IsValid h → IsValid (update h bytes)
IsValid-update h bytes v =
    rw (update_lem h bytes v (length h.buffer + length bytes) (omega arith)) (record {
      partial =
          absorb_blocks-rest (length h.buffer + length bytes) h.state (h.buffer ++ bytes)
            (split (h.buffer ++ bytes)) (omega (arith, length-append h.buffer bytes));
    })

-- Two updates are one update with the joined bytes.
module _ (h : Hasher) (xs ys : List ℕ) (v : IsValid h) where
  abbrev first : State × List ℕ
  first = absorb_blocks (length h.buffer + length xs) h.state (h.buffer ++ xs)

  abbrev enough : ℕ
  enough = length h.buffer + length xs + length ys + 64

  update-first : update h xs ≡ after first ((h.total_bytes + length xs) % 2 ^ 64)
  update-first = update_lem h xs v (length h.buffer + length xs) (omega arith)

  first-IsValid : length first.1 < 64
  first-IsValid =
      absorb_blocks-rest (length h.buffer + length xs) h.state (h.buffer ++ xs)
        (split (h.buffer ++ xs)) (omega (arith, length-append h.buffer xs))

  absorbed :
      absorb_blocks enough first.0 (first.1 ++ ys)
      ≡ absorb_blocks enough h.state (h.buffer ++ (xs ++ ys))
  absorbed =
      absorb_blocks-append (length h.buffer + length xs) enough enough h.state (h.buffer ++ xs) ys
        (split (h.buffer ++ xs)) (omega (arith, length-append h.buffer xs))
        (omega (arith, length-append h.buffer xs)) (omega (arith, length-append h.buffer xs))
      ∙ ap (λ (l : List ℕ). absorb_blocks enough h.state l) (append_assoc h.buffer xs ys)

  totals :
      ((h.total_bytes + length xs) % 2 ^ 64 + length ys) % 2 ^ 64
      ≡ (h.total_bytes + length (xs ++ ys)) % 2 ^ 64
  totals = omega (arith, length-append xs ys)

  pub update-update : update (update h xs) ys ≡ update h (xs ++ ys)
  update-update =
      ap (λ (g : Hasher). update g ys) update-first
      ∙ update_lem (after first ((h.total_bytes + length xs) % 2 ^ 64)) ys
          (record { partial = first-IsValid }) enough (omega (arith, first-IsValid))
      ∙ ap₂ after absorbed totals
      ∙ sym (update_lem h (xs ++ ys) v enough (omega (arith, length-append xs ys)))

pub IsValid-new_hasher : IsValid new_hasher
unfolding new_hasher
IsValid-new_hasher = record { partial = omega arith }

-- One `update` for each piece.
pub update_all : Hasher → List (List ℕ) → Hasher
update_all h [] = h
update_all h (piece ∷ pieces) = update_all (update h piece) pieces

abbrev pub joined : List (List ℕ) → List ℕ
joined [] = []
joined (piece ∷ pieces) = piece ++ joined pieces

update_all-joined :
    (h : Hasher) (first : List ℕ) (pieces : List (List ℕ))
    → IsValid h
    → update_all (update h first) pieces ≡ update h (first ++ joined pieces)
unfolding update_all
update_all-joined h first [] v = rw append-nil
update_all-joined h first (piece ∷ pieces) v = rw (update-update h first piece v) (
    update_all-joined h (first ++ piece) pieces v
    ∙ ap (update h) (append_assoc first piece (joined pieces)))

-- However a byte string is cut into pieces, feeding them to `Sha256Hasher::update` in order and
-- finalizing gives the digest of the whole string.
pub finalize-update_all :
    (pieces : List (List ℕ)) → finalize (update_all new_hasher pieces) ≡ sha256 (joined pieces)
unfolding sha256 update_all new_hasher update absorb absorb_blocks
finalize-update_all [] = refl
finalize-update_all (first ∷ pieces) =
    ap finalize (update_all-joined new_hasher first pieces IsValid-new_hasher)
