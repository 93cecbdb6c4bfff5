-- ===== src/Hash/Absorb.antt =====
-- `absorb_blocks` takes whole blocks off the front of its input, and only them.
use monte_carlo.Prelude.{
  ℕ, zero, suc, ◌+◌, ◌≤◌, ◌<◌, ◌≡◌, refl, sym, ap, ◌∙◌, arith, List, ◌++◌, append_assoc, length,
  take, drop, leb, Bool-cases, inl, inr, true, length-append, length-take, take-append, drop-append,
  take-append-drop,
}
use monte_carlo.Hash.{absorb_blocks}
use monte_carlo.Hash.Rounds.{State, transform}

pub absorb_blocks-short :
    (fuel : ℕ) (s : State) (bytes : List ℕ)
    → length bytes < 64
    → absorb_blocks fuel s bytes ≡ (s, bytes)
unfolding absorb_blocks
absorb_blocks-short zero s bytes h = refl
absorb_blocks-short (suc fuel) s bytes h = ground arith

pub absorb_blocks-suc :
    (fuel : ℕ) (s : State) (block bytes : List ℕ)
    → length block ≡ 64
    → absorb_blocks (suc fuel) s (block ++ bytes) ≡ absorb_blocks fuel (transform block s) bytes
unfolding absorb_blocks
absorb_blocks-suc fuel s block bytes h = rw (long, first, second)
  where
    first : take 64 (block ++ bytes) ≡ block
    first = rw (← h) (take-append block bytes)

    second : drop 64 (block ++ bytes) ≡ bytes
    second = rw (← h) (drop-append block bytes)

    long : leb 64 (length (block ++ bytes)) ≡ true
    long = ground (arith, length-append block bytes)

-- A sequence is short, or a block and a rest.
pub data Split (bytes : List ℕ) : Type 0 where
  short : length bytes < 64 → Split bytes
  block : (first rest : List ℕ) → length first ≡ 64 → bytes ≡ first ++ rest → Split bytes

pub split : (bytes : List ℕ) → Split bytes
split bytes = elim (Bool-cases (leb 64 (length bytes))) [
  | inl e ↦
      block (take 64 bytes) (drop 64 bytes) (length-take 64 bytes (ground arith))
        (sym (take-append-drop 64 bytes))
  | inr e ↦ short (ground arith)
]

-- Any two amounts of fuel that cover the bytes agree.
pub absorb_blocks-fuel :
    (f g : ℕ) (s : State) (bytes : List ℕ)
    → length bytes ≤ f
    → length bytes ≤ g
    → absorb_blocks f s bytes ≡ absorb_blocks g s bytes
absorb_blocks-fuel f g s bytes p q = step f g s bytes p q (split bytes)
  where
    step :
        (f g : ℕ) (s : State) (bytes : List ℕ)
        → length bytes ≤ f
        → length bytes ≤ g
        → Split bytes
        → absorb_blocks f s bytes ≡ absorb_blocks g s bytes
    step f g s bytes p q (short h) =
        absorb_blocks-short f s bytes h ∙ sym (absorb_blocks-short g s bytes h)
    step zero g s bytes p q (block b rest e w) =
        absurd (omega (arith, ap length w, length-append b rest))
    step (suc f) zero s bytes p q (block b rest e w) =
        absurd (omega (arith, ap length w, length-append b rest))
    step (suc f) (suc g) s bytes p q (block b rest e w) =
        rw (w, absorb_blocks-suc f s b rest e, absorb_blocks-suc g s b rest e)
          (step f g (transform b s) rest (omega (arith, ap length w, length-append b rest))
            (omega (arith, ap length w, length-append b rest)) (split rest))

-- Absorbing two sequences in turn is absorbing them joined, with any fuel that covers them.
pub absorb_blocks-append :
    (f g k : ℕ) (s : State) (xs ys : List ℕ)
    → Split xs
    → length xs ≤ f
    → length xs + length ys ≤ g
    → length xs + length ys ≤ k
    → absorb_blocks k (absorb_blocks f s xs).0 ((absorb_blocks f s xs).1 ++ ys)
      ≡ absorb_blocks g s (xs ++ ys)
absorb_blocks-append f g k s xs ys (short h) p q r = rw (absorb_blocks-short f s xs h) (
    absorb_blocks-fuel k g s (xs ++ ys) (omega (arith, length-append xs ys))
      (omega (arith, length-append xs ys)))
absorb_blocks-append zero g k s xs ys (block b rest e w) p q r =
    absurd (omega (arith, ap length w, length-append b rest))
absorb_blocks-append (suc f) zero k s xs ys (block b rest e w) p q r =
    absurd (omega (arith, ap length w, length-append b rest))
absorb_blocks-append (suc f) (suc g) k s xs ys (block b rest e w) p q r =
    rw
      (
        w,
        absorb_blocks-suc f s b rest e,
        append_assoc b rest ys,
        absorb_blocks-suc g s b (rest ++ ys) e,
      )
      (absorb_blocks-append f g k (transform b s) rest ys (split rest)
        (omega (arith, ap length w, length-append b rest))
        (omega (arith, ap length w, length-append b rest))
        (omega (arith, ap length w, length-append b rest)))

pub absorb_blocks-rest :
    (fuel : ℕ) (s : State) (bytes : List ℕ)
    → Split bytes
    → length bytes ≤ fuel
    → length (absorb_blocks fuel s bytes).1 < 64
absorb_blocks-rest fuel s bytes (short h) p = rw (absorb_blocks-short fuel s bytes h) h
absorb_blocks-rest zero s bytes (block b rest e w) p =
    absurd (omega (arith, ap length w, length-append b rest))
absorb_blocks-rest (suc fuel) s bytes (block b rest e w) p =
    rw (w, absorb_blocks-suc fuel s b rest e)
      (absorb_blocks-rest fuel (transform b s) rest (split rest)
        (omega (arith, ap length w, length-append b rest)))
