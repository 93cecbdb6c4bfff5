-- ===== src/Reader/RoundTrip.antt =====
-- Reading back what the encoders append.
use monte_carlo.Prelude.{
  ℕ, ◌+◌, ◌*◌, ◌/◌, ◌%◌, ◌^◌, ◌<◌, ◌≤◌, ◌≡◌, arith, refl, List, [], ◌∷◌, ◌++◌, length, bit_or,
  take-append, drop-append, length-append, ap, sym, ◌∙◌, IsBytes,
}
use monte_carlo.Prelude.Bits.{low-bit_or-high}
use monte_carlo.Prelude.Bits.Step.{zero-bit_or}
use monte_carlo.Exception.{ok}
use monte_carlo.Float64.{Float64, BitCast}
use monte_carlo.Codec.{little_endian, u8_bytes, u32_bytes, u64_bytes, double_bytes}
use monte_carlo.Reader.{u8, u32, u64, byte_vector, digest, binary64, finish, require, or_bytes}

or2 : (a b : ℕ) → a < 256 → b < 256 → bit_or a (b * 2 ^ 8) ≡ a + b * 2 ^ 8
or2 a b p q = low-bit_or-high 8 a b (omega arith)

or4 :
    (a b c d : ℕ)
    → a < 256
    → b < 256
    → c < 256
    → d < 256
    → bit_or (bit_or (bit_or a (b * 2 ^ 8)) (c * 2 ^ 16)) (d * 2 ^ 24)
      ≡ a + b * 2 ^ 8 + c * 2 ^ 16 + d * 2 ^ 24
or4 a b c d pa pb pc pd =
    rw
      (
        or2 a b pa pb,
        low-bit_or-high 16 (a + b * 2 ^ 8) c (omega arith),
        low-bit_or-high 24 (a + b * 2 ^ 8 + c * 2 ^ 16) d (omega arith),
      )
      refl

or8 :
    (lo e f g h : ℕ)
    → lo < 2 ^ 32
    → e < 256
    → f < 256
    → g < 256
    → bit_or (bit_or (bit_or (bit_or lo (e * 2 ^ 32)) (f * 2 ^ 40)) (g * 2 ^ 48)) (h * 2 ^ 56)
      ≡ lo + e * 2 ^ 32 + f * 2 ^ 40 + g * 2 ^ 48 + h * 2 ^ 56
or8 lo e f g h pl pe pf pg =
    rw
      (
        low-bit_or-high 32 lo e pl,
        low-bit_or-high 40 (lo + e * 2 ^ 32) f (omega arith),
        low-bit_or-high 48 (lo + e * 2 ^ 32 + f * 2 ^ 40) g (omega arith),
        low-bit_or-high 56 (lo + e * 2 ^ 32 + f * 2 ^ 40 + g * 2 ^ 48) h (omega arith),
      )
      refl

pub finish-nil : finish [] ≡ ok (tt, [])
unfolding finish
finish-nil = refl

-- Enough bytes: `require` passes.
require-enough : (n : ℕ) (bytes : List ℕ) → n ≤ length bytes → require n bytes ≡ ok (tt, bytes)
unfolding require
require-enough n bytes h = ground arith

or_bytes1 : (a : ℕ) (rest : List ℕ) → or_bytes 1 0 0 (a ∷ rest) ≡ a
unfolding or_bytes
or_bytes1 a rest = zero-bit_or (a * 2 ^ 0) ∙ omega arith

or_bytes4 :
    (a b c d : ℕ) (rest : List ℕ)
    → a < 256
    → b < 256
    → c < 256
    → d < 256
    → or_bytes 4 0 0 (a ∷ b ∷ c ∷ d ∷ rest) ≡ a + b * 2 ^ 8 + c * 2 ^ 16 + d * 2 ^ 24
unfolding or_bytes
or_bytes4 a b c d rest pa pb pc pd =
    rw (zero-bit_or (a * 2 ^ 0)) (or4 (a * 2 ^ 0) b c d (omega arith) pb pc pd ∙ omega arith)

pub u8-u8_bytes : (w : ℕ) (rest : List ℕ) → w < 256 → u8 (u8_bytes w ++ rest) ≡ ok (w, rest)
unfolding u8
u8-u8_bytes w rest h =
    rw (require-enough 1 (w % 2 ^ 8 ∷ rest) (omega arith), or_bytes1 (w % 2 ^ 8) rest)
      (ap (λ (v : ℕ). ok (v, rest)) (omega arith))

pub u32-u32_bytes : (w : ℕ) (rest : List ℕ) → w < 2 ^ 32 → u32 (u32_bytes w ++ rest) ≡ ok (w, rest)
unfolding u32 little_endian
u32-u32_bytes w rest h =
    rw
      (
        require-enough 4 (little_endian 4 w ++ rest) (omega arith),
        or_bytes4 (w % 2 ^ 8) (w / 2 ^ 8 % 2 ^ 8) (w / 2 ^ 8 / 2 ^ 8 % 2 ^ 8)
            (w / 2 ^ 8 / 2 ^ 8 / 2 ^ 8 % 2 ^ 8) rest (omega arith) (omega arith) (omega arith)
            (omega arith),
      )
      (ap (λ (v : ℕ). ok (v, rest)) (omega arith))

or_bytes8 :
    (a b c d e f g h : ℕ) (rest : List ℕ)
    → IsBytes (a ∷ b ∷ c ∷ d ∷ e ∷ f ∷ g ∷ h ∷ [])
    → or_bytes 8 0 0 (a ∷ b ∷ c ∷ d ∷ e ∷ f ∷ g ∷ h ∷ rest)
      ≡ a + b * 2 ^ 8 + c * 2 ^ 16 + d * 2 ^ 24 + e * 2 ^ 32 + f * 2 ^ 40 + g * 2 ^ 48 + h * 2 ^ 56
unfolding or_bytes
or_bytes8 a b c d e f g h rest (pa, (pb, (pc, (pd, (pe, (pf, (pg, (ph, _)))))))) =
    rw (zero-bit_or (a * 2 ^ 0), or4 (a * 2 ^ 0) b c d (omega arith) pb pc pd)
      (or8 (a * 2 ^ 0 + b * 2 ^ 8 + c * 2 ^ 16 + d * 2 ^ 24) e f g h (omega arith) pe pf pg
        ∙ omega arith)

low-lt : (w : ℕ) → w % 2 ^ 8 < 256
low-lt w = omega arith

pub u64-u64_bytes : (w : ℕ) (rest : List ℕ) → w < 2 ^ 64 → u64 (u64_bytes w ++ rest) ≡ ok (w, rest)
unfolding u64 little_endian
u64-u64_bytes w rest h =
    rw
      (
        require-enough 8 (little_endian 8 w ++ rest) (omega arith),
        or_bytes8 (w % 2 ^ 8) (w / 2 ^ 8 % 2 ^ 8) (w / 2 ^ 8 / 2 ^ 8 % 2 ^ 8)
            (w / 2 ^ 8 / 2 ^ 8 / 2 ^ 8 % 2 ^ 8) (w / 2 ^ 8 / 2 ^ 8 / 2 ^ 8 / 2 ^ 8 % 2 ^ 8)
            (w / 2 ^ 8 / 2 ^ 8 / 2 ^ 8 / 2 ^ 8 / 2 ^ 8 % 2 ^ 8)
            (w / 2 ^ 8 / 2 ^ 8 / 2 ^ 8 / 2 ^ 8 / 2 ^ 8 / 2 ^ 8 % 2 ^ 8)
            (w / 2 ^ 8 / 2 ^ 8 / 2 ^ 8 / 2 ^ 8 / 2 ^ 8 / 2 ^ 8 / 2 ^ 8 % 2 ^ 8) rest
            (
              low-lt w,
              (
                low-lt _,
                (low-lt _, (low-lt _, (low-lt _, (low-lt _, (low-lt _, (low-lt _, tt)))))),
              ),
            ),
      )
      (ap (λ (v : ℕ). ok (v, rest)) (omega arith))

pub byte_vector-append :
    (n : ℕ) (xs rest : List ℕ) → length xs ≡ n → byte_vector n (xs ++ rest) ≡ ok (xs, rest)
unfolding byte_vector
byte_vector-append n xs rest h = rw (sym h) (
    rw
      (
        require-enough (length xs) (xs ++ rest) (omega (arith, length-append xs rest)),
        take-append xs rest,
        drop-append xs rest,
      )
      refl)

pub digest-append : (xs rest : List ℕ) → length xs ≡ 32 → digest (xs ++ rest) ≡ ok (xs, rest)
unfolding digest byte_vector
digest-append xs rest h = byte_vector-append 32 xs rest h

module _ {D : Type 0} ⦃fp : Float64 D⦄ (cast : BitCast fp) where
  pub binary64-double_bytes :
      (x : D) (rest : List ℕ) → binary64 (double_bytes x ++ rest) ≡ ok (x, rest)
  unfolding binary64
  binary64-double_bytes x rest =
      rw (u64-u64_bytes (fp.to_bits x) rest (cast.to_bits-lt x))
        (rw (cast.from_bits-to_bits x) refl)
