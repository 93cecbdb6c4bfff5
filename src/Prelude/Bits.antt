-- ===== src/Prelude/Bits.antt =====
-- Laws of `|`, `&` and `^` on words, from the recursion on binary digits that the native
-- operations stand for.
pub mod Step
use Step.{zero-bit_or, bit_or_step, bit_and_step, bit_xor_step, lt_wf}
use Prim.Native.Nat.{ℕ, zero, suc, ◌+◌, ◌-◌, ◌*◌, ◌/◌, ◌%◌, ◌^◌, ◌≤◌, ◌<◌, bit_and, bit_or, bit_xor}
use mathlib.Core.Path.{◌≡◌, refl, ap, ◌∙◌, sym}
use mathlib.Core.WellFounded
use native.Mathlib.Nat.{pow-suc, one-le-pow}
use native.Mathlib.Omega.{arith}

pub mul-two-pow-suc : (factor width : ℕ) → factor * 2 ^ suc width ≡ 2 * (factor * 2 ^ width)
mul-two-pow-suc factor width = omega (arith, ap (λ (power : ℕ). factor * power) (pow-suc 2 width))

pub bit_or-zero : (a : ℕ) → bit_or a 0 ≡ a
bit_or-zero a = WellFounded.induction lt_wf {C = λ n. bit_or n 0 ≡ n} a λ n ih. digit n ih
  where
    digit : (n : ℕ) → ((m : ℕ) → m < n → bit_or m 0 ≡ m) → bit_or n 0 ≡ n
    digit zero ih = refl
    digit (suc n) ih = omega (arith, bit_or_step (suc n) 0, ih (suc n / 2) (omega arith))

-- Two words with no common digit position: the low one below 2 ^ k, the high one shifted by k.
pub low-bit_or-high : (k lo hi : ℕ) → lo < 2 ^ k → bit_or lo (hi * 2 ^ k) ≡ lo + hi * 2 ^ k
low-bit_or-high zero lo hi fits = let e : lo ≡ 0 = omega arith in rw (e, zero-bit_or) (omega arith)
low-bit_or-high (suc k) lo hi fits = omega (
  arith,
  bit_or_step lo (hi * 2 ^ suc k),
  mul-two-pow-suc hi k,
  pow-suc 2 k,
  ap (λ (t : ℕ). bit_or (lo / 2) t) half,
  low-bit_or-high k (lo / 2) hi (omega (arith, pow-suc 2 k)),
)
  where
    half : hi * 2 ^ suc k / 2 ≡ hi * 2 ^ k
    half = omega (arith, mul-two-pow-suc hi k)

pub high-bit_or-low : (k hi lo : ℕ) → lo < 2 ^ k → bit_or (hi * 2 ^ k) lo ≡ hi * 2 ^ k + lo
high-bit_or-low zero hi lo fits = let e : lo ≡ 0 = omega arith in rw e (bit_or-zero _ ∙ omega arith)
high-bit_or-low (suc k) hi lo fits = omega (
  arith,
  bit_or_step (hi * 2 ^ suc k) lo,
  mul-two-pow-suc hi k,
  pow-suc 2 k,
  ap (λ (t : ℕ). bit_or t (lo / 2)) half,
  high-bit_or-low k hi (lo / 2) (omega (arith, pow-suc 2 k)),
)
  where
    half : hi * 2 ^ suc k / 2 ≡ hi * 2 ^ k
    half = omega (arith, mul-two-pow-suc hi k)

-- `^` stays within the width of its operands.
pub bit_xor-lt : (k a b : ℕ) → a < 2 ^ k → b < 2 ^ k → bit_xor a b < 2 ^ k
bit_xor-lt zero a b p q =
    let ea : a ≡ 0 = omega arith in let eb : b ≡ 0 = omega arith in rw (ea, eb) (omega arith)
bit_xor-lt (suc k) a b p q = omega (
  arith,
  bit_xor_step a b,
  pow-suc 2 k,
  bit_xor-lt k (a / 2) (b / 2) (omega (arith, pow-suc 2 k)) (omega (arith, pow-suc 2 k)),
)

-- A word is cancelled by applying `^` with it on both sides.
pub bit_xor_cancel :
    (k a b c : ℕ) → a < 2 ^ k → b < 2 ^ k → c < 2 ^ k → bit_xor a c ≡ bit_xor b c → a ≡ b
bit_xor_cancel zero a b c p q r e = omega arith
bit_xor_cancel (suc k) a b c p q r e = omega (
  arith,
  bit_xor_step a c,
  bit_xor_step b c,
  bit_xor_cancel k (a / 2) (b / 2) (c / 2) (omega (arith, pow-suc 2 k)) (omega (arith, pow-suc 2 k))
      (omega (arith, pow-suc 2 k)) (omega (arith, bit_xor_step a c, bit_xor_step b c)),
)

pub bit_xor_cancel_left :
    (k a b c : ℕ) → a < 2 ^ k → b < 2 ^ k → c < 2 ^ k → bit_xor a b ≡ bit_xor a c → b ≡ c
bit_xor_cancel_left zero a b c p q r e = omega arith
bit_xor_cancel_left (suc k) a b c p q r e = omega (
  arith,
  bit_xor_step a b,
  bit_xor_step a c,
  bit_xor_cancel_left k (a / 2) (b / 2) (c / 2) (omega (arith, pow-suc 2 k))
      (omega (arith, pow-suc 2 k)) (omega (arith, pow-suc 2 k))
      (omega (arith, bit_xor_step a b, bit_xor_step a c)),
)
