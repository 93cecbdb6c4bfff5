-- ===== src/Prelude/Bits/Step.antt =====
-- One equation for the lowest binary digit of each native bit operation.
use Prim.Native.Nat.{ℕ, zero, suc, ◌+◌, ◌*◌, ◌/◌, ◌%◌, ◌≤◌, ◌<◌, bit_and, bit_or, bit_xor}
use Prim.Native.Nat.{
  min, max, differ, digits, bitwise, bit_and-bitwise, bit_or-bitwise, bit_xor-bitwise,
}
use mathlib.Core.Path.{◌≡◌, refl, ap, sym, ◌∙◌}
use mathlib.Core.WellFounded.{Acc, WellFounded}
use native.Mathlib.Nat.{le_refl}
use native.Mathlib.Omega.{arith}

below-Acc : (k n : ℕ) → n < k → Acc ◌<◌ n
below-Acc zero n h = absurd (omega arith)
below-Acc (suc k) n h = Acc.intro n (λ m h'. below-Acc k m (omega arith))

pub lt_wf : WellFounded ◌<◌
lt_wf = record { apply = λ n. below-Acc (suc n) n (le_refl _) }

-- The digit count is fuel: any two counts that cover the first number agree.
module _ (rest : ℕ → ℕ) (digit : ℕ → ℕ → ℕ) where
  same_digits : (m n a b : ℕ) → a ≤ m → a ≤ n → digits rest digit m a b ≡ digits rest digit n a b
  same_digits m n zero b p q = at_zero m ∙ sym (at_zero n)
    where
      at_zero : (k : ℕ) → digits rest digit k zero b ≡ rest b
      at_zero zero = refl
      at_zero (suc k) = refl
  same_digits zero n (suc a) b p q = absurd (omega arith)
  same_digits (suc m) zero (suc a) b p q = absurd (omega arith)
  same_digits (suc m) (suc n) (suc a) b p q =
      ap (λ (t : ℕ). t * 2 + digit (suc a % 2) (b % 2))
        (same_digits m n (suc a / 2) (b / 2) (omega arith) (omega arith))

  -- The lowest digit, and the rest of the digits doubled.
  lowest_digit :
      (x y : ℕ)
      → bitwise rest digit (suc x) y
        ≡ digit (suc x % 2) (y % 2) + 2 * bitwise rest digit (suc x / 2) (y / 2)
  lowest_digit x y = omega (
    arith,
    ap (λ (t : ℕ). t * 2 + digit (suc x % 2) (y % 2))
        (same_digits x (suc x / 2) (suc x / 2) (y / 2) (omega arith) (le_refl _)),
  )

pub zero-bit_or : (y : ℕ) → bit_or 0 y ≡ y
zero-bit_or y = bit_or-bitwise 0 y

-- `&` takes the lesser of two digits, `|` the greater, `^` their sum modulo 2.
pub bit_and_step : (x y : ℕ) → bit_and x y ≡ min (x % 2) (y % 2) + 2 * bit_and (x / 2) (y / 2)
bit_and_step zero y = simp bit_and-bitwise (omega arith)
bit_and_step (suc x) y = simp bit_and-bitwise (lowest_digit (λ z. 0) min x y)

differ_lem : (p q : ℕ) → p < 2 → q < 2 → differ p q ≡ (p + q) % 2
differ_lem zero zero h k = refl
differ_lem zero (suc zero) h k = refl
differ_lem (suc zero) zero h k = refl
differ_lem (suc zero) (suc zero) h k = refl
differ_lem (suc (suc p)) q h k = absurd (omega arith)
differ_lem zero (suc (suc q)) h k = absurd (omega arith)
differ_lem (suc zero) (suc (suc q)) h k = absurd (omega arith)

pub bit_xor_step : (x y : ℕ) → bit_xor x y ≡ (x % 2 + y % 2) % 2 + 2 * bit_xor (x / 2) (y / 2)
bit_xor_step zero y = simp bit_xor-bitwise (omega arith)
bit_xor_step (suc x) y =
    omega (arith, xor_lowest, differ_lem (suc x % 2) (y % 2) (omega arith) (omega arith))
  where
    xor_lowest : bit_xor (suc x) y ≡ differ (suc x % 2) (y % 2) + 2 * bit_xor (suc x / 2) (y / 2)
    xor_lowest = simp bit_xor-bitwise (lowest_digit (λ z. z) differ x y)

pub bit_or_step : (x y : ℕ) → bit_or x y ≡ max (x % 2) (y % 2) + 2 * bit_or (x / 2) (y / 2)
bit_or_step zero y = simp bit_or-bitwise (omega arith)
bit_or_step (suc x) y = simp bit_or-bitwise (lowest_digit (λ z. z) max x y)
