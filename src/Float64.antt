-- ===== src/Float64.antt =====
-- IEEE-754 binary64, which the compiler and the C library implement: a type `D` of doubles with
-- the operations that the program applies to them. A literal is given by its bit pattern.
use monte_carlo.Prelude.{ℕ, ◌<◌, ◌^◌, ◌≡◌, Bool, if◌then◌else◌, not}

pub record Float64 (D : Type 0) : Type 0 where
  -- std::bit_cast between double and std::uint64_t
  pub from_bits : ℕ → D
  pub to_bits : D → ℕ
  -- static_cast<double>(std::uint64_t)
  pub of_u64 : ℕ → D
  pub fadd : D → D → D
  pub fsub : D → D → D
  pub fmul : D → D → D
  pub fdiv : D → D → D
  pub fneg : D → D
  pub fabs : D → D
  pub fsqrt : D → D
  pub fexp : D → D
  pub flog : D → D
  -- ==, < and <=, false on a NaN
  pub feq : D → D → Bool
  pub flt : D → D → Bool
  pub fle : D → D → Bool
  pub is_finite : D → Bool

-- std::bit_cast preserves every bit, both ways.
pub record BitCast {D : Type 0} (fp : Float64 D) : Type 0 where
  pub to_bits-lt : (x : D) → fp.to_bits x < 2 ^ 64
  pub from_bits-to_bits : (x : D) → fp.from_bits (fp.to_bits x) ≡ x
  pub to_bits-from_bits : (w : ℕ) → w < 2 ^ 64 → fp.to_bits (fp.from_bits w) ≡ w

module _ {D : Type 0} ⦃fp : Float64 D⦄ where
  open fp use {from_bits, feq, flt}

  -- 0.0
  abbrev pub f_zero : D
  f_zero = from_bits 0

  -- 1.0
  abbrev pub f_one : D
  f_one = from_bits 0x3FF0000000000000

  -- !=, true on a NaN
  abbrev pub fne : D → D → Bool
  fne a b = not (feq a b)

  -- std::min and std::max, which return their first argument unless the second is beyond it
  abbrev pub fmin : D → D → D
  fmin a b = if flt b a then b else a

  abbrev pub fmax : D → D → D
  fmax a b = if flt a b then b else a
