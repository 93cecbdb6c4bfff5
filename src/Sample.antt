-- ===== src/Sample.antt =====
-- Test data: arithmetic on 64-bit words read as unsigned integers, which meets what the theorems
-- assume of doubles. It stands in for binary64 in the examples and is no model of it.
use monte_carlo.Prelude.{
  ℕ, ◌+◌, ◌-◌, ◌*◌, ◌/◌, ◌%◌, ◌^◌, ◌<◌, ◌≡◌, arith, true, false, ltb, leb, ◌==◌,
}
use Prim.Native.Nat.{Fin}
use native.Mathlib.Fin.{val_path}
use monte_carlo.Float64.{Float64, BitCast}
use monte_carlo.Aggregate.Observe.{StrictOrder}

abbrev pub Word : Type 0
Word = Fin (2 ^ 64)

abbrev pub word : ℕ → Word
word n = (n % 2 ^ 64, omega arith)

instance abbrev pub word_float : Float64 Word
word_float = record {
  from_bits = word;
  to_bits = λ x. x.0;
  of_u64 = word;
  fadd = λ a b. word (a.0 + b.0);
  fsub = λ a b. word (a.0 - b.0);
  fmul = λ a b. word (a.0 * b.0);
  fdiv = λ a b. word (a.0 / b.0);
  fneg = λ a. a;
  fabs = λ a. a;
  fsqrt = λ a. a;
  fexp = λ a. a;
  flog = λ a. a;
  feq = λ a b. a.0 == b.0;
  flt = λ a b. ltb a.0 b.0;
  fle = λ a b. leb a.0 b.0;
  is_finite = λ a. true;
}

word_mod : (w : ℕ) → w < 2 ^ 64 → w % 2 ^ 64 ≡ w
word_mod w h = omega arith

ltb_irrefl : (a : ℕ) → ltb a a ≡ false
ltb_irrefl a = ground arith

ltb_trans : (a b c : ℕ) → ltb a b ≡ true → ltb b c ≡ true → ltb a c ≡ true
ltb_trans a b c p q = ground arith

pub word_cast : BitCast word_float
word_cast = record {
  to_bits-lt = λ x. x.1;
  from_bits-to_bits = λ x. val_path (word_mod x.0 x.1);
  to_bits-from_bits = λ w h. word_mod w h;
}

pub word_order : StrictOrder word_float
word_order = record {
  flt_irrefl = λ x. ltb_irrefl x.0;
  flt_trans = λ x y z p q. ltb_trans x.0 y.0 z.0 p q;
}

-- Words again, with an arithmetic that meets the laws of the sign and compares every pair alike.
abbrev pub lenient : Float64 Word
lenient = record word_float {
  fadd = λ a b. word (a.0 + b.0);
  fsub = λ a b. word (a.0 + b.0);
  fmul = λ a b. b;
  fdiv = λ a b. a;
  fsqrt = λ a. a;
  flog = λ a. a;
  flt = λ a b. true;
  fle = λ a b. false;
}
