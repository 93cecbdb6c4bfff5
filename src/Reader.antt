-- ===== src/Reader.antt =====
-- `Reader` of src/persistence_codec.cpp: a cursor over the bytes of a payload. The state is what
-- lies behind the cursor.
pub mod RoundTrip
use monte_carlo.Prelude.{
  ℕ, zero, suc, ◌+◌, ◌*◌, ◌^◌, List, [], ◌∷◌, Bool, true, false, ltb, ◌!=◌, length, take, drop,
  bit_or, bytes_of,
}
use monte_carlo.Exception.{Result, ok, err, Exception, runtime_error, throw_if, what}
use monte_carlo.Exception
use monte_carlo.Float64.{Float64}
use monte_carlo.Hash.{Digest}

abbrev pub Read {ℓ} : Type ℓ → Type ℓ
Read A = List ℕ → Result (A × List ℕ)

infixl 5 ◌>>=◌ ◌>>◌
abbrev pub ◌>>=◌ {ℓ κ} : {A : Type ℓ} {B : Type κ} → Read A → (A → Read B) → Read B
◌>>=◌ m f bytes = Exception.◌>>=◌ (m bytes) (λ p. f p.0 p.1)

abbrev pub ◌>>◌ {ℓ} : {B : Type ℓ} → Read (Unit {0}) → Read B → Read B
m >> k = m >>= λ _. k

abbrev pub pure {ℓ} : {A : Type ℓ} → A → Read A
pure a bytes = ok (a, bytes)

-- A step that reads nothing and may throw.
abbrev pub lift {ℓ} : {A : Type ℓ} → Result A → Read A
lift r bytes = Exception.◌>>=◌ r (λ a. ok (a, bytes))

abbrev pub reject_if : Bool → Exception → Read (Unit {0})
reject_if test e bytes = Exception.◌>>=◌ (throw_if test e) (λ a. ok (tt, bytes))

-- remaining()
abbrev pub remaining : Read ℕ
remaining bytes = ok (length bytes, bytes)

unfoldable pub require : ℕ → Read (Unit {0})
require count bytes =
    reject_if (ltb (length bytes) count) (runtime_error (what "durable payload is truncated")) bytes

-- The loop of `u32` and `u64`: byte `index` is shifted by `index * 8` and or-ed in.
unfoldable pub or_bytes : ℕ → ℕ → ℕ → List ℕ → ℕ
or_bytes zero index value bytes = value
or_bytes (suc count) index value [] = value
or_bytes (suc count) index value (b ∷ bytes) =
    or_bytes count (index + 1) (bit_or value (b * 2 ^ (index * 8))) bytes

unfoldable pub u8 : Read ℕ
unfolding require or_bytes
u8 = do require 1; λ bytes. ok (or_bytes 1 0 0 bytes, drop 1 bytes)

unfoldable pub u32 : Read ℕ
unfolding require or_bytes
u32 = do require 4; λ bytes. ok (or_bytes 4 0 0 bytes, drop 4 bytes)

unfoldable pub u64 : Read ℕ
unfolding require or_bytes
u64 = do require 8; λ bytes. ok (or_bytes 8 0 0 bytes, drop 8 bytes)

unfoldable pub byte_vector : ℕ → Read (List ℕ)
unfolding require
byte_vector size = do require size; λ bytes. ok (take size bytes, drop size bytes)

unfoldable pub digest : Read Digest
unfolding require
digest = do require 32; λ bytes. ok (take 32 bytes, drop 32 bytes)

unfoldable pub string : ℕ → Read (List ℕ)
unfolding u32 byte_vector
string maximum_size = do
  size ← u32
  reject_if (ltb maximum_size size) (runtime_error (what "durable string exceeds its schema limit"))
  byte_vector size

unfoldable pub finish : Read (Unit {0})
finish bytes =
    reject_if (length bytes != 0) (runtime_error (what "durable payload has trailing bytes")) bytes

module _ {D : Type 0} ⦃fp : Float64 D⦄ where
  open fp use {from_bits}

  unfoldable pub binary64 : Read D
  unfolding u64
  binary64 = do bits ← u64; pure (from_bits bits)
