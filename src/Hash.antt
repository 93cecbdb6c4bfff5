-- ===== src/Hash.antt =====
-- include/mc/hash.hpp and src/hash.cpp: SHA-256 over byte sequences that arrive in pieces.
mod Rounds
mod Absorb
pub mod Stream
pub mod Digests
mod Tests
use monte_carlo.Prelude.{
  ℕ, zero, suc, ◌+◌, ◌-◌, ◌*◌, ◌/◌, ◌%◌, ◌^◌, List, [], ◌∷◌, ◌++◌, ltb, leb, ◌==◌, ◌!=◌,
  if◌then◌else◌, length, take, drop, replicate, set, min, bit_and, bytes_of, String, Bool, true,
  false,
}
use Rounds.{State, initial_state, transform, state_bytes}

-- `Sha256Digest`: 32 bytes.
abbrev pub Digest : Type 0
Digest = List ℕ

-- `buffer` is the filled part of `buffer_`, so `buffered_bytes_` is its length.
pub record Hasher : Type 0 where
  pub state : State
  pub buffer : List ℕ
  pub total_bytes : ℕ

abbrev block_bytes : ℕ
block_bytes = 64

pub new_hasher : Hasher
new_hasher = record { state = initial_state; buffer = []; total_bytes = 0 }

-- `while (bytes.size() - offset >= 64)`: whole blocks straight from the input, at most one for
-- each unit of fuel; the rest goes to the buffer.
pub absorb_blocks : ℕ → State → List ℕ → State × List ℕ
absorb_blocks zero s bytes = (s, bytes)
absorb_blocks (suc fuel) s bytes =
    let rest = absorb_blocks fuel (transform (take block_bytes bytes) s) (drop block_bytes bytes) in
    if leb block_bytes (length bytes) then rest else (s, bytes)

-- Both loops of `update`, from an empty buffer.
absorb : State → List ℕ → ℕ → Hasher
absorb s bytes total =
    let (s', rest) = absorb_blocks (length bytes) s bytes in
    record { state = s'; buffer = rest; total_bytes = total }

-- Sha256Hasher::update: the buffer is topped up first, and emptied into the state when full.
pub update : Hasher → List ℕ → Hasher
update h bytes =
    let total = (h.total_bytes + length bytes) % 2 ^ 64 in
    if length h.buffer == 0
    then absorb h.state bytes total
    else (let copied = min (block_bytes - length h.buffer) (length bytes) in
        let filled = h.buffer ++ take copied bytes in
        let rest = drop copied bytes in
        if length filled == block_bytes
        then absorb (transform filled h.state) rest total
        else record { state = h.state; buffer = filled ++ rest; total_bytes = total })

-- The eight bytes of the bit length, most significant first.
length_bytes : ℕ → List ℕ
length_bytes bits =
    (bits / 2 ^ 56) % 256
    ∷ (bits / 2 ^ 48) % 256
    ∷ (bits / 2 ^ 40) % 256
    ∷ (bits / 2 ^ 32) % 256
    ∷ (bits / 2 ^ 24) % 256
    ∷ (bits / 2 ^ 16) % 256
    ∷ (bits / 2 ^ 8) % 256
    ∷ bits % 256
    ∷ []

pub padded_size : ℕ → ℕ
padded_size buffered = if ltb buffered 56 then 64 else 128

-- The tail array up to `padded_size`: the buffer, 0x80, zeros and the bit length.
pub tail_bytes : Hasher → List ℕ
tail_bytes h =
    h.buffer
    ++ (0x80
        ∷ (replicate (padded_size (length h.buffer) - length h.buffer - 9) 0
            ++ length_bytes (h.total_bytes * 8 % 2 ^ 64)))

-- Sha256Hasher::finalize
pub finalize : Hasher → Digest
finalize h =
    let first = transform (take block_bytes (tail_bytes h)) h.state in
    state_bytes (
      if padded_size (length h.buffer) == 128
      then transform (drop block_bytes (tail_bytes h)) first
      else first)

pub sha256 : List ℕ → Digest
sha256 bytes = finalize (update new_hasher bytes)

abbrev hex_digit : ℕ → ℕ
hex_digit d = if ltb d 10 then b'0' + d else b'a' + (d - 10)

pub to_hex : Digest → List ℕ
to_hex [] = []
to_hex (b ∷ rest) = hex_digit (b / 16) ∷ hex_digit (bit_and b 0x0F) ∷ to_hex rest
