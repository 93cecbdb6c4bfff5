-- ===== src/Envelope.antt =====
-- src/persistence_codec.cpp: the envelope around each durable payload, and its checksum.
mod Checksum
pub mod RoundTrip
pub mod Tests
use Checksum.{storage_schema_version, overhead, read_checksum}
use monte_carlo.Prelude.{
  ℕ, zero, suc, ◌+◌, ◌-◌, ◌*◌, ◌/◌, ◌%◌, ◌^◌, List, [], ◌∷◌, ◌++◌, ltb, ◌!=◌, ◌||◌, not, take, drop,
  length, bytes_eq, bit_xor, if◌then◌else◌, ◌==◌, bit_and,
}
use monte_carlo.Exception.{Result, ok, err, ◌>>=◌, ◌>>◌, throw_if, runtime_error, what}
use monte_carlo.Codec.{u32_bytes, u64_bytes, little_endian}

-- One bit of an entry of the CRC32C table: `mask` is all ones when the low bit is set.
unfoldable pub table_step : ℕ → ℕ
table_step value =
    let mask = (2 ^ 32 - bit_and value 1) % 2 ^ 32 in bit_xor (value / 2) (bit_and 0x82F63B78 mask)

unfoldable pub table_steps : ℕ → ℕ → ℕ
table_steps zero value = value
table_steps (suc bits) value = table_steps bits (table_step value)

-- kCrc32cTable[index]
pub table_entry : ℕ → ℕ
table_entry index = table_steps 8 index

-- The loop of `crc32c_range`.
pub crc_loop : ℕ → List ℕ → ℕ
crc_loop crc [] = crc
crc_loop crc (b ∷ bytes) =
    crc_loop (bit_xor (table_entry (bit_xor crc b % 2 ^ 8)) (crc / 2 ^ 8)) bytes

pub crc32c : List ℕ → ℕ
crc32c bytes = 2 ^ 32 - 1 - crc_loop 0xFFFFFFFF bytes

-- All but the checksum.
pub envelope_body : List ℕ → List ℕ → List ℕ
envelope_body magic payload =
    magic ++ (u32_bytes storage_schema_version ++ (u64_bytes (length payload) ++ payload))

pub make_envelope : List ℕ → List ℕ → List ℕ
make_envelope magic payload =
    let bytes = envelope_body magic payload in bytes ++ u32_bytes (crc32c bytes)

pub open_envelope : List ℕ → List ℕ → ℕ → Result (List ℕ)
open_envelope bytes expected_magic maximum_size = do
  throw_if (ltb (length bytes) overhead || ltb maximum_size (length bytes))
      (runtime_error (what "durable envelope size is invalid"))
  throw_if (not (bytes_eq expected_magic (take 8 bytes)))
      (runtime_error (what "durable envelope magic mismatch"))
  stored ← read_checksum (length bytes) maximum_size bytes
  throw_if (stored.0 != crc32c (take (length bytes - 4) bytes))
      (runtime_error (what "durable envelope CRC32C mismatch"))
  ok (drop 20 (take (length bytes - 4) bytes))
