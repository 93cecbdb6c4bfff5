-- ===== src/Envelope/RoundTrip.antt =====
-- An envelope opens to the payload that it was made of.
use monte_carlo.Prelude.{
  ℕ, zero, suc, ◌+◌, ◌-◌, ◌/◌, ◌^◌, ◌<◌, ◌≤◌, ◌≡◌, ◌∙◌, sym, ap, arith, refl, List, [], ◌++◌,
  length, take, drop, take-append, drop-append, length-append, append_assoc, append-nil,
  bytes_eq_refl, ==_refl, false, ltb, ◌||◌, ◌!=◌,
}
use monte_carlo.Exception.{ok}
use monte_carlo.Codec.{u32_bytes, u64_bytes, little_endian}
use monte_carlo.Reader.{u32}
use monte_carlo.Reader.RoundTrip.{u32-u32_bytes, u64-u64_bytes, byte_vector-append, finish-nil}
use monte_carlo.Envelope.Checksum.{read_checksum, storage_schema_version}
use monte_carlo.Envelope.{make_envelope, open_envelope, envelope_body, crc32c}

pub length-little_endian : (count value : ℕ) → length (little_endian count value) ≡ count
unfolding little_endian
length-little_endian zero value = refl
length-little_endian (suc count) value = ap suc (length-little_endian count (value / 2 ^ 8))

crc32c-lt : (bytes : List ℕ) → crc32c bytes < 2 ^ 32
unfolding crc32c
crc32c-lt bytes = omega arith

length-envelope_body :
    (magic payload : List ℕ)
    → length magic ≡ 8
    → length (envelope_body magic payload) ≡ 20 + length payload
unfolding envelope_body
length-envelope_body magic payload h = omega (
  arith,
  length-append magic (u32_bytes storage_schema_version ++ (u64_bytes (length payload) ++ payload)),
  length-append (u32_bytes storage_schema_version) (u64_bytes (length payload) ++ payload),
  length-append (u64_bytes (length payload)) payload,
  length-little_endian 4 storage_schema_version,
  length-little_endian 8 (length payload),
)

length-make_envelope :
    (magic payload : List ℕ)
    → length magic ≡ 8
    → length (make_envelope magic payload) ≡ 24 + length payload
unfolding make_envelope
length-make_envelope magic payload h = omega (
  arith,
  length-envelope_body magic payload h,
  length-append (envelope_body magic payload) (u32_bytes (crc32c (envelope_body magic payload))),
  length-little_endian 4 (crc32c (envelope_body magic payload)),
)

-- The bytes in the order in which they are read.
make_envelope_pieces :
    (magic payload : List ℕ)
    → make_envelope magic payload
      ≡ magic
        ++ (u32_bytes storage_schema_version
            ++ (u64_bytes (length payload)
                ++ (payload ++ u32_bytes (crc32c (envelope_body magic payload)))))
unfolding make_envelope envelope_body
make_envelope_pieces magic payload = simp append_assoc

read_checksum_lem :
    (magic payload : List ℕ) (crc maximum_size : ℕ)
    → length magic ≡ 8
    → length payload < 2 ^ 64
    → length payload ≤ maximum_size
    → crc < 2 ^ 32
    → read_checksum (24 + length payload) maximum_size (
        magic
        ++ (u32_bytes storage_schema_version
            ++ (u64_bytes (length payload) ++ (payload ++ u32_bytes crc))))
      ≡ ok (crc, [])
unfolding read_checksum
read_checksum_lem magic payload crc maximum_size hm hp hs hc =
    let size_ok : (ltb maximum_size (length payload) || length payload != 24 + length payload - 24)
        ≡ false =
      ground arith in
    let crc_read : u32 (u32_bytes crc) ≡ ok (crc, []) =
      ap u32 (sym (append-nil (u32_bytes crc))) ∙ u32-u32_bytes crc [] hc in
    rw
      (
        byte_vector-append 8 magic
            (u32_bytes storage_schema_version
              ++ (u64_bytes (length payload) ++ (payload ++ u32_bytes crc)))
            hm,
        u32-u32_bytes storage_schema_version
            (u64_bytes (length payload) ++ (payload ++ u32_bytes crc)) (omega arith),
        u64-u64_bytes (length payload) (payload ++ u32_bytes crc) hp,
        size_ok,
        byte_vector-append (length payload) payload (u32_bytes crc) refl,
        crc_read,
        finish-nil,
      )
      refl

take-prefix : (n : ℕ) (xs ys : List ℕ) → length xs ≡ n → take n (xs ++ ys) ≡ xs
take-prefix n xs ys h = rw (sym h) (take-append xs ys)

drop-prefix : (n : ℕ) (xs ys : List ℕ) → length xs ≡ n → drop n (xs ++ ys) ≡ ys
drop-prefix n xs ys h = rw (sym h) (drop-append xs ys)

take-make_envelope :
    (magic payload : List ℕ)
    → length magic ≡ 8
    → take (24 + length payload - 4) (make_envelope magic payload) ≡ envelope_body magic payload
unfolding make_envelope
take-make_envelope magic payload h =
    take-prefix (24 + length payload - 4) (envelope_body magic payload)
      (u32_bytes (crc32c (envelope_body magic payload)))
      (omega (arith, length-envelope_body magic payload h))

drop-envelope_body :
    (magic payload : List ℕ) → length magic ≡ 8 → drop 20 (envelope_body magic payload) ≡ payload
unfolding envelope_body
drop-envelope_body magic payload h =
    let header = magic ++ (u32_bytes storage_schema_version ++ u64_bytes (length payload)) in
    let parts : envelope_body magic payload ≡ header ++ payload = simp append_assoc in
    ap (λ (b : List ℕ). drop 20 b) parts
    ∙ drop-prefix 20 header payload (
        omega (
          arith,
          length-append magic (u32_bytes storage_schema_version ++ u64_bytes (length payload)),
          length-append (u32_bytes storage_schema_version) (u64_bytes (length payload)),
          length-little_endian 4 storage_schema_version,
          length-little_endian 8 (length payload),
        ))

-- An envelope made of a magic of eight bytes and a payload that the size limit admits opens,
-- under the same magic, to that payload.
pub open_envelope-make_envelope :
    (magic payload : List ℕ) (maximum_size : ℕ)
    → length magic ≡ 8
    → length payload < 2 ^ 64
    → 24 + length payload ≤ maximum_size
    → open_envelope (make_envelope magic payload) magic maximum_size ≡ ok payload
unfolding open_envelope
open_envelope-make_envelope magic payload maximum_size hm hp hs =
    let size_ok : (ltb (24 + length payload) 24 || ltb maximum_size (24 + length payload)) ≡ false =
      ground arith in
    let magic_ok : take 8 (make_envelope magic payload) ≡ magic =
      ap (λ (b : List ℕ). take 8 b) (make_envelope_pieces magic payload)
      ∙ take-prefix 8 magic _ hm in
    let checksum_ok : read_checksum (24 + length payload) maximum_size (make_envelope magic payload)
        ≡ ok (crc32c (envelope_body magic payload), []) =
      ap (read_checksum (24 + length payload) maximum_size) (make_envelope_pieces magic payload)
      ∙ read_checksum_lem magic payload (crc32c (envelope_body magic payload)) maximum_size hm hp
          (omega arith) (crc32c-lt (envelope_body magic payload)) in
    rw
      (
        length-make_envelope magic payload hm,
        size_ok,
        magic_ok,
        bytes_eq_refl magic,
        checksum_ok,
        take-make_envelope magic payload hm,
        ==_refl (crc32c (envelope_body magic payload)),
        drop-envelope_body magic payload hm,
      )
      refl
