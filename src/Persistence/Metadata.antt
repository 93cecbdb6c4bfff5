-- ===== src/Persistence/Metadata.antt =====
-- The run metadata of src/persistence_codec.cpp: what `encode_run_metadata` writes.
pub mod Decode
use monte_carlo.Prelude.{
  ℕ, zero, suc, ◌+◌, ◌*◌, ◌^◌, List, [], ◌∷◌, ◌++◌, Bool, true, false, ◌==◌, ◌||◌, not, bytes_eq,
  bytes_of, length,
}
use monte_carlo.Exception.{Result, ok, err, ◌>>=◌, ◌>>◌, invalid_argument, throw_if, what}
use monte_carlo.Float64.{Float64}
use monte_carlo.Hash.{Digest, sha256}
use monte_carlo.RunSpec.{RunSpec}
use monte_carlo.RunSpec
use monte_carlo.Codec.{u32_bytes, u64_bytes, encode_run_spec_payload, run_spec_hash}
use monte_carlo.Envelope.{make_envelope}
use monte_carlo.Persistence.Payload.{string_bytes}

pub record RunMetadata (D : Type 0) : Type 0 where
  pub run_id : Digest
  pub spec : RunSpec D
  pub block_size : ℕ
  pub block_count : ℕ
  pub run_spec_hash : Digest
  pub execution_layout_hash : Digest
  pub build_fingerprint : Digest
  pub build_description : List ℕ

-- 'M', 'C', 'R', '2', 'M', 'E', 'T', 'A'
abbrev pub metadata_magic : List ℕ
metadata_magic = 0x4D ∷ 0x43 ∷ 0x52 ∷ 0x32 ∷ 0x4D ∷ 0x45 ∷ 0x54 ∷ 0x41 ∷ []

abbrev pub max_metadata_bytes : ℕ
max_metadata_bytes = 1024 * 1024

abbrev pub max_build_description_bytes : ℕ
max_build_description_bytes = 64 * 1024

pub durable_run_id : Digest → Digest → Digest
durable_run_id spec_hash layout_hash =
    sha256 (what "mc-durable-run-v1" ++ (spec_hash ++ layout_hash))

module _ {D : Type 0} ⦃fp : Float64 D⦄ where
  pub encode_run_metadata : RunMetadata D → Result (List ℕ)
  encode_run_metadata metadata = do
    RunSpec.validate metadata.spec
    throw_if (metadata.block_size == 0 || metadata.block_count == 0)
        (invalid_argument (what "run metadata has an empty execution layout"))
    spec_hash ← run_spec_hash metadata.spec
    throw_if
        (not (bytes_eq metadata.run_spec_hash spec_hash)
          || not (
              bytes_eq metadata.run_id
                (durable_run_id metadata.run_spec_hash metadata.execution_layout_hash)))
        (invalid_argument (what "run metadata identity is inconsistent"))
    throw_if
        (length metadata.build_description == 0
          || not (bytes_eq (sha256 metadata.build_description) metadata.build_fingerprint))
        (invalid_argument (what "run metadata build identity is inconsistent"))
    spec_bytes ← encode_run_spec_payload metadata.spec
    description ← string_bytes metadata.build_description max_build_description_bytes
    ok (
        make_envelope metadata_magic (
          metadata.run_id
          ++ (u32_bytes (length spec_bytes)
              ++ (spec_bytes
                  ++ (u64_bytes metadata.block_size
                      ++ (u64_bytes metadata.block_count
                          ++ (metadata.run_spec_hash
                              ++ (metadata.execution_layout_hash
                                  ++ (metadata.build_fingerprint ++ description)))))))))
