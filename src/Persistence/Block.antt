-- ===== src/Persistence/Block.antt =====
-- The durable block record of src/persistence_codec.cpp: what `encode_block_record` writes.
pub mod Decode
pub mod RoundTrip
use monte_carlo.Prelude.{
  ℕ, zero, suc, ◌+◌, ◌*◌, ◌^◌, List, [], ◌∷◌, ◌++◌, Bool, true, false, ◌==◌, not, bytes_eq,
  bytes_of, length,
}
use monte_carlo.Exception.{Result, ok, err, ◌>>=◌, ◌>>◌, invalid_argument, throw_if, what}
use monte_carlo.Float64.{Float64}
use monte_carlo.Hash.{Digest}
use monte_carlo.Layout.{BlockResult, ScenarioBlock}
use monte_carlo.Codec.{
  u32_bytes, u64_bytes, little_endian, encode_aggregate_payload, aggregate_payload_hash,
}
use monte_carlo.Envelope.{make_envelope}

pub record DurableBlockRecord (D : Type 0) : Type 0 where
  pub run_id : Digest
  pub result : BlockResult D

-- 'M', 'C', 'R', '2', 'B', 'L', 'K', '_'
abbrev pub block_magic : List ℕ
block_magic = 0x4D ∷ 0x43 ∷ 0x52 ∷ 0x32 ∷ 0x42 ∷ 0x4C ∷ 0x4B ∷ 0x5F ∷ []

abbrev pub max_block_record_bytes : ℕ
max_block_record_bytes = 4096

-- The range and the identity of the block.
unfoldable pub block_bytes : ScenarioBlock → List ℕ → List ℕ
block_bytes block rest =
    u64_bytes block.block_id
    ++ (u64_bytes block.start_scenario
        ++ (u64_bytes block.end_scenario
            ++ (u64_bytes block.run_incarnation ++ (u64_bytes block.lease_epoch ++ rest))))

module _ {D : Type 0} ⦃fp : Float64 D⦄ where
  -- The payload around the bytes of the aggregate.
  unfoldable pub record_bytes : DurableBlockRecord D → List ℕ → List ℕ
  record_bytes durable aggregate_bytes =
      let result = durable.result in
      durable.run_id
      ++ (result.run_spec_hash
          ++ (result.execution_layout_hash
              ++ (result.build_fingerprint
                  ++ block_bytes result.block (
                      u64_bytes result.rng_version
                      ++ (u32_bytes result.stats_schema_version
                          ++ (u64_bytes result.worker_id
                              ++ (u32_bytes (length aggregate_bytes)
                                  ++ (aggregate_bytes ++ result.payload_checksum))))))))

  unfoldable pub encode_block_record : DurableBlockRecord D → Result (List ℕ)
  encode_block_record durable = do
    throw_if (durable.result.block.lease_epoch == 0)
        (invalid_argument (what "block record has inconsistent payload identity"))
    computed ← aggregate_payload_hash durable.result.aggregate durable.result.stats_schema_version
    throw_if (not (bytes_eq durable.result.payload_checksum computed))
        (invalid_argument (what "block record has inconsistent payload identity"))
    aggregate_bytes ←
        encode_aggregate_payload durable.result.aggregate durable.result.stats_schema_version
    ok (make_envelope block_magic (record_bytes durable aggregate_bytes))
