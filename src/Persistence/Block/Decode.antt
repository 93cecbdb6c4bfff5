-- ===== src/Persistence/Block/Decode.antt =====
-- `decode_block_record` of src/persistence_codec.cpp.
use monte_carlo.Prelude.{ℕ, List, not, ◌==◌, bytes_eq}
use monte_carlo.Exception.{Result, ok, err, runtime_error, what, map}
use monte_carlo.Float64.{Float64}
use monte_carlo.Layout.{ScenarioBlock}
use monte_carlo.Codec.{aggregate_payload_hash}
use monte_carlo.Reader.{
  Read, u32, u64, digest, byte_vector, finish, reject_if, lift, pure, ◌>>=◌, ◌>>◌,
}
use monte_carlo.Envelope.{open_envelope}
use monte_carlo.Persistence.Payload.{decode_aggregate_payload}
use monte_carlo.Persistence.Block.{DurableBlockRecord, block_magic, max_block_record_bytes}

unfoldable pub read_block : Read ScenarioBlock
read_block = do
  block_id ← u64
  start_scenario ← u64
  end_scenario ← u64
  run_incarnation ← u64
  lease_epoch ← u64
  pure (record {
    block_id = block_id;
    start_scenario = start_scenario;
    end_scenario = end_scenario;
    run_incarnation = run_incarnation;
    lease_epoch = lease_epoch;
  })

module _ {D : Type 0} ⦃fp : Float64 D⦄ where
  -- The fields, then the check of the payload's identity.
  unfoldable pub read_record : Read (DurableBlockRecord D)
  read_record = do
    run_id ← digest
    run_spec_hash ← digest
    execution_layout_hash ← digest
    build_fingerprint ← digest
    block ← read_block
    rng_version ← u64
    stats_schema_version ← u32
    worker_id ← u64
    aggregate_size ← u32
    raw ← byte_vector aggregate_size
    aggregate ← lift (decode_aggregate_payload raw stats_schema_version)
    payload_checksum ← digest
    finish
    reject_if (block.lease_epoch == 0)
        (runtime_error (what "persisted block payload identity is invalid"))
    computed ← lift (aggregate_payload_hash aggregate stats_schema_version)
    reject_if (not (bytes_eq payload_checksum computed))
        (runtime_error (what "persisted block payload identity is invalid"))
    pure (record {
      run_id = run_id;
      result = record {
        block = block;
        aggregate = aggregate;
        run_spec_hash = run_spec_hash;
        execution_layout_hash = execution_layout_hash;
        build_fingerprint = build_fingerprint;
        payload_checksum = payload_checksum;
        rng_version = rng_version;
        stats_schema_version = stats_schema_version;
        worker_id = worker_id;
      };
    })

  unfoldable pub decode_block_record : List ℕ → Result (DurableBlockRecord D)
  decode_block_record bytes = elim (open_envelope bytes block_magic max_block_record_bytes) [
    | err e ↦ err e
    | ok payload ↦ map (λ p. p.0) (read_record payload)
  ]
