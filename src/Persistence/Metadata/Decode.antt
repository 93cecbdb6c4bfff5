-- ===== src/Persistence/Metadata/Decode.antt =====
-- `decode_run_metadata` of src/persistence_codec.cpp.
use monte_carlo.Prelude.{ℕ, List, not, ◌==◌, ◌!=◌, ◌||◌, bytes_eq, length}
use monte_carlo.Exception.{Result, ok, err, runtime_error, what, map}
use monte_carlo.Float64.{Float64}
use monte_carlo.Hash.{sha256}
use monte_carlo.Layout.{EngineConfig, block_count_of}
use monte_carlo.Codec.{run_spec_hash, execution_layout_hash}
use monte_carlo.Reader.{
  Read, u32, u64, digest, byte_vector, string, finish, reject_if, lift, pure, ◌>>=◌, ◌>>◌,
}
use monte_carlo.Envelope.{open_envelope}
use monte_carlo.Persistence.Payload.{decode_run_spec_payload}
use monte_carlo.Persistence.Metadata.{
  RunMetadata, metadata_magic, max_metadata_bytes, max_build_description_bytes, durable_run_id,
}

-- `EngineConfig{}` with the block size and the block count of the metadata.
layout_config : ℕ → ℕ → EngineConfig
layout_config block_size block_count = record {
  worker_count = 1;
  block_size = block_size;
  assignment_queue_capacity = 0;
  completion_queue_capacity = 0;
  max_materialized_blocks = block_count;
}

module _ {D : Type 0} ⦃fp : Float64 D⦄ where
  read_fields : Read (RunMetadata D)
  read_fields = do
    run_id ← digest
    spec_size ← u32
    raw ← byte_vector spec_size
    spec ← lift (decode_run_spec_payload raw)
    block_size ← u64
    block_count ← u64
    spec_hash ← digest
    layout_hash ← digest
    build_fingerprint ← digest
    build_description ← string max_build_description_bytes
    finish
    pure (record {
      run_id = run_id;
      spec = spec;
      block_size = block_size;
      block_count = block_count;
      run_spec_hash = spec_hash;
      execution_layout_hash = layout_hash;
      build_fingerprint = build_fingerprint;
      build_description = build_description;
    })

  -- The checks after the fields are read.
  read_metadata : Read (RunMetadata D)
  unfolding layout_config
  read_metadata = do
    metadata ← read_fields
    reject_if (metadata.block_size == 0 || metadata.block_count == 0)
        (runtime_error (what "persisted run metadata identity is inconsistent"))
    spec_hash ← lift (run_spec_hash metadata.spec)
    reject_if
        (not (bytes_eq metadata.run_spec_hash spec_hash)
          || not (
              bytes_eq metadata.run_id
                (durable_run_id metadata.run_spec_hash metadata.execution_layout_hash)))
        (runtime_error (what "persisted run metadata identity is inconsistent"))
    reject_if
        (metadata.block_count != block_count_of metadata.spec.total_scenarios metadata.block_size)
        (runtime_error (what "persisted run metadata block count is invalid"))
    layout_hash ← lift (
        execution_layout_hash metadata.spec
          (layout_config metadata.block_size metadata.block_count))
    reject_if (not (bytes_eq metadata.execution_layout_hash layout_hash))
        (runtime_error (what "persisted execution-layout identity is invalid"))
    reject_if
        (length metadata.build_description == 0
          || not (bytes_eq metadata.build_fingerprint (sha256 metadata.build_description)))
        (runtime_error (what "persisted build identity is invalid"))
    pure metadata

  pub decode_run_metadata : List ℕ → Result (RunMetadata D)
  decode_run_metadata bytes = elim (open_envelope bytes metadata_magic max_metadata_bytes) [
    | err e ↦ err e
    | ok payload ↦ map (λ p. p.0) (read_metadata payload)
  ]
