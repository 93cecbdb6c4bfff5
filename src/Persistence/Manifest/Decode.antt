-- ===== src/Persistence/Manifest/Decode.antt =====
-- `decode_manifest` of src/persistence_codec.cpp.
use monte_carlo.Prelude.{
  ℕ, zero, suc, ◌/◌, List, [], ◌∷◌, Bool, true, false, Option, none, some, not, ltb, ◌==◌, ◌!=◌,
  ◌||◌, ◌&&◌, length, if◌then◌else◌,
}
use monte_carlo.Exception.{Result, ok, err, runtime_error, invalid_argument, what, map}
use monte_carlo.Float64.{Float64}
use monte_carlo.Layout.{size_max}
use monte_carlo.Reader.{
  Read, u8, u32, u64, digest, byte_vector, string, finish, reject_if, lift, pure, remaining, ◌>>=◌,
  ◌>>◌,
}
use monte_carlo.Envelope.{open_envelope}
use monte_carlo.Persistence.Payload.{decode_aggregate_payload}
use monte_carlo.Persistence.Status.{durable_status, validation_status}
use monte_carlo.Persistence.Manifest.{
  ManifestEntry, FailureRecord, RunManifest, manifest_magic, max_failure_reason_bytes, is_failed,
  is_complete, has_value, entry_not_canonical,
}

-- The loop over the reserved bytes, with `n` left.
read_reserved : ℕ → Read (Unit {0})
read_reserved zero = pure tt
read_reserved (suc n) = do
  byte ← u8
  reject_if (byte != 0) (runtime_error (what "manifest reserved status bytes are nonzero"))
  read_reserved n

-- The loop over the lease table, with `n` epochs left.
unfoldable pub read_epochs : ℕ → Read (List ℕ)
read_epochs zero = pure []
read_epochs (suc n) = do
  epoch ← u64
  reject_if (epoch == 0) (runtime_error (what "manifest contains a zero lease epoch"))
  epochs ← read_epochs n
  pure (epoch ∷ epochs)

unfoldable pub read_entry : Read ManifestEntry
read_entry = do
  block_id ← u64
  result_incarnation ← u64
  lease_epoch ← u64
  payload_checksum ← digest
  pure (record {
    block_id = block_id;
    result_incarnation = result_incarnation;
    lease_epoch = lease_epoch;
    payload_checksum = payload_checksum;
  })

-- The loop over the committed table, with `n` entries left.
unfoldable pub read_entries : ℕ → ℕ → List ℕ → Option ℕ → ℕ → Read (List ManifestEntry)
read_entries block_count incarnation epochs previous zero = pure []
read_entries block_count incarnation epochs previous (suc n) = do
  entry ← read_entry
  reject_if (entry_not_canonical entry block_count incarnation epochs previous)
      (runtime_error (what "manifest entries are not canonical"))
  entries ← read_entries block_count incarnation epochs (some entry.block_id) n
  pure (entry ∷ entries)

read_failure_record : Read FailureRecord
read_failure_record = do
  code ← u32
  status ← lift (validation_status code)
  block_id ← u64
  run_incarnation ← u64
  lease_epoch ← u64
  observed_checksum ← digest
  committed_checksum ← digest
  reason ← string max_failure_reason_bytes
  pure (record {
    status = status;
    block_id = block_id;
    run_incarnation = run_incarnation;
    lease_epoch = lease_epoch;
    observed_checksum = observed_checksum;
    committed_checksum = committed_checksum;
    reason = reason;
  })

-- The record that follows the flag.
optional_failure : Bool → Read (Option FailureRecord)
unfolding read_failure_record
optional_failure false = pure none
optional_failure true = do failure ← read_failure_record; pure (some failure)

read_failure : Read (Option FailureRecord)
unfolding optional_failure
read_failure = do
  has_failure ← u8
  reject_if (ltb 1 has_failure) (runtime_error (what "manifest failure flag is invalid"))
  optional_failure (has_failure == 1)

-- != on bool
differs : Bool → Bool → Bool
differs a b = if a then not b else b

module _ {D : Type 0} ⦃fp : Float64 D⦄ where
  read_fields : Read (RunManifest D)
  unfolding read_failure
  read_fields = do
    run_id ← digest
    spec_hash ← digest
    layout_hash ← digest
    build_fingerprint ← digest
    sequence ← u64
    code ← u8
    status ← lift (durable_status code)
    read_reserved 7
    run_incarnation ← u64
    rng_version ← u64
    stats_schema_version ← u32
    reserved ← u32
    reject_if (reserved != 0) (runtime_error (what "manifest reserved schema field is nonzero"))
    block_count ← u64
    lease_count ← u64
    left ← remaining
    reject_if (block_count == 0 || (lease_count != block_count || ltb (left / 8) lease_count))
        (runtime_error (what "manifest lease table size is invalid"))
    lease_epochs ← read_epochs lease_count
    committed_count ← u64
    left ← remaining
    reject_if (ltb block_count committed_count || ltb (left / 56) committed_count)
        (runtime_error (what "manifest committed table size is invalid"))
    committed_blocks ← read_entries block_count run_incarnation lease_epochs none committed_count
    aggregate_size ← u32
    raw ← byte_vector aggregate_size
    aggregate ← lift (decode_aggregate_payload raw stats_schema_version)
    failure ← read_failure
    finish
    pure (record {
      run_id = run_id;
      run_spec_hash = spec_hash;
      execution_layout_hash = layout_hash;
      build_fingerprint = build_fingerprint;
      sequence = sequence;
      status = status;
      run_incarnation = run_incarnation;
      rng_version = rng_version;
      stats_schema_version = stats_schema_version;
      block_count = block_count;
      lease_epochs = lease_epochs;
      committed_blocks = committed_blocks;
      committed_aggregate = aggregate;
      failure = failure;
    })

  read_manifest : Read (RunManifest D)
  unfolding read_fields differs
  read_manifest = do
    manifest ← read_fields
    reject_if
        (manifest.run_incarnation == 0
          || (differs (is_failed manifest.status) (has_value manifest.failure)
              || (is_complete manifest.status
                  && length manifest.committed_blocks != manifest.block_count)))
        (runtime_error (what "manifest run state is inconsistent"))
    pure manifest

  pub decode_manifest : List ℕ → ℕ → Result (RunManifest D)
  decode_manifest bytes max_manifest_bytes =
      if ltb max_manifest_bytes 256 || ltb size_max max_manifest_bytes
      then err (invalid_argument (what "max_manifest_bytes is outside host limits"))
      else elim (open_envelope bytes manifest_magic max_manifest_bytes) [
        | err e ↦ err e
        | ok payload ↦ map (λ p. p.0) (read_manifest payload)
      ]
