-- ===== src/Persistence/Manifest.antt =====
-- The run manifest of src/persistence_codec.cpp: what `encode_manifest` writes.
pub mod Decode
use monte_carlo.Prelude.{
  ℕ, zero, suc, ◌+◌, ◌*◌, ◌^◌, List, [], ◌∷◌, ◌++◌, Bool, true, false, Option, none, some, ltb, leb,
  ◌==◌, ◌!=◌, ◌&&◌, ◌||◌, not, bytes_of, length, get_elem?, replicate,
}
use monte_carlo.Exception.{
  Result, ok, err, ◌>>=◌, ◌>>◌, Exception, invalid_argument, throw_if, throw_some, what,
}
use monte_carlo.Float64.{Float64}
use monte_carlo.Hash.{Digest}
use monte_carlo.Aggregate.{AggregateStats, invariant_error}
use monte_carlo.Coordinator.{ValidationStatus}
use monte_carlo.Codec.{u8_bytes, u32_bytes, u64_bytes, encode_aggregate_payload}
use monte_carlo.Envelope.{make_envelope}
use monte_carlo.Persistence.Payload.{string_bytes}
use monte_carlo.Persistence.Status.{
  DurableRunStatus, running, complete, failed, durable_status_code, status_code,
}

pub record ManifestEntry : Type 0 where
  pub block_id : ℕ
  pub result_incarnation : ℕ
  pub lease_epoch : ℕ
  pub payload_checksum : Digest

pub record FailureRecord : Type 0 where
  pub status : ValidationStatus
  pub block_id : ℕ
  pub run_incarnation : ℕ
  pub lease_epoch : ℕ
  pub observed_checksum : Digest
  pub committed_checksum : Digest
  pub reason : List ℕ

pub record RunManifest (D : Type 0) : Type 0 where
  pub run_id : Digest
  pub run_spec_hash : Digest
  pub execution_layout_hash : Digest
  pub build_fingerprint : Digest
  pub sequence : ℕ
  pub status : DurableRunStatus
  pub run_incarnation : ℕ
  pub rng_version : ℕ
  pub stats_schema_version : ℕ
  pub block_count : ℕ
  pub lease_epochs : List ℕ
  pub committed_blocks : List ManifestEntry
  pub committed_aggregate : AggregateStats D
  pub failure : Option FailureRecord

-- 'M', 'C', 'R', '2', 'M', 'A', 'N', '_'
abbrev pub manifest_magic : List ℕ
manifest_magic = 0x4D ∷ 0x43 ∷ 0x52 ∷ 0x32 ∷ 0x4D ∷ 0x41 ∷ 0x4E ∷ 0x5F ∷ []

abbrev pub max_failure_reason_bytes : ℕ
max_failure_reason_bytes = 4096

any_zero : List ℕ → Bool
any_zero [] = false
any_zero (epoch ∷ epochs) = epoch == 0 || any_zero epochs

abbrev pub is_failed : DurableRunStatus → Bool
is_failed failed = true
is_failed _ = false

abbrev pub is_complete : DurableRunStatus → Bool
is_complete complete = true
is_complete _ = false

abbrev pub has_value {ℓ} : {A : Type ℓ} → Option A → Bool
has_value none = false
has_value (some a) = true

-- The comparisons with `manifest.lease_epochs[entry.block_id]`; a block identifier that has no
-- epoch is refused before them.
unfoldable pub lease_not_canonical : ManifestEntry → ℕ → Option ℕ → Bool
lease_not_canonical entry incarnation none = true
lease_not_canonical entry incarnation (some epoch) =
    ltb epoch entry.lease_epoch
    || (entry.result_incarnation == incarnation && entry.lease_epoch != epoch)

-- `previous_id` is the identifier before, if the entry is not the first.
unfoldable pub behind : ManifestEntry → Option ℕ → Bool
behind entry none = false
behind entry (some previous_id) = leb entry.block_id previous_id

unfoldable pub entry_not_canonical : ManifestEntry → ℕ → ℕ → List ℕ → Option ℕ → Bool
unfolding lease_not_canonical behind
entry_not_canonical entry block_count incarnation epochs previous =
    leb block_count entry.block_id
    || (entry.result_incarnation == 0
        || (entry.lease_epoch == 0
            || (ltb incarnation entry.result_incarnation
                || (lease_not_canonical entry incarnation (get_elem? epochs entry.block_id)
                    || behind entry previous))))

-- The loop over the entries in `encode_manifest`.
check_entries : ℕ → ℕ → List ℕ → Option ℕ → List ManifestEntry → Result (Unit {0})
check_entries block_count incarnation epochs previous [] = ok tt
check_entries block_count incarnation epochs previous (entry ∷ entries) = do
  throw_if (entry_not_canonical entry block_count incarnation epochs previous)
      (invalid_argument (what "manifest entries are not canonical"))
  check_entries block_count incarnation epochs (some entry.block_id) entries

unfoldable pub epochs_bytes : List ℕ → List ℕ → List ℕ
epochs_bytes [] rest = rest
epochs_bytes (epoch ∷ epochs) rest = u64_bytes epoch ++ epochs_bytes epochs rest

unfoldable pub entries_bytes : List ManifestEntry → List ℕ → List ℕ
entries_bytes [] rest = rest
entries_bytes (entry ∷ entries) rest =
    u64_bytes entry.block_id
    ++ (u64_bytes entry.result_incarnation
        ++ (u64_bytes entry.lease_epoch ++ (entry.payload_checksum ++ entries_bytes entries rest)))

failure_bytes : Option FailureRecord → Result (List ℕ)
failure_bytes none = ok (u8_bytes 0)
failure_bytes (some failure) = do
  reason ← string_bytes failure.reason max_failure_reason_bytes
  ok (
      u8_bytes 1
      ++ (u32_bytes (status_code failure.status)
          ++ (u64_bytes failure.block_id
              ++ (u64_bytes failure.run_incarnation
                  ++ (u64_bytes failure.lease_epoch
                      ++ (failure.observed_checksum ++ (failure.committed_checksum ++ reason)))))))

module _ {D : Type 0} ⦃fp : Float64 D⦄ where
  -- The checks at the start of `encode_manifest`.
  check_manifest : RunManifest D → Result (Unit {0})
  unfolding any_zero
  check_manifest manifest = do
    throw_if
        (manifest.run_incarnation == 0
          || (manifest.block_count == 0 || length manifest.lease_epochs != manifest.block_count))
        (invalid_argument (what "manifest block/lease universe is invalid"))
    throw_if (any_zero manifest.lease_epochs)
        (invalid_argument (what "manifest contains a zero lease epoch"))
    throw_if (is_failed manifest.status && not (has_value manifest.failure))
        (invalid_argument (what "failed manifest is missing failure details"))
    throw_if (not (is_failed manifest.status) && has_value manifest.failure)
        (invalid_argument (what "non-failed manifest contains failure details"))
    throw_if
        (is_complete manifest.status && length manifest.committed_blocks != manifest.block_count)
        (invalid_argument (what "complete manifest is missing committed blocks"))
    check_entries manifest.block_count manifest.run_incarnation manifest.lease_epochs none
        manifest.committed_blocks
    throw_some (invariant_error manifest.committed_aggregate none)
        (λ e. invalid_argument (what "manifest aggregate is invalid: " ++ e))

  -- The payload around the bytes of the aggregate and of the failure.
  manifest_bytes : RunManifest D → List ℕ → List ℕ → List ℕ
  manifest_bytes manifest aggregate_bytes failure =
      manifest.run_id
      ++ (manifest.run_spec_hash
          ++ (manifest.execution_layout_hash
              ++ (manifest.build_fingerprint
                  ++ (u64_bytes manifest.sequence
                      ++ (u8_bytes (durable_status_code manifest.status)
                          ++ (replicate 7 0
                              ++ (u64_bytes manifest.run_incarnation
                                  ++ (u64_bytes manifest.rng_version
                                      ++ (u32_bytes manifest.stats_schema_version
                                          ++ (u32_bytes 0
                                              ++ (u64_bytes manifest.block_count
                                                  ++ (u64_bytes (length manifest.lease_epochs)
                                                      ++ epochs_bytes manifest.lease_epochs (
                                                          u64_bytes
                                                            (length manifest.committed_blocks)
                                                          ++ entries_bytes manifest.committed_blocks
                                                            (u32_bytes (length aggregate_bytes)
                                                            ++ (aggregate_bytes
                                                            ++ failure)))))))))))))))

  pub encode_manifest : RunManifest D → Result (List ℕ)
  encode_manifest manifest = do
    check_manifest manifest
    aggregate_bytes ←
        encode_aggregate_payload manifest.committed_aggregate manifest.stats_schema_version
    failure ← failure_bytes manifest.failure
    ok (make_envelope manifest_magic (manifest_bytes manifest aggregate_bytes failure))
