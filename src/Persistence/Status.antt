-- ===== src/Persistence/Status.antt =====
-- The storage codes of src/persistence_codec.cpp: they are fixed numbers, apart from the order in
-- which the enumerators stand.
use monte_carlo.Prelude.{ℕ, ◌≡◌, refl, if◌then◌else◌, ◌==◌}
use monte_carlo.Exception.{Result, ok, err, runtime_error, what}
use monte_carlo.Coordinator.{
  ValidationStatus, accepted, duplicate, invalid_run, execution_layout_mismatch, build_mismatch,
  stale_incarnation, rng_version_mismatch, stats_schema_mismatch, invalid_aggregate,
  corrupt_payload, invalid_block, stale_lease, determinism_error,
}

pub data DurableRunStatus : Type 0 where
  running complete failed : DurableRunStatus

-- static_cast<std::uint8_t>(DurableRunStatus)
unfoldable pub durable_status_code : DurableRunStatus → ℕ
durable_status_code running = 1
durable_status_code complete = 2
durable_status_code failed = 3

unfoldable pub durable_status : ℕ → Result DurableRunStatus
durable_status code =
    if code == 1
    then ok running
    else if code == 2
    then ok complete
    else if code == 3
    then ok failed
    else err (runtime_error (what "persisted manifest has an unknown run status"))

unfoldable pub status_code : ValidationStatus → ℕ
status_code accepted = 0
status_code duplicate = 1
status_code invalid_run = 2
status_code execution_layout_mismatch = 3
status_code build_mismatch = 4
status_code stale_incarnation = 5
status_code rng_version_mismatch = 6
status_code stats_schema_mismatch = 7
status_code invalid_aggregate = 8
status_code corrupt_payload = 9
status_code invalid_block = 10
status_code stale_lease = 11
status_code determinism_error = 12

unfoldable pub validation_status : ℕ → Result ValidationStatus
validation_status code =
    if code == 0
    then ok accepted
    else if code == 1
    then ok duplicate
    else if code == 2
    then ok invalid_run
    else if code == 3
    then ok execution_layout_mismatch
    else if code == 4
    then ok build_mismatch
    else if code == 5
    then ok stale_incarnation
    else if code == 6
    then ok rng_version_mismatch
    else if code == 7
    then ok stats_schema_mismatch
    else if code == 8
    then ok invalid_aggregate
    else if code == 9
    then ok corrupt_payload
    else if code == 10
    then ok invalid_block
    else if code == 11
    then ok stale_lease
    else if code == 12
    then ok determinism_error
    else err (runtime_error (what "persisted failure has an unknown status code"))

-- Every classification is read back from its storage code.
pub validation_status-status_code :
    (s : ValidationStatus) → validation_status (status_code s) ≡ ok s
unfolding validation_status status_code
validation_status-status_code accepted = refl
validation_status-status_code duplicate = refl
validation_status-status_code invalid_run = refl
validation_status-status_code execution_layout_mismatch = refl
validation_status-status_code build_mismatch = refl
validation_status-status_code stale_incarnation = refl
validation_status-status_code rng_version_mismatch = refl
validation_status-status_code stats_schema_mismatch = refl
validation_status-status_code invalid_aggregate = refl
validation_status-status_code corrupt_payload = refl
validation_status-status_code invalid_block = refl
validation_status-status_code stale_lease = refl
validation_status-status_code determinism_error = refl

pub durable_status-durable_status_code :
    (s : DurableRunStatus) → durable_status (durable_status_code s) ≡ ok s
unfolding durable_status durable_status_code
durable_status-durable_status_code running = refl
durable_status-durable_status_code complete = refl
durable_status-durable_status_code failed = refl
