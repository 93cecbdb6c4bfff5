-- ===== src/Coordinator.antt =====
-- include/mc/coordinator.hpp and src/runtime/coordinator.cpp: which block results are accepted.
pub mod Classify
pub mod Commit
pub mod Universe
mod Tests
use monte_carlo.Prelude.{
  ℕ, zero, suc, ◌+◌, ◌-◌, ◌*◌, ◌/◌, ◌%◌, ◌^◌, List, [], ◌∷◌, Bool, true, false, not, Option, none,
  some, leb, ltb, ◌==◌, ◌!=◌, ◌&&◌, ◌||◌, if◌then◌else◌, bytes_of, bytes_eq, min, length, get_elem?,
  set, replicate,
}
use monte_carlo.Exception.{Result, ok, err, ◌>>=◌, ◌>>◌, throw_if, invalid_argument, what}
use monte_carlo.Float64.{Float64}
use monte_carlo.RunSpec.{RunSpec}
use monte_carlo.RunSpec
use monte_carlo.Aggregate.{AggregateStats, invariant_error}
use monte_carlo.Hash.{Digest}
use monte_carlo.Layout.{
  ScenarioBlock, BlockResult, EngineConfig, validate_config, block_count_of, add64, sub64,
}
use monte_carlo.Codec.{run_spec_hash, execution_layout_hash, aggregate_payload_hash}

pub data ValidationStatus : Type 0 where
  accepted duplicate invalid_run execution_layout_mismatch build_mismatch : ValidationStatus
  stale_incarnation rng_version_mismatch stats_schema_mismatch invalid_aggregate : ValidationStatus
  corrupt_payload invalid_block stale_lease determinism_error : ValidationStatus

pub record Validation : Type 0 where
  pub status : ValidationStatus
  pub reason : List ℕ

pub record CoordinatorState : Type 0 where
  pub run_spec_hash : Digest
  pub execution_layout_hash : Digest
  pub build_fingerprint : Digest
  pub run_incarnation : ℕ
  pub rng_version : ℕ
  pub stats_schema_version : ℕ
  pub antithetic : Bool
  pub blocks : List ScenarioBlock
  pub committed_payloads : List (Option Digest)

-- The loop over the block universe, from `index` and `expected_start` on; the result is the
-- scenario after the last block.
pub check_universe : ℕ → ℕ → Bool → ℕ → ℕ → ℕ → List ScenarioBlock → Result ℕ
check_universe total size antithetic incarnation index expected_start [] = ok expected_start
check_universe total size antithetic incarnation index expected_start (b ∷ bs) = do
  let expected_end = add64 expected_start (min size (sub64 total expected_start))
  throw_if
      (b.block_id != index
        || (b.start_scenario != expected_start
            || (b.end_scenario != expected_end || leb b.end_scenario b.start_scenario)))
      (invalid_argument (what "coordinator block universe is not contiguous and canonical"))
  throw_if (b.run_incarnation != incarnation || b.lease_epoch == 0)
      (invalid_argument (what "coordinator block universe has inconsistent lease identity"))
  throw_if (antithetic && (b.start_scenario % 2 != 0 || b.end_scenario % 2 != 0))
      (invalid_argument (what "coordinator block universe splits an antithetic pair"))
  check_universe total size antithetic incarnation (index + 1) expected_end bs

-- blocks.front().run_incarnation
front_incarnation : List ScenarioBlock → ℕ
front_incarnation [] = 0
front_incarnation (b ∷ bs) = b.run_incarnation

-- The scenario range of a result's block is not the expected one.
range_mismatch : ScenarioBlock → ScenarioBlock → Bool
range_mismatch found expected =
    found.start_scenario != expected.start_scenario || found.end_scenario != expected.end_scenario

pub expected_observations : Bool → ScenarioBlock → ℕ
expected_observations antithetic expected =
    let scenario_count = sub64 expected.end_scenario expected.start_scenario in
    if antithetic then scenario_count / 2 else scenario_count

-- The end of `validate_result`: against what is committed for the block, then its lease.
classify_committed : Option Digest → Digest → ℕ → ℕ → Validation
classify_committed (some committed) checksum found_epoch expected_epoch =
    if bytes_eq committed checksum
    then record { status = duplicate; reason = what "matching block payload is already committed" }
    else record {
      status = determinism_error;
      reason = what "committed block has a conflicting payload checksum";
    }
classify_committed none checksum found_epoch expected_epoch =
    if found_epoch != expected_epoch
    then record { status = stale_lease; reason = what "block lease epoch is stale" }
    else record { status = accepted; reason = what "result is valid" }

-- `state.committed_payloads[block_index]`, which has a slot for every block.
abbrev pub committed_in : Option (Option Digest) → Option Digest
committed_in none = none
committed_in (some slot) = slot

abbrev pub is_accepted : ValidationStatus → Bool
is_accepted accepted = true
is_accepted _ = false

pub is_benign_rejection : ValidationStatus → Bool
is_benign_rejection duplicate = true
is_benign_rejection stale_incarnation = true
is_benign_rejection stale_lease = true
is_benign_rejection _ = false

pub to_string : ValidationStatus → List ℕ
to_string accepted = what "accepted"
to_string duplicate = what "duplicate"
to_string invalid_run = what "invalid_run"
to_string execution_layout_mismatch = what "execution_layout_mismatch"
to_string build_mismatch = what "build_mismatch"
to_string stale_incarnation = what "stale_incarnation"
to_string rng_version_mismatch = what "rng_version_mismatch"
to_string stats_schema_mismatch = what "stats_schema_mismatch"
to_string invalid_aggregate = what "invalid_aggregate"
to_string corrupt_payload = what "corrupt_payload"
to_string invalid_block = what "invalid_block"
to_string stale_lease = what "stale_lease"
to_string determinism_error = what "determinism_error"

module _ {D : Type 0} ⦃fp : Float64 D⦄ where
  -- `current_build_identity().hash` is a value of the build, given as an argument.
  pub make_coordinator_state :
      Digest → RunSpec D → EngineConfig → List ScenarioBlock → Result CoordinatorState
  make_coordinator_state build_hash spec config blocks = do
    RunSpec.validate spec
    validate_config config spec
    throw_if (length blocks != block_count_of spec.total_scenarios config.block_size)
        (invalid_argument (what "coordinator block universe has the wrong size"))
    throw_if (length blocks == 0)
        (invalid_argument (what "coordinator block universe must not be empty"))
    let incarnation = front_incarnation blocks
    end ←
        check_universe spec.total_scenarios config.block_size spec.antithetic incarnation 0 0 blocks
    throw_if (end != spec.total_scenarios)
        (invalid_argument (what "coordinator block universe does not cover every scenario"))
    spec_hash ← run_spec_hash spec
    layout_hash ← execution_layout_hash spec config
    ok (record {
      run_spec_hash = spec_hash;
      execution_layout_hash = layout_hash;
      build_fingerprint = build_hash;
      run_incarnation = incarnation;
      rng_version = spec.rng_version;
      stats_schema_version = spec.stats_schema_version;
      antithetic = spec.antithetic;
      blocks = blocks;
      committed_payloads = replicate (length blocks) none;
    })

  -- The checks of `validate_result` on the aggregate and its payload.
  classify_payload :
      BlockResult D → ScenarioBlock → Option (Option Digest) → Bool → Result Validation
  classify_payload result expected slot antithetic =
      elim (invariant_error result.aggregate (some (expected_observations antithetic expected))) [
        | some error ↦ ok (record { status = invalid_aggregate; reason = error })
        | none ↦ do
          computed ← aggregate_payload_hash result.aggregate result.stats_schema_version
          ok (
              if not (bytes_eq computed result.payload_checksum)
              then record {
                status = corrupt_payload;
                reason = what "aggregate payload does not match its SHA-256 checksum";
              }
              else classify_committed (committed_in slot) result.payload_checksum
                  result.block.lease_epoch expected.lease_epoch)
      ]

  -- The checks of `validate_result` on the block that the result names.
  classify_block : BlockResult D → CoordinatorState → Option ScenarioBlock → Result Validation
  classify_block result state none =
      ok (record { status = invalid_block; reason = what "block ID is outside the run" })
  classify_block result state (some expected) =
      if range_mismatch result.block expected
      then ok (record { status = invalid_block; reason = what "block scenario range mismatch" })
      else classify_payload result expected
          (get_elem? state.committed_payloads result.block.block_id) state.antithetic

  pub validate_result : BlockResult D → CoordinatorState → Result Validation
  validate_result result state =
      if not (bytes_eq result.run_spec_hash state.run_spec_hash)
      then ok (record { status = invalid_run; reason = what "run specification hash mismatch" })
      else if not (bytes_eq result.execution_layout_hash state.execution_layout_hash)
      then ok (record {
        status = execution_layout_mismatch;
        reason = what "execution layout hash mismatch";
      })
      else if not (bytes_eq result.build_fingerprint state.build_fingerprint)
      then ok (record { status = build_mismatch; reason = what "build fingerprint mismatch" })
      else if result.block.run_incarnation != state.run_incarnation
      then ok (record { status = stale_incarnation; reason = what "run incarnation is stale" })
      else if result.rng_version != state.rng_version
      then ok (record { status = rng_version_mismatch; reason = what "RNG version mismatch" })
      else if result.stats_schema_version != state.stats_schema_version
      then ok (record {
        status = stats_schema_mismatch;
        reason = what "statistics schema version mismatch";
      })
      else classify_block result state (get_elem? state.blocks result.block.block_id)

  -- The state after a result was classified: an accepted payload is entered for its block.
  abbrev pub after_commit : BlockResult D → Validation → CoordinatorState → CoordinatorState
  after_commit result validation state =
      if is_accepted validation.status
      then record state {
        committed_payloads =
            set state.committed_payloads result.block.block_id (some result.payload_checksum);
      }
      else state

  -- The state is passed by reference: the new state comes back with the classification.
  pub commit_result : BlockResult D → CoordinatorState → Result (Validation × CoordinatorState)
  commit_result result state = do
    validation ← validate_result result state
    ok (validation, after_commit result validation state)
