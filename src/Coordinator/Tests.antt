-- ===== src/Coordinator/Tests.antt =====
-- A run of three blocks to which the result of its first block is reported twice.
use monte_carlo.Prelude.{
  ℕ, ◌+◌, ◌≡◌, ◌≤◌, ◌↔◌, refl, List, [], ◌∷◌, Option, none, some, false, replicate, bytes_eq_refl,
  get_elem?, ◌∙◌,
}
use monte_carlo.Exception.{ok, Returns, what}
use monte_carlo.Sample.{Word, word_float}
use monte_carlo.Aggregate.Tests.{both, both-IsValid}
use monte_carlo.Aggregate.Merge.{invariant_error_iff}
use monte_carlo.Hash.{Digest, sha256}
use monte_carlo.Layout.{BlockResult}
use monte_carlo.Layout.Tests.{block, three_blocks, fours, make_blocks-fours}
use monte_carlo.RunSpec.Tests.{ten_scenarios}
use monte_carlo.Coordinator.Universe.{IsFresh, make_coordinator_state-make_blocks}
use monte_carlo.Codec.{aggregate_bytes}
use monte_carlo.Codec.Hashes.{aggregate_payload_hash_lem}
use monte_carlo.Coordinator.{
  CoordinatorState, Validation, ValidationStatus, accepted, duplicate, validate_result,
  commit_result, classify_block, classify_payload, classify_committed, range_mismatch,
  expected_observations, committed_in, make_coordinator_state,
}
use monte_carlo.Coordinator.Classify.{
  IsAcceptable, validate_result_total, validate_result-accepted_iff,
}
use monte_carlo.Coordinator.Commit.{
  IsUniverse, payload_of, commit_all, accepted_for, committed_count, commit_all-once,
  commit_all-keeps,
}

abbrev fresh : CoordinatorState
fresh = record {
  run_spec_hash = replicate 32 1;
  execution_layout_hash = replicate 32 2;
  build_fingerprint = replicate 32 3;
  run_incarnation = 0;
  rng_version = 2;
  stats_schema_version = 1;
  antithetic = false;
  blocks = three_blocks;
  committed_payloads = none ∷ none ∷ none ∷ [];
}

abbrev checksum : Digest
checksum = sha256 (aggregate_bytes both 1)

abbrev first_result : BlockResult Word
first_result = record {
  block = block 0 0 4;
  aggregate = both;
  run_spec_hash = replicate 32 1;
  execution_layout_hash = replicate 32 2;
  build_fingerprint = replicate 32 3;
  payload_checksum = checksum;
  rng_version = 2;
  stats_schema_version = 1;
  worker_id = 0;
}

abbrev one_committed : CoordinatorState
one_committed = record fresh { committed_payloads = some checksum ∷ none ∷ none ∷ [] }

fresh-IsUniverse : IsUniverse fresh
fresh-IsUniverse = record { slots = refl; schema = refl }

one_committed-IsUniverse : IsUniverse one_committed
one_committed-IsUniverse = record { slots = refl; schema = refl }

abbrev trace : List (ℕ × ValidationStatus)
trace = (0, accepted) ∷ (0, duplicate) ∷ []

classified :
    (slot : Option (Option Digest))
    → classify_payload first_result (block 0 0 4) slot false
      ≡ ok (classify_committed (committed_in slot) checksum 1 1)
unfolding classify_payload expected_observations
classified slot =
    rw
      (
        (invariant_error_iff both 4).1 (refl, both-IsValid),
        aggregate_payload_hash_lem both both-IsValid,
        bytes_eq_refl checksum,
        classify_payload,
      )
      refl

validated :
    (s : CoordinatorState)
    → s.run_spec_hash ≡ replicate 32 1
    → s.execution_layout_hash ≡ replicate 32 2
    → s.build_fingerprint ≡ replicate 32 3
    → (s.run_incarnation ≡ 0) × (s.rng_version ≡ 2) × (s.stats_schema_version ≡ 1)
    → validate_result first_result s ≡ classify_block first_result s (get_elem? s.blocks 0)
unfolding validate_result
validated s e0 e1 e2 (e3, e4, e5) =
    rw
      (
        e0,
        e1,
        e2,
        e3,
        e4,
        e5,
        bytes_eq_refl (replicate 32 1),
        bytes_eq_refl (replicate 32 2),
        bytes_eq_refl (replicate 32 3),
      )
      refl

abbrev is_valid : Validation
is_valid = record { status = accepted; reason = what "result is valid" }

abbrev is_duplicate : Validation
is_duplicate = record {
  status = duplicate;
  reason = what "matching block payload is already committed";
}

validate_fresh : validate_result first_result fresh ≡ ok is_valid
unfolding classify_block classify_committed range_mismatch
validate_fresh = validated fresh refl refl refl (refl, refl, refl) ∙ classified (some none)

validate_again : validate_result first_result one_committed ≡ ok is_duplicate
unfolding classify_block classify_committed range_mismatch
validate_again =
    validated one_committed refl refl refl (refl, refl, refl)
    ∙ classified (some (some checksum))
    ∙ rw (bytes_eq_refl checksum) refl

commit_all_again :
    commit_all (first_result ∷ []) one_committed ≡ ok ((0, duplicate) ∷ [], one_committed)
unfolding commit_all commit_result
commit_all_again = rw validate_again refl

commit_all_twice : commit_all (first_result ∷ first_result ∷ []) fresh ≡ ok (trace, one_committed)
unfolding commit_all commit_result
commit_all_twice = rw (validate_fresh, validate_again) refl

validate_result_total_example : Returns (validate_result first_result fresh)
validate_result_total_example = validate_result_total first_result fresh refl

validate_result-accepted_iff_example :
    ((v : Validation) × (validate_result first_result fresh ≡ ok v) × (v.status ≡ accepted))
    ↔ IsAcceptable first_result fresh
validate_result-accepted_iff_example = validate_result-accepted_iff first_result fresh refl

commit_all-once_example :
    (accepted_for 0 trace + committed_count (payload_of fresh 0)
      ≡ committed_count (payload_of one_committed 0))
    × (accepted_for 0 trace ≤ 1)
commit_all-once_example =
    commit_all-once (first_result ∷ first_result ∷ []) fresh one_committed trace 0 fresh-IsUniverse
      commit_all_twice

commit_all-keeps_example : payload_of one_committed 0 ≡ some checksum
commit_all-keeps_example =
    commit_all-keeps (first_result ∷ []) one_committed one_committed ((0, duplicate) ∷ []) 0
      checksum one_committed-IsUniverse commit_all_again refl

make_coordinator_state-make_blocks_example :
    (s : CoordinatorState) × (make_coordinator_state
        (replicate 32 3)
        ten_scenarios
        fours
        three_blocks
      ≡ ok s)
    × IsFresh (replicate 32 3) ten_scenarios fours three_blocks s
make_coordinator_state-make_blocks_example =
    make_coordinator_state-make_blocks (replicate 32 3) ten_scenarios fours three_blocks
      make_blocks-fours
