-- ===== src/Layout.antt =====
-- The types of include/mc/engine.hpp, and `EngineConfig::validate` and `make_blocks` of
-- src/runtime/engine.cpp: how the scenarios of a run are cut into blocks.
pub mod Partition
pub mod Tests
use monte_carlo.Prelude.{
  ℕ, zero, suc, ◌+◌, ◌-◌, ◌*◌, ◌/◌, ◌%◌, ◌^◌, List, [], ◌∷◌, true, false, ltb, ◌==◌, ◌!=◌, ◌&&◌,
  ◌||◌, bytes_of, min, ◌++◌,
}
use monte_carlo.Exception.{
  Result, ok, err, ◌>>=◌, ◌>>◌, throw_if, invalid_argument, length_error, what,
}
use monte_carlo.Float64.{Float64}
use monte_carlo.RunSpec.{RunSpec}
use monte_carlo.RunSpec
use monte_carlo.Aggregate.{AggregateStats}
use monte_carlo.Hash.{Digest}

-- std::uint64_t arithmetic
abbrev pub add64 : ℕ → ℕ → ℕ
add64 a b = (a + b) % 2 ^ 64

abbrev pub sub64 : ℕ → ℕ → ℕ
sub64 a b = (a + 2 ^ 64 - b) % 2 ^ 64

abbrev pub mul64 : ℕ → ℕ → ℕ
mul64 a b = a * b % 2 ^ 64

-- std::numeric_limits<std::size_t>::max() of the 64-bit hosts that the program supports
abbrev pub size_max : ℕ
size_max = 2 ^ 64 - 1

abbrev pub max_worker_threads : ℕ
max_worker_threads = 256

abbrev pub default_max_materialized_blocks : ℕ
default_max_materialized_blocks = 1000000

pub record ScenarioBlock : Type 0 where
  pub block_id : ℕ
  pub start_scenario : ℕ
  pub end_scenario : ℕ
  pub run_incarnation : ℕ
  pub lease_epoch : ℕ

pub record BlockResult (D : Type 0) : Type 0 where
  pub block : ScenarioBlock
  pub aggregate : AggregateStats D
  pub run_spec_hash : Digest
  pub execution_layout_hash : Digest
  pub build_fingerprint : Digest
  pub payload_checksum : Digest
  pub rng_version : ℕ
  pub stats_schema_version : ℕ
  pub worker_id : ℕ

pub record EngineConfig : Type 0 where
  pub worker_count : ℕ
  pub block_size : ℕ
  pub assignment_queue_capacity : ℕ
  pub completion_queue_capacity : ℕ
  pub max_materialized_blocks : ℕ

module _ {D : Type 0} where
  -- EngineConfig::validate
  pub validate_config : EngineConfig → RunSpec D → Result (Unit {0})
  validate_config config spec = do
    throw_if (config.worker_count == 0) (invalid_argument (what "worker_count must be positive"))
    throw_if (ltb max_worker_threads config.worker_count)
        (invalid_argument (what "worker_count exceeds the safety limit of 256"))
    throw_if (config.block_size == 0) (invalid_argument (what "block_size must be positive"))
    throw_if (spec.antithetic && config.block_size % 2 != 0)
        (invalid_argument (what "antithetic runs require an even block size"))
    throw_if (config.max_materialized_blocks == 0)
        (invalid_argument (what "max_materialized_blocks must be positive"))

-- 1U + (total_scenarios - 1U) / block_size
pub block_count_of : ℕ → ℕ → ℕ
block_count_of total size = add64 1 (sub64 total 1 / size)

-- One round of the loop of `make_blocks`.
pub canonical_block : ℕ → ℕ → ℕ → ScenarioBlock
canonical_block total size id =
    let start = mul64 id size in
    record {
      block_id = id;
      start_scenario = start;
      end_scenario = add64 start (min size (sub64 total start));
      run_incarnation = 0;
      lease_epoch = 1;
    }

-- The loop, from `id` on with `n` rounds left.
pub canonical_blocks : ℕ → ℕ → ℕ → ℕ → List ScenarioBlock
canonical_blocks total size zero id = []
canonical_blocks total size (suc n) id =
    canonical_block total size id ∷ canonical_blocks total size n (id + 1)

-- std::to_string
decimal_digits : ℕ → ℕ → List ℕ → List ℕ
decimal_digits zero n acc = acc
decimal_digits (suc fuel) n acc =
    let rest = decimal_digits fuel (n / 10) ((b'0' + n % 10) ∷ acc) in
    elim (ltb n 10) [ true ↦ (b'0' + n) ∷ acc | false ↦ rest ]

pub to_decimal : ℕ → List ℕ
to_decimal n = decimal_digits 20 n []

module _ {D : Type 0} ⦃fp : Float64 D⦄ where
  pub make_blocks : RunSpec D → EngineConfig → Result (List ScenarioBlock)
  make_blocks spec config = do
    RunSpec.validate spec
    validate_config config spec
    let block_count = block_count_of spec.total_scenarios config.block_size
    throw_if (ltb config.max_materialized_blocks block_count || ltb size_max block_count) (
        length_error (
          what "run requires "
          ++ to_decimal block_count
          ++ what " blocks, exceeding the host/materialization limit of "
          ++ to_decimal config.max_materialized_blocks))
    ok (canonical_blocks spec.total_scenarios config.block_size block_count 0)
