-- ===== src/Layout/Tests.antt =====
-- Ten scenarios cut into blocks of four.
use monte_carlo.Prelude.{ℕ, ◌≡◌, arith, refl, List, [], ◌∷◌, length, some, get_elem?}
use monte_carlo.Exception.{ok}
use monte_carlo.Sample.{word_float}
use monte_carlo.RunSpec.Tests.{
  ten_scenarios, validate-ten_scenarios, two_scenarios, validate-two_scenarios,
}
use monte_carlo.Layout.{
  ScenarioBlock, EngineConfig, make_blocks, validate_config, block_count_of, canonical_blocks,
  canonical_block,
}
use monte_carlo.Layout.Partition.{Tiles, Holds, make_blocks-Tiles, make_blocks-owner}

abbrev pub fours : EngineConfig
fours = record {
  worker_count = 2;
  block_size = 4;
  assignment_queue_capacity = 0;
  completion_queue_capacity = 0;
  max_materialized_blocks = 1000;
}

abbrev pub block : ℕ → ℕ → ℕ → ScenarioBlock
block id start end = record {
  block_id = id;
  start_scenario = start;
  end_scenario = end;
  run_incarnation = 0;
  lease_epoch = 1;
}

abbrev pub three_blocks : List ScenarioBlock
three_blocks = block 0 0 4 ∷ block 1 4 8 ∷ block 2 8 10 ∷ []

pub make_blocks-fours : make_blocks ten_scenarios fours ≡ ok three_blocks
unfolding make_blocks validate_config block_count_of canonical_blocks canonical_block
make_blocks-fours = rw validate-ten_scenarios refl

make_blocks-Tiles_example : Tiles 0 0 10 three_blocks × (length three_blocks ≡ block_count_of 10 4)
make_blocks-Tiles_example = make_blocks-Tiles ten_scenarios fours three_blocks make_blocks-fours

make_blocks-owner_example :
    (i : ℕ) × (b : ScenarioBlock) × (get_elem? three_blocks i ≡ some b)
    × Holds b 7
    × ((j : ℕ) (c : ScenarioBlock) → get_elem? three_blocks j ≡ some c → Holds c 7 → j ≡ i)
make_blocks-owner_example =
    make_blocks-owner ten_scenarios fours three_blocks make_blocks-fours 7 (omega arith)

-- Two scenarios in one block.
abbrev pub twos : EngineConfig
twos = record fours { worker_count = 1; block_size = 2 }

abbrev pub one_block : List ScenarioBlock
one_block = block 0 0 2 ∷ []

pub make_blocks-twos : make_blocks two_scenarios twos ≡ ok one_block
unfolding make_blocks validate_config block_count_of canonical_blocks canonical_block
make_blocks-twos = rw validate-two_scenarios refl
