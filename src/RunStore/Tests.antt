-- ===== src/RunStore/Tests.antt =====
-- A small budget: ten blocks, of which four are missing.
use monte_carlo.Prelude.{◌+◌, ◌-◌, ◌/◌, ◌≤◌, ◌<◌, ◌≡◌, ◌≢◌, ◌↔◌, ◌⊎◌, arith}
use monte_carlo.Exception.{ok}
use monte_carlo.RunStore.{
  RunStoreConfig, resolve_checkpoint_cadence, preflight_run_completion, preflight_write,
}
use monte_carlo.RunStore.Budget.{
  IsConfig, HasRoom, resolve_checkpoint_cadence_lem, preflight_run_completion_iff,
  preflight_write_iff,
}

abbrev limits : RunStoreConfig
limits = record {
  checkpoint_interval_blocks = 0;
  max_storage_bytes = 100000;
  max_storage_files = 50;
  min_free_space_bytes = 1000;
  max_manifest_bytes = 2000;
}

limits-IsConfig : IsConfig limits
limits-IsConfig = record {
  bytes_word = omega arith;
  files_word = omega arith;
  free_word = omega arith;
  manifest_word = omega arith;
}

resolve_checkpoint_cadence_lem_example :
    ((limits.checkpoint_interval_blocks ≢ 0) × (resolve_checkpoint_cadence limits 5000000 ≡ limits))
    ⊎ ((limits.checkpoint_interval_blocks ≡ 0)
        × (1024 ≤ (resolve_checkpoint_cadence limits 5000000).checkpoint_interval_blocks)
        × ((5000000 - 1) / (resolve_checkpoint_cadence limits 5000000).checkpoint_interval_blocks
            < 1024))
resolve_checkpoint_cadence_lem_example =
    resolve_checkpoint_cadence_lem limits 5000000 (omega arith) (omega arith)

preflight_run_completion_iff_example :
    (preflight_run_completion limits 3000 7 10 4 2 0 0 90000 ≡ ok tt)
    ↔ HasRoom limits 3000 7 10 4 2 0 0 90000
preflight_run_completion_iff_example =
    preflight_run_completion_iff limits 3000 7 10 4 2 0 0 90000 limits-IsConfig (omega arith)
      (omega arith) (omega arith) (omega arith) (omega arith) (omega arith)

preflight_write_iff_example :
    (preflight_write limits 3000 7 600 90000 ≡ ok tt)
    ↔ ((3000 + 600 ≤ 100000) × (7 < 50) × (600 + 1000 ≤ 90000))
preflight_write_iff_example =
    preflight_write_iff limits 3000 7 600 90000 limits-IsConfig (omega arith) (omega arith)
