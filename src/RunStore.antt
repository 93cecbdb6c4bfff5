-- ===== src/RunStore.antt =====
-- The storage budget of src/run_store.cpp: the checkpoint cadence and the checks that are made
-- before a durable run writes. What a filesystem reports as free is an argument.
pub mod Budget
pub mod Tests
use monte_carlo.Prelude.{
  ℕ, ◌+◌, ◌-◌, ◌*◌, ◌/◌, ◌%◌, ◌^◌, max, ltb, leb, ◌==◌, ◌!=◌, ◌&&◌, ◌||◌, if◌then◌else◌, List, ◌++◌,
  Bool, bytes_of, true, false,
}
use monte_carlo.Exception.{
  Result, ok, err, ◌>>=◌, ◌>>◌, throw_if, length_error, runtime_error, what,
}
use monte_carlo.Layout.{add64, sub64, mul64}
use monte_carlo.Aggregate.{u64_max}

-- The members of `RunStoreConfig` that the budget depends on.
pub record RunStoreConfig : Type 0 where
  pub checkpoint_interval_blocks : ℕ
  pub max_storage_bytes : ℕ
  pub max_storage_files : ℕ
  pub min_free_space_bytes : ℕ
  pub max_manifest_bytes : ℕ

abbrev pub minimum_automatic_checkpoint_blocks : ℕ
minimum_automatic_checkpoint_blocks = 1024

abbrev pub maximum_automatic_periodic_manifests : ℕ
maximum_automatic_periodic_manifests = 1024

pub checked_add : ℕ → ℕ → List ℕ → Result ℕ
checked_add left right label =
    if ltb (sub64 u64_max right) left
    then err (length_error (label ++ what " estimate overflow"))
    else ok (add64 left right)

pub checked_multiply : ℕ → ℕ → List ℕ → Result ℕ
checked_multiply left right label =
    if left != 0 && ltb (u64_max / left) right
    then err (length_error (label ++ what " estimate overflow"))
    else ok (mul64 left right)

pub resolve_checkpoint_cadence : RunStoreConfig → ℕ → RunStoreConfig
resolve_checkpoint_cadence requested block_count =
    if requested.checkpoint_interval_blocks != 0 then requested else record requested {
      checkpoint_interval_blocks =
          max minimum_automatic_checkpoint_blocks
            (add64 1 (sub64 block_count 1 / maximum_automatic_periodic_manifests));
    }

-- `used > limit || more > limit - used`
abbrev pub exceeds : ℕ → ℕ → ℕ → Bool
exceeds used more limit = ltb limit used || ltb (sub64 limit used) more

-- `available` is what std::filesystem::space reports of the run directory.
pub preflight_run_completion : RunStoreConfig → ℕ → ℕ → ℕ → ℕ → ℕ → ℕ → ℕ → ℕ → Result (Unit {0})
preflight_run_completion config current_bytes current_files block_count missing_blocks
      additional_manifests additional_fixed_bytes additional_fixed_files available =
    do
      leases ← checked_multiply block_count 64 (what "manifest size")
      maximum_manifest ← checked_add 512 leases (what "manifest size")
      throw_if (ltb config.max_manifest_bytes maximum_manifest) (
          length_error (what "the complete full-snapshot manifest would exceed max_manifest_bytes"))
      results ← checked_multiply missing_blocks 512 (what "block-result storage")
      manifests ← checked_multiply additional_manifests maximum_manifest (what "manifest storage")
      variable_bytes ← checked_add results manifests (what "durable completion storage")
      additional_bytes ←
          checked_add variable_bytes additional_fixed_bytes (what "durable completion storage")
      variable_files ←
          checked_add missing_blocks additional_manifests (what "durable completion file count")
      additional_files ←
          checked_add variable_files additional_fixed_files (what "durable completion file count")
      throw_if (exceeds current_bytes additional_bytes config.max_storage_bytes)
          (length_error (what "estimated durable completion size exceeds max_storage_bytes"))
      throw_if (exceeds current_files additional_files config.max_storage_files)
          (length_error (what "estimated durable completion file count exceeds max_storage_files"))
      required ←
          checked_add additional_bytes config.min_free_space_bytes
            (what "durable completion free-space")
      throw_if (ltb available required) (
          length_error
            (what "estimated durable completion size exceeds available free space policy"))

-- `next_bytes` is the size of the file that is about to be written, which fits a std::uint64_t.
pub preflight_write : RunStoreConfig → ℕ → ℕ → ℕ → ℕ → Result (Unit {0})
preflight_write config current_bytes current_files next_bytes available = do
  throw_if
      (ltb config.max_storage_bytes next_bytes
        || ltb (sub64 config.max_storage_bytes next_bytes) current_bytes)
      (runtime_error (what "durable write would exceed max_storage_bytes"))
  throw_if (leb config.max_storage_files current_files)
      (runtime_error (what "durable write would exceed max_storage_files"))
  let required = add64 next_bytes config.min_free_space_bytes
  throw_if (ltb required config.min_free_space_bytes || ltb available required)
      (runtime_error (what "durable write would violate min_free_space_bytes"))
