-- ===== src/RunStore/Budget.antt =====
-- What the storage checks of src/run_store.cpp let pass, without the wrap-around of 64 bits.
use monte_carlo.Prelude.{
  ℕ, ◌+◌, ◌-◌, ◌*◌, ◌/◌, ◌%◌, ◌^◌, ◌<◌, ◌≤◌, ◌≡◌, ◌↔◌, ◌∙◌, ap, arith, refl, max, ltb, ◌==◌, List,
  Bool, true, false, inl, inr, ◌⊎◌, ◌≢◌, Bool-cases,
}
use monte_carlo.Exception.{Exception, what, ok, throw_if, throw_if-eq-ok, >>=-eq-ok}
use monte_carlo.RunStore.{
  RunStoreConfig, checked_add, checked_multiply, resolve_checkpoint_cadence, exceeds,
  preflight_run_completion, preflight_write,
}

abbrev pub IsWord : ℕ → Type 0
IsWord n = n < 2 ^ 64

checked_add-eq-ok :
    (left right : ℕ) (label : List ℕ) (sum : ℕ)
    → IsWord left
    → IsWord right
    → checked_add left right label ≡ ok sum
    → (sum ≡ left + right) × IsWord sum
unfolding checked_add
checked_add-eq-ok left right label sum l r h = ground arith

checked_add-fits :
    (left right : ℕ) (label : List ℕ)
    → IsWord (left + right)
    → checked_add left right label ≡ ok (left + right)
unfolding checked_add
checked_add-fits left right label fits = ground arith

product-fits : (left right : ℕ) → 0 < left → right ≤ (2 ^ 64 - 1) / left → left * right < 2 ^ 64
product-fits left right pos h = grind arith

product-over : (left right : ℕ) → 0 < left → (2 ^ 64 - 1) / left < right → 2 ^ 64 ≤ left * right
product-over left right pos h = grind arith

checked_multiply-eq-ok :
    (left right : ℕ) (label : List ℕ) (product : ℕ)
    → checked_multiply left right label ≡ ok product
    → (product ≡ left * right) × IsWord product
unfolding checked_multiply
checked_multiply-eq-ok left right label product h = ground (arith, product-fits left right)

checked_multiply-fits :
    (left right : ℕ) (label : List ℕ)
    → IsWord (left * right)
    → checked_multiply left right label ≡ ok (left * right)
unfolding checked_multiply
checked_multiply-fits left right label fits = ground (arith, product-over left right)

few_intervals : (m c : ℕ) → 0 < c → m < 1024 * c → m / c < 1024
few_intervals m c pos h = grind arith

-- A configured checkpoint interval stays. An automatic one is at least 1024 blocks, and so long
-- that the blocks before the last one make fewer than 1024 intervals.
pub resolve_checkpoint_cadence_lem :
    (requested : RunStoreConfig) (block_count : ℕ)
    → 1 ≤ block_count
    → IsWord block_count
    → ((requested.checkpoint_interval_blocks ≢ 0)
        × (resolve_checkpoint_cadence requested block_count ≡ requested))
      ⊎ ((requested.checkpoint_interval_blocks ≡ 0)
          × (1024 ≤ (resolve_checkpoint_cadence requested block_count).checkpoint_interval_blocks)
          × ((block_count - 1)
                / (resolve_checkpoint_cadence requested block_count).checkpoint_interval_blocks
              < 1024))
unfolding resolve_checkpoint_cadence
resolve_checkpoint_cadence_lem requested block_count some_block fits =
    elim (Bool-cases (requested.checkpoint_interval_blocks == 0)) [
      | inl automatic ↦
          let n : (block_count + 2 ^ 64 - 1) % 2 ^ 64 ≡ block_count - 1 = omega arith in
          let at : requested.checkpoint_interval_blocks ≡ 0 = ground arith in
          let next : (1 + (block_count - 1) / 1024) % 2 ^ 64 ≡ 1 + (block_count - 1) / 1024 =
            omega arith in
          inr (
            at,
            rw (automatic, n, next) (omega arith),
            rw (automatic, n, next)
                (few_intervals (block_count - 1) (max 1024 (1 + (block_count - 1) / 1024))
                  (omega arith) (omega arith)),
          )
      | inr configured ↦ inl (λ e. ground arith, rw configured refl)
    ]

-- The largest manifest of a run, and what a run that completes adds to what is stored.
abbrev pub manifest_limit : ℕ → ℕ
manifest_limit block_count = 512 + block_count * 64

abbrev pub completion_bytes : ℕ → ℕ → ℕ → ℕ → ℕ
completion_bytes block_count missing_blocks manifests fixed_bytes =
    missing_blocks * 512 + manifests * manifest_limit block_count + fixed_bytes

-- The numbers that the check compares, as exact sums.
pub record HasRoom (config : RunStoreConfig)
    (current_bytes current_files block_count missing_blocks manifests fixed_bytes fixed_files
      available : ℕ)
    : Type 0 where
  pub manifest_fits : manifest_limit block_count ≤ config.max_manifest_bytes
  pub bytes_fit :
      current_bytes + completion_bytes block_count missing_blocks manifests fixed_bytes
      ≤ config.max_storage_bytes
  pub files_fit :
      current_files + (missing_blocks + manifests + fixed_files) ≤ config.max_storage_files
  pub free_space :
      completion_bytes block_count missing_blocks manifests fixed_bytes
        + config.min_free_space_bytes
      ≤ available

-- The limits are 64-bit.
pub record IsConfig (config : RunStoreConfig) : Type 0 where
  pub bytes_word : IsWord config.max_storage_bytes
  pub files_word : IsWord config.max_storage_files
  pub free_word : IsWord config.min_free_space_bytes
  pub manifest_word : IsWord config.max_manifest_bytes

exceeds_iff :
    (used more limit : ℕ)
    → IsWord limit
    → ((exceeds used more limit ≡ false) ↔ (used + more ≤ limit))
exceeds_iff used more limit w = (λ h. ground arith, λ h. ground arith)

module _ (config : RunStoreConfig)
    (current_bytes current_files block_count missing_blocks manifests fixed_bytes fixed_files
      available : ℕ)
    (words : IsConfig config) where
  preflight-passes :
      IsWord block_count
      → IsWord missing_blocks
      → IsWord manifests
      → IsWord fixed_bytes
      → IsWord fixed_files
      → preflight_run_completion config current_bytes current_files block_count missing_blocks
          manifests fixed_bytes fixed_files available
        ≡ ok tt
      → HasRoom config current_bytes current_files block_count missing_blocks manifests fixed_bytes
          fixed_files available
  unfolding preflight_run_completion
  preflight-passes b m n fb ff h =
      let (leases, e0, h0) = >>=-eq-ok (checked_multiply block_count 64 _) _ h in
      let (limit, e1, h1) = >>=-eq-ok (checked_add 512 leases _) _ h0 in
      let (g1, h2) = throw_if-eq-ok (ltb config.max_manifest_bytes limit) _ _ h1 in
      let (results, e3, h3) = >>=-eq-ok (checked_multiply missing_blocks 512 _) _ h2 in
      let (written, e4, h4) = >>=-eq-ok (checked_multiply manifests limit _) _ h3 in
      let (part, e5, h5) = >>=-eq-ok (checked_add results written _) _ h4 in
      let (bytes, e6, h6) = >>=-eq-ok (checked_add part fixed_bytes _) _ h5 in
      let (some_files, e7, h7) = >>=-eq-ok (checked_add missing_blocks manifests _) _ h6 in
      let (files, e8, h8) = >>=-eq-ok (checked_add some_files fixed_files _) _ h7 in
      let (g2, h9) = throw_if-eq-ok (exceeds current_bytes bytes config.max_storage_bytes) _ _ h8 in
      let (g3, h10) =
        throw_if-eq-ok (exceeds current_files files config.max_storage_files) _ _ h9 in
      let (required, e11, h11) =
        >>=-eq-ok (checked_add bytes config.min_free_space_bytes _) _ h10 in
      let leases_are = checked_multiply-eq-ok block_count 64 _ leases e0 in
      let limit_is = checked_add-eq-ok 512 leases _ limit (omega arith) leases_are.1 e1 in
      let results_are = checked_multiply-eq-ok missing_blocks 512 _ results e3 in
      let written_is = checked_multiply-eq-ok manifests limit _ written e4 in
      let part_is = checked_add-eq-ok results written _ part results_are.1 written_is.1 e5 in
      let bytes_are = checked_add-eq-ok part fixed_bytes _ bytes part_is.1 fb e6 in
      let some_are = checked_add-eq-ok missing_blocks manifests _ some_files m n e7 in
      let files_are = checked_add-eq-ok some_files fixed_files _ files some_are.1 ff e8 in
      let required_is =
        checked_add-eq-ok bytes config.min_free_space_bytes _ required bytes_are.1 words.free_word
          e11 in
      let bytes_within =
        (exceeds_iff current_bytes bytes config.max_storage_bytes words.bytes_word).0 g2 in
      let files_within =
        (exceeds_iff current_files files config.max_storage_files words.files_word).0 g3 in
      let limit_value : limit ≡ manifest_limit block_count =
        omega (arith, limit_is.0, leases_are.0) in
      let written_value : written ≡ manifests * manifest_limit block_count =
        written_is.0 ∙ ap (λ l. manifests * l) limit_value in
      let bytes_value : bytes ≡ completion_bytes block_count missing_blocks manifests fixed_bytes =
        omega (arith, bytes_are.0, part_is.0, results_are.0, written_value) in
      record {
        manifest_fits = within g1 limit_value;
        bytes_fit = omega (arith, bytes_within, bytes_value);
        files_fit = omega (arith, files_within, files_are.0, some_are.0);
        free_space =
            within (throw_if-ok-false (ltb available required) _ h11)
              (omega (arith, required_is.0, bytes_value));
      }
    where
      within : {x y z : ℕ} → ltb z x ≡ false → x ≡ y → y ≤ z
      within h e = ground arith

      throw_if-ok-false : (t : Bool) (e : Exception) → throw_if t e ≡ ok tt → t ≡ false
      throw_if-ok-false true e h = cc
      throw_if-ok-false false e h = refl

  preflight-allows :
      HasRoom config current_bytes current_files block_count missing_blocks manifests fixed_bytes
        fixed_files available
      → IsWord available
      → preflight_run_completion config current_bytes current_files block_count missing_blocks
          manifests fixed_bytes fixed_files available
        ≡ ok tt
  unfolding preflight_run_completion
  preflight-allows room free =
      let limit = manifest_limit block_count in
      let bytes = completion_bytes block_count missing_blocks manifests fixed_bytes in
      rw
        (
          checked_multiply-fits block_count 64 (what "manifest size")
              (omega (arith, room.manifest_fits, words.manifest_word)),
          checked_add-fits 512 (block_count * 64) (what "manifest size")
              (omega (arith, room.manifest_fits, words.manifest_word)),
          not_above limit config.max_manifest_bytes room.manifest_fits,
          checked_multiply-fits missing_blocks 512 (what "block-result storage")
              (omega (arith, room.bytes_fit, words.bytes_word)),
          checked_multiply-fits manifests limit (what "manifest storage")
              (omega (arith, room.bytes_fit, words.bytes_word)),
          checked_add-fits (missing_blocks * 512) (manifests * limit)
              (what "durable completion storage") (omega (arith, room.bytes_fit, words.bytes_word)),
          checked_add-fits (missing_blocks * 512 + manifests * limit) fixed_bytes
              (what "durable completion storage") (omega (arith, room.bytes_fit, words.bytes_word)),
          checked_add-fits missing_blocks manifests (what "durable completion file count")
              (omega (arith, room.files_fit, words.files_word)),
          checked_add-fits (missing_blocks + manifests) fixed_files
              (what "durable completion file count")
              (omega (arith, room.files_fit, words.files_word)),
          (exceeds_iff current_bytes bytes config.max_storage_bytes words.bytes_word).1
              room.bytes_fit,
          (exceeds_iff current_files (missing_blocks + manifests + fixed_files)
                config.max_storage_files words.files_word).1
              room.files_fit,
          checked_add-fits bytes config.min_free_space_bytes (what "durable completion free-space")
              (omega (arith, room.free_space)),
          not_above (bytes + config.min_free_space_bytes) available room.free_space,
        )
        refl
    where
      not_above : (x z : ℕ) → x ≤ z → ltb z x ≡ false
      not_above x z h = ground arith

  -- The check of a durable run's completion passes exactly when, as exact sums, the largest
  -- manifest fits its limit, what is stored and what will be added fit the limits on bytes and on
  -- files, and the free space holds what will be added and its reserve. All inputs are 64-bit.
  pub preflight_run_completion_iff :
      IsWord block_count
      → IsWord missing_blocks
      → IsWord manifests
      → IsWord fixed_bytes
      → IsWord fixed_files
      → IsWord available
      → (preflight_run_completion config current_bytes current_files block_count missing_blocks
            manifests fixed_bytes fixed_files available
          ≡ ok tt)
        ↔ HasRoom config current_bytes current_files block_count missing_blocks manifests
            fixed_bytes fixed_files available
  preflight_run_completion_iff b m n fb ff free =
      (preflight-passes b m n fb ff, λ room. preflight-allows room free)

-- The check before a write passes exactly when, as exact sums, the stored bytes and the file fit
-- the limit, there is a file left, and the free space holds the file and its reserve. All inputs
-- are 64-bit.
pub preflight_write_iff :
    (config : RunStoreConfig) (current_bytes current_files next_bytes available : ℕ)
    → IsConfig config
    → IsWord next_bytes
    → IsWord available
    → (preflight_write config current_bytes current_files next_bytes available ≡ ok tt) ↔ (
        (current_bytes + next_bytes ≤ config.max_storage_bytes)
        × (current_files < config.max_storage_files)
        × (next_bytes + config.min_free_space_bytes ≤ available))
unfolding preflight_write
preflight_write_iff config current_bytes current_files next_bytes available words n free = (
  λ h. ground (arith, words.bytes_word, words.free_word),
  λ h. ground (arith, words.bytes_word, words.free_word),
)
