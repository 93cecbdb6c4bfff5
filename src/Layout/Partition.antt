-- ===== src/Layout/Partition.antt =====
-- `make_blocks` cuts the scenarios of a run into contiguous blocks.
use monte_carlo.Prelude.{
  ℕ, zero, suc, ◌+◌, ◌-◌, ◌*◌, ◌/◌, ◌%◌, ◌^◌, ◌<◌, ◌≤◌, ◌≡◌, arith, refl, List, [], ◌∷◌, length,
  min, get_elem?, Bool-cases, inl, inr, ltb, some, ap, true,
}
use monte_carlo.Exception.{ok, >>=-eq-ok}
use monte_carlo.Float64.{Float64}
use monte_carlo.RunSpec.{RunSpec, max_scenarios}
use monte_carlo.RunSpec
use monte_carlo.RunSpec.Valid.{validate_iff}
use monte_carlo.Layout.{
  ScenarioBlock, EngineConfig, validate_config, block_count_of, canonical_block, canonical_blocks,
  make_blocks,
}

-- The blocks cover the scenarios from `lo` up to `hi` without gap or overlap, and are numbered
-- in order from `id`.
abbrev pub Tiles : ℕ → ℕ → ℕ → List ScenarioBlock → Type 0
Tiles id lo hi [] = lo ≡ hi
Tiles id lo hi (b ∷ bs) =
    (b.block_id ≡ id)
    × (b.start_scenario ≡ lo)
    × (lo < b.end_scenario)
    × (b.end_scenario ≤ hi)
    × Tiles (id + 1) b.end_scenario hi bs

module _ (total size : ℕ) (some_total : 1 ≤ total) (fits : total ≤ max_scenarios)
    (pos : 0 < size) where
  div-le : (total - 1) / size ≤ total - 1
  div-le = grind arith

  pub count_lem : block_count_of total size ≡ 1 + (total - 1) / size
  unfolding block_count_of
  count_lem =
      let e : (total + 2 ^ 64 - 1) % 2 ^ 64 ≡ total - 1 = omega arith in
      rw e (omega (arith, div-le))

  pub start-lt : (id : ℕ) → id ≤ (total - 1) / size → id * size < total
  start-lt id h = grind arith

  pub last-le : total ≤ (1 + (total - 1) / size) * size
  last-le = grind arith

  -- The bounds of a block, free of the wrap-around that the source's arithmetic could have.
  pub canonical_block_lem :
      (id : ℕ)
      → id ≤ (total - 1) / size
      → ((canonical_block total size id).start_scenario ≡ id * size)
        × ((canonical_block total size id).end_scenario ≡ min ((id + 1) * size) total)
  unfolding canonical_block
  canonical_block_lem id h =
      let lt : id * size < total = start-lt id h in
      let e : id * size % 2 ^ 64 ≡ id * size = omega arith in rw e (refl, omega arith)

  canonical_blocks-Tiles :
      (n id : ℕ)
      → id + n ≡ 1 + (total - 1) / size
      → Tiles id (min (id * size) total) total (canonical_blocks total size n id)
  unfolding canonical_blocks
  canonical_blocks-Tiles zero id e =
      let e' : id ≡ 1 + (total - 1) / size = omega arith in rw e' (omega (arith, last-le))
  canonical_blocks-Tiles (suc n) id e =
      let below : id ≤ (total - 1) / size = omega arith in
      let (starts, ends) = canonical_block_lem id below in
      let lt : id * size < total = start-lt id below in
      (
        unfold canonical_block in refl,
        omega arith,
        omega arith,
        omega arith,
        rw ends (canonical_blocks-Tiles n (id + 1) (omega arith)),
      )

pub length-canonical_blocks : (total size n id : ℕ) → length (canonical_blocks total size n id) ≡ n
unfolding canonical_blocks
length-canonical_blocks total size zero id = refl
length-canonical_blocks total size (suc n) id =
    ap suc (length-canonical_blocks total size n (id + 1))

pub canonical_block-fields :
    (total size id : ℕ)
    → ((canonical_block total size id).block_id ≡ id)
      × ((canonical_block total size id).run_incarnation ≡ 0)
      × ((canonical_block total size id).lease_epoch ≡ 1)
unfolding canonical_block
canonical_block-fields total size id = (refl, refl, refl)

pub canonical_blocks-suc :
    (total size n id : ℕ)
    → canonical_blocks total size (suc n) id
      ≡ canonical_block total size id ∷ canonical_blocks total size n (id + 1)
unfolding canonical_blocks
canonical_blocks-suc total size n id = refl

pub canonical_blocks-zero : (total size id : ℕ) → canonical_blocks total size 0 id ≡ []
unfolding canonical_blocks
canonical_blocks-zero total size id = refl

-- Block `i` of a run has the ID `i`.
pub canonical-ids :
    (total size n id i : ℕ) (b : ScenarioBlock)
    → get_elem? (canonical_blocks total size n id) i ≡ some b
    → b.block_id ≡ id + i
unfolding canonical_blocks canonical_block
canonical-ids total size zero id i b h = cc
canonical-ids total size (suc n) id zero b h =
    let e : canonical_block total size id ≡ b = cc in
    let e' : id ≡ b.block_id = ap (λ (x : ScenarioBlock). x.block_id) e in omega arith
canonical-ids total size (suc n) id (suc i) b h =
    omega (arith, canonical-ids total size n (id + 1) i b h)

pub canonical-incarnations :
    (total size n id i : ℕ) (b : ScenarioBlock)
    → get_elem? (canonical_blocks total size n id) i ≡ some b
    → b.run_incarnation ≡ 0
unfolding canonical_blocks canonical_block
canonical-incarnations total size zero id i b h = cc
canonical-incarnations total size (suc n) id zero b h =
    let e : canonical_block total size id ≡ b = cc in
    let e' : 0 ≡ b.run_incarnation = ap (λ (x : ScenarioBlock). x.run_incarnation) e in omega arith
canonical-incarnations total size (suc n) id (suc i) b h =
    canonical-incarnations total size n (id + 1) i b h

module _ {D : Type 0} ⦃fp : Float64 D⦄ where
  -- What a call of `make_blocks` that returned has established.
  pub make_blocks-eq-ok :
      (spec : RunSpec D) (config : EngineConfig) (blocks : List ScenarioBlock)
      → make_blocks spec config ≡ ok blocks
      → (RunSpec.validate spec ≡ ok tt)
        × (validate_config config spec ≡ ok tt)
        × (block_count_of spec.total_scenarios config.block_size ≤ config.max_materialized_blocks)
        × (blocks
            ≡ canonical_blocks spec.total_scenarios config.block_size
                (block_count_of spec.total_scenarios config.block_size)
                0)
  unfolding make_blocks
  make_blocks-eq-ok spec config blocks h =
      let (a, valid, h1) = >>=-eq-ok (RunSpec.validate spec) _ h in
      let (b, valid_config, h2) = >>=-eq-ok (validate_config config spec) _ h1 in
      (valid, valid_config, ground arith, ground arith)

  pub block_size_pos :
      (spec : RunSpec D) (config : EngineConfig)
      → validate_config config spec ≡ ok tt
      → 0 < config.block_size
  unfolding validate_config
  block_size_pos spec config h = ground arith

  pub worker_count_pos :
      (spec : RunSpec D) (config : EngineConfig)
      → validate_config config spec ≡ ok tt
      → 0 < config.worker_count
  unfolding validate_config
  worker_count_pos spec config h = ground arith

  pub config-even :
      (spec : RunSpec D) (config : EngineConfig)
      → validate_config config spec ≡ ok tt
      → spec.antithetic ≡ true
      → config.block_size % 2 ≡ 0
  unfolding validate_config
  config-even spec config h e = ground arith

  -- The blocks of a run are numbered from 0, cover its scenarios from 0 to the last without gap
  -- or overlap, none of them is empty, and there are as many as the block count says.
  pub make_blocks-Tiles :
      (spec : RunSpec D) (config : EngineConfig) (blocks : List ScenarioBlock)
      → make_blocks spec config ≡ ok blocks
      → Tiles 0 0 spec.total_scenarios blocks
        × (length blocks ≡ block_count_of spec.total_scenarios config.block_size)
  make_blocks-Tiles spec config blocks h =
      let (valid, valid_config, small, e) = make_blocks-eq-ok spec config blocks h in
      let v = (validate_iff spec).0 valid in
      let pos = block_size_pos spec config valid_config in
      let at_zero : min (0 * config.block_size) spec.total_scenarios ≡ 0 = omega arith in
      rw e (
        rw
            (count_lem spec.total_scenarios config.block_size v.common.some_scenarios
              v.common.scenarios_fit pos)
            (rw at_zero at (
              canonical_blocks-Tiles spec.total_scenarios config.block_size v.common.some_scenarios
                v.common.scenarios_fit pos (1 + (spec.total_scenarios - 1) / config.block_size) 0
                (omega arith))),
        length-canonical_blocks spec.total_scenarios config.block_size
            (block_count_of spec.total_scenarios config.block_size) 0,
      )

abbrev pub Holds : ScenarioBlock → ℕ → Type 0
Holds b scenario = (b.start_scenario ≤ scenario) × (scenario < b.end_scenario)

Tiles-owner :
    (id lo hi : ℕ) (blocks : List ScenarioBlock)
    → Tiles id lo hi blocks
    → (scenario : ℕ) → lo ≤ scenario
    → scenario < hi
    → (i : ℕ) × (b : ScenarioBlock) × (get_elem? blocks i ≡ some b) × Holds b scenario
Tiles-owner id lo hi [] t scenario p q = absurd (omega arith)
Tiles-owner id lo hi (b ∷ blocks) t scenario p q = elim (Bool-cases (ltb scenario b.end_scenario)) [
  | inl e ↦ (0, b, refl, ground arith)
  | inr e ↦
      let (i, c, at, holds) =
        Tiles-owner (id + 1) b.end_scenario hi blocks t.4 scenario (ground arith) q in
      (suc i, c, at, holds)
]

Tiles-lower :
    (id lo hi : ℕ) (blocks : List ScenarioBlock)
    → Tiles id lo hi blocks
    → (i : ℕ) (b : ScenarioBlock) → get_elem? blocks i ≡ some b
    → lo ≤ b.start_scenario
Tiles-lower id lo hi [] t i b h = cc
Tiles-lower id lo hi (c ∷ blocks) t zero b h = ground arith
Tiles-lower id lo hi (c ∷ blocks) t (suc i) b h =
    omega (arith, Tiles-lower (id + 1) c.end_scenario hi blocks t.4 i b h)

Tiles-owner_unique :
    (id lo hi : ℕ) (blocks : List ScenarioBlock)
    → Tiles id lo hi blocks
    → (scenario i j : ℕ) (b c : ScenarioBlock) → get_elem? blocks i ≡ some b
    → get_elem? blocks j ≡ some c
    → Holds b scenario
    → Holds c scenario
    → i ≡ j
Tiles-owner_unique id lo hi [] t scenario i j b c hb hc p q = cc
Tiles-owner_unique id lo hi (x ∷ xs) t scenario zero zero b c hb hc p q = refl
Tiles-owner_unique id lo hi (x ∷ xs) t scenario zero (suc j) b c hb hc p q =
    absurd (ground (arith, Tiles-lower (id + 1) x.end_scenario hi xs t.4 j c hc))
Tiles-owner_unique id lo hi (x ∷ xs) t scenario (suc i) zero b c hb hc p q =
    absurd (ground (arith, Tiles-lower (id + 1) x.end_scenario hi xs t.4 i b hb))
Tiles-owner_unique id lo hi (x ∷ xs) t scenario (suc i) (suc j) b c hb hc p q =
    ap suc (Tiles-owner_unique (id + 1) x.end_scenario hi xs t.4 scenario i j b c hb hc p q)

module _ {D : Type 0} ⦃fp : Float64 D⦄ where
  -- Every scenario of a run belongs to exactly one of the blocks that `make_blocks` returns.
  pub make_blocks-owner :
      (spec : RunSpec D) (config : EngineConfig) (blocks : List ScenarioBlock)
      → make_blocks spec config ≡ ok blocks
      → (scenario : ℕ) → scenario < spec.total_scenarios
      → (i : ℕ) × (b : ScenarioBlock) × (get_elem? blocks i ≡ some b)
        × Holds b scenario
        × ((j : ℕ) (c : ScenarioBlock) → get_elem? blocks j ≡ some c → Holds c scenario → j ≡ i)
  make_blocks-owner spec config blocks h scenario lt =
      let tiles = (make_blocks-Tiles spec config blocks h).0 in
      let (i, b, at, holds) =
        Tiles-owner 0 0 spec.total_scenarios blocks tiles scenario (omega arith) lt in
      (
        i,
        b,
        at,
        holds,
        λ j c at' holds'.
            Tiles-owner_unique 0 0 spec.total_scenarios blocks tiles scenario j i c b at' at holds'
              holds,
      )
