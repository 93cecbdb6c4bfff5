-- ===== src/Parallel/Leaves.antt =====
-- The leaves that `run_parallel` of src/runtime/engine.cpp has stored, and a run without threads.
use monte_carlo.Prelude.{
  ℕ, zero, suc, ◌<◌, ◌≡◌, ◌≢◌, ◌∙◌, sym, subst, arith, refl, List, [], ◌∷◌, true, not, some, ◌==◌,
  length, set, get_elem?, All, get_elem?-set_self, get_elem?-set_ne, get_elem?-lt, length-set,
  Bool-cases, inl, inr,
}
use monte_carlo.Exception.{Result, ok, ◌>>=◌, >>=-eq-ok, throw_if-eq-ok}
use monte_carlo.Float64.{Float64}
use monte_carlo.Aggregate.{AggregateStats}
use monte_carlo.Hash.{Digest}
use monte_carlo.Layout.{ScenarioBlock, BlockResult, EngineConfig, make_blocks}
use monte_carlo.Codec.{aggregate_payload_hash}
use monte_carlo.Reduce.{reduce_block_results}
use monte_carlo.Coordinator.{CoordinatorState, commit_result, is_accepted}
use monte_carlo.Execute.Trace.{consume_all}
use monte_carlo.Parallel.{Kernel, Collected, compute_block, block_result, collect}

module _ {D : Type 0} ⦃fp : Float64 D⦄ where
  -- Each block in turn.
  pub compute_all : Kernel D → List ScenarioBlock → Result (List (AggregateStats D))
  compute_all kernel [] = ok []
  compute_all kernel (b ∷ bs) = do
    leaf ← compute_block kernel b
    leaves ← compute_all kernel bs
    ok (leaf ∷ leaves)

  -- The run without threads, queues or a coordinator.
  pub run_sequential : Kernel D → EngineConfig → Result (AggregateStats D)
  run_sequential kernel config = do
    blocks ← make_blocks kernel.spec config
    leaves ← compute_all kernel blocks
    reduce_block_results leaves

  pub compute_all-one :
      (kernel : Kernel D) (b : ScenarioBlock) (a : AggregateStats D)
      → compute_block kernel b ≡ ok a
      → compute_all kernel (b ∷ []) ≡ ok (a ∷ [])
  unfolding compute_all
  compute_all-one kernel b a h = rw h refl

  pub run_sequential_lem :
      (kernel : Kernel D) (config : EngineConfig) (blocks : List ScenarioBlock)
      (leaves : List (AggregateStats D))
      → make_blocks kernel.spec config ≡ ok blocks
      → compute_all kernel blocks ≡ ok leaves
      → run_sequential kernel config ≡ reduce_block_results leaves
  unfolding run_sequential
  run_sequential_lem kernel config blocks leaves made computed = rw (made, computed) refl

  -- A leaf for each block, in its place.
  abbrev pub HasLeaf : Kernel D → List ScenarioBlock → List (AggregateStats D) → ℕ → Type 0
  HasLeaf kernel blocks leaves i =
      (b : ScenarioBlock) × (leaf : AggregateStats D) × (get_elem? blocks i ≡ some b)
      × (compute_block kernel b ≡ ok leaf)
      × (get_elem? leaves i ≡ some leaf)

  pub compute_all-lem :
      (kernel : Kernel D) (blocks : List ScenarioBlock) (leaves : List (AggregateStats D))
      → length leaves ≡ length blocks
      → ((i : ℕ) → i < length blocks → HasLeaf kernel blocks leaves i)
      → compute_all kernel blocks ≡ ok leaves
  unfolding compute_all
  compute_all-lem kernel [] [] e h = refl
  compute_all-lem kernel [] (x ∷ xs) e h = absurd (omega arith)
  compute_all-lem kernel (b ∷ bs) [] e h = absurd (omega arith)
  compute_all-lem kernel (b ∷ bs) (x ∷ xs) e h =
      let (b', leaf, at, computed, placed) = h 0 (omega arith) in
      let same_block : b ≡ b' = cc in
      let same_leaf : x ≡ leaf = cc in
      let rest = compute_all-lem kernel bs xs (omega arith) (λ i lt. h (suc i) (omega arith)) in
      rw (same_block, computed, rest, same_leaf) refl

  -- A result entered in its place.
  abbrev pub entered : Collected D → BlockResult D → CoordinatorState → Collected D
  entered s r coordinator = record {
    coordinator = coordinator;
    leaves = set s.leaves r.block.block_id r.aggregate;
    received = set s.received r.block.block_id true;
  }

  -- The result for a block is about that block.
  pub block_result-block :
      (kernel : Kernel D) (h1 h2 h3 : Digest) (i : ℕ) (b : ScenarioBlock) (r : BlockResult D)
      → block_result kernel h1 h2 h3 i b ≡ ok r
      → r.block ≡ b
  unfolding block_result
  block_result-block kernel h1 h2 h3 i b r e =
      let (leaf, computed, e') = >>=-eq-ok (compute_block kernel b) _ e in
      let (checksum, hashed, e'') =
        >>=-eq-ok (aggregate_payload_hash leaf kernel.spec.stats_schema_version) _ e' in
      let same : b ≡ r.block = cc in sym same

  -- A list of blocks that can be computed has blocks that can.
  pub compute_all-each :
      (kernel : Kernel D) (blocks : List ScenarioBlock) (leaves : List (AggregateStats D)) (i : ℕ)
      (b : ScenarioBlock)
      → compute_all kernel blocks ≡ ok leaves
      → get_elem? blocks i ≡ some b
      → (a : AggregateStats D) × (compute_block kernel b ≡ ok a)
  unfolding compute_all
  compute_all-each kernel [] leaves i b h at = cc
  compute_all-each kernel (x ∷ xs) leaves zero b h at =
      let (a, here, h') = >>=-eq-ok (compute_block kernel x) _ h in
      let same : x ≡ b = cc in (a, rw (← same) here)
  compute_all-each kernel (x ∷ xs) leaves (suc i) b h at =
      let (a, here, h') = >>=-eq-ok (compute_block kernel x) _ h in
      let (rest, there, h'') = >>=-eq-ok (compute_all kernel xs) _ h' in
      compute_all-each kernel xs rest i b there at

  pub run_sequential-eq-ok :
      (kernel : Kernel D) (config : EngineConfig) (a : AggregateStats D)
      → run_sequential kernel config ≡ ok a
      → (blocks : List ScenarioBlock) × (leaves : List (AggregateStats D)) × (make_blocks
            kernel.spec config
          ≡ ok blocks)
        × (compute_all kernel blocks ≡ ok leaves)
        × (reduce_block_results leaves ≡ ok a)
  unfolding run_sequential
  run_sequential-eq-ok kernel config a h =
      let (blocks, made, h') = >>=-eq-ok (make_blocks kernel.spec config) _ h in
      let (leaves, computed, reduced) = >>=-eq-ok (compute_all kernel blocks) _ h' in
      (blocks, leaves, made, computed, reduced)

  -- What the results of a run know of their blocks.
  module _ (kernel : Kernel D) (blocks : List ScenarioBlock) where
    abbrev pub IsListed : ScenarioBlock → Type 0
    IsListed b = get_elem? blocks b.block_id ≡ some b

    abbrev pub IsComputed : BlockResult D → Type 0
    IsComputed r = IsListed r.block × (compute_block kernel r.block ≡ ok r.aggregate)

    pub block_result-IsComputed :
        (h1 h2 h3 : Digest) (i : ℕ) (b : ScenarioBlock) (r : BlockResult D)
        → IsListed b
        → block_result kernel h1 h2 h3 i b ≡ ok r
        → IsComputed r
    unfolding block_result
    block_result-IsComputed h1 h2 h3 i b r listed e =
        let (leaf, computed, e') = >>=-eq-ok (compute_block kernel b) _ e in
        let (checksum, hashed, e'') =
          >>=-eq-ok (aggregate_payload_hash leaf kernel.spec.stats_schema_version) _ e' in
        let same_block : b ≡ r.block = cc in
        let same_leaf : leaf ≡ r.aggregate = cc in
        (rw (← same_block) listed, rw (← same_block, ← same_leaf) computed)

    -- What is marked as received has its leaf.
    pub record IsFilled (s : Collected D) : Type 0 where
      pub leaves_fit : length s.leaves ≡ length blocks
      pub received_fit : length s.received ≡ length blocks
      pub filled : (i : ℕ) → get_elem? s.received i ≡ some true → HasLeaf kernel blocks s.leaves i

    entered-filled :
        (s : Collected D) (r : BlockResult D)
        → IsComputed r
        → IsFilled s
        → (i : ℕ) → get_elem? (set s.received r.block.block_id true) i ≡ some true
        → HasLeaf kernel blocks (set s.leaves r.block.block_id r.aggregate) i
    entered-filled s r (listed, computed) h i marked = elim (Bool-cases (r.block.block_id == i)) [
      | inl same ↦
          let at : r.block.block_id ≡ i = ground arith in
          let lt = get_elem?-lt blocks r.block.block_id r.block listed in
          rw (← at) (
            r.block,
            r.aggregate,
            listed,
            computed,
            get_elem?-set_self s.leaves r.block.block_id r.aggregate (omega (arith, h.leaves_fit)),
          )
      | inr other ↦
          let ne : r.block.block_id ≢ i = λ w. ground arith in
          let (b, leaf, at, done, placed) =
            h.filled i (sym (get_elem?-set_ne s.received r.block.block_id i true ne) ∙ marked) in
          (b, leaf, at, done, get_elem?-set_ne s.leaves r.block.block_id i r.aggregate ne ∙ placed)
    ]

    collect-IsFilled :
        (s s' : Collected D) (r : BlockResult D)
        → IsComputed r
        → collect s r ≡ ok s'
        → IsFilled s
        → IsFilled s'
    unfolding collect
    collect-IsFilled s s' r c e h =
        let (p, committed, e') = >>=-eq-ok (commit_result r s.coordinator) _ e in
        let (accepted_, e'') = throw_if-eq-ok (not (is_accepted p.0.status)) _ _ e' in
        let same : entered s r p.1 ≡ s' = cc in
        subst IsFilled same (record {
          leaves_fit = length-set s.leaves r.block.block_id r.aggregate ∙ h.leaves_fit;
          received_fit = length-set s.received r.block.block_id true ∙ h.received_fit;
          filled = entered-filled s r c h;
        })

    pub collected-IsFilled :
        (s s' : Collected D) (rs : List (BlockResult D))
        → All IsComputed rs
        → consume_all collect s rs ≡ ok s'
        → IsFilled s
        → IsFilled s'
    collected-IsFilled s s' [] all e h = let same : s ≡ s' = cc in rw (← same) h
    collected-IsFilled s s' (r ∷ rs) all e h =
        let (mid, first, later) = >>=-eq-ok (collect s r) _ e in
        collected-IsFilled mid s' rs all.1 later (collect-IsFilled s mid r all.0 first h)
