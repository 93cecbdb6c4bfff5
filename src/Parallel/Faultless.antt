-- ===== src/Parallel/Faultless.antt =====
-- No execution of `run_parallel` fails whose blocks can all be computed.
use monte_carlo.Prelude.{
  ℕ, zero, suc, ◌+◌, ◌≤◌, ◌<◌, ◌≡◌, ◌∙◌, sym, ap, subst, arith, refl, List, [], ◌∷◌, Bool, true,
  none, some, length, get_elem?, replicate, All, inr, total, total-replicate_zero,
}
use monte_carlo.Exception.{Result, ok}
use monte_carlo.Float64.{Float64}
use monte_carlo.RunSpec.{max_scenarios}
use monte_carlo.Aggregate.{AggregateStats}
use monte_carlo.Aggregate.Merge.{IsValid}
use monte_carlo.Hash.{Digest}
use monte_carlo.Layout.{ScenarioBlock, BlockResult}
use monte_carlo.Coordinator.{committed_in}
use monte_carlo.Queue.{BoundedQueue}
use monte_carlo.Execute.{System, Steps, initial, starting, CoordinatorPc}
use monte_carlo.Execute.Trace.{consume_all, Steps-store, Meets, Steps-Meets, CoordinatorMeets}
use monte_carlo.Execute.Faultless.{IsFaultless, Steps-IsFaultless, Takes}
use monte_carlo.Execute.Invariant.{is_failing}
use monte_carlo.Execute.Progress.{IsFinal}
use monte_carlo.Execute.Places.{Steps-weight, received}
use monte_carlo.Execute.Finish.{IsNew, placed-start, consumed_exactly_once}
use monte_carlo.Parallel.{Kernel, Collected, compute_block, block_result, collect, all_received}
use monte_carlo.Parallel.Leaves.{IsListed, block_result-block}
use monte_carlo.Parallel.Accept.{
  only, IsResult, IsRunOf, collected-slot, collected-received, collect-accepts,
  block_result-IsResult, block_result-total,
}

only_itself : (b : ScenarioBlock) → only b.block_id b ≡ 1
only_itself b = ground arith

-- Of blocks that are numbered from `n` on, at most one is number `j`, and one if it is in range.
pub total-only :
    (blocks : List ScenarioBlock) (n j : ℕ)
    → ((i : ℕ) (b : ScenarioBlock) → get_elem? blocks i ≡ some b → b.block_id ≡ n + i)
    → (total (only j) blocks ≤ 1)
      × (j < n → total (only j) blocks ≡ 0)
      × (n ≤ j → j < n + length blocks → total (only j) blocks ≡ 1)
total-only [] n j ids = (omega arith, λ h. refl, λ h k. absurd (omega arith))
total-only (b ∷ bs) n j ids =
    let (most, before, within) =
      total-only bs (n + 1) j (λ i c at. omega (arith, ids (suc i) c at)) in
    ground (arith, ids 0 b refl)

pub All-listed :
    (blocks : List ScenarioBlock) (P : ScenarioBlock → Type 0)
    → ((i : ℕ) (b : ScenarioBlock) → get_elem? blocks i ≡ some b → P b)
    → All P blocks
All-listed [] P h = tt
All-listed (b ∷ bs) P h = (h 0 b refl, All-listed bs P (λ i c at. h (suc i) c at))

pub all_received-every :
    (received : List Bool)
    → ((j : ℕ) → j < length received → get_elem? received j ≡ some true)
    → all_received received ≡ true
all_received-every [] h = refl
all_received-every (r ∷ rs) h =
    let marked : r ≡ true = some-inj (h 0 (omega arith)) in
    rw (marked, all_received-every rs (λ j lt. h (suc j) (omega arith))) refl
  where
    some-inj : {x y : Bool} → some x ≡ some y → x ≡ y
    some-inj e = cc

pub none_committed : (n j : ℕ) → committed_in (get_elem? (replicate n none) j) ≡ none
none_committed zero j = refl
none_committed (suc n) zero = refl
none_committed (suc n) (suc j) = none_committed n j

All-alike {ℓ} : {A : Type ℓ} (P : A → Type 0) (n : ℕ) (x : A) → P x → All P (replicate n x)
All-alike P zero x h = tt
All-alike P (suc n) x h = (h, All-alike P n x h)

module _ {D : Type 0} ⦃fp : Float64 D⦄ (kernel : Kernel D) (blocks : List ScenarioBlock)
    (h1 h2 h3 : Digest) (schema : kernel.spec.stats_schema_version ≡ 1)
    (fits : kernel.spec.total_scenarios ≤ max_scenarios)
    (valid : (b : ScenarioBlock) (a : AggregateStats D) → compute_block kernel b ≡ ok a → IsValid a)
    (ids : (i : ℕ) (b : ScenarioBlock) → get_elem? blocks i ≡ some b → b.block_id ≡ i)
    (incarnations : (i : ℕ) (b : ScenarioBlock)
      → get_elem? blocks i ≡ some b
      → b.run_incarnation ≡ 0)
    (computable : (i : ℕ) (b : ScenarioBlock)
      → get_elem? blocks i ≡ some b
      → (a : AggregateStats D) × (compute_block kernel b ≡ ok a)) where
  abbrev Jobs : ScenarioBlock → Type 0
  Jobs = IsListed kernel blocks

  abbrev Results : BlockResult D → Type 0
  Results = IsResult kernel blocks h1 h2 h3

  abbrev work : ℕ → ScenarioBlock → Result (BlockResult D)
  work = block_result kernel h1 h2 h3

  meets : (i : ℕ) (b : ScenarioBlock) (r : BlockResult D) → Jobs b → work i b ≡ ok r → Results r
  meets = block_result-IsResult kernel blocks h1 h2 h3 schema valid

  works : (i : ℕ) (b : ScenarioBlock) → Jobs b → (r : BlockResult D) × (work i b ≡ ok r)
  works i b listed =
      let (a, computed) = computable b.block_id b listed in
      let (r, done, same) = block_result-total kernel blocks h1 h2 h3 schema valid i b a computed in
      (r, done)

  answers : (i : ℕ) (b : ScenarioBlock) (r : BlockResult D) → work i b ≡ ok r → r.block ≡ b
  answers i b r e = block_result-block kernel h1 h2 h3 i b r e

  ids_from : (i : ℕ) (b : ScenarioBlock) → get_elem? blocks i ≡ some b → b.block_id ≡ 0 + i
  ids_from i b at = omega (arith, ids i b at)

  module _ (s : Collected D) (run : IsRunOf kernel blocks h1 h2 h3 s.coordinator)
      (free : (j : ℕ) → committed_in (get_elem? s.coordinator.committed_payloads j) ≡ none)
      (received_fit : length s.received ≡ length blocks) (a : BoundedQueue ScenarioBlock)
      (c : BoundedQueue (BlockResult D)) (n : ℕ) (fresh_a : IsNew a) (fresh_c : IsNew c)
      (some_worker : 0 < n) where
    abbrev first : System ScenarioBlock (BlockResult D) (Collected D)
    first = initial a c n blocks s

    first-Meets : Meets (ok tt) work collect Jobs Results meets first.shared
    first-Meets = record {
      assignments = rw fresh_a.empty tt;
      completions = rw fresh_c.empty tt;
      scheduler =
          All-listed blocks Jobs
            (λ i b at. subst (λ j. get_elem? blocks j ≡ some b) (sym (ids i b at)) at);
      coordinator = tt;
      consumed = tt;
    }

    reached :
        (k : ℕ) (t : System ScenarioBlock (BlockResult D) (Collected D))
        → Steps (ok tt) work collect first k t
        → Meets (ok tt) work collect Jobs Results meets t.shared
          × (consume_all collect s t.shared.consumed ≡ ok t.shared.store)
    reached k t steps = (
      (Steps-Meets (ok tt) work collect Jobs Results meets first t k steps first-Meets
          (All-alike _ n starting tt)).0,
      Steps-store (ok tt) work collect s first t k steps refl,
    )

    -- A result that the coordinator takes up is the first of its block.
    reached-Takes :
        (k : ℕ) (t : System ScenarioBlock (BlockResult D) (Collected D))
        → Steps (ok tt) work collect first k t
        → Takes work collect Jobs Results meets works t.shared
    reached-Takes k t steps r at =
        let (m, stored) = reached k t steps in
        let result =
          subst (CoordinatorMeets (ok tt) work collect Jobs Results meets) at m.coordinator in
        let j = r.block.block_id in
        let (run', slots) =
          collected-slot kernel blocks h1 h2 h3 s t.shared.store t.shared.consumed j stored run in
        let at_most = (total-only blocks 0 j ids_from).0 in
        let weight =
          Steps-weight (only j) (λ x. x.block) (ok tt) work collect answers first t k steps in
        let none_consumed : total (λ x. only j x.block) t.shared.consumed ≡ 0 = omega (
          arith,
          weight,
          placed-start (ok tt) work collect a c n blocks s fresh_a fresh_c some_worker
              (λ x. x.block) answers (only j),
          ap (λ (p : CoordinatorPc (BlockResult D)). received (only j) (λ x. x.block) p) at,
          only_itself r.block,
          at_most,
        ) in
        collect-accepts kernel blocks h1 h2 h3 t.shared.store r schema fits
          (incarnations j r.block result.computed.0) run' result
          (ap committed_in (slots none_consumed) ∙ free j)

    reached-IsFaultless :
        (k : ℕ) (t : System ScenarioBlock (BlockResult D) (Collected D))
        → Steps (ok tt) work collect first k t
        → IsFaultless t
    reached-IsFaultless k t steps =
        Steps-IsFaultless work collect Jobs Results meets works first t k steps reached-Takes
          first-Meets (All-alike _ n starting tt)
          (record {
            no_error = refl;
            no_coordinator = refl;
            no_worker = total-replicate_zero is_failing n starting refl;
          })

    -- At the end, every block has been received.
    pub final-received :
        (k : ℕ) (t : System ScenarioBlock (BlockResult D) (Collected D))
        → Steps (ok tt) work collect first k t
        → IsFinal (ok tt) work collect t
        → (t.shared.first_error ≡ none)
          × ((j : ℕ) → j < length blocks → get_elem? t.shared.store.received j ≡ some true)
    final-received k t steps final =
        let fine = reached-IsFaultless k t steps in
        let (m, stored) = reached k t steps in
        (
          fine.no_error,
          λ j lt.
              let counted =
                consumed_exactly_once (ok tt) work collect a c n blocks s fresh_a fresh_c
                  some_worker (λ x. x.block) answers k t (only j) steps final fine.no_error in
              let one = (total-only blocks 0 j ids_from).2 (omega arith) (omega arith) in
              collected-received kernel blocks h1 h2 h3 s t.shared.store t.shared.consumed j stored
                (omega (arith, received_fit)) (inr (omega (arith, counted, one))),
        )
