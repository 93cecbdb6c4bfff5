-- ===== src/Parallel/Tests.antt =====
-- Two scenarios in one block, with the payoffs 4 and 6.
use monte_carlo.Prelude.{
  ℕ, zero, suc, ◌≤◌, ◌<◌, ◌≡◌, ◌∙◌, sym, refl, arith, [], ◌∷◌, false, inl, inr, ◌⊎◌, replicate,
  subst,
}
use monte_carlo.Exception.{Result, ok}
use monte_carlo.Sample.{Word, word, word_float}
use monte_carlo.RunSpec.Tests.{two_scenarios}
use monte_carlo.Aggregate.{AggregateStats, add, next_observation, first_observation}
use monte_carlo.Aggregate.Merge.{IsValid}
use monte_carlo.Aggregate.Tests.{four_six, four_six-IsValid, single-IsValid}
use monte_carlo.Hash.{Digest}
use monte_carlo.Layout.{ScenarioBlock}
use monte_carlo.Layout.Tests.{twos, one_block, make_blocks-twos, block}
use monte_carlo.Reduce.{reduce_block_results, reduce_levels, front}
use monte_carlo.Coordinator.{expected_observations}
use monte_carlo.Parallel.{
  Kernel, RunResult, RunParallel, compute_block, observe_block, observe_range,
}
use monte_carlo.Parallel.Observe.{compute_block-n, compute_block-range}
use monte_carlo.Parallel.Leaves.{run_sequential, run_sequential_lem, compute_all, compute_all-one}
use monte_carlo.Parallel.Sequential.{RunParallel-sequential}
use monte_carlo.Parallel.Returns.{RunParallel-returns, RunParallel-ends}

abbrev payoff : ℕ → Result Word
payoff zero = ok (word 4)
payoff (suc i) = ok (word 6)

abbrev small : Kernel Word
small = record { spec = two_scenarios; antithetic_pair_mean = payoff; discounted_payoff = payoff }

ok-inj : {A : Type 0} {x y : A} → ok x ≡ ok y → x ≡ y
ok-inj e = cc

abbrev ranged : ℕ → ℕ → ℕ → ℕ → ℕ → ScenarioBlock
ranged id incarnation lease start end = record {
  block_id = id;
  start_scenario = start;
  end_scenario = end;
  run_incarnation = incarnation;
  lease_epoch = lease;
}

compute_block-both :
    (id incarnation lease : ℕ) → compute_block small (ranged id incarnation lease 0 2) ≡ ok four_six
unfolding compute_block observe_block observe_range add next_observation
compute_block-both id incarnation lease = refl

compute_block-first :
    (id incarnation lease : ℕ)
    → compute_block small (ranged id incarnation lease 0 1) ≡ ok (first_observation (word 4))
unfolding compute_block observe_block observe_range add
compute_block-first id incarnation lease = refl

compute_block-second :
    (id incarnation lease : ℕ)
    → compute_block small (ranged id incarnation lease 1 2) ≡ ok (first_observation (word 6))
unfolding compute_block observe_block observe_range add
compute_block-second id incarnation lease = refl

ranges : (s e : ℕ) → s < e → e ≤ 2 → ((s ≡ 0) × (e ≡ 2)) ⊎ ((s ≡ 0) × (e ≡ 1)) ⊎ ((s ≡ 1) × (e ≡ 2))
ranges s e h k = ground arith

ranged-IsValid :
    (id incarnation lease s e : ℕ) (a : AggregateStats Word)
    → s < e
    → e ≤ 2
    → compute_block small (ranged id incarnation lease s e) ≡ ok a
    → IsValid a
ranged-IsValid id i l s e a h k c = elim (ranges s e h k) [
  | inl (s0, e2) ↦
      subst IsValid (ok-inj (sym (compute_block-both id i l) ∙ rw (s0, e2) at c)) four_six-IsValid
  | inr (inl (s0, e1)) ↦
      subst IsValid (ok-inj (sym (compute_block-first id i l) ∙ rw (s0, e1) at c))
        (single-IsValid).0
  | inr (inr (s1, e2)) ↦
      subst IsValid (ok-inj (sym (compute_block-second id i l) ∙ rw (s1, e2) at c))
        (single-IsValid).1
]

small-IsValid :
    (b : ScenarioBlock) (a : AggregateStats Word) → compute_block small b ≡ ok a → IsValid a
small-IsValid b a e =
    let (forward, within) = compute_block-range small b a e in
    ranged-IsValid b.block_id b.run_incarnation b.lease_epoch b.start_scenario b.end_scenario a
      forward within e

sequential : run_sequential small twos ≡ ok four_six
unfolding reduce_block_results reduce_levels front
sequential =
    run_sequential_lem small twos one_block (four_six ∷ []) make_blocks-twos all_computed ∙ refl
  where
    all_computed : compute_all small one_block ≡ ok (four_six ∷ [])
    all_computed = compute_all-one small (block 0 0 2) four_six (compute_block-both 0 0 1)

abbrev build : Digest
build = replicate 32 3

abbrev result : RunResult Word
result = (RunParallel-ends small build twos four_six sequential small-IsValid).0

run : RunParallel (ok tt) small build twos (ok result)
run = (RunParallel-ends small build twos four_six sequential small-IsValid).1

compute_block-n_example : four_six.n ≡ expected_observations false (block 0 0 2)
compute_block-n_example =
    compute_block-n small (block 0 0 2) four_six (omega arith) (compute_block-both 0 0 1)

RunParallel-sequential_example : run_sequential small twos ≡ ok result.aggregate
RunParallel-sequential_example = RunParallel-sequential (ok tt) small build twos result run

RunParallel-returns_example : (r : RunResult Word) × (ok result ≡ ok r) × (r.aggregate ≡ four_six)
RunParallel-returns_example =
    RunParallel-returns small build twos four_six sequential small-IsValid (ok result) run

RunParallel-ends_example :
    (r : RunResult Word) × RunParallel (ok tt) small build twos (ok r) × (r.aggregate ≡ four_six)
RunParallel-ends_example = RunParallel-ends small build twos four_six sequential small-IsValid
