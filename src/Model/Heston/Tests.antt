-- ===== src/Model/Heston/Tests.antt =====
-- One antithetic pair of one step, over the words of Sample.
use monte_carlo.Prelude.{◌≡◌, arith, refl, true}
use monte_carlo.Exception.{ok, Returns, Returns→ok}
use monte_carlo.Sample.{Word, word, lenient}
use monte_carlo.RunSpec.Tests.{two_scenarios}
use monte_carlo.Rng.Tests.{standard_normal_returns, standard_normal-other_returns}
use monte_carlo.Model.Path.{payoff_from_path}
use monte_carlo.Model.Heston.{
  HestonKernel, heston_discounted_payoff, heston_antithetic_pair_mean, heston_mean, heston_walk,
  heston_step, heston_moved, heston_start, heston_discounted, heston_checked_move, signed_exponent,
  signed_variance, discounted_payoff_with_sign,
}
use monte_carlo.Model.Heston.Pairing.{SignLaws, heston_antithetic_pair_mean-two_paths}

lenient_laws : SignLaws lenient
lenient_laws = record { times_one = λ z. refl; plus_negated = λ a b z. refl }

abbrev pair_kernel : HestonKernel Word
pair_kernel = record {
  spec = record two_scenarios { antithetic = true };
  parameters = record {
    initial_variance = word 1;
    mean_reversion_rate = word 1;
    long_run_variance = word 1;
    volatility_of_variance = word 1;
    correlation = word 0;
    discretization_version = 1;
  };
  dt = word 1;
  sqrt_dt = word 1;
  rate_dt = word 1;
  mean_reversion_dt = word 1;
  volatility_of_variance_sqrt_dt = word 1;
  orthogonal_weight = word 1;
  discount_factor = word 1;
}

even-Returns : Returns (heston_discounted_payoff ⦃fp = lenient⦄ pair_kernel 0)
unfolding heston_discounted_payoff discounted_payoff_with_sign heston_walk heston_step heston_moved
    heston_checked_move heston_start heston_discounted payoff_from_path signed_exponent
    signed_variance
even-Returns = rw (standard_normal_returns.1, standard_normal-other_returns.1) tt

odd-Returns : Returns (heston_discounted_payoff ⦃fp = lenient⦄ pair_kernel 1)
unfolding heston_discounted_payoff discounted_payoff_with_sign heston_walk heston_step heston_moved
    heston_checked_move heston_start heston_discounted payoff_from_path signed_exponent
    signed_variance
odd-Returns = rw (standard_normal_returns.1, standard_normal-other_returns.1) tt

abbrev even_payoff : (x : Word) × (heston_discounted_payoff ⦃fp = lenient⦄ pair_kernel 0 ≡ ok x)
even_payoff = Returns→ok (heston_discounted_payoff ⦃fp = lenient⦄ pair_kernel 0) even-Returns

abbrev odd_payoff : (y : Word) × (heston_discounted_payoff ⦃fp = lenient⦄ pair_kernel 1 ≡ ok y)
odd_payoff = Returns→ok (heston_discounted_payoff ⦃fp = lenient⦄ pair_kernel 1) odd-Returns

heston_antithetic_pair_mean-two_paths_example :
    heston_antithetic_pair_mean ⦃fp = lenient⦄ pair_kernel 0
    ≡ heston_mean ⦃fp = lenient⦄ even_payoff.0 odd_payoff.0
heston_antithetic_pair_mean-two_paths_example =
    heston_antithetic_pair_mean-two_paths ⦃fp = lenient⦄ lenient_laws pair_kernel 0 refl refl
      even_payoff.0 odd_payoff.0 (omega arith) even_payoff.1 odd_payoff.1
