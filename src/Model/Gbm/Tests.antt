-- ===== src/Model/Gbm/Tests.antt =====
-- One antithetic pair of one step, over the words of Sample.
use monte_carlo.Prelude.{◌≡◌, arith, refl, true}
use monte_carlo.Exception.{ok, Returns, Returns→ok}
use monte_carlo.Sample.{Word, word, lenient}
use monte_carlo.RunSpec.Tests.{two_scenarios}
use monte_carlo.Rng.Tests.{standard_normal_returns}
use monte_carlo.Model.Path.{payoff_from_path}
use monte_carlo.Model.Gbm.{
  GbmKernel, gbm_discounted_payoff, gbm_antithetic_pair_mean, gbm_mean, gbm_walk, gbm_step,
  gbm_moved, gbm_next, gbm_exponent, gbm_start, gbm_discounted,
}
use monte_carlo.Model.Gbm.Pairing.{gbm_antithetic_pair_mean-two_paths}

abbrev pair_kernel : GbmKernel Word
pair_kernel = record {
  spec = record two_scenarios { antithetic = true };
  drift_per_step = word 1;
  diffusion_per_step = word 2;
  discount_factor = word 1;
}

even-Returns : Returns (gbm_discounted_payoff ⦃fp = lenient⦄ pair_kernel 0)
unfolding gbm_discounted_payoff gbm_walk gbm_step gbm_moved gbm_next gbm_exponent gbm_start
    gbm_discounted payoff_from_path
even-Returns = rw (standard_normal_returns.1) tt

odd-Returns : Returns (gbm_discounted_payoff ⦃fp = lenient⦄ pair_kernel 1)
unfolding gbm_discounted_payoff gbm_walk gbm_step gbm_moved gbm_next gbm_exponent gbm_start
    gbm_discounted payoff_from_path
odd-Returns = rw (standard_normal_returns.1) tt

abbrev even_payoff : (x : Word) × (gbm_discounted_payoff ⦃fp = lenient⦄ pair_kernel 0 ≡ ok x)
even_payoff = Returns→ok (gbm_discounted_payoff ⦃fp = lenient⦄ pair_kernel 0) even-Returns

abbrev odd_payoff : (y : Word) × (gbm_discounted_payoff ⦃fp = lenient⦄ pair_kernel 1 ≡ ok y)
odd_payoff = Returns→ok (gbm_discounted_payoff ⦃fp = lenient⦄ pair_kernel 1) odd-Returns

gbm_antithetic_pair_mean-two_paths_example :
    gbm_antithetic_pair_mean ⦃fp = lenient⦄ pair_kernel 0
    ≡ gbm_mean ⦃fp = lenient⦄ even_payoff.0 odd_payoff.0
gbm_antithetic_pair_mean-two_paths_example =
    gbm_antithetic_pair_mean-two_paths ⦃fp = lenient⦄ pair_kernel 0 refl refl even_payoff.0
      odd_payoff.0 (omega arith) even_payoff.1 odd_payoff.1
