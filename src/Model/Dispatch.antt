-- ===== src/Model/Dispatch.antt =====
-- `ModelKernel` of include/mc/model.hpp and src/models/heston.cpp: the choice of the kernel.
use monte_carlo.Exception.{Result, ok, err, ◌>>=◌, invalid_argument, what}
use monte_carlo.Float64.{Float64}
use monte_carlo.RunSpec.{RunSpec, ModelType, gbm, heston}
use monte_carlo.Parallel.{Kernel}
use monte_carlo.Model.Gbm.{gbm_kernel, gbm_discounted_payoff, gbm_antithetic_pair_mean}
use monte_carlo.Model.Heston.{heston_kernel, heston_discounted_payoff, heston_antithetic_pair_mean}

module _ {D : Type 0} ⦃fp : Float64 D⦄ where
  -- `ModelKernel::make_kernel` and the visits: the members of the kernel of the model.
  pub make_kernel : RunSpec D → ModelType → Result (Kernel D)
  make_kernel spec gbm = do
    k ← gbm_kernel spec
    ok (record {
      spec = spec;
      antithetic_pair_mean = gbm_antithetic_pair_mean k;
      discounted_payoff = gbm_discounted_payoff k;
    })
  make_kernel spec heston = do
    k ← heston_kernel spec
    ok (record {
      spec = spec;
      antithetic_pair_mean = heston_antithetic_pair_mean k;
      discounted_payoff = heston_discounted_payoff k;
    })
  make_kernel spec (ModelType.other n) = err (invalid_argument (what "unsupported model type"))
