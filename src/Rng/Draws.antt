-- ===== src/Rng/Draws.antt =====
-- Logical draws and the random words they consume.
use monte_carlo.Prelude.{ℕ, ◌≡◌, arith, ap, ◌∙◌, sym}
use monte_carlo.Rng.{seed_key, philox4x32_10}
use monte_carlo.Rng.Counter.{
  Draw, Fits, counter_of, unpack, unpack-pack_counter_v1, counter_of-IsCounter,
}
use monte_carlo.Rng.Philox.{IsKey, philox4x32_10_injective}

IsKey-seed_key : (seed : ℕ) → IsKey (seed_key seed)
unfolding seed_key
IsKey-seed_key seed = record { k0-lt = omega arith; k1-lt = omega arith }

-- Under one seed, two draws that fit the layout and share their 128-bit Philox output are the
-- same draw: no scenario, step, dimension or draw index reuses another's random block.
pub draws_independent :
    (seed : ℕ) (a b : Draw)
    → Fits a
    → Fits b
    → philox4x32_10 (counter_of a) (seed_key seed) ≡ philox4x32_10 (counter_of b) (seed_key seed)
    → a ≡ b
draws_independent seed a b fa fb e =
    sym (unpack-pack_counter_v1 a fa).1
    ∙ ap unpack (
        philox4x32_10_injective (counter_of a) (counter_of b) (seed_key seed)
          (counter_of-IsCounter a fa) (counter_of-IsCounter b fb) (IsKey-seed_key seed) e)
    ∙ (unpack-pack_counter_v1 b fb).1
