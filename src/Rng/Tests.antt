-- ===== src/Rng/Tests.antt =====
-- The counter layout at one draw, and Philox at one counter.
use monte_carlo.Prelude.{◌≡◌, arith, refl, ◌+◌, ◌^◌}
use monte_carlo.Exception.{ok}
use monte_carlo.Sample.{Word, lenient}
use monte_carlo.Rng.{
  PhiloxCounter, PhiloxKey, philox4x32_10, philox_rounds, philox_round, next_key, multiply_high_low,
  pack_counter_v1, standard_normal, inverse_normal_cdf, uniform_open01, uniform_from_words_v2,
  random_u64, packed_counter, seed_key,
}
use monte_carlo.Rng.Counter.{
  Draw, Fits, counter_of, unpack, unpack-pack_counter_v1, counter_of-IsCounter,
}
use monte_carlo.Rng.Philox.{IsKey, philox4x32_10_injective}
use monte_carlo.Rng.Draws.{draws_independent}

abbrev zero_counter : PhiloxCounter
zero_counter = record { w0 = 0; w1 = 0; w2 = 0; w3 = 0 }

abbrev zero_key : PhiloxKey
zero_key = record { k0 = 0; k1 = 0 }

-- The known answer of the Random123 distribution.
philox4x32_10_zero :
    philox4x32_10 zero_counter zero_key
    ≡ record { w0 = 0x6627e8d5; w1 = 0xe169c58d; w2 = 0xbc57ac4c; w3 = 0x9b00dbd8 }
unfolding philox4x32_10 philox_rounds philox_round next_key multiply_high_low
philox4x32_10_zero = refl

abbrev a_draw : Draw
a_draw = record { scenario = 2 ^ 32 + 7; step = 3; dimension = 1; index = 5 }

a_draw-Fits : Fits a_draw
a_draw-Fits = record {
  scenario = omega arith;
  step = omega arith;
  dimension = omega arith;
  index = omega arith;
}

unpack-pack_counter_v1_example :
    (pack_counter_v1 (2 ^ 32 + 7) 3 1 5 ≡ ok (counter_of a_draw))
    × (unpack (counter_of a_draw) ≡ a_draw)
unpack-pack_counter_v1_example = unpack-pack_counter_v1 a_draw a_draw-Fits

zero_key-IsKey : IsKey zero_key
zero_key-IsKey = record { k0-lt = omega arith; k1-lt = omega arith }

philox4x32_10_injective_example : counter_of a_draw ≡ counter_of a_draw
philox4x32_10_injective_example =
    philox4x32_10_injective (counter_of a_draw) (counter_of a_draw) zero_key
      (counter_of-IsCounter a_draw a_draw-Fits) (counter_of-IsCounter a_draw a_draw-Fits)
      zero_key-IsKey refl

draws_independent_example : a_draw ≡ a_draw
draws_independent_example = draws_independent 42 a_draw a_draw a_draw-Fits a_draw-Fits refl

-- Two normals of scenario 0, in the arithmetic of `lenient`.
pub standard_normal_returns : (z : Word) × (standard_normal ⦃fp = lenient⦄ 1 0 0 0 0 ≡ ok z)
unfolding standard_normal inverse_normal_cdf uniform_open01 uniform_from_words_v2 random_u64
    pack_counter_v1 packed_counter seed_key philox4x32_10 philox_rounds philox_round next_key
    multiply_high_low
standard_normal_returns = (_, refl)

pub standard_normal-other_returns : (z : Word) × (standard_normal ⦃fp = lenient⦄ 1 0 0 1 0 ≡ ok z)
unfolding standard_normal inverse_normal_cdf uniform_open01 uniform_from_words_v2 random_u64
    pack_counter_v1 packed_counter seed_key philox4x32_10 philox_rounds philox_round next_key
    multiply_high_low
standard_normal-other_returns = (_, refl)
