-- ===== src/Rng.antt =====
-- include/mc/rng.hpp and src/rng/philox_rng.cpp: the counter-based generator.
pub mod Counter
pub mod Philox
pub mod Draws
pub mod Tests
use monte_carlo.Prelude.{
  ℕ, zero, suc, ◌+◌, ◌-◌, ◌*◌, ◌/◌, ◌%◌, ◌^◌, List, Bool, true, false, ltb, leb, ◌==◌, ◌&&◌, ◌||◌,
  not, if◌then◌else◌, bytes_of, bit_or, bit_xor,
}
use monte_carlo.Exception.{Result, ok, err, ◌>>=◌, ◌>>◌, throw_if, out_of_range, domain_error, what}
use monte_carlo.Float64.{Float64, f_zero, f_one}
use monte_carlo.RunSpec.{max_scenarios}

abbrev pub u32 : ℕ → ℕ
u32 x = x % 2 ^ 32

-- `PhiloxCounter`: four 32-bit words.
pub record PhiloxCounter : Type 0 where
  pub w0 : ℕ
  pub w1 : ℕ
  pub w2 : ℕ
  pub w3 : ℕ

pub record PhiloxKey : Type 0 where
  pub k0 : ℕ
  pub k1 : ℕ

abbrev philox_multiplier0 : ℕ
philox_multiplier0 = 0xD2511F53

abbrev philox_multiplier1 : ℕ
philox_multiplier1 = 0xCD9E8D57

abbrev philox_weyl0 : ℕ
philox_weyl0 = 0x9E3779B9

abbrev philox_weyl1 : ℕ
philox_weyl1 = 0xBB67AE85

pub record Product32 : Type 0 where
  pub low : ℕ
  pub high : ℕ

-- The 64-bit product of two 32-bit words, cut in two.
pub multiply_high_low : ℕ → ℕ → Product32
multiply_high_low left right =
    let product = left * right % 2 ^ 64 in
    record { low = u32 product; high = u32 (product / 2 ^ 32) }

pub philox_round : PhiloxCounter → PhiloxKey → PhiloxCounter
philox_round counter key =
    let product0 = multiply_high_low philox_multiplier0 counter.w0 in
    let product1 = multiply_high_low philox_multiplier1 counter.w2 in
    record {
      w0 = bit_xor (bit_xor product1.high counter.w1) key.k0;
      w1 = product1.low;
      w2 = bit_xor (bit_xor product0.high counter.w3) key.k1;
      w3 = product0.low;
    }

pub next_key : PhiloxKey → PhiloxKey
next_key key = record { k0 = u32 (key.k0 + philox_weyl0); k1 = u32 (key.k1 + philox_weyl1) }

-- The `for` loop, with the rounds that are left.
pub philox_rounds : ℕ → PhiloxCounter → PhiloxKey → PhiloxCounter
philox_rounds zero counter key = counter
philox_rounds (suc n) counter key = philox_rounds n (philox_round counter key) (next_key key)

pub philox4x32_10 : PhiloxCounter → PhiloxKey → PhiloxCounter
philox4x32_10 counter key = philox_rounds 10 counter key

abbrev max_24_bit_value : ℕ
max_24_bit_value = 2 ^ 24 - 1

-- The words of counter layout v1. The shifts of 32-bit operands wrap at 32 bits.
pub packed_counter : ℕ → ℕ → ℕ → ℕ → PhiloxCounter
packed_counter scenario_id time_step dimension draw_index = record {
  w0 = u32 scenario_id;
  w1 = u32 (bit_or (scenario_id / 2 ^ 32) (time_step * 2 ^ 8));
  w2 = bit_or dimension (u32 (draw_index * 2 ^ 8));
  w3 = 0;
}

pub pack_counter_v1 : ℕ → ℕ → ℕ → ℕ → Result PhiloxCounter
pack_counter_v1 scenario_id time_step dimension draw_index = do
  throw_if (leb max_scenarios scenario_id)
      (out_of_range (what "scenario_id exceeds RNG layout v1's 40-bit field"))
  throw_if (ltb max_24_bit_value time_step)
      (out_of_range (what "time_step exceeds RNG layout v1's 24-bit field"))
  throw_if (ltb 0xFF dimension)
      (out_of_range (what "dimension exceeds RNG layout v1's 8-bit field"))
  throw_if (ltb max_24_bit_value draw_index)
      (out_of_range (what "draw_index exceeds RNG layout v1's 24-bit field"))
  ok (packed_counter scenario_id time_step dimension draw_index)

-- The two halves of the 64-bit seed.
pub seed_key : ℕ → PhiloxKey
seed_key global_seed = record { k0 = u32 global_seed; k1 = u32 (global_seed / 2 ^ 32) }

pub random_u64 : ℕ → ℕ → ℕ → ℕ → ℕ → Result ℕ
random_u64 global_seed scenario_id time_step dimension draw_index = do
  counter ← pack_counter_v1 scenario_id time_step dimension draw_index
  let random_words = philox4x32_10 counter (seed_key global_seed)
  ok (bit_or (random_words.w0 * 2 ^ 32) random_words.w1)

module _ {D : Type 0} ⦃fp : Float64 D⦄ where
  open fp use {from_bits, of_u64, fadd, fsub, fmul, fdiv, fneg, fsqrt, flog, flt, fle}

  -- The high 53 bits times 2^-53, and 2^-54 for zero.
  pub uniform_from_words_v2 : ℕ → ℕ → D
  uniform_from_words_v2 high_word low_word =
      let raw = bit_or (high_word * 2 ^ 32) low_word in
      let retained = raw / 2 ^ 11 in
      if retained == 0
      then from_bits 0x3C90000000000000
      else fmul (of_u64 retained) (from_bits 0x3CA0000000000000)

  pub uniform_open01 : ℕ → ℕ → ℕ → ℕ → ℕ → Result D
  uniform_open01 global_seed scenario_id time_step dimension draw_index = do
    raw ← random_u64 global_seed scenario_id time_step dimension draw_index
    ok (uniform_from_words_v2 (u32 (raw / 2 ^ 32)) (u32 raw))

  abbrev a1 : D
  a1 = from_bits 0xC043D931BC1E0525

  abbrev a2 : D
  a2 = from_bits 0x406B9E467034039B

  abbrev a3 : D
  a3 = from_bits 0xC0713EDB2DC53B99

  abbrev a4 : D
  a4 = from_bits 0x40614B72B40B401B

  abbrev a5 : D
  a5 = from_bits 0xC03EAA3034C08BCD

  abbrev a6 : D
  a6 = from_bits 0x40040D9320575479

  abbrev b1 : D
  b1 = from_bits 0xC04B3CF0CE3004C4

  abbrev b2 : D
  b2 = from_bits 0x406432BF2CF04277

  abbrev b3 : D
  b3 = from_bits 0xC063765E0B02D8D2

  abbrev b4 : D
  b4 = from_bits 0x4050B348B1A7E9BE

  abbrev b5 : D
  b5 = from_bits 0xC02A8FB57E147826

  abbrev c1 : D
  c1 = from_bits 0xBF7FE30D924ACFE0

  abbrev c2 : D
  c2 = from_bits 0xBFD4A224C0E881B8

  abbrev c3 : D
  c3 = from_bits 0xC00334C0C1701758

  abbrev c4 : D
  c4 = from_bits 0xC00465DA2C703A1A

  abbrev c5 : D
  c5 = from_bits 0x40117FA7F4EA4DC7

  abbrev c6 : D
  c6 = from_bits 0x4007815C1E3FCFA2

  abbrev d1 : D
  d1 = from_bits 0x3F7FE2D857AC9FD4

  abbrev d2 : D
  d2 = from_bits 0x3FD4A34D2B590364

  abbrev d3 : D
  d3 = from_bits 0x40038FA27C8AE616

  abbrev d4 : D
  d4 = from_bits 0x400E09076895B119

  abbrev low_tail : D
  low_tail = from_bits 0x3F98D4FDF3B645A2

  -- 1.0 - low_tail
  abbrev high_tail : D
  high_tail = fsub f_one low_tail

  -- x * q + y
  abbrev horner : D → D → D → D
  horner q x y = fadd (fmul x q) y

  -- The quotient of the two tail polynomials at `q`, with the sign of the numerator given.
  tail_numerator : D → D
  tail_numerator q = horner q (horner q (horner q (horner q (horner q c1 c2) c3) c4) c5) c6

  tail_denominator : D → D
  tail_denominator q = horner q (horner q (horner q (horner q d1 d2) d3) d4) f_one

  -- std::sqrt(-2.0 * std::log(p))
  tail_argument : D → D
  tail_argument p = fsqrt (fmul (from_bits 0xC000000000000000) (flog p))

  central : D → D
  central probability =
      let q = fsub probability (from_bits 0x3FE0000000000000) in
      let r = fmul q q in
      fdiv (fmul (horner r (horner r (horner r (horner r (horner r a1 a2) a3) a4) a5) a6) q)
        (horner r (horner r (horner r (horner r (horner r b1 b2) b3) b4) b5) f_one)

  pub inverse_normal_cdf : D → Result D
  inverse_normal_cdf probability =
      if not (flt f_zero probability && flt probability f_one)
      then err (domain_error (what "inverse_normal_cdf requires probability in (0, 1)"))
      else if flt probability low_tail
      then (let q = tail_argument probability in ok (fdiv (tail_numerator q) (tail_denominator q)))
      else if fle probability high_tail
      then ok (central probability)
      else (let q = tail_argument (fsub f_one probability) in
          ok (fdiv (fneg (tail_numerator q)) (tail_denominator q)))

  pub standard_normal : ℕ → ℕ → ℕ → ℕ → ℕ → Result D
  standard_normal global_seed scenario_id time_step dimension draw_index = do
    u ← uniform_open01 global_seed scenario_id time_step dimension draw_index
    inverse_normal_cdf u
