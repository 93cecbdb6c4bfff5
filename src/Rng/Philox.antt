-- ===== src/Rng/Philox.antt =====
-- A Philox round is one-to-one on counters, under any key.
use monte_carlo.Prelude.{ℕ, zero, suc, ◌^◌, ◌<◌, ◌≡◌, arith, bit_xor, ap, ◌∙◌, sym}
use monte_carlo.Prelude.Bits.{bit_xor-lt, bit_xor_cancel, bit_xor_cancel_left}
use monte_carlo.Rng.{
  PhiloxCounter, PhiloxKey, multiply_high_low, philox_round, next_key, philox_rounds, philox4x32_10,
  philox_multiplier0, philox_multiplier1,
}
use monte_carlo.Rng.Counter.{IsCounter}

pub record IsKey (k : PhiloxKey) : Type 0 where
  pub k0-lt : k.k0 < 2 ^ 32
  pub k1-lt : k.k1 < 2 ^ 32

-- The multipliers are odd, so the low half of a product determines the other factor.
low_injective0 :
    (x y : ℕ)
    → x < 2 ^ 32
    → y < 2 ^ 32
    → (multiply_high_low philox_multiplier0 x).low ≡ (multiply_high_low philox_multiplier0 y).low
    → x ≡ y
unfolding multiply_high_low
low_injective0 x y p q e = omega arith

low_injective1 :
    (x y : ℕ)
    → x < 2 ^ 32
    → y < 2 ^ 32
    → (multiply_high_low philox_multiplier1 x).low ≡ (multiply_high_low philox_multiplier1 y).low
    → x ≡ y
unfolding multiply_high_low
low_injective1 x y p q e = omega arith

high-lt : (m x : ℕ) → (multiply_high_low m x).high < 2 ^ 32
unfolding multiply_high_low
high-lt m x = omega arith

low-lt : (m x : ℕ) → (multiply_high_low m x).low < 2 ^ 32
unfolding multiply_high_low
low-lt m x = omega arith

pub IsCounter-philox_round :
    (c : PhiloxCounter) (k : PhiloxKey) → IsCounter c → IsKey k → IsCounter (philox_round c k)
unfolding philox_round
IsCounter-philox_round c k v w = record {
  w0-lt =
      bit_xor-lt 32 (bit_xor (multiply_high_low philox_multiplier1 c.w2).high c.w1) k.k0
        (bit_xor-lt 32 (multiply_high_low philox_multiplier1 c.w2).high c.w1 (high-lt _ c.w2)
          v.w1-lt)
        w.k0-lt;
  w1-lt = low-lt _ c.w2;
  w2-lt =
      bit_xor-lt 32 (bit_xor (multiply_high_low philox_multiplier0 c.w0).high c.w3) k.k1
        (bit_xor-lt 32 (multiply_high_low philox_multiplier0 c.w0).high c.w3 (high-lt _ c.w0)
          v.w3-lt)
        w.k1-lt;
  w3-lt = low-lt _ c.w0;
}

IsKey-next_key : (k : PhiloxKey) → IsKey (next_key k)
unfolding next_key
IsKey-next_key k = record { k0-lt = omega arith; k1-lt = omega arith }

-- `h ^ x ^ k` determines `x` once `h` and `k` are known.
xor_determines :
    (h x y k : ℕ)
    → h < 2 ^ 32
    → x < 2 ^ 32
    → y < 2 ^ 32
    → k < 2 ^ 32
    → bit_xor (bit_xor h x) k ≡ bit_xor (bit_xor h y) k
    → x ≡ y
xor_determines h x y k ph px py pk e = bit_xor_cancel_left 32 h x y ph px py (
    bit_xor_cancel 32 (bit_xor h x) (bit_xor h y) k (bit_xor-lt 32 h x ph px)
      (bit_xor-lt 32 h y ph py) pk e)

philox_round_injective :
    (c d : PhiloxCounter) (k : PhiloxKey)
    → IsCounter c
    → IsCounter d
    → IsKey k
    → philox_round c k ≡ philox_round d k
    → c ≡ d
unfolding philox_round
philox_round_injective c d k v w kv e =
    let e0 : c.w0 ≡ d.w0 =
      low_injective0 c.w0 d.w0 v.w0-lt w.w0-lt (ap (λ (r : PhiloxCounter). r.w3) e) in
    let e2 : c.w2 ≡ d.w2 =
      low_injective1 c.w2 d.w2 v.w2-lt w.w2-lt (ap (λ (r : PhiloxCounter). r.w1) e) in
    let e1 : c.w1 ≡ d.w1 =
      xor_determines (multiply_high_low philox_multiplier1 c.w2).high c.w1 d.w1 k.k0
        (high-lt _ c.w2) v.w1-lt w.w1-lt kv.k0-lt
        (ap (λ (r : PhiloxCounter). r.w0) e
          ∙ ap
              (λ (t : ℕ). bit_xor (bit_xor (multiply_high_low philox_multiplier1 t).high d.w1) k.k0)
              (sym e2)) in
    let e3 : c.w3 ≡ d.w3 =
      xor_determines (multiply_high_low philox_multiplier0 c.w0).high c.w3 d.w3 k.k1
        (high-lt _ c.w0) v.w3-lt w.w3-lt kv.k1-lt
        (ap (λ (r : PhiloxCounter). r.w2) e
          ∙ ap
              (λ (t : ℕ). bit_xor (bit_xor (multiply_high_low philox_multiplier0 t).high d.w3) k.k1)
              (sym e0)) in
    λ i. record { w0 = e0 i; w1 = e1 i; w2 = e2 i; w3 = e3 i }

philox_rounds_injective :
    (n : ℕ) (c d : PhiloxCounter) (k : PhiloxKey)
    → IsCounter c
    → IsCounter d
    → IsKey k
    → philox_rounds n c k ≡ philox_rounds n d k
    → c ≡ d
unfolding philox_rounds
philox_rounds_injective zero c d k v w kv e = e
philox_rounds_injective (suc n) c d k v w kv e = philox_round_injective c d k v w kv (
    philox_rounds_injective n (philox_round c k) (philox_round d k) (next_key k)
      (IsCounter-philox_round c k v kv) (IsCounter-philox_round d k w kv) (IsKey-next_key k) e)

-- Under any key, `philox4x32_10` sends different counters to different 128-bit outputs.
pub philox4x32_10_injective :
    (c d : PhiloxCounter) (k : PhiloxKey)
    → IsCounter c
    → IsCounter d
    → IsKey k
    → philox4x32_10 c k ≡ philox4x32_10 d k
    → c ≡ d
unfolding philox4x32_10
philox4x32_10_injective c d k v w kv e = philox_rounds_injective 10 c d k v w kv e
