-- ===== src/Hash/Rounds.antt =====
-- `transform` of src/hash.cpp: the message schedule and the 64 rounds of one block.
use monte_carlo.Prelude.{
  ℕ, zero, suc, ◌+◌, ◌-◌, ◌*◌, ◌/◌, ◌%◌, ◌^◌, List, [], ◌∷◌, ◌++◌, bit_and, bit_or, bit_xor,
}

abbrev pub u32 : ℕ → ℕ
u32 x = x % 2 ^ 32

abbrev pub round_constants : List ℕ
round_constants =
    0x428A2F98 ∷ 0x71374491 ∷ 0xB5C0FBCF ∷ 0xE9B5DBA5 ∷ 0x3956C25B ∷ 0x59F111F1 ∷ 0x923F82A4
    ∷ 0xAB1C5ED5 ∷ 0xD807AA98 ∷ 0x12835B01 ∷ 0x243185BE ∷ 0x550C7DC3 ∷ 0x72BE5D74 ∷ 0x80DEB1FE
    ∷ 0x9BDC06A7 ∷ 0xC19BF174 ∷ 0xE49B69C1 ∷ 0xEFBE4786 ∷ 0x0FC19DC6 ∷ 0x240CA1CC ∷ 0x2DE92C6F
    ∷ 0x4A7484AA ∷ 0x5CB0A9DC ∷ 0x76F988DA ∷ 0x983E5152 ∷ 0xA831C66D ∷ 0xB00327C8 ∷ 0xBF597FC7
    ∷ 0xC6E00BF3 ∷ 0xD5A79147 ∷ 0x06CA6351 ∷ 0x14292967 ∷ 0x27B70A85 ∷ 0x2E1B2138 ∷ 0x4D2C6DFC
    ∷ 0x53380D13 ∷ 0x650A7354 ∷ 0x766A0ABB ∷ 0x81C2C92E ∷ 0x92722C85 ∷ 0xA2BFE8A1 ∷ 0xA81A664B
    ∷ 0xC24B8B70 ∷ 0xC76C51A3 ∷ 0xD192E819 ∷ 0xD6990624 ∷ 0xF40E3585 ∷ 0x106AA070 ∷ 0x19A4C116
    ∷ 0x1E376C08 ∷ 0x2748774C ∷ 0x34B0BCB5 ∷ 0x391C0CB3 ∷ 0x4ED8AA4A ∷ 0x5B9CCA4F ∷ 0x682E6FF3
    ∷ 0x748F82EE ∷ 0x78A5636F ∷ 0x84C87814 ∷ 0x8CC70208 ∷ 0x90BEFFFA ∷ 0xA4506CEB ∷ 0xBEF9A3F7
    ∷ 0xC67178F2 ∷ []

-- (value >> count) | (value << (32 - count)), in 32 bits
unfoldable pub rotate_right : ℕ → ℕ → ℕ
rotate_right value count = bit_or (value / 2 ^ count) (u32 (value * 2 ^ (32 - count)))

-- An array read; every index below is in range.
abbrev word_at : List ℕ → ℕ → ℕ
word_at [] i = 0
word_at (w ∷ ws) zero = w
word_at (w ∷ ws) (suc i) = word_at ws i

-- The first sixteen words of the schedule, big-endian.
unfoldable pub block_words : List ℕ → List ℕ
block_words (b0 ∷ b1 ∷ b2 ∷ b3 ∷ rest) =
    bit_or (bit_or (bit_or (b0 * 2 ^ 24) (b1 * 2 ^ 16)) (b2 * 2 ^ 8)) b3 ∷ block_words rest
block_words _ = []

-- `words[index]` for index from 16 on; `recent` holds the words before it, the latest first.
unfoldable pub next_word : List ℕ → ℕ
unfolding rotate_right
next_word recent =
    let w15 = word_at recent 14 in
    let w2 = word_at recent 1 in
    let s0 = bit_xor (bit_xor (rotate_right w15 7) (rotate_right w15 18)) (w15 / 2 ^ 3) in
    let s1 = bit_xor (bit_xor (rotate_right w2 17) (rotate_right w2 19)) (w2 / 2 ^ 10) in
    u32 (word_at recent 15 + s0 + word_at recent 6 + s1)

unfoldable pub extend : ℕ → List ℕ → List ℕ
extend zero recent = recent
extend (suc n) recent = extend n (next_word recent ∷ recent)

unfoldable pub reverse_onto : List ℕ → List ℕ → List ℕ
reverse_onto [] acc = acc
reverse_onto (x ∷ xs) acc = reverse_onto xs (x ∷ acc)

unfoldable pub schedule : List ℕ → List ℕ
unfolding block_words next_word extend reverse_onto
schedule block = reverse_onto (extend 48 (reverse_onto (block_words block) [])) []

pub record State : Type 0 where
  pub a : ℕ
  pub b : ℕ
  pub c : ℕ
  pub d : ℕ
  pub e : ℕ
  pub f : ℕ
  pub g : ℕ
  pub h : ℕ

-- One round; `~e & g` is taken in 32 bits.
unfoldable pub round : State → ℕ → ℕ → State
unfolding rotate_right
round s constant word =
    let sum1 = bit_xor (bit_xor (rotate_right s.e 6) (rotate_right s.e 11)) (rotate_right s.e 25) in
    let choice = bit_xor (bit_and s.e s.f) (bit_and (2 ^ 32 - 1 - s.e) s.g) in
    let temp1 = u32 (s.h + sum1 + choice + constant + word) in
    let sum0 = bit_xor (bit_xor (rotate_right s.a 2) (rotate_right s.a 13)) (rotate_right s.a 22) in
    let majority = bit_xor (bit_xor (bit_and s.a s.b) (bit_and s.a s.c)) (bit_and s.b s.c) in
    let temp2 = u32 (sum0 + majority) in
    record {
      a = u32 (temp1 + temp2);
      b = s.a;
      c = s.b;
      d = s.c;
      e = u32 (s.d + temp1);
      f = s.e;
      g = s.f;
      h = s.g;
    }

unfoldable pub rounds : List ℕ → List ℕ → State → State
unfolding round
rounds (k ∷ ks) (w ∷ ws) s = rounds ks ws (round s k w)
rounds _ _ s = s

unfoldable pub add_state : State → State → State
add_state s t = record {
  a = u32 (s.a + t.a);
  b = u32 (s.b + t.b);
  c = u32 (s.c + t.c);
  d = u32 (s.d + t.d);
  e = u32 (s.e + t.e);
  f = u32 (s.f + t.f);
  g = u32 (s.g + t.g);
  h = u32 (s.h + t.h);
}

unfoldable pub transform : List ℕ → State → State
unfolding schedule rounds add_state
transform block s = add_state s (rounds round_constants (schedule block) s)

abbrev pub initial_state : State
initial_state = record {
  a = 0x6A09E667;
  b = 0xBB67AE85;
  c = 0x3C6EF372;
  d = 0xA54FF53A;
  e = 0x510E527F;
  f = 0x9B05688C;
  g = 0x1F83D9AB;
  h = 0x5BE0CD19;
}

-- A word's four bytes, most significant first.
abbrev pub word_bytes : ℕ → List ℕ
word_bytes w = (w / 2 ^ 24) % 256 ∷ (w / 2 ^ 16) % 256 ∷ (w / 2 ^ 8) % 256 ∷ w % 256 ∷ []

unfoldable pub state_bytes : State → List ℕ
state_bytes s =
    word_bytes s.a
    ++ (word_bytes s.b
        ++ (word_bytes s.c
            ++ (word_bytes s.d
                ++ (word_bytes s.e ++ (word_bytes s.f ++ (word_bytes s.g ++ word_bytes s.h))))))
