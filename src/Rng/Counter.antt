-- ===== src/Rng/Counter.antt =====
-- Counter layout v1 keeps its fields apart.
use monte_carlo.Prelude.{ℕ, ◌+◌, ◌*◌, ◌/◌, ◌%◌, ◌^◌, ◌<◌, ◌≡◌, arith}
use monte_carlo.Prelude.Bits.{low-bit_or-high}
use monte_carlo.Exception.{ok}
use monte_carlo.Rng.{PhiloxCounter, packed_counter, pack_counter_v1}

-- The four coordinates of a logical draw, within the widths of the layout.
pub record Draw : Type 0 where
  pub scenario : ℕ
  pub step : ℕ
  pub dimension : ℕ
  pub index : ℕ

pub record Fits (d : Draw) : Type 0 where
  pub scenario : d.scenario < 2 ^ 40
  pub step : d.step < 2 ^ 24
  pub dimension : d.dimension < 2 ^ 8
  pub index : d.index < 2 ^ 24

abbrev pub counter_of : Draw → PhiloxCounter
counter_of d = packed_counter d.scenario d.step d.dimension d.index

-- Reading the fields back, at the bit positions that the layout documents.
abbrev pub unpack : PhiloxCounter → Draw
unpack c = record {
  scenario = c.w0 + (c.w1 % 2 ^ 8) * 2 ^ 32;
  step = c.w1 / 2 ^ 8;
  dimension = c.w2 % 2 ^ 8;
  index = c.w2 / 2 ^ 8;
}

-- The layout accepts every draw whose coordinates fit, and its four fields can be read back.
pub unpack-pack_counter_v1 :
    (d : Draw)
    → Fits d
    → (pack_counter_v1 d.scenario d.step d.dimension d.index ≡ ok (counter_of d))
      × (unpack (counter_of d) ≡ d)
unfolding pack_counter_v1 packed_counter
unpack-pack_counter_v1 d f = (
  ground arith,
  ground (
    arith,
    low-bit_or-high 8 (d.scenario / 2 ^ 32) d.step,
    low-bit_or-high 8 d.dimension d.index,
  ),
)

-- The four words of a counter are 32-bit words.
pub record IsCounter (c : PhiloxCounter) : Type 0 where
  pub w0-lt : c.w0 < 2 ^ 32
  pub w1-lt : c.w1 < 2 ^ 32
  pub w2-lt : c.w2 < 2 ^ 32
  pub w3-lt : c.w3 < 2 ^ 32

pub counter_of-IsCounter : (d : Draw) → Fits d → IsCounter (counter_of d)
unfolding packed_counter
counter_of-IsCounter d f =
    ground
      (arith, low-bit_or-high 8 (d.scenario / 2 ^ 32) d.step, low-bit_or-high 8 d.dimension d.index)
