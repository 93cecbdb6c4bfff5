-- ===== src/Persistence/Payload/RoundTrip.antt =====
-- The decoders of src/persistence_codec.cpp return what the encoders of src/codec.cpp wrote.
use monte_carlo.Prelude.{ℕ, ◌^◌, ◌<◌, ◌≡◌, ◌∙◌, sym, ap, arith, refl, [], ◌++◌, append-nil, ==_refl}
use monte_carlo.Exception.{ok}
use monte_carlo.Float64.{Float64, BitCast}
use monte_carlo.Aggregate.{AggregateStats}
use monte_carlo.Aggregate.Merge.{IsValid}
use monte_carlo.Codec.{u32_bytes, u64_bytes, double_bytes, aggregate_bytes}
use monte_carlo.Reader.{binary64}
use monte_carlo.Reader.RoundTrip.{u32-u32_bytes, u64-u64_bytes, binary64-double_bytes, finish-nil}
use monte_carlo.Persistence.Payload.{decode_aggregate_payload, read_aggregate}

module _ {D : Type 0} ⦃fp : Float64 D⦄ (cast : BitCast fp) where
  binary64_last : (x : D) → binary64 (double_bytes x) ≡ ok (x, [])
  binary64_last x =
      ap binary64 (sym (append-nil (double_bytes x))) ∙ binary64-double_bytes cast x []

  -- When doubles are cast to words and back without loss, a valid aggregate with a 64-bit count
  -- is decoded, under the same 32-bit schema, from the payload bytes that encode it.
  pub decode_aggregate_payload-aggregate_bytes :
      (s : AggregateStats D) (schema : ℕ)
      → IsValid s
      → s.n < 2 ^ 64
      → schema < 2 ^ 32
      → decode_aggregate_payload (aggregate_bytes s schema) schema ≡ ok s
  unfolding decode_aggregate_payload read_aggregate aggregate_bytes
  decode_aggregate_payload-aggregate_bytes s schema v fits small =
      rw
        (
          u32-u32_bytes 1
              (u32_bytes schema
                ++ (u64_bytes s.n
                    ++ (double_bytes s.mean
                        ++ (double_bytes s.m2 ++ (double_bytes s.min ++ double_bytes s.max)))))
              (omega arith),
          u32-u32_bytes schema
              (u64_bytes s.n
                ++ (double_bytes s.mean
                    ++ (double_bytes s.m2 ++ (double_bytes s.min ++ double_bytes s.max))))
              small,
          ==_refl schema,
          u64-u64_bytes s.n
              (double_bytes s.mean
                ++ (double_bytes s.m2 ++ (double_bytes s.min ++ double_bytes s.max)))
              fits,
          binary64-double_bytes cast s.mean
              (double_bytes s.m2 ++ (double_bytes s.min ++ double_bytes s.max)),
          binary64-double_bytes cast s.m2 (double_bytes s.min ++ double_bytes s.max),
          binary64-double_bytes cast s.min (double_bytes s.max),
          binary64_last s.max,
          finish-nil,
          v,
        )
        refl
