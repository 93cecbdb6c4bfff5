-- ===== src/Persistence/Block/RoundTrip.antt =====
-- A block record that was encoded is decoded to itself.
use monte_carlo.Prelude.{
  ℕ, ◌+◌, ◌^◌, ◌<◌, ◌≡◌, ◌∙◌, sym, ap, arith, refl, List, [], ◌++◌, append-nil, bytes_eq_refl,
  bytes_eq→eq, bytes_eq, false, not, ◌==◌, length, length-append,
}
use monte_carlo.Exception.{ok, >>=-eq-ok, throw_if-eq-ok}
use monte_carlo.Float64.{Float64, BitCast}
use monte_carlo.Aggregate.{AggregateStats}
use monte_carlo.Layout.{ScenarioBlock}
use monte_carlo.Codec.{
  u32_bytes, u64_bytes, double_bytes, aggregate_bytes, encode_aggregate_payload,
  aggregate_payload_hash,
}
use monte_carlo.Codec.Hashes.{encode_aggregate_payload-eq-ok}
use monte_carlo.Envelope.{make_envelope}
use monte_carlo.Reader.{digest}
use monte_carlo.Reader.RoundTrip.{
  u32-u32_bytes, u64-u64_bytes, byte_vector-append, digest-append, finish-nil,
}
use monte_carlo.Envelope.RoundTrip.{open_envelope-make_envelope, length-little_endian}
use monte_carlo.Persistence.Payload.{decode_aggregate_payload}
use monte_carlo.Persistence.Payload.RoundTrip.{decode_aggregate_payload-aggregate_bytes}
use monte_carlo.Persistence.Block.{
  DurableBlockRecord, block_bytes, record_bytes, encode_block_record, block_magic,
}
use monte_carlo.Persistence.Block.Decode.{read_block, read_record, decode_block_record}

-- The fields of a block are values of std::uint64_t.
pub record BlockFits (b : ScenarioBlock) : Type 0 where
  pub block_id : b.block_id < 2 ^ 64
  pub start_scenario : b.start_scenario < 2 ^ 64
  pub end_scenario : b.end_scenario < 2 ^ 64
  pub run_incarnation : b.run_incarnation < 2 ^ 64
  pub lease_epoch : b.lease_epoch < 2 ^ 64

-- The fields of a record are values of their C++ types: words of 64 bits and digests of 32 bytes.
pub record Fits {D : Type 0} (durable : DurableBlockRecord D) : Type 0 where
  pub run_id : length durable.run_id ≡ 32
  pub run_spec_hash : length durable.result.run_spec_hash ≡ 32
  pub execution_layout_hash : length durable.result.execution_layout_hash ≡ 32
  pub build_fingerprint : length durable.result.build_fingerprint ≡ 32
  pub payload_checksum : length durable.result.payload_checksum ≡ 32
  pub block : BlockFits durable.result.block
  pub rng_version : durable.result.rng_version < 2 ^ 64
  pub stats_schema_version : durable.result.stats_schema_version < 2 ^ 32
  pub worker_id : durable.result.worker_id < 2 ^ 64
  pub observations : durable.result.aggregate.n < 2 ^ 64

read_block-block_bytes :
    (b : ScenarioBlock) (rest : List ℕ)
    → BlockFits b
    → read_block (block_bytes b rest) ≡ ok (b, rest)
unfolding read_block block_bytes
read_block-block_bytes b rest h =
    rw
      (
        u64-u64_bytes b.block_id
            (u64_bytes b.start_scenario
              ++ (u64_bytes b.end_scenario
                  ++ (u64_bytes b.run_incarnation ++ (u64_bytes b.lease_epoch ++ rest))))
            h.block_id,
        u64-u64_bytes b.start_scenario
            (u64_bytes b.end_scenario
              ++ (u64_bytes b.run_incarnation ++ (u64_bytes b.lease_epoch ++ rest)))
            h.start_scenario,
        u64-u64_bytes b.end_scenario
            (u64_bytes b.run_incarnation ++ (u64_bytes b.lease_epoch ++ rest)) h.end_scenario,
        u64-u64_bytes b.run_incarnation (u64_bytes b.lease_epoch ++ rest) h.run_incarnation,
        u64-u64_bytes b.lease_epoch rest h.lease_epoch,
      )
      refl

digest_last : (xs : List ℕ) → length xs ≡ 32 → digest xs ≡ ok (xs, [])
digest_last xs h = ap digest (sym (append-nil xs)) ∙ digest-append xs [] h

length-block_bytes :
    (b : ScenarioBlock) (rest : List ℕ) → length (block_bytes b rest) ≡ 40 + length rest
unfolding block_bytes
length-block_bytes b rest =
    let b4 = u64_bytes b.lease_epoch ++ rest in
    let b3 = u64_bytes b.run_incarnation ++ b4 in
    let b2 = u64_bytes b.end_scenario ++ b3 in
    let b1 = u64_bytes b.start_scenario ++ b2 in
    omega (
      arith,
      length-append (u64_bytes b.block_id) b1,
      length-append (u64_bytes b.start_scenario) b2,
      length-append (u64_bytes b.end_scenario) b3,
      length-append (u64_bytes b.run_incarnation) b4,
      length-append (u64_bytes b.lease_epoch) rest,
      length-little_endian 8 b.block_id,
      length-little_endian 8 b.start_scenario,
      length-little_endian 8 b.end_scenario,
      length-little_endian 8 b.run_incarnation,
      length-little_endian 8 b.lease_epoch,
    )

module _ {D : Type 0} ⦃fp : Float64 D⦄ where
  read_record-record_bytes :
      (d : DurableBlockRecord D) (raw : List ℕ)
      → Fits d
      → length raw < 2 ^ 32
      → (d.result.block.lease_epoch == 0) ≡ false
      → decode_aggregate_payload raw d.result.stats_schema_version ≡ ok d.result.aggregate
      → aggregate_payload_hash d.result.aggregate d.result.stats_schema_version
        ≡ ok d.result.payload_checksum
      → read_record (record_bytes d raw) ≡ ok (d, [])
  unfolding read_record record_bytes
  read_record-record_bytes d raw h small lease decoded hashed =
      let r = d.result in
      let r9 = u32_bytes (length raw) ++ (raw ++ r.payload_checksum) in
      let r8 = u64_bytes r.worker_id ++ r9 in
      let r7 = u32_bytes r.stats_schema_version ++ r8 in
      let r6 = u64_bytes r.rng_version ++ r7 in
      let r5 = block_bytes r.block r6 in
      let r4 = r.build_fingerprint ++ r5 in
      let r3 = r.execution_layout_hash ++ r4 in
      let r2 = r.run_spec_hash ++ r3 in
      rw
        (
          digest-append d.run_id r2 h.run_id,
          digest-append r.run_spec_hash r3 h.run_spec_hash,
          digest-append r.execution_layout_hash r4 h.execution_layout_hash,
          digest-append r.build_fingerprint r5 h.build_fingerprint,
          read_block-block_bytes r.block r6 h.block,
          u64-u64_bytes r.rng_version r7 h.rng_version,
          u32-u32_bytes r.stats_schema_version r8 h.stats_schema_version,
          u64-u64_bytes r.worker_id r9 h.worker_id,
          u32-u32_bytes (length raw) (raw ++ r.payload_checksum) small,
          byte_vector-append (length raw) raw r.payload_checksum refl,
          decoded,
          digest_last r.payload_checksum h.payload_checksum,
          finish-nil,
          lease,
          hashed,
          bytes_eq_refl r.payload_checksum,
        )
        refl

  length-aggregate_bytes :
      (s : AggregateStats D) (schema : ℕ) → length (aggregate_bytes s schema) ≡ 48
  unfolding aggregate_bytes
  length-aggregate_bytes s schema =
      let b3 = double_bytes s.min ++ double_bytes s.max in
      let b2 = double_bytes s.m2 ++ b3 in
      let b1 = double_bytes s.mean ++ b2 in
      let b0 = u64_bytes s.n ++ b1 in
      omega (
        arith,
        length-append (u32_bytes 1) (u32_bytes schema ++ b0),
        length-append (u32_bytes schema) b0,
        length-append (u64_bytes s.n) b1,
        length-append (double_bytes s.mean) b2,
        length-append (double_bytes s.m2) b3,
        length-append (double_bytes s.min) (double_bytes s.max),
        length-little_endian 4 1,
        length-little_endian 4 schema,
        length-little_endian 8 s.n,
        length-little_endian 8 (fp.to_bits s.mean),
        length-little_endian 8 (fp.to_bits s.m2),
        length-little_endian 8 (fp.to_bits s.min),
        length-little_endian 8 (fp.to_bits s.max),
      )

  length-record_bytes :
      (d : DurableBlockRecord D) (raw : List ℕ)
      → Fits d
      → length (record_bytes d raw) ≡ 224 + length raw
  unfolding record_bytes
  length-record_bytes d raw h =
      let r = d.result in
      let r9 = u32_bytes (length raw) ++ (raw ++ r.payload_checksum) in
      let r8 = u64_bytes r.worker_id ++ r9 in
      let r7 = u32_bytes r.stats_schema_version ++ r8 in
      let r6 = u64_bytes r.rng_version ++ r7 in
      let r5 = block_bytes r.block r6 in
      let r4 = r.build_fingerprint ++ r5 in
      let r3 = r.execution_layout_hash ++ r4 in
      omega (
        arith,
        length-append d.run_id (r.run_spec_hash ++ r3),
        length-append r.run_spec_hash r3,
        length-append r.execution_layout_hash r4,
        length-append r.build_fingerprint r5,
        length-block_bytes r.block r6,
        length-append (u64_bytes r.rng_version) r7,
        length-append (u32_bytes r.stats_schema_version) r8,
        length-append (u64_bytes r.worker_id) r9,
        length-append (u32_bytes (length raw)) (raw ++ r.payload_checksum),
        length-append raw r.payload_checksum,
        length-little_endian 8 r.rng_version,
        length-little_endian 4 r.stats_schema_version,
        length-little_endian 8 r.worker_id,
        length-little_endian 4 (length raw),
        h.run_id,
        h.run_spec_hash,
        h.execution_layout_hash,
        h.build_fingerprint,
        h.payload_checksum,
      )

  opens :
      (d : DurableBlockRecord D) (raw : List ℕ)
      → length (record_bytes d raw) ≡ 272
      → read_record (record_bytes d raw) ≡ ok (d, [])
      → decode_block_record (make_envelope block_magic (record_bytes d raw)) ≡ ok d
  unfolding decode_block_record
  opens d raw size h =
      rw
        (
          decode_block_record,
          open_envelope-make_envelope block_magic (record_bytes d raw) 4096 refl (omega arith)
              (omega arith),
          h,
        )
        refl

  encoded :
      (cast : BitCast fp) (d : DurableBlockRecord D) (raw computed : List ℕ)
      → Fits d
      → (d.result.block.lease_epoch == 0) ≡ false
      → aggregate_payload_hash d.result.aggregate d.result.stats_schema_version ≡ ok computed
      → not (bytes_eq d.result.payload_checksum computed) ≡ false
      → encode_aggregate_payload d.result.aggregate d.result.stats_schema_version ≡ ok raw
      → decode_block_record (make_envelope block_magic (record_bytes d raw)) ≡ ok d
  encoded cast d raw computed h lease hashed same wrote =
      let (schema, (valid, written)) =
        encode_aggregate_payload-eq-ok d.result.aggregate d.result.stats_schema_version wrote in
      let raw_size : length raw ≡ 48 =
        ap (λ (b : List ℕ). length b) (sym written)
        ∙ length-aggregate_bytes d.result.aggregate d.result.stats_schema_version in
      let checksum : computed ≡ d.result.payload_checksum =
        sym (bytes_eq→eq d.result.payload_checksum computed (ground arith)) in
      let decoded : decode_aggregate_payload raw d.result.stats_schema_version
          ≡ ok d.result.aggregate =
        ap (λ (b : List ℕ). decode_aggregate_payload b d.result.stats_schema_version) (sym written)
        ∙ decode_aggregate_payload-aggregate_bytes cast d.result.aggregate
            d.result.stats_schema_version valid h.observations h.stats_schema_version in
      opens d raw (omega (arith, length-record_bytes d raw h)) (
        read_record-record_bytes d raw h (omega arith) lease decoded
          (hashed ∙ ap (λ (b : List ℕ). ok b) checksum))

  -- When doubles are cast to words and back without loss, and the encoding of a block record whose
  -- fields are values of their C++ types returns some bytes, the decoding of these bytes returns
  -- the record.
  pub decode_block_record-encode_block_record :
      (cast : BitCast fp) (d : DurableBlockRecord D) (bytes : List ℕ)
      → Fits d
      → encode_block_record d ≡ ok bytes
      → decode_block_record bytes ≡ ok d
  unfolding encode_block_record
  decode_block_record-encode_block_record cast d bytes h e =
      let (lease, e1) = throw_if-eq-ok (d.result.block.lease_epoch == 0) _ _ e in
      let (computed, hashed, e2) =
        >>=-eq-ok (aggregate_payload_hash d.result.aggregate d.result.stats_schema_version) _ e1 in
      let (same, e3) = throw_if-eq-ok (not (bytes_eq d.result.payload_checksum computed)) _ _ e2 in
      let (raw, wrote, e4) =
        >>=-eq-ok (encode_aggregate_payload d.result.aggregate d.result.stats_schema_version) _
          e3 in
      ap decode_block_record (sym (ok-inj e4))
      ∙ encoded cast d raw computed h lease hashed same wrote
    where
      ok-inj : {a b : List ℕ} → ok a ≡ ok b → a ≡ b
      ok-inj h = ground arith
