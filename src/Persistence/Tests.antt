-- ===== src/Persistence/Tests.antt =====
-- The storage formats at one record over the words of Sample.
use monte_carlo.Prelude.{ℕ, ◌≡◌, arith, refl, replicate, bytes_eq_refl, List}
use monte_carlo.Exception.{ok}
use monte_carlo.Sample.{Word, word_float, word_cast}
use monte_carlo.Aggregate.Tests.{both, both-IsValid}
use monte_carlo.Hash.{sha256}
use monte_carlo.Layout.Tests.{block}
use monte_carlo.Codec.{aggregate_bytes}
use monte_carlo.Codec.Hashes.{aggregate_payload_hash_lem, encode_aggregate_payload_lem}
use monte_carlo.Hash.Digests.{sha256-IsDigest}
use monte_carlo.Coordinator.{stale_lease}
use monte_carlo.Envelope.{make_envelope}
use monte_carlo.Persistence.Status.{validation_status, status_code, validation_status-status_code}
use monte_carlo.Persistence.Payload.{decode_aggregate_payload}
use monte_carlo.Persistence.Payload.RoundTrip.{decode_aggregate_payload-aggregate_bytes}
use monte_carlo.Persistence.Block.{
  DurableBlockRecord, encode_block_record, block_magic, record_bytes,
}
use monte_carlo.Persistence.Block.Decode.{decode_block_record}
use monte_carlo.Persistence.Block.RoundTrip.{Fits, decode_block_record-encode_block_record}

abbrev a_record : DurableBlockRecord Word
a_record = record {
  run_id = replicate 32 7;
  result = record {
    block = block 0 0 4;
    aggregate = both;
    run_spec_hash = replicate 32 1;
    execution_layout_hash = replicate 32 2;
    build_fingerprint = replicate 32 3;
    payload_checksum = sha256 (aggregate_bytes both 1);
    rng_version = 2;
    stats_schema_version = 1;
    worker_id = 0;
  };
}

abbrev record_file : List ℕ
record_file = make_envelope block_magic (record_bytes a_record (aggregate_bytes both 1))

a_record-Fits : Fits a_record
a_record-Fits = record {
  run_id = refl;
  run_spec_hash = refl;
  execution_layout_hash = refl;
  build_fingerprint = refl;
  payload_checksum = (sha256-IsDigest (aggregate_bytes both 1)).size;
  block = record {
    block_id = omega arith;
    start_scenario = omega arith;
    end_scenario = omega arith;
    run_incarnation = omega arith;
    lease_epoch = omega arith;
  };
  rng_version = omega arith;
  stats_schema_version = omega arith;
  worker_id = omega arith;
  observations = omega arith;
}

encode_block_record-file : encode_block_record a_record ≡ ok record_file
unfolding encode_block_record
encode_block_record-file =
    rw
      (
        aggregate_payload_hash_lem both both-IsValid,
        bytes_eq_refl (sha256 (aggregate_bytes both 1)),
        encode_aggregate_payload_lem both both-IsValid,
      )
      refl

decode_block_record-encode_block_record_example : decode_block_record record_file ≡ ok a_record
decode_block_record-encode_block_record_example =
    decode_block_record-encode_block_record word_cast a_record record_file a_record-Fits
      encode_block_record-file

decode_aggregate_payload-aggregate_bytes_example :
    decode_aggregate_payload (aggregate_bytes both 1) 1 ≡ ok both
decode_aggregate_payload-aggregate_bytes_example =
    decode_aggregate_payload-aggregate_bytes word_cast both 1 both-IsValid (omega arith)
      (omega arith)

validation_status-status_code_example : validation_status (status_code stale_lease) ≡ ok stale_lease
validation_status-status_code_example = validation_status-status_code stale_lease
