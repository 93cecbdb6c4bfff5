-- ===== src/Envelope/Checksum.antt =====
-- What `open_envelope` of src/persistence_codec.cpp reads with `checksum_reader`.
use monte_carlo.Prelude.{ℕ, ◌-◌, ltb, ◌!=◌, ◌||◌}
use monte_carlo.Exception.{runtime_error, what}
use monte_carlo.Reader.{Read, byte_vector, u32, u64, finish, reject_if, ◌>>=◌, ◌>>◌, pure}

-- kStorageSchemaVersion
abbrev pub storage_schema_version : ℕ
storage_schema_version = 1

-- 8U + 4U + 8U + 4U
abbrev pub overhead : ℕ
overhead = 24

-- The stored checksum of an envelope of `size` bytes.
unfoldable pub read_checksum : ℕ → ℕ → Read ℕ
read_checksum size maximum_size = do
  magic ← byte_vector 8
  schema ← u32
  reject_if (schema != storage_schema_version)
      (runtime_error (what "unsupported durable storage schema version"))
  payload_size ← u64
  reject_if (ltb maximum_size payload_size || payload_size != size - overhead)
      (runtime_error (what "durable envelope payload length mismatch"))
  payload ← byte_vector payload_size
  stored_crc ← u32
  finish
  pure stored_crc
