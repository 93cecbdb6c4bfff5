-- ===== src/Persistence.antt =====
-- include/mc/persistence.hpp and src/persistence_codec.cpp: the durable artifacts of a run.
pub mod Status
pub mod Payload
pub mod Block
pub mod Metadata
pub mod Manifest
mod Tests
