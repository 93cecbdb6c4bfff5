-- ===== src/Lib.antt =====
-- monte-carlo: a deterministic Monte Carlo pricing engine. A run specification is validated, its
-- scenarios are cut into blocks, each block draws counter-based random numbers and gives a
-- block-local Welford aggregate, workers hand their results over bounded queues to a coordinator,
-- which accepts each block's result at most once, and the accepted aggregates are reduced along a
-- fixed tree. What is accepted is kept in durable artifacts, identified by SHA-256 and guarded by
-- CRC32C.
--
-- Files, and the code they are about:
--   Float64      the binary64 operations that the compiler and the C library give, as an
--                interface; BitCast is the lossless cast between doubles and words
--   Exception    the C++ exceptions, and functions that may throw them
--   RunSpec      include/mc/run_spec.hpp, src/run_spec.cpp: RunSpec::validate
--   Aggregate    include/mc/aggregate.hpp, src/aggregation/aggregate.cpp
--   Hash         include/mc/hash.hpp, src/hash.cpp: Hash/Rounds has the compression function,
--                Hash the streaming hasher
--   Rng          include/mc/rng.hpp, src/rng/philox_rng.cpp
--   Layout       the types of include/mc/engine.hpp; EngineConfig::validate and make_blocks of
--                src/runtime/engine.cpp
--   Reduce       reduce_block_results of src/runtime/engine.cpp
--   Queue        include/mc/bounded_queue.hpp
--   Execute      execute_missing_blocks of src/runtime/engine.cpp: scheduler, workers and
--                coordinator as a step relation over the two queues
--   Parallel     compute_block, run_parallel and the confidence bounds of src/runtime/engine.cpp;
--                Parallel/Leaves has the sequential run that run_parallel is compared with
--   Model        include/mc/model.hpp, src/models/gbm.cpp, src/models/heston.cpp
--   RunStore     the checkpoint cadence and the storage checks of src/run_store.cpp
--   Codec        src/codec.cpp: canonical payloads and their hashes
--   Coordinator  include/mc/coordinator.hpp, src/runtime/coordinator.cpp
--   Reader       the class Reader of src/persistence_codec.cpp
--   Envelope     crc32c, make_envelope and open_envelope of src/persistence_codec.cpp
--   Persistence  the rest of src/persistence_codec.cpp: status codes, payload decoders, block
--                records, run metadata and manifests
--   Sample       arithmetic on words for the examples, which stand in the Tests modules
--
-- How the code is written here. Machine words are native numbers with their wrap-around written
-- out (add64, sub64, `% 2 ^ 32`). A byte string, a std::string and a digest are lists of numbers.
-- An exception is an error value that carries its text. A state that the code changes in place is
-- an argument and comes back in the result: commit_result returns the classification and the new
-- state. The threads of a run take turns in any order, and one turn is a critical section, a
-- computation, or a call of consume_result; a call of a queue that would wait is no turn, so
-- wakeups of condition variables are not in the model. An object of type Reader is the list of
-- the bytes behind its cursor. A double is a value of an arbitrary type with the operations of
-- Float64, so what is proved holds whatever the rounding; where a property needs a fact about
-- doubles, it is a named hypothesis (BitCast, StrictOrder, SignLaws). That an aggregate of
-- Welford's update meets its invariant is such a fact, and the properties of a parallel run that
-- need it say so.
--
-- Fuel. absorb_blocks of Hash takes its fuel from the number of bytes, and each round takes 64 of
-- them. reduce_levels takes one unit for each leaf, and each level halves their number.
-- to_decimal takes 20 digits, which every 64-bit word has at most. observe_range takes a unit for
-- each scenario up to the block's end, and each round advances by one at least. The other loops
-- recurse on their data or on a counter that the source gives.
--
-- Not modelled: of src/runtime/engine.cpp, timers and metrics, a thread that cannot be created,
-- the early return for a run that has nothing left to compute (run_parallel always has a block),
-- and run_parallel_durable; of src/run_store.cpp, the file-system protocol and a failing
-- std::filesystem::space; black_scholes_call_price of src/models/gbm.cpp and
-- src/models/heston_analytic.cpp, which are numerical references; src/failure_injection.cpp,
-- which is there for tests; the build facts of src/identity.cpp, of which the build hash is an
-- argument of make_coordinator_state; src/parse.cpp, src/metrics.cpp, the tools and the tests. Of
-- src/run_spec.cpp, warnings and feller_ratio are left out. CRC32C table entries are computed
-- where they are used. The 64-bit host that the program supports gives size_max.
pub mod Prelude
pub mod Exception
pub mod Float64
pub mod RunSpec
pub mod Aggregate
pub mod Hash
pub mod Rng
pub mod Layout
pub mod Reduce
pub mod Codec
pub mod Coordinator
pub mod Reader
pub mod Envelope
pub mod Persistence
pub mod Sample
pub mod Queue
pub mod Execute
pub mod Parallel
pub mod Model
pub mod RunStore
