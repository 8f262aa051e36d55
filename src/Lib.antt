-- ===== src/Lib.antt =====
-- naome-memory: the deterministic core of an agent's memory (crates/naome-memory-core/src).
--
-- An agent's episodes are immutable atoms, named by the hash of their canonical bytes. A cohort of
-- short-term atoms is retired by a plan that consolidates similar episodes into semantic atoms, and that
-- keeps a few episodes exactly, which a seeded lottery draws. A query ranks atoms, and may recall some
-- long-term episodes at random.
--
-- The files and the code that they model:
--   Base            lists, Boolean tests, 64-bit words, orders, sorts and sets, as Rust's library has them
--   Fixed           fixed.rs: values in millionths (Ppm)
--   Error           error.rs: MemoryError, and Result with the `?` operator
--   Policy          policy.rs: PolicyV1, its committed values and their check
--   Atom            model.rs: the records of an atom and of its state (a name drops its suffix V1)
--   Canonical       canonical.rs: the typed binary encoding
--   Hex             canonical.rs: the hexadecimal text of a digest
--   Externals       what the crate calls: SHA-256, ChaCha20 and serde, as a record of functions
--   Digests         the methods of model.rs and policy.rs that hash or measure canonical bytes
--   Validation      validation.rs: validate_memory_atom_body and its parts
--   Retirement      retirement.rs: Cohort (its checks), Similarity (clusters), Score, Consensus and
--                   Semantic (the bodies of clusters), Budget, Lottery, PostState, and Plan,
--                   which composes them as plan_retirement does
--   Retrieval       retrieval.rs: rank_retrieval
--   Seal            seal.rs: Input (the checks of an episode), Prepared (its digests and running sizes),
--                   Routes (RouteChoices, a segment tree), Partition (plan_episode_ranges), and Episode
--                   (the bodies, seal_episode, seal_episode_chain and its closure)
--   Receipt         receipt.rs: Types, Structure (verify_plan_structure, with Projected and Evidence), and
--                   apply_retirement, verify_receipt
--   Tests           runs on concrete inputs
--
-- A component Foo has its definitions in Foo.antt and its theorems below Foo/. Validation is called for
-- each atom that is sealed or planned, and the chain of episodes is sealed along the ranges that
-- Seal/Partition plans; Retrieval uses the similarity of Retirement/Similarity and draws
-- with Retirement/Lottery; Receipt computes a plan again by Retirement/Plan.
--
-- How the code is modelled. A u64, u32 or usize is a natural number, with each checked, saturating or
-- wrapping operation written out; usize has 64 bits, and a plain sum wraps as a release build does. A
-- Digest32, AtomId or Seed32 is the number that its bytes spell big-endian, so that the order of bytes
-- is the order of numbers. A BTreeSet is the list of its elements in order, a BTreeMap the list of its
-- entries. sort_unstable is an insertion sort, which gives the same list because each comparison ends
-- with the identifier. An error is a value of Result. The ChaCha20 generator of a seed is a stream of
-- 64-bit outputs; the rejection loop of the lottery reads it with a fuel, the number of outputs that one
-- draw may consume, and `none` says that the fuel is used up. A fuel is enough as soon as any that many
-- consecutive outputs include one that is at least the population, which for a population below 2^32
-- fails for one output with probability less than 2^-32.
--
-- The store that applies a plan is any state with any function on it; a receipt is a record of digests, and
-- nothing is assumed of SHA-256.
--
-- Not modelled: the SQLite repository, the command line, the laboratory and
-- the build tasks, which are input and output around this core.
pub mod Base
pub mod Fixed
pub mod Error
pub mod Atom
pub mod Policy
pub mod Canonical
pub mod Externals
pub mod Digests
pub mod Validation
pub mod Retirement
pub mod Retrieval
pub mod Seal
pub mod Hex
pub mod Receipt
mod Tests
