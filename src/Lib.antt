-- ===== src/Lib.antt =====
-- The protocol of the Coins bridge, its guest program, the prover host's commands, and the adapter
-- that turns a verified proof into a verifier script.
--
-- A bridge output holds the money of three accounts. A transition either collects two deposits, or
-- settles one transfer from account 0 to account 1 (with a fee to account 2) together with one
-- withdrawal by account 1. The guest checks a transition inside a virtual machine and commits its
-- statement; a Groth16 proof of that run travels in an envelope that the host opens, checks and exports.
--
-- What models what:
-- - Protocol: the constants, errors and records of crates/protocol/src/lib.rs; Protocol/Typed says
--   which values their Rust types admit.
-- - Account: `AccountState::zero`, `validate`, `root`, `backing` and `require_backing`. A loop over
--   the accounts is a function on the list of them (`validate_from`, `root_parts`, `backing_from`).
-- - Message: `OutPoint::encode`, `statement_prefix`, `scoped_transfer_message` and
--   `withdrawal_message`; CompactSize: `encode_compact_size`; Caboose: `encode_genesis_state`,
--   `encode_active_state` and `caboose_script_pubkey`.
-- - Signature: `valid_signature`, with crates/protocol/src/crypto.rs for the accelerated build.
-- - Collect: `apply_collection`; its loops are `credit_all`, `deposit_total` and `extend_records`.
-- - Settle: `apply_settlement`; its straight-line parts are `is_unsupported`, `apply_transfer` and
--   `debit_withdrawal`.
-- - Bridge: `validate_proof_input` and guest/src/main.rs; Bridge/History has the histories of the
--   bridge as a step relation, from the zero state of a deployment's keys.
-- - Wrapper: crates/prover-host/src/wrapper.rs.
-- - ArkAdapter: crates/prover-host/src/ark_adapter.rs; `export` is cut in two at the folding, and the
--   JSON objects are records.
-- - Fixtures: the module `fixtures` of crates/protocol/src/lib.rs.
-- - Host: the scenarios of crates/prover-host/src/main.rs, from `bytes32` to `scenario`.
-- - Process: the effects of the host, as a tree of questions to the system; Process/Holds is a logic
--   of them, Process/Run a run in one environment, and Process/Files a machine with stored files.
-- - Evidence: the tests and JSON objects between the questions.
-- - Command: `load_input`, `check_release_artifacts` and `main`, cut into `derive`, `prepare`, and
--   `session` for `execute`, `prove` and `verify`.
-- - Adapter: script/coins_gsr_adapter.rs; Vectors: crates/protocol/examples/generate_vectors.rs and
--   crates/protocol/tests/vectors.rs.
-- - UnitTests: the tests of crates/protocol/src/lib.rs, crates/prover-host/src/wrapper.rs and
--   crates/prover-host/src/ark_adapter.rs, as programs that panic where an assertion fails, with the
--   hash, the verifier and the signer left open.
-- - Json: what is used of JSON values. Crates: what the code takes from other crates. Base and Bytes:
--   shared helpers.
-- - Examples: stand-ins for the other crates, runs of the repository's tests, and the theorems at
--   concrete inputs.
--
-- Bytes are natural numbers below 256, and arrays are lists with a length in the hypotheses that
-- need it. The machine integers are natural numbers; each checked operation compares with 2 to the
-- power of 32 or 64, and each conversion to bytes keeps the low ones. A result is a value, an error or
-- a panic, so that an `expect`, an `unwrap` or an index that could fail is visible. All loops run over
-- arrays, so there is no fuel anywhere.
--
-- Parameters, because their code is not in the repository: SHA-256 (only that it returns 32 bytes),
-- the curve points and signatures of Coins, its message of a transfer, the curve crates of the
-- accelerated build (that they accept what Arkworks decoded is the hypothesis `IsCompatible`, and
-- that they compute, on the group elements of the points, the pairing by which Coins verifies, is
-- `IsPairing`),
-- SP1's verifier, Arkworks, hexadecimal coding, JSON values, and the making of signatures. A
-- theorem that rests on the strength of the hash says instead that the hash has a collision, and
-- which messages collide; one that rests on the strength of signatures names the signature that
-- verifies twice.
--
-- The answers of the system, and of the making of proofs, are arbitrary and may depend on all that
-- was asked before; running the guest, setting up a program and checking a proof are functions. What
-- other processes do between two questions shows only in the answers, so that "seen not to exist" is
-- said of the time of the question. On a machine with stored files (Process/Files) no other process
-- writes, what cannot be written is left open, and a proof is stored as bytes whose coding is a
-- parameter. The adapter runs inside BitVMX, whose replay, script compiler and evaluation are
-- parameters; `IsLinked` in Adapter/Accepted says what the host and the adapter must share for the
-- one's files to pass the other's assertions.
--
-- Not modelled: the Python and shell scripts, the Bitcoin scripts and transactions that they build,
-- the patches of other projects, the loggers, and the printed text of an error of SP1's verifier.
pub mod Base
pub mod Bytes
pub mod CompactSize
pub mod Crates
pub mod Protocol
pub mod Signature
pub mod Account
pub mod Message
pub mod Caboose
pub mod Collect
pub mod Settle
pub mod Bridge
pub mod Wrapper
pub mod ArkAdapter
pub mod Fixtures
pub mod Json
pub mod Host
pub mod Process
pub mod Evidence
pub mod Command
pub mod Adapter
pub mod Vectors
pub mod UnitTests
pub mod Examples
