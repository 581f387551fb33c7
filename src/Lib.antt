-- ===== src/Lib.antt =====
-- StreamPay: a Soroban contract that escrows tokens of a sender and streams them linearly to a
-- recipient. A stream is created (alone or in a batch), topped up, extended, withdrawn from and
-- cancelled; an administrator can be replaced behind a one-day timelock, change the supply cap and
-- upgrade the code. Every entry point reads and writes the contract's storage, moves tokens by
-- calling the token contract, and publishes events.
--
-- The files, and the code that each models:
--   * Base: the native numbers, signed integers with the checked operations of i128 and u64 written
--     as tests of the bounds, dictionaries.
--   * Error, Constants, Types, Normalize, Vesting, Events: src/error.rs, src/constants.rs,
--     src/types.rs, src/normalize.rs, src/vesting.rs and src/events.rs, under the functions' own
--     names.
--   * Host: the Soroban host and the token contract, which are no part of the repository. `Host` is
--     a parameter: balances, the transfer, and the arithmetic of storage lifetimes. `MovesTokens`
--     states what the code relies on of a transfer, and `ExtendsLife` (in Trace.Lives) what it
--     relies on of the lifetimes.
--   * World, Storage: the state of src/storage.rs, with a field for each storage key, and its
--     helpers. `Action` is the monad of contract code: it returns, returns an error, or traps.
--   * Contract: the entry points of src/lib.rs, one function each. Admin, Create, Batch, TopUp,
--     Extend, Withdraw and Cancel change the state, Views read it. Their Effect modules give, for a
--     call that returns, the checks it passed and the state it left; their Exact modules give the
--     converse, and their Complete modules conditions that are easier to meet. Batch.Sequence has
--     the creations that a batch is compared with.
--   * Invariant: what holds of the state between two calls, and that every entry point keeps it;
--     the escrow against the reported supply and against the contract's token balance.
--   * Trace: the entry points as calls, and sequences of calls by a clock that does not run
--     backwards. The host drops the writes of a call that fails or traps (`settle`). A run takes
--     which calls and which moves of the tokens outside the contract it allows as parameters.
--     Solvent is about the contract's balance against its escrow and what the parties can get out
--     (under `MadeIfCovered`, a condition on the payments that they ask for), Balanced about the
--     two to the unit, Capped about the supply cap, Ranges about the Rust types of the numbers,
--     Tracked about the reported supply; Replay has an indexer that follows the published events,
--     Cash a cash book kept from them, Exact the calls against a description by conditions and
--     effects, Draws several withdrawals of one stream, Step and Lifecycle the life of one stream,
--     Lives the lifetimes of the streams' entries, Payout what an ended stream pays, Office the
--     administrator's decisions as a state machine, Errors the calls that return an error, Causes
--     what each error says. An upgrade traps on a hash that no code is uploaded under, and is
--     otherwise taken to leave this code in place.
--   * Tests: a token ledger that satisfies the hypotheses, sample states, and the theorems at
--     concrete inputs.
--
-- An i128 or a u64 is an integer or a natural number. Where the source uses a checked operation the
-- model tests the bounds, so that a result past them is the error of the source; of the differences
-- that the source leaves unchecked, those that could pass below zero trap there, as overflow checks
-- are on, and the others are taken after a test of their order. No definition runs on fuel: the two
-- loops of the batch recur on the requests. `read_admin` and `read_token` trap on a key that is not
-- set, as `unwrap` does.
--
-- Not modelled: the symbols of event topics, the contract's metadata, the expiry of storage entries
-- (their live-until ledgers are), and the tests.
pub mod Base
pub mod Error
pub mod Constants
pub mod Types
pub mod Normalize
pub mod Vesting
pub mod Host
pub mod Events
pub mod World
pub mod Storage
pub mod Contract
pub mod Invariant
pub mod Trace
pub mod Tests
