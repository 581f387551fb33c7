-- ===== src/Contract.antt =====
-- The entry points of src/lib.rs, one module for each group. All take the host's functions and the
-- invocation's environment, and run in the monad of `World`.
pub mod Calls
pub mod Admin
pub mod Create
pub mod Batch
pub mod TopUp
pub mod Extend
pub mod Withdraw
pub mod Cancel
pub mod Views
