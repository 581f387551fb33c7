-- ===== src/Tests.antt =====
-- A token and states to run the entry points on, and the theorems at concrete inputs.
mod Complete
mod Replay
mod Draws
mod Causes
mod Capped
mod Balanced
mod Exact
mod Cash
mod Sample
mod Story
mod Vesting
mod Views
mod Calls
mod Streams
mod Handover
mod Traces
mod Lifecycle
mod Solvent
mod Lives
mod Payout
mod Office
mod Errors
