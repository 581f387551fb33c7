-- ===== src/Invariant.antt =====
-- What is true of the contract's state between two calls, and the sums that the token accounting
-- of src/lib.rs is compared with.
pub mod Insert
pub mod WellFormed
pub mod Preserved
pub mod Batch
pub mod Escrow
pub mod Flow
pub mod Supply
pub mod Capped
pub mod Earned
pub mod Payments
pub mod Solvency
use stream_pay_contracts.Base.{ℕ, ◌≤◌, ◌<◌, ◌≡◌, none, List, [], ◌∷◌, if◌then◌else◌, unwrap_or}
use stream_pay_contracts.Base.Int.{ℤ, pos, ◌+ℤ◌, ◌-ℤ◌, ◌≤ℤ◌, i128_max, u64_max}
use stream_pay_contracts.Base.Dict.{Dict}
use stream_pay_contracts.Types.{Address, Stream, completed, is_status_active}
use stream_pay_contracts.Types.Valid.{IsWellFormed}
use stream_pay_contracts.Host.{Host}
use stream_pay_contracts.World.{World}

-- A stored stream at a ledger time: a completed one has reached its end, and its id was counted.
pub record IsSound (now counter id : ℕ) (s : Stream) : Type 0 where
  pub well_formed : IsWellFormed s
  pub settled : s.status ≡ completed → s.end ≤ now
  pub numbered : id < counter

abbrev pub AllStreams : (ℕ → Stream → Type 0) → Dict Stream → Type 0
AllStreams P [] = Unit
AllStreams P ((id, s) ∷ d) = P id s × AllStreams P d

pub record IsValid {T : Type 0} (now : ℕ) (w : World T) : Type 0 where
  pub sound : AllStreams (IsSound now (unwrap_or w.counter 0)) w.streams
  pub counter_fits : unwrap_or w.counter 0 ≤ u64_max
  pub fresh : w.admin ≡ none → w.streams ≡ []

-- What a stream still holds in escrow: nothing, once it is cancelled or completed.
unfoldable pub escrow_of : Stream → ℤ
escrow_of s = if is_status_active s.status then s.total -ℤ s.withdrawn else pos 0

unfoldable pub escrow : Dict Stream → ℤ
escrow [] = pos 0
escrow ((_, s) ∷ d) = escrow_of s +ℤ escrow d

-- The supply that the contract reports.
abbrev pub supply : {T : Type 0} → World T → ℤ
supply w = unwrap_or w.total_supply (pos 0)

-- The reported supply is the escrow of the active streams.
pub record IsTracked {T : Type 0} (w : World T) : Type 0 where
  pub tracked : supply w ≡ escrow w.streams
  pub supply_fits : supply w ≤ℤ i128_max

-- The contract holds at least the escrow of the active streams.
abbrev pub IsSolvent : {T : Type 0} → Host T → Address → Address → World T → Type 0
IsSolvent host token self w = escrow w.streams ≤ℤ host.balance w.tokens token self
