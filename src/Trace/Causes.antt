-- ===== src/Trace/Causes.antt =====
-- The errors that each entry point of src/lib.rs can return, and what each of them says.
pub mod Governance
pub mod EntryPoints
pub mod Opening
pub mod Calls
use stream_pay_contracts.Base.{
  ℕ, ◌+◌, ◌≤◌, ◌<◌, ◌≡◌, ◌≢◌, ◌⊎◌, none, some, List, [], ◌∷◌, length, unwrap_or,
}
use stream_pay_contracts.Base.Int.{ℤ, pos, ◌+ℤ◌, ◌≤ℤ◌, ◌<ℤ◌, IsI128, i128_max, u64_max}
use stream_pay_contracts.Base.Dict.{lookup}
use stream_pay_contracts.Error.{
  Error, ok, already_initialized, not_initialized, stream_not_found, invalid_amount,
  invalid_time_range, unauthorized, overflow, already_cancelled, nothing_to_withdraw,
  already_completed, end_time_in_past, stream_not_active, no_pending_admin_action,
  timelock_not_expired, invalid_admin_action, supply_cap_exceeded, empty_batch,
}
use stream_pay_contracts.Constants.{admin_timelock_delay}
use stream_pay_contracts.Types.{Address, Stream, StreamRequest, active, cancelled, completed}
use stream_pay_contracts.Normalize.{normalize_start_time}
use stream_pay_contracts.Vesting.{withdrawable}
use stream_pay_contracts.Vesting.Bounds.{Overflows}
use stream_pay_contracts.Host.{Env}
use stream_pay_contracts.World.{World}
use stream_pay_contracts.Invariant.{supply}
use stream_pay_contracts.Trace.{
  Call, initialize, schedule_admin_transfer, execute_admin_transfer, cancel_admin_transfer,
  set_admin, upgrade, set_supply_cap, create_stream, create_stream_batch, top_up, extend_stream,
  withdraw, cancel,
}
use stream_pay_contracts.Trace.Ranges.{cap}

-- Some request is so.
abbrev pub SomeRequest : (StreamRequest → Type 0) → List StreamRequest → Type 0
SomeRequest P [] = ⊥
SomeRequest P (r ∷ requests) = P r ⊎ SomeRequest P requests

-- A partial sum of the amounts is no `i128`.
abbrev pub Overruns : ℤ → List StreamRequest → Type 0
Overruns acc [] = ⊥
Overruns acc (r ∷ requests) =
    (IsI128 (acc +ℤ r.total_amount) → ⊥) ⊎ Overruns (acc +ℤ r.total_amount) requests

module _ {T : Type 0} (env : Env) (w : World T) where
  -- The stream under the id is so.
  abbrev pub Stored : ℕ → (Stream → Type 0) → Type 0
  Stored id P = (s : Stream) × (lookup id w.streams ≡ some s) × P s

  -- What an error says, for the errors that the call can return.
  abbrev pub IsCause : Call → Error → Type 0
  IsCause (initialize admin token) already_initialized = w.admin ≢ none
  IsCause (schedule_admin_transfer admin new_admin) not_initialized = w.admin ≡ none
  IsCause (schedule_admin_transfer admin new_admin) unauthorized = w.admin ≢ some admin
  IsCause (schedule_admin_transfer admin new_admin) invalid_admin_action = new_admin ≡ admin
  IsCause (schedule_admin_transfer admin new_admin) overflow =
      u64_max < env.timestamp + admin_timelock_delay
  IsCause execute_admin_transfer not_initialized = w.admin ≡ none
  IsCause execute_admin_transfer no_pending_admin_action =
      (w.pending_admin ≡ none) ⊎ (w.admin_action_execute_after ≡ none)
  IsCause execute_admin_transfer timelock_not_expired =
      (t : ℕ) × (w.admin_action_execute_after ≡ some t) × (env.timestamp < t)
  IsCause (cancel_admin_transfer admin) not_initialized = w.admin ≡ none
  IsCause (cancel_admin_transfer admin) unauthorized = w.admin ≢ some admin
  IsCause (cancel_admin_transfer admin) no_pending_admin_action = w.pending_admin ≡ none
  IsCause (set_admin new_admin) not_initialized = w.admin ≡ none
  IsCause (upgrade hash) not_initialized = w.admin ≡ none
  IsCause (set_supply_cap new_cap) not_initialized = w.admin ≡ none
  IsCause (set_supply_cap new_cap) invalid_amount = new_cap ≤ℤ pos 0
  IsCause (create_stream sender recipient amount start_time end_time) not_initialized =
      w.admin ≡ none
  IsCause (create_stream sender recipient amount start_time end_time) invalid_amount =
      amount ≤ℤ pos 0
  IsCause (create_stream sender recipient amount start_time end_time) invalid_time_range =
      end_time ≤ normalize_start_time env.timestamp start_time
  IsCause (create_stream sender recipient amount start_time end_time) end_time_in_past =
      end_time ≤ env.timestamp
  IsCause (create_stream sender recipient amount start_time end_time) supply_cap_exceeded =
      cap w <ℤ supply w +ℤ amount
  IsCause (create_stream sender recipient amount start_time end_time) overflow =
      (IsI128 (supply w +ℤ amount) → ⊥) ⊎ (u64_max ≤ unwrap_or w.counter 0)
  IsCause (create_stream_batch sender requests) not_initialized = w.admin ≡ none
  IsCause (create_stream_batch sender requests) empty_batch = requests ≡ []
  IsCause (create_stream_batch sender requests) invalid_amount =
      SomeRequest (λ r. r.total_amount ≤ℤ pos 0) requests
  IsCause (create_stream_batch sender requests) invalid_time_range =
      SomeRequest (λ r. r.end_time ≤ r.start_time) requests
  IsCause (create_stream_batch sender requests) end_time_in_past =
      SomeRequest (λ r. r.end_time ≤ env.timestamp) requests
  IsCause (create_stream_batch sender requests) overflow =
      Overruns (pos 0) requests ⊎ (u64_max < unwrap_or w.counter 0 + length requests)
  IsCause (top_up id sender amount) invalid_amount = amount ≤ℤ pos 0
  IsCause (top_up id sender amount) stream_not_found = lookup id w.streams ≡ none
  IsCause (top_up id sender amount) unauthorized = Stored id (λ s. sender ≢ s.sender)
  IsCause (top_up id sender amount) stream_not_active = Stored id (λ s. s.status ≢ active)
  IsCause (top_up id sender amount) overflow =
      Stored id (λ s. IsI128 (s.total +ℤ amount) → ⊥) ⊎ (IsI128 (supply w +ℤ amount) → ⊥)
  IsCause (top_up id sender amount) supply_cap_exceeded = cap w <ℤ supply w +ℤ amount
  IsCause (extend_stream id sender new_end) stream_not_found = lookup id w.streams ≡ none
  IsCause (extend_stream id sender new_end) unauthorized = Stored id (λ s. sender ≢ s.sender)
  IsCause (extend_stream id sender new_end) stream_not_active = Stored id (λ s. s.status ≢ active)
  IsCause (extend_stream id sender new_end) invalid_time_range = Stored id (λ s. new_end ≤ s.end)
  IsCause (withdraw id recipient) stream_not_found = lookup id w.streams ≡ none
  IsCause (withdraw id recipient) unauthorized = Stored id (λ s. recipient ≢ s.recipient)
  IsCause (withdraw id recipient) already_cancelled = Stored id (λ s. s.status ≡ cancelled)
  IsCause (withdraw id recipient) already_completed = Stored id (λ s. s.status ≡ completed)
  IsCause (withdraw id recipient) overflow = Stored id (λ s. Overflows s env.timestamp)
  IsCause (withdraw id recipient) nothing_to_withdraw =
      Stored id (λ s. withdrawable s env.timestamp ≡ ok (pos 0))
  IsCause (cancel id caller) stream_not_found = lookup id w.streams ≡ none
  IsCause (cancel id caller) unauthorized =
      Stored id (λ s. (caller ≢ s.sender) × (caller ≢ s.recipient))
  IsCause (cancel id caller) already_cancelled = Stored id (λ s. s.status ≡ cancelled)
  IsCause (cancel id caller) overflow = Stored id (λ s. Overflows s env.timestamp)
  IsCause _ _ = ⊥

-- A checked sum that passes a bound.
pub exceeds : (c s a t : ℤ) → t ≡ s +ℤ a → c <ℤ t → c <ℤ s +ℤ a
exceeds c s a t h k = rw (← h) k
