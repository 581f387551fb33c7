-- ===== src/Contract/Create.antt =====
-- Opening a stream (src/lib.rs).
pub mod Effect
pub mod Exact
pub mod Reading
use stream_pay_contracts.Base.{ℕ, not, leb}
use stream_pay_contracts.Base.Int.{ℤ, pos, ltb_ℤ, checked_add, checked_add_u64}
use stream_pay_contracts.Error.{
  invalid_amount, amount_below_minimum, invalid_time_range, end_time_in_past, overflow,
  supply_cap_exceeded,
}
use stream_pay_contracts.Constants.{is_valid_amount, min_stream_amount}
use stream_pay_contracts.Types.{Address, Stream, active}
use stream_pay_contracts.Normalize.{normalize_start_time}
use stream_pay_contracts.Events.{stream_created}
use stream_pay_contracts.Host.{Env, Host}
use stream_pay_contracts.World.{Action, pure, raise_if, or_raise, ◌>>=◌, ◌>>◌}
use stream_pay_contracts.Storage.{
  read_counter, write_counter, read_total_supply, write_total_supply, read_supply_cap, write_stream,
  extend_instance,
}
use stream_pay_contracts.Contract.Calls.{require_auth, publish, transfer}
use stream_pay_contracts.Contract.Admin.{require_initialized}

-- The record that `create_stream` and `create_stream_batch` store.
abbrev pub new_stream : Address → Address → ℤ → ℕ → ℕ → Stream
new_stream sender recipient total_amount start_time end_time = record {
  sender = sender;
  recipient = recipient;
  total = total_amount;
  withdrawn = pos 0;
  start = start_time;
  end = end_time;
  status = active;
}

module _ {T : Type 0} (host : Host T) (env : Env) where
  unfoldable pub create_stream : Address → Address → ℤ → ℕ → ℕ → Action T ℕ
  create_stream sender recipient total_amount raw_start end_time = do
    require_initialized
    require_auth env sender
    let start_time = normalize_start_time env.timestamp raw_start
    raise_if (not (is_valid_amount total_amount)) invalid_amount
    raise_if (ltb_ℤ total_amount min_stream_amount) amount_below_minimum
    raise_if (leb end_time start_time) invalid_time_range
    raise_if (leb end_time env.timestamp) end_time_in_past
    current_supply ← read_total_supply
    new_supply ← or_raise (checked_add current_supply total_amount) overflow
    cap ← read_supply_cap
    raise_if (ltb_ℤ cap new_supply) supply_cap_exceeded
    transfer host sender env.current_contract total_amount
    id ← read_counter
    next ← or_raise (checked_add_u64 id 1) overflow
    write_stream host env id (new_stream sender recipient total_amount start_time end_time)
    write_counter next
    write_total_supply new_supply
    extend_instance host env
    publish (stream_created id sender recipient total_amount)
    pure id
