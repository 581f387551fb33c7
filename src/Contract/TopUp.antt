-- ===== src/Contract/TopUp.antt =====
-- Adding funds to a stream (src/lib.rs).
pub mod Effect
pub mod Exact
use stream_pay_contracts.Base.{ℕ, not, ◌==◌}
use stream_pay_contracts.Base.Int.{ℤ, ltb_ℤ, checked_add}
use stream_pay_contracts.Error.{
  stream_not_found, invalid_amount, unauthorized, overflow, stream_not_active, supply_cap_exceeded,
}
use stream_pay_contracts.Constants.{is_valid_amount}
use stream_pay_contracts.Types.{Address, is_status_active}
use stream_pay_contracts.Events.{stream_topped_up}
use stream_pay_contracts.Host.{Env, Host}
use stream_pay_contracts.World.{Action, pure, raise_if, or_raise, ◌>>=◌, ◌>>◌}
use stream_pay_contracts.Storage.{
  read_stream, write_stream, read_total_supply, write_total_supply, read_supply_cap,
  extend_instance,
}
use stream_pay_contracts.Contract.Calls.{require_auth, publish, transfer}

module _ {T : Type 0} (host : Host T) (env : Env) where
  unfoldable pub top_up : ℕ → Address → ℤ → Action T ℤ
  top_up id sender amount = do
    require_auth env sender
    raise_if (not (is_valid_amount amount)) invalid_amount
    stream ← or_raise (← read_stream id) stream_not_found
    raise_if (not (sender == stream.sender)) unauthorized
    raise_if (not (is_status_active stream.status)) stream_not_active
    new_total ← or_raise (checked_add stream.total amount) overflow
    current_supply ← read_total_supply
    new_supply ← or_raise (checked_add current_supply amount) overflow
    cap ← read_supply_cap
    raise_if (ltb_ℤ cap new_supply) supply_cap_exceeded
    transfer host sender env.current_contract amount
    write_stream host env id (record stream { total = new_total })
    write_total_supply new_supply
    extend_instance host env
    publish (stream_topped_up id sender amount new_total)
    pure new_total
