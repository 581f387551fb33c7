-- ===== src/Contract/Withdraw.antt =====
-- Paying out what has vested (src/lib.rs).
pub mod Effect
pub mod Exact
pub mod Complete
use stream_pay_contracts.Base.{ℕ, not, ◌==◌, if◌then◌else◌, unwrap_or}
use stream_pay_contracts.Base.Int.{ℤ, pos, leb_ℤ, checked_add, checked_sub}
use stream_pay_contracts.Error.{
  stream_not_found, unauthorized, overflow, already_cancelled, nothing_to_withdraw,
  already_completed,
}
use stream_pay_contracts.Types.{
  Address, Stream, completed, is_status_cancelled, is_status_completed,
}
use stream_pay_contracts.Vesting.{withdrawable}
use stream_pay_contracts.Events.{stream_withdrawn}
use stream_pay_contracts.Host.{Env, Host}
use stream_pay_contracts.World.{Action, pure, raise_if, try, or_raise, ◌>>=◌, ◌>>◌}
use stream_pay_contracts.Storage.{read_stream, write_stream, read_total_supply, write_total_supply}
use stream_pay_contracts.Contract.Calls.{require_auth, publish, transfer}

-- The stream with a new `withdrawn`, completed once that reaches the total.
abbrev pub pay_out : Stream → ℤ → Stream
pay_out stream withdrawn = record stream {
  withdrawn = withdrawn;
  status = if leb_ℤ stream.total withdrawn then completed else stream.status;
}

module _ {T : Type 0} (host : Host T) (env : Env) where
  unfoldable pub withdraw : ℕ → Address → Action T ℤ
  withdraw id recipient = do
    require_auth env recipient
    stream ← or_raise (← read_stream id) stream_not_found
    raise_if (not (stream.recipient == recipient)) unauthorized
    raise_if (is_status_cancelled stream.status) already_cancelled
    raise_if (is_status_completed stream.status) already_completed
    available ← try (withdrawable stream env.timestamp)
    raise_if (leb_ℤ available (pos 0)) nothing_to_withdraw
    withdrawn ← or_raise (checked_add stream.withdrawn available) overflow
    write_stream host env id (pay_out stream withdrawn)
    transfer host env.current_contract recipient available
    supply ← read_total_supply
    write_total_supply (unwrap_or (checked_sub supply available) (pos 0))
    publish (stream_withdrawn id recipient available)
    pure available
