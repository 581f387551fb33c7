-- ===== src/Contract/Cancel.antt =====
-- Cancelling a stream and splitting its escrow (src/lib.rs).
pub mod Effect
pub mod Exact
pub mod Complete
use stream_pay_contracts.Base.{ℕ, ⊤, not, ◌&&◌, ◌==◌, unwrap_or, if◌then◌else◌}
use stream_pay_contracts.Base.Int.{ℤ, pos, ltb_ℤ, checked_add, checked_sub}
use stream_pay_contracts.Error.{stream_not_found, unauthorized, overflow, already_cancelled}
use stream_pay_contracts.Types.{Address, Stream, cancelled, is_status_cancelled}
use stream_pay_contracts.Vesting.{vested, unvested}
use stream_pay_contracts.Events.{stream_cancelled}
use stream_pay_contracts.Host.{Env, Host}
use stream_pay_contracts.World.{Action, pure, raise_if, try, or_raise, ◌>>=◌, ◌>>◌}
use stream_pay_contracts.Storage.{
  read_token, read_stream, write_stream, read_total_supply, write_total_supply,
}
use stream_pay_contracts.Contract.Calls.{require_auth, publish, transfer}

module _ {T : Type 0} (host : Host T) where
  -- `if amount > 0 { client.transfer(&from, &to, &amount); }`
  unfoldable pub transfer_if_positive : Address → Address → ℤ → Action T ⊤
  transfer_if_positive from to amount =
      if ltb_ℤ (pos 0) amount then transfer host from to amount else pure tt

module _ {T : Type 0} (host : Host T) (env : Env) where
  unfoldable pub cancel : ℕ → Address → Action T ⊤
  unfolding transfer_if_positive
  cancel id caller = do
    require_auth env caller
    stream ← or_raise (← read_stream id) stream_not_found
    raise_if (not (caller == stream.sender) && not (caller == stream.recipient)) unauthorized
    raise_if (is_status_cancelled stream.status) already_cancelled
    now_vested ← try (vested stream env.timestamp)
    recipient_paid ← or_raise (checked_sub now_vested stream.withdrawn) overflow
    sender_refund ← try (unvested stream env.timestamp)
    write_stream host env id (record stream { withdrawn = now_vested; status = cancelled })
    -- The token is read whether or not a transfer follows.
    read_token
    transfer_if_positive host env.current_contract stream.recipient recipient_paid
    transfer_if_positive host env.current_contract stream.sender sender_refund
    let released = unwrap_or (checked_add recipient_paid sender_refund) sender_refund
    supply ← read_total_supply
    write_total_supply (unwrap_or (checked_sub supply released) (pos 0))
    publish (stream_cancelled id caller sender_refund recipient_paid)
