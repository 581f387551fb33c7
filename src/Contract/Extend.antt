-- ===== src/Contract/Extend.antt =====
-- Pushing back the end of a stream (src/lib.rs).
pub mod Effect
pub mod Exact
use stream_pay_contracts.Base.{ℕ, ⊤, not, leb, ◌==◌}
use stream_pay_contracts.Error.{
  stream_not_found, invalid_time_range, unauthorized, stream_not_active,
}
use stream_pay_contracts.Types.{Address, is_status_active}
use stream_pay_contracts.Events.{stream_extended}
use stream_pay_contracts.Host.{Env, Host}
use stream_pay_contracts.World.{Action, raise_if, or_raise, ◌>>=◌, ◌>>◌}
use stream_pay_contracts.Storage.{read_stream, write_stream, extend_instance}
use stream_pay_contracts.Contract.Calls.{require_auth, publish}

module _ {T : Type 0} (host : Host T) (env : Env) where
  unfoldable pub extend_stream : ℕ → Address → ℕ → Action T ⊤
  extend_stream id sender new_end = do
    require_auth env sender
    stream ← or_raise (← read_stream id) stream_not_found
    raise_if (not (sender == stream.sender)) unauthorized
    raise_if (not (is_status_active stream.status)) stream_not_active
    raise_if (leb new_end stream.end) invalid_time_range
    write_stream host env id (record stream { end = new_end })
    extend_instance host env
    publish (stream_extended id sender stream.end new_end)
