-- ===== src/Trace/Causes/Calls.antt =====
-- Why a call fails (src/lib.rs, src/error.rs).
use stream_pay_contracts.Base.{ℕ, ◌≡◌}
use stream_pay_contracts.Error.{Error}
use stream_pay_contracts.Host.{Env, Host}
use stream_pay_contracts.World.{World, fail}
use stream_pay_contracts.Invariant.{IsValid}
use stream_pay_contracts.Trace.{
  Call, initialize, schedule_admin_transfer, execute_admin_transfer, cancel_admin_transfer,
  set_admin, upgrade, set_supply_cap, create_stream, create_stream_batch, top_up, extend_stream,
  withdraw, cancel,
}
use stream_pay_contracts.Trace.Exact.{perform}
use stream_pay_contracts.Trace.Causes.{IsCause}
use stream_pay_contracts.Trace.Causes.Governance.{
  initialize-IsCause, schedule_admin_transfer-IsCause, execute_admin_transfer-IsCause,
  cancel_admin_transfer-IsCause, set_admin-IsCause, upgrade-IsCause, set_supply_cap-IsCause,
}
use stream_pay_contracts.Trace.Causes.EntryPoints.{
  top_up-IsCause, extend_stream-IsCause, withdraw-IsCause, cancel-IsCause,
}
use stream_pay_contracts.Trace.Causes.Opening.{create_stream-IsCause, create_stream_batch-IsCause}

-- Whatever call fails in a valid state, the error that it returns is one of those that the call can
-- return, and what the error says is true: a missing administrator, stream or scheduled transfer,
-- another address than the one that may call, a status, an amount, a time or a window that the call
-- does not accept, a cap that would be passed, nothing to withdraw, or a sum, a count or a vesting
-- product that does not fit its type.
pub perform-IsCause :
    {T : Type 0} (host : Host T) (env : Env) (now : ℕ) (w : World T) (c : Call) {w' : World T}
    {x : Error}
    → IsValid now w
    → perform host env c w ≡ fail x w'
    → IsCause env w c x
perform-IsCause host env now w (initialize admin token) valid =
    initialize-IsCause host env w admin token
perform-IsCause host env now w (schedule_admin_transfer admin new_admin) valid =
    schedule_admin_transfer-IsCause host env w admin new_admin
perform-IsCause host env now w execute_admin_transfer valid =
    execute_admin_transfer-IsCause host env w
perform-IsCause host env now w (cancel_admin_transfer admin) valid =
    cancel_admin_transfer-IsCause host env w admin
perform-IsCause host env now w (set_admin new_admin) valid = set_admin-IsCause host env w new_admin
perform-IsCause host env now w (upgrade hash) valid = upgrade-IsCause host env w hash
perform-IsCause host env now w (set_supply_cap new_cap) valid =
    set_supply_cap-IsCause host env w new_cap
perform-IsCause host env now w (create_stream s r amount start_time end_time) valid =
    create_stream-IsCause host env w s r amount start_time end_time
perform-IsCause host env now w (create_stream_batch sender requests) valid =
    create_stream_batch-IsCause host env w sender requests
perform-IsCause host env now w (top_up id sender amount) valid =
    top_up-IsCause host env now w valid id sender amount
perform-IsCause host env now w (extend_stream id sender new_end) valid =
    extend_stream-IsCause host env now w valid id sender new_end
perform-IsCause host env now w (withdraw id recipient) valid =
    withdraw-IsCause host env now w valid id recipient
perform-IsCause host env now w (cancel id caller) valid =
    cancel-IsCause host env now w valid id caller
