-- ===== src/Trace/Errors.antt =====
-- Calls that return an error (src/lib.rs). The host drops what such a call has written.
pub mod EntryPoints
pub mod Governance
use stream_pay_contracts.Base.{
  ℕ, ◌+◌, ⊤, ◌≡◌, refl, sym, ap, ◌∙◌, false, List, [], ◌∷◌, ◌++◌, arith, unwrap_or, ◌<◌, not, ◌==◌,
  leb, ltb, ◌&&◌, Bool-cases, inl, inr, some, none, true, suc, subst, length,
}
use stream_pay_contracts.Base.Int.{
  ℤ, ◌+ℤ◌, ◌-ℤ◌, int_laws, checked_add-some, checked_sub-some, pos, ltb_ℤ, leb_ℤ, checked_add,
  checked_sub, checked_add_u64, checked_add_u64-fits, i128_max, u64_max,
}
use stream_pay_contracts.Types.{
  Address, Stream, StreamRequest, active, is_status_active, is_status_cancelled,
  is_status_completed,
}
use stream_pay_contracts.Host.{Env, Host}
use stream_pay_contracts.World.{World, Outcome, done, fail, trap, Action, ◌>>◌, ◌>>=◌, continue}
use stream_pay_contracts.Events.{Event}
use stream_pay_contracts.Contract.Admin
use stream_pay_contracts.Contract.Create
use stream_pay_contracts.Contract.Create.{new_stream}
use stream_pay_contracts.Contract.Batch
use stream_pay_contracts.Contract.TopUp
use stream_pay_contracts.Contract.Extend
use stream_pay_contracts.Contract.Withdraw
use stream_pay_contracts.Contract.Withdraw.{pay_out}
use stream_pay_contracts.Contract.Cancel
use stream_pay_contracts.Contract.Admin.Effect.{
  initialize-done, schedule_admin_transfer-done, execute_admin_transfer-done,
  cancel_admin_transfer-done, set_admin-done, upgrade-done, set_supply_cap-done,
}
use stream_pay_contracts.Contract.Create.Effect.{create_stream-done}
use stream_pay_contracts.Contract.Batch.Effect.{
  create_stream_batch-done, store_one, store_all, aggregate-done, open_streams_lem,
}
use stream_pay_contracts.Contract.TopUp.Effect.{top_up-done}
use stream_pay_contracts.Contract.Extend.Effect.{extend_stream-done}
use stream_pay_contracts.Contract.Withdraw.Effect.{withdraw-done}
use stream_pay_contracts.Contract.Cancel.Effect.{cancel-done}
use stream_pay_contracts.Trace.{
  Call, initialize, schedule_admin_transfer, execute_admin_transfer, cancel_admin_transfer,
  set_admin, upgrade, set_supply_cap, create_stream, create_stream_batch, top_up, extend_stream,
  withdraw, cancel, settle, invoke, deployed, Run, AnyCall, AnyMove, start, call, outside,
}
use stream_pay_contracts.Trace.Valid.{settle-keeps}
use stream_pay_contracts.Base.Dict.{lookup}
use stream_pay_contracts.Error.{Error}
use stream_pay_contracts.Vesting.{vested, unvested, withdrawable}
use stream_pay_contracts.World.Failure.{
  past_raise_if, past_inner_raise_if, past_or_raise, past_try, past_unwrap,
}
use stream_pay_contracts.Contract.Calls.Failure.{past_auth, past_transfer}
use stream_pay_contracts.Contract.Cancel.{transfer_if_positive}
use stream_pay_contracts.Storage.{is_some}
use stream_pay_contracts.World.Inversion.{bind_runs}
use stream_pay_contracts.Contract.Batch.{is_empty}
use stream_pay_contracts.Constants.{is_valid_amount, min_stream_amount, admin_timelock_delay}
use stream_pay_contracts.Normalize.{normalize_start_time}
use stream_pay_contracts.Trace.Errors.Governance.{
  initialize_fails, schedule_admin_transfer_fails, execute_admin_transfer_fails,
  cancel_admin_transfer_fails, set_admin_fails, upgrade_fails, set_supply_cap_fails,
}
use stream_pay_contracts.Trace.Errors.EntryPoints.{
  create_stream_fails, create_stream_batch_fails, top_up_fails, extend_stream_fails, withdraw_fails,
  cancel_fails,
}

module _ {T : Type 0} (host : Host T) (env : Env) where
  -- The call returns the error and has left the world then.
  unfoldable pub Fails : Call → World T → Error → World T → Type 0
  Fails (initialize admin token) w x w' = Admin.initialize host env admin token w ≡ fail x w'
  Fails (schedule_admin_transfer admin new_admin) w x w' =
      Admin.schedule_admin_transfer host env admin new_admin w ≡ fail x w'
  Fails execute_admin_transfer w x w' = Admin.execute_admin_transfer host env w ≡ fail x w'
  Fails (cancel_admin_transfer admin) w x w' =
      Admin.cancel_admin_transfer host env admin w ≡ fail x w'
  Fails (set_admin new_admin) w x w' = Admin.set_admin host env new_admin w ≡ fail x w'
  Fails (upgrade hash) w x w' = Admin.upgrade host env hash w ≡ fail x w'
  Fails (set_supply_cap new_cap) w x w' = Admin.set_supply_cap host env new_cap w ≡ fail x w'
  Fails (create_stream sender recipient amount start_time end_time) w x w' =
      Create.create_stream host env sender recipient amount start_time end_time w ≡ fail x w'
  Fails (create_stream_batch sender requests) w x w' =
      Batch.create_stream_batch host env sender requests w ≡ fail x w'
  Fails (top_up id sender amount) w x w' = TopUp.top_up host env id sender amount w ≡ fail x w'
  Fails (extend_stream id sender new_end) w x w' =
      Extend.extend_stream host env id sender new_end w ≡ fail x w'
  Fails (withdraw id recipient) w x w' = Withdraw.withdraw host env id recipient w ≡ fail x w'
  Fails (cancel id caller) w x w' = Cancel.cancel host env id caller w ≡ fail x w'

  -- While the stream counter is below the greatest u64, a call that returns an error has written
  -- nothing and moved no token, whatever the call is: its tests come first.
  pub errors_first :
      (c : Call) (w : World T) (x : Error) (w' : World T)
      → unwrap_or w.counter 0 < u64_max
      → Fails c w x w'
      → w' ≡ w
  unfolding Fails
  errors_first (initialize admin token) w x w' room h = initialize_fails host env w admin token h
  errors_first (schedule_admin_transfer admin new_admin) w x w' room h =
      schedule_admin_transfer_fails host env w admin new_admin h
  errors_first execute_admin_transfer w x w' room h = execute_admin_transfer_fails host env w h
  errors_first (cancel_admin_transfer admin) w x w' room h =
      cancel_admin_transfer_fails host env w admin h
  errors_first (set_admin new_admin) w x w' room h = set_admin_fails host env w new_admin h
  errors_first (upgrade hash) w x w' room h = upgrade_fails host env w hash h
  errors_first (set_supply_cap new_cap) w x w' room h = set_supply_cap_fails host env w new_cap h
  errors_first (create_stream sender recipient amount start_time end_time) w x w' room h =
      create_stream_fails host env w sender recipient amount start_time end_time room h
  errors_first (create_stream_batch sender requests) w x w' room h =
      create_stream_batch_fails host env w sender requests h
  errors_first (top_up id sender amount) w x w' room h = top_up_fails host env w id sender amount h
  errors_first (extend_stream id sender new_end) w x w' room h =
      extend_stream_fails host env w id sender new_end h
  errors_first (withdraw id recipient) w x w' room h = withdraw_fails host env w id recipient h
  errors_first (cancel id caller) w x w' room h = cancel_fails host env w id caller h
