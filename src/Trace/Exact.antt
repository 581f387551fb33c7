-- ===== src/Trace/Exact.antt =====
-- The state-changing entry points of src/lib.rs against a description by conditions and effects:
-- what must hold for a call to return, and what it then returns and leaves.
use stream_pay_contracts.Base.{ℕ, ⊤, ◌≡◌, ◌↔◌, List}
use stream_pay_contracts.Base.Int.{ℤ}
use stream_pay_contracts.Host.{Env, Host}
use stream_pay_contracts.World.{World, Action, done}
use stream_pay_contracts.Contract.Admin
use stream_pay_contracts.Contract.Create
use stream_pay_contracts.Contract.Batch
use stream_pay_contracts.Contract.TopUp
use stream_pay_contracts.Contract.Extend
use stream_pay_contracts.Contract.Withdraw
use stream_pay_contracts.Contract.Cancel
use stream_pay_contracts.Contract.Admin.Effect.{
  IsSetup, IsSchedule, IsExecution, IsRevocation, IsHandover, IsUpgrade, IsCapChange,
  initialize-done, schedule_admin_transfer-done, execute_admin_transfer-done,
  cancel_admin_transfer-done, set_admin-done, upgrade-done, set_supply_cap-done,
}
use stream_pay_contracts.Contract.Admin.Exact.{
  initialize-returns, schedule_admin_transfer-returns, execute_admin_transfer-returns,
  cancel_admin_transfer-returns, set_admin-returns, upgrade-returns, set_supply_cap-returns,
}
use stream_pay_contracts.Contract.Create.Effect.{IsCreation, create_stream-done}
use stream_pay_contracts.Contract.Create.Exact.{create_stream-returns}
use stream_pay_contracts.Contract.Batch.Effect.{IsBatch, create_stream_batch-done}
use stream_pay_contracts.Contract.Batch.Exact.{create_stream_batch-returns}
use stream_pay_contracts.Contract.TopUp.Effect.{IsTopUp, top_up-done}
use stream_pay_contracts.Contract.TopUp.Exact.{top_up-returns}
use stream_pay_contracts.Contract.Extend.Effect.{IsExtension, extend_stream-done}
use stream_pay_contracts.Contract.Extend.Exact.{extend_stream-returns}
use stream_pay_contracts.Contract.Withdraw.Effect.{IsWithdrawal, withdraw-done}
use stream_pay_contracts.Contract.Withdraw.Exact.{withdraw-returns}
use stream_pay_contracts.Contract.Cancel.Effect.{IsCancellation, cancel-done}
use stream_pay_contracts.Contract.Cancel.Exact.{cancel-returns}
use stream_pay_contracts.Trace.{
  Call, initialize, schedule_admin_transfer, execute_admin_transfer, cancel_admin_transfer,
  set_admin, upgrade, set_supply_cap, create_stream, create_stream_batch, top_up, extend_stream,
  withdraw, cancel,
}

-- What a call returns.
abbrev pub Output : Call → Type 0
Output (schedule_admin_transfer admin new_admin) = ℕ
Output (create_stream sender recipient amount start_time end_time) = ℕ
Output (create_stream_batch sender requests) = List ℕ
Output (top_up id sender amount) = ℤ
Output (withdraw id recipient) = ℤ
Output _ = ⊤

module _ {T : Type 0} (host : Host T) (env : Env) where
  abbrev pub perform : (c : Call) → Action T (Output c)
  perform (initialize admin token) = Admin.initialize host env admin token
  perform (schedule_admin_transfer admin new_admin) =
      Admin.schedule_admin_transfer host env admin new_admin
  perform execute_admin_transfer = Admin.execute_admin_transfer host env
  perform (cancel_admin_transfer admin) = Admin.cancel_admin_transfer host env admin
  perform (set_admin new_admin) = Admin.set_admin host env new_admin
  perform (upgrade hash) = Admin.upgrade host env hash
  perform (set_supply_cap new_cap) = Admin.set_supply_cap host env new_cap
  perform (create_stream sender recipient amount start_time end_time) =
      Create.create_stream host env sender recipient amount start_time end_time
  perform (create_stream_batch sender requests) = Batch.create_stream_batch host env sender requests
  perform (top_up id sender amount) = TopUp.top_up host env id sender amount
  perform (extend_stream id sender new_end) = Extend.extend_stream host env id sender new_end
  perform (withdraw id recipient) = Withdraw.withdraw host env id recipient
  perform (cancel id caller) = Cancel.cancel host env id caller

  module _ (w w' : World T) where
    -- The call's conditions hold in `w`, it gives the value, and `w'` has its effects.
    abbrev pub HasEffect : (c : Call) → Output c → Type 0
    HasEffect (initialize admin token) _ = IsSetup host env w admin token w'
    HasEffect (schedule_admin_transfer admin new_admin) t =
        IsSchedule host env w admin new_admin t w'
    HasEffect execute_admin_transfer _ = IsExecution host env w w'
    HasEffect (cancel_admin_transfer admin) _ = IsRevocation host env w admin w'
    HasEffect (set_admin new_admin) _ = IsHandover host env w new_admin w'
    HasEffect (upgrade hash) _ = IsUpgrade host env w hash w'
    HasEffect (set_supply_cap new_cap) _ = IsCapChange host env w new_cap w'
    HasEffect (create_stream sender recipient amount start_time end_time) id =
        IsCreation host env sender recipient amount start_time end_time w id w'
    HasEffect (create_stream_batch sender requests) ids = IsBatch host env sender requests w ids w'
    HasEffect (top_up id sender amount) total = IsTopUp host env id sender amount w total w'
    HasEffect (extend_stream id sender new_end) _ = IsExtension host env id sender new_end w w'
    HasEffect (withdraw id recipient) a = IsWithdrawal host env id recipient w a w'
    HasEffect (cancel id caller) _ = IsCancellation host env id caller w w'

    -- Whatever call is made, it returns a value and leaves a world exactly when its description
    -- holds of the world before, the value and the world after: the authorization, the stored
    -- stream with its parties and status, the amounts, times and limits that must be met, the
    -- transfers that the token must make, the code that must be uploaded for an upgrade, and every
    -- field that is changed.
    pub perform-done_iff :
        (c : Call) (result : Output c) → (perform c w ≡ done result w') ↔ HasEffect c result
    perform-done_iff (initialize admin token) _ =
        (initialize-done host env w, initialize-returns host env w)
    perform-done_iff (schedule_admin_transfer admin new_admin) _ =
        (schedule_admin_transfer-done host env w, schedule_admin_transfer-returns host env w)
    perform-done_iff execute_admin_transfer _ =
        (execute_admin_transfer-done host env w, execute_admin_transfer-returns host env w)
    perform-done_iff (cancel_admin_transfer admin) _ =
        (cancel_admin_transfer-done host env w, cancel_admin_transfer-returns host env w)
    perform-done_iff (set_admin new_admin) _ =
        (set_admin-done host env w, set_admin-returns host env w)
    perform-done_iff (upgrade hash) _ = (upgrade-done host env w, upgrade-returns host env w)
    perform-done_iff (set_supply_cap new_cap) _ =
        (set_supply_cap-done host env w, set_supply_cap-returns host env w)
    perform-done_iff (create_stream s r amount start_time end_time) _ = (
      create_stream-done host env s r amount start_time end_time w,
      create_stream-returns host env s r amount start_time end_time w,
    )
    perform-done_iff (create_stream_batch sender requests) _ = (
      create_stream_batch-done host env sender,
      create_stream_batch-returns host env sender requests w,
    )
    perform-done_iff (top_up id sender amount) _ =
        (top_up-done host env id sender amount w, top_up-returns host env id sender amount w)
    perform-done_iff (extend_stream id sender new_end) _ = (
      extend_stream-done host env id sender new_end w,
      extend_stream-returns host env id sender new_end w,
    )
    perform-done_iff (withdraw id recipient) _ =
        (withdraw-done host env id recipient w, withdraw-returns host env id recipient w)
    perform-done_iff (cancel id caller) _ =
        (cancel-done host env id caller w, cancel-returns host env id caller w)
