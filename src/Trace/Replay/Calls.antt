-- ===== src/Trace/Replay/Calls.antt =====
-- Calls and runs against the event log (src/lib.rs, src/events.rs).
use stream_pay_contracts.Base.{ℕ, ◌≡◌, refl, sym, ap, ◌∙◌, unwrap_or}
use stream_pay_contracts.Host.{Env, Host}
use stream_pay_contracts.World.{World}
use stream_pay_contracts.Contract.Admin
use stream_pay_contracts.Contract.Create
use stream_pay_contracts.Contract.Create.{new_stream}
use stream_pay_contracts.Contract.Batch
use stream_pay_contracts.Contract.TopUp
use stream_pay_contracts.Contract.Extend
use stream_pay_contracts.Contract.Withdraw
use stream_pay_contracts.Contract.Withdraw.{pay_out}
use stream_pay_contracts.Contract.Cancel
use stream_pay_contracts.Contract.Admin.Effect.{
  initialize-done, schedule_admin_transfer-done, execute_admin_transfer-done,
  cancel_admin_transfer-done, set_admin-done, upgrade-done, set_supply_cap-done,
}
use stream_pay_contracts.Contract.Batch.Effect.{create_stream_batch-done}
use stream_pay_contracts.Trace.{
  Call, initialize, schedule_admin_transfer, execute_admin_transfer, cancel_admin_transfer,
  set_admin, upgrade, set_supply_cap, create_stream, create_stream_batch, top_up, extend_stream,
  withdraw, cancel, invoke, deployed, Run, AnyCall, AnyMove, start, call, outside,
}
use stream_pay_contracts.Trace.Replay.{observe, replay, catalog}
use stream_pay_contracts.Trace.Replay.EntryPoints.{
  IsLogged, call-IsLogged, quiet-IsLogged, create_stream-IsLogged, top_up-IsLogged,
  extend_stream-IsLogged, withdraw-IsLogged, cancel-IsLogged, store_all-IsLogged,
}

-- Whatever call is made, returned or not, the log still replays to the streams.
pub invoke-IsLogged :
    {T : Type 0} (host : Host T) (env : Env) (c : Call) (w : World T)
    → IsLogged w
    → IsLogged (invoke host env c w)
unfolding invoke observe
invoke-IsLogged host env (initialize admin token) w logged =
    call-IsLogged w logged (Admin.initialize host env admin token w) λ a w' h.
      let e = initialize-done host env w h in
      ap (λ v. replay v.events) e.left ∙ logged ∙ sym (ap (λ v. catalog v.streams) e.left)
invoke-IsLogged host env (schedule_admin_transfer admin new_admin) w logged =
    call-IsLogged w logged (Admin.schedule_admin_transfer host env admin new_admin w) λ a w' h.
      let e = schedule_admin_transfer-done host env w h in
      quiet-IsLogged w logged w' _ (ap (λ v. v.events) e.left) (ap (λ v. v.streams) e.left) refl
invoke-IsLogged host env execute_admin_transfer w logged =
    call-IsLogged w logged (Admin.execute_admin_transfer host env w) λ a w' h.
      let e = execute_admin_transfer-done host env w h in
      quiet-IsLogged w logged w' _ (ap (λ v. v.events) e.left) (ap (λ v. v.streams) e.left) refl
invoke-IsLogged host env (cancel_admin_transfer admin) w logged =
    call-IsLogged w logged (Admin.cancel_admin_transfer host env admin w) λ a w' h.
      let e = cancel_admin_transfer-done host env w h in
      quiet-IsLogged w logged w' _ (ap (λ v. v.events) e.left) (ap (λ v. v.streams) e.left) refl
invoke-IsLogged host env (set_admin new_admin) w logged =
    call-IsLogged w logged (Admin.set_admin host env new_admin w) λ a w' h.
      let e = set_admin-done host env w h in
      quiet-IsLogged w logged w' _ (ap (λ v. v.events) e.left) (ap (λ v. v.streams) e.left) refl
invoke-IsLogged host env (upgrade hash) w logged =
    call-IsLogged w logged (Admin.upgrade host env hash w) λ a w' h.
      let e = upgrade-done host env w h in
      quiet-IsLogged w logged w' _ (ap (λ v. v.events) e.left) (ap (λ v. v.streams) e.left) refl
invoke-IsLogged host env (set_supply_cap new_cap) w logged =
    call-IsLogged w logged (Admin.set_supply_cap host env new_cap w) λ a w' h.
      let e = set_supply_cap-done host env w h in
      quiet-IsLogged w logged w' _ (ap (λ v. v.events) e.left) (ap (λ v. v.streams) e.left) refl
invoke-IsLogged host env (create_stream s r amount start_time end_time) w logged =
    call-IsLogged w logged (Create.create_stream host env s r amount start_time end_time w)
      λ id w' h. create_stream-IsLogged w logged host env s r amount start_time end_time h
invoke-IsLogged host env (create_stream_batch sender requests) w logged =
    call-IsLogged w logged (Batch.create_stream_batch host env sender requests w) λ ids w' h.
      let e = create_stream_batch-done host env sender {requests = requests} {w = w} h in
      ap (λ v. replay v.events) e.left
      ∙ store_all-IsLogged host env sender (unwrap_or w.counter 0) requests
          (record w { tokens = e.tokens }) logged
      ∙ sym (ap (λ v. catalog v.streams) e.left)
invoke-IsLogged host env (top_up id s amount) w logged =
    call-IsLogged w logged (TopUp.top_up host env id s amount w)
      λ a w' h. top_up-IsLogged w logged host env id s amount h
invoke-IsLogged host env (extend_stream id s new_end) w logged =
    call-IsLogged w logged (Extend.extend_stream host env id s new_end w)
      λ a w' h. extend_stream-IsLogged w logged host env id s new_end h
invoke-IsLogged host env (withdraw id r) w logged =
    call-IsLogged w logged (Withdraw.withdraw host env id r w)
      λ a w' h. withdraw-IsLogged w logged host env id r h
invoke-IsLogged host env (cancel id caller) w logged =
    call-IsLogged w logged (Cancel.cancel host env id caller w)
      λ a w' h. cancel-IsLogged w logged host env id caller h

-- From deployment, whatever calls are made, an indexer that follows the published events knows
-- every stored stream: its sender, recipient, total and withdrawn amount, and whether it was
-- cancelled.
pub Run-IsLogged :
    {T : Type 0} (host : Host T) (t : T) {now : ℕ} {w : World T}
    → Run host AnyCall AnyMove 0 (deployed t) now w
    → replay w.events ≡ catalog w.streams
unfolding replay catalog
Run-IsLogged host t start = refl
Run-IsLogged host t (call {now} {later} {w} {w'} run env c _ passed clock step) =
    rw step (invoke-IsLogged host env c w (Run-IsLogged host t run))
Run-IsLogged host t (outside {now} {w} {w'} tokens run _ moved) = rw moved (Run-IsLogged host t run)
