-- ===== src/Trace/Ranges/Calls.antt =====
-- Calls and runs against the ranges of Rust's types (src/lib.rs).
use stream_pay_contracts.Base.{◌≤◌, unwrap_or, ℕ, ap, arith}
use stream_pay_contracts.Base.Int.{u64_max}
use stream_pay_contracts.Host.{Env, Host}
use stream_pay_contracts.World.{World}
use stream_pay_contracts.Contract.Admin
use stream_pay_contracts.Contract.Create
use stream_pay_contracts.Contract.Batch
use stream_pay_contracts.Contract.TopUp
use stream_pay_contracts.Contract.Extend
use stream_pay_contracts.Contract.Withdraw
use stream_pay_contracts.Contract.Cancel
use stream_pay_contracts.Contract.Admin.Effect.{
  initialize-done, schedule_admin_transfer-done, execute_admin_transfer-done,
  cancel_admin_transfer-done, set_admin-done, upgrade-done, set_supply_cap-done,
}
use stream_pay_contracts.Invariant.{AllStreams, IsValid, supply}
use stream_pay_contracts.Trace.{
  Call, initialize, schedule_admin_transfer, execute_admin_transfer, cancel_admin_transfer,
  set_admin, upgrade, set_supply_cap, create_stream, create_stream_batch, top_up, extend_stream,
  withdraw, cancel, IsTyped, invoke, deployed, Run, Typed, AnyMove, start, call, outside,
}
use stream_pay_contracts.Trace.Valid.{Run-IsValid}
use stream_pay_contracts.Trace.Ranges.{
  StreamInRange, IsInRange, LogInRange-append, cap, IsValid-StreamInRange,
}
use stream_pay_contracts.Trace.Ranges.EntryPoints.{
  call-IsInRange, told-IsInRange, create_stream-IsInRange, create_stream_batch-IsInRange,
  top_up-IsInRange, extend_stream-IsInRange, withdraw-IsInRange, cancel-IsInRange,
}

-- A typed call in a valid state keeps the numbers in range, returned or not.
pub invoke-IsInRange :
    {T : Type 0} (host : Host T) (env : Env) (c : Call) (now : ℕ) (w : World T)
    → IsTyped c
    → IsValid now w
    → IsInRange w
    → IsInRange (invoke host env c w)
unfolding invoke
invoke-IsInRange host env (initialize admin token) now w typed valid before =
    call-IsInRange w before (Admin.initialize host env admin token w) λ a w' h.
      let e = initialize-done host env w h in
      rw e.left (record {
        supply_fits = (omega arith, omega arith);
        cap_fits = (omega arith, omega arith);
        deadline_fits = before.deadline_fits;
        log_fits = before.log_fits;
      })
invoke-IsInRange host env (schedule_admin_transfer admin new_admin) now w typed valid before =
    call-IsInRange w before (Admin.schedule_admin_transfer host env admin new_admin w) λ a w' h.
      let e = schedule_admin_transfer-done host env w h in
      rw e.left (record {
        supply_fits = before.supply_fits;
        cap_fits = before.cap_fits;
        deadline_fits = e.delay_fits;
        log_fits = LogInRange-append w.events _ before.log_fits e.delay_fits;
      })
invoke-IsInRange host env execute_admin_transfer now w typed valid before =
    call-IsInRange w before (Admin.execute_admin_transfer host env w) λ a w' h.
      let e = execute_admin_transfer-done host env w h in
      rw e.left (record {
        supply_fits = before.supply_fits;
        cap_fits = before.cap_fits;
        deadline_fits = omega arith;
        log_fits = LogInRange-append w.events _ before.log_fits tt;
      })
invoke-IsInRange host env (cancel_admin_transfer admin) now w typed valid before =
    call-IsInRange w before (Admin.cancel_admin_transfer host env admin w) λ a w' h.
      let e = cancel_admin_transfer-done host env w h in
      rw e.left (record {
        supply_fits = before.supply_fits;
        cap_fits = before.cap_fits;
        deadline_fits = omega arith;
        log_fits = LogInRange-append w.events _ before.log_fits tt;
      })
invoke-IsInRange host env (set_admin new_admin) now w typed valid before =
    call-IsInRange w before (Admin.set_admin host env new_admin w) λ a w' h.
      let e = set_admin-done host env w h in
      told-IsInRange w before w' _ (ap (λ v. v.events) e.left) (ap cap e.left)
        (ap (λ v. v.admin_action_execute_after) e.left) (ap supply e.left) before.supply_fits tt
invoke-IsInRange host env (upgrade hash) now w typed valid before =
    call-IsInRange w before (Admin.upgrade host env hash w) λ a w' h.
      let e = upgrade-done host env w h in
      told-IsInRange w before w' _ (ap (λ v. v.events) e.left) (ap cap e.left)
        (ap (λ v. v.admin_action_execute_after) e.left) (ap supply e.left) before.supply_fits tt
invoke-IsInRange host env (set_supply_cap new_cap) now w typed valid before =
    call-IsInRange w before (Admin.set_supply_cap host env new_cap w) λ a w' h.
      let e = set_supply_cap-done host env w h in
      rw e.left (record {
        supply_fits = before.supply_fits;
        cap_fits = typed;
        deadline_fits = before.deadline_fits;
        log_fits = LogInRange-append w.events _ before.log_fits (before.cap_fits, typed);
      })
invoke-IsInRange host env (create_stream s r amount start_time end_time) now w typed valid before =
    call-IsInRange w before (Create.create_stream host env s r amount start_time end_time w)
      λ id w' h.
        create_stream-IsInRange w before now valid host env s r amount start_time end_time typed.0 h
invoke-IsInRange host env (create_stream_batch sender requests) now w typed valid before =
    call-IsInRange w before (Batch.create_stream_batch host env sender requests w)
      λ ids w' h. create_stream_batch-IsInRange w before now valid host env sender requests typed h
invoke-IsInRange host env (top_up id sender amount) now w typed valid before =
    call-IsInRange w before (TopUp.top_up host env id sender amount w)
      λ a w' h. top_up-IsInRange w before now valid host env id sender amount h
invoke-IsInRange host env (extend_stream id sender new_end) now w typed valid before =
    call-IsInRange w before (Extend.extend_stream host env id sender new_end w)
      λ a w' h. extend_stream-IsInRange w before now valid host env id sender new_end typed h
invoke-IsInRange host env (withdraw id recipient) now w typed valid before =
    call-IsInRange w before (Withdraw.withdraw host env id recipient w)
      λ a w' h. withdraw-IsInRange w before now valid host env id recipient h
invoke-IsInRange host env (cancel id caller) now w typed valid before =
    call-IsInRange w before (Cancel.cancel host env id caller w)
      λ a w' h. cancel-IsInRange w before now valid host env id caller h

numbers-IsInRange :
    {T : Type 0} (host : Host T) (t : T) {now : ℕ} {w : World T}
    → Run host Typed AnyMove 0 (deployed t) now w
    → IsInRange w
numbers-IsInRange host t start = record {
  supply_fits = (omega arith, omega arith);
  cap_fits = (omega arith, omega arith);
  deadline_fits = omega arith;
  log_fits = tt;
}
numbers-IsInRange host t (call {now} {later} {w} {w'} run env c typed passed clock step) = rw step (
    invoke-IsInRange host env c now w typed (Run-IsValid host t run) (numbers-IsInRange host t run))
numbers-IsInRange host t (outside {now} {w} {w'} tokens run _ moved) =
    let before = numbers-IsInRange host t run in
    rw moved (record {
      supply_fits = before.supply_fits;
      cap_fits = before.cap_fits;
      deadline_fits = before.deadline_fits;
      log_fits = before.log_fits;
    })

-- From deployment, whatever typed calls are made, every number that the contract stores or
-- publishes is one of its Rust type: the supply, the cap, the counter and the deadline of a
-- scheduled transfer; each stream's id, total, withdrawn amount, start and end; and the ids,
-- amounts, times and caps of the events.
pub Run-IsInRange :
    {T : Type 0} (host : Host T) (t : T) {now : ℕ} {w : World T}
    → Run host Typed AnyMove 0 (deployed t) now w
    → IsInRange w × AllStreams StreamInRange w.streams × (unwrap_or w.counter 0 ≤ u64_max)
Run-IsInRange host t {now} {w} run =
    let valid = Run-IsValid host t run in
    (numbers-IsInRange host t run, IsValid-StreamInRange now w valid, valid.counter_fits)
