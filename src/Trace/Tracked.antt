-- ===== src/Trace/Tracked.antt =====
-- The reported supply over sequences of calls without batches (src/lib.rs).
use stream_pay_contracts.Base.{ℕ, ◌≡◌, refl, ap, arith}
use stream_pay_contracts.Host.{Env, Host}
use stream_pay_contracts.World.{World, Outcome, done}
use stream_pay_contracts.Contract.Admin
use stream_pay_contracts.Contract.Create
use stream_pay_contracts.Contract.TopUp
use stream_pay_contracts.Contract.Extend
use stream_pay_contracts.Contract.Withdraw
use stream_pay_contracts.Contract.Cancel
use stream_pay_contracts.Contract.Admin.Effect.{
  initialize-done, schedule_admin_transfer-done, execute_admin_transfer-done,
  cancel_admin_transfer-done, set_admin-done, upgrade-done, set_supply_cap-done,
}
use stream_pay_contracts.Invariant.{IsValid, IsTracked, escrow}
use stream_pay_contracts.Invariant.Supply.{
  top_up-IsTracked, extend_stream-IsTracked, withdraw-IsTracked, cancel-IsTracked,
  create_stream-IsTracked,
}
use stream_pay_contracts.Trace.{
  Call, initialize, schedule_admin_transfer, execute_admin_transfer, cancel_admin_transfer,
  set_admin, upgrade, set_supply_cap, create_stream, create_stream_batch, top_up, extend_stream,
  withdraw, cancel, IsTyped, IsUnbatched, settle, invoke, deployed, Run, start, call, outside,
  Unbatched, AnyMove,
}
use stream_pay_contracts.Trace.Valid.{settle-keeps, invoke-IsValid}

-- A call that writes neither streams nor the supply.
frame-IsTracked :
    {T A : Type 0} (w : World T) (o : Outcome T A)
    → IsTracked w
    → ((a : A) (w' : World T)
        → o ≡ done a w'
        → (w'.streams ≡ w.streams) × (w'.total_supply ≡ w.total_supply))
    → IsTracked (settle w o)
frame-IsTracked w o tracked frame = settle-keeps IsTracked w o tracked λ a w' h.
    let (streams_eq, supply_eq) = frame a w' h in
    record {
      tracked = rw (streams_eq, supply_eq) tracked.tracked;
      supply_fits = rw supply_eq tracked.supply_fits;
    }

-- A call that is no batch keeps the supply tracked, returned or not.
pub invoke-IsTracked :
    {T : Type 0} (host : Host T) (env : Env) (c : Call) (now : ℕ) (w : World T)
    → IsUnbatched c
    → IsValid now w
    → IsTracked w
    → IsTracked (invoke host env c w)
unfolding invoke escrow
invoke-IsTracked host env (initialize admin token) now w plain valid tracked =
    settle-keeps IsTracked w (Admin.initialize host env admin token w) tracked λ a w' h.
      let e = initialize-done host env w h in
      rw e.left (record { tracked = rw (valid.fresh e.unset) refl; supply_fits = omega arith })
invoke-IsTracked host env (schedule_admin_transfer admin new_admin) now w plain valid tracked =
    frame-IsTracked w (Admin.schedule_admin_transfer host env admin new_admin w) tracked λ a w' h.
      let e = schedule_admin_transfer-done host env w h in
      (ap (λ v. v.streams) e.left, ap (λ v. v.total_supply) e.left)
invoke-IsTracked host env execute_admin_transfer now w plain valid tracked =
    frame-IsTracked w (Admin.execute_admin_transfer host env w) tracked λ a w' h.
      let e = execute_admin_transfer-done host env w h in
      (ap (λ v. v.streams) e.left, ap (λ v. v.total_supply) e.left)
invoke-IsTracked host env (cancel_admin_transfer admin) now w plain valid tracked =
    frame-IsTracked w (Admin.cancel_admin_transfer host env admin w) tracked λ a w' h.
      let e = cancel_admin_transfer-done host env w h in
      (ap (λ v. v.streams) e.left, ap (λ v. v.total_supply) e.left)
invoke-IsTracked host env (set_admin new_admin) now w plain valid tracked =
    frame-IsTracked w (Admin.set_admin host env new_admin w) tracked λ a w' h.
      let e = set_admin-done host env w h in
      (ap (λ v. v.streams) e.left, ap (λ v. v.total_supply) e.left)
invoke-IsTracked host env (upgrade hash) now w plain valid tracked =
    frame-IsTracked w (Admin.upgrade host env hash w) tracked λ a w' h.
      let e = upgrade-done host env w h in
      (ap (λ v. v.streams) e.left, ap (λ v. v.total_supply) e.left)
invoke-IsTracked host env (set_supply_cap new_cap) now w plain valid tracked =
    frame-IsTracked w (Admin.set_supply_cap host env new_cap w) tracked λ a w' h.
      let e = set_supply_cap-done host env w h in
      (ap (λ v. v.streams) e.left, ap (λ v. v.total_supply) e.left)
invoke-IsTracked host env (create_stream s r amount start_time end_time) now w plain valid tracked =
    settle-keeps IsTracked w (Create.create_stream host env s r amount start_time end_time w)
      tracked
      λ a w' h.
        (create_stream-IsTracked now w valid tracked host env s r amount start_time end_time h).0
invoke-IsTracked host env (create_stream_batch sender requests) now w plain valid tracked =
    absurd plain
invoke-IsTracked host env (top_up id sender amount) now w plain valid tracked =
    settle-keeps IsTracked w (TopUp.top_up host env id sender amount w) tracked
      λ a w' h. (top_up-IsTracked now w valid tracked host env id sender amount h).0
invoke-IsTracked host env (extend_stream id sender new_end) now w plain valid tracked =
    settle-keeps IsTracked w (Extend.extend_stream host env id sender new_end w) tracked
      λ a w' h. (extend_stream-IsTracked now w valid tracked host env id sender new_end h).0
invoke-IsTracked host env (withdraw id recipient) now w plain valid tracked =
    settle-keeps IsTracked w (Withdraw.withdraw host env id recipient w) tracked
      λ a w' h. (withdraw-IsTracked now w valid tracked host env id recipient h).0
invoke-IsTracked host env (cancel id caller) now w plain valid tracked =
    settle-keeps IsTracked w (Cancel.cancel host env id caller w) tracked
      λ a w' h. (cancel-IsTracked now w valid tracked host env id caller h).0

pub IsUnbatched-IsTyped : (c : Call) → IsUnbatched c → IsTyped c
IsUnbatched-IsTyped (create_stream_batch sender requests) plain = absurd plain
IsUnbatched-IsTyped (create_stream s r amount start_time end_time) plain = plain
IsUnbatched-IsTyped (extend_stream id sender new_end) plain = plain
IsUnbatched-IsTyped (set_supply_cap new_cap) plain = plain
IsUnbatched-IsTyped _ plain = plain

-- From deployment, whatever sequence of typed calls other than batches is made, the state is valid
-- and the reported total supply is the sum of what the active streams still hold.
pub Run-IsTracked :
    {T : Type 0} (host : Host T) (t : T) {now : ℕ} {w : World T}
    → Run host Unbatched AnyMove 0 (deployed t) now w
    → IsValid now w × IsTracked w
unfolding escrow
Run-IsTracked host t start = (
  record { sound = tt; counter_fits = omega arith; fresh = λ unset. refl },
  record { tracked = refl; supply_fits = omega arith },
)
Run-IsTracked host t (call {now} {later} {w} {w'} run env c plain passed clock step) =
    let (valid, tracked) = Run-IsTracked host t run in
    rw (clock, step)
      (
        invoke-IsValid host env c now w (IsUnbatched-IsTyped c plain) (rw clock at passed) valid,
        invoke-IsTracked host env c now w plain valid tracked,
      )
Run-IsTracked host t (outside {now} {w} {w'} tokens run _ moved) =
    let (valid, tracked) = Run-IsTracked host t run in
    rw moved (
      record { sound = valid.sound; counter_fits = valid.counter_fits; fresh = valid.fresh },
      record { tracked = tracked.tracked; supply_fits = tracked.supply_fits },
    )
