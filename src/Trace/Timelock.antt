-- ===== src/Trace/Timelock.antt =====
-- The governance timelock over sequences of calls.
use stream_pay_contracts.Base.{
  none_ne_some, ℕ, ⊤, ◌+◌, ◌≤◌, ◌≡◌, sym, ap, ◌∙◌, Option, none, some, arith, unwrap_or,
}
use stream_pay_contracts.Constants.{admin_timelock_delay}
use stream_pay_contracts.Host.{Env, Host}
use stream_pay_contracts.World.{World, Outcome, done}
use stream_pay_contracts.Contract.Admin
use stream_pay_contracts.Contract.Create
use stream_pay_contracts.Contract.Batch
use stream_pay_contracts.Contract.TopUp
use stream_pay_contracts.Contract.Extend
use stream_pay_contracts.Contract.Withdraw
use stream_pay_contracts.Contract.Cancel
use stream_pay_contracts.Contract.Admin.Effect.{
  initialize-done, schedule_admin_transfer-done, execute_admin_transfer-done,
  cancel_admin_transfer-done, set_admin-done, upgrade-done, set_supply_cap-done,
}
use stream_pay_contracts.Contract.Create.Effect.{create_stream-done}
use stream_pay_contracts.Contract.Batch.Effect.{create_stream_batch-done, store_all-frame}
use stream_pay_contracts.Contract.TopUp.Effect.{top_up-done}
use stream_pay_contracts.Contract.Extend.Effect.{extend_stream-done}
use stream_pay_contracts.Contract.Withdraw.Effect.{withdraw-done}
use stream_pay_contracts.Contract.Cancel.Effect.{cancel-done}
use stream_pay_contracts.Trace.{
  Call, initialize, schedule_admin_transfer, execute_admin_transfer, cancel_admin_transfer,
  set_admin, upgrade, set_supply_cap, create_stream, create_stream_batch, top_up, extend_stream,
  withdraw, cancel, settle, invoke, Run, start, call, outside, AnyCall, AnyMove,
}
use stream_pay_contracts.Trace.Valid.{settle-keeps}

-- No scheduled transfer can execute before `bound`.
abbrev IsLocked : {T : Type 0} → ℕ → World T → Type 0
IsLocked bound w = (t : ℕ) → w.admin_action_execute_after ≡ some t → bound ≤ t

-- A call that leaves the schedule alone, or clears it.
frame-IsLocked :
    {T A : Type 0} (bound : ℕ) (w : World T) (o : Outcome T A)
    → IsLocked bound w
    → ((a : A) (w' : World T)
        → o ≡ done a w'
        → w'.admin_action_execute_after ≡ w.admin_action_execute_after)
    → IsLocked bound (settle w o)
frame-IsLocked bound w o locked frame =
    settle-keeps (IsLocked bound) w o locked λ a w' h t set. locked t (sym (frame a w' h) ∙ set)

some_eq : {s t : ℕ} {o : Option ℕ} → o ≡ some s → o ≡ some t → s ≡ t
some_eq h k = cc

invoke-IsLocked :
    {T : Type 0} (host : Host T) (env : Env) (c : Call) (bound : ℕ) (w : World T)
    → bound ≤ env.timestamp + admin_timelock_delay
    → IsLocked bound w
    → IsLocked bound (invoke host env c w)
unfolding invoke
invoke-IsLocked host env (initialize admin token) bound w late locked =
    frame-IsLocked bound w (Admin.initialize host env admin token w) locked
      λ a w' h. ap (λ v. v.admin_action_execute_after) (initialize-done host env w h).left
invoke-IsLocked host env (schedule_admin_transfer admin new_admin) bound w late locked =
    settle-keeps (IsLocked bound) w (Admin.schedule_admin_transfer host env admin new_admin w)
      locked
      λ a w' h t set.
        let e = schedule_admin_transfer-done host env w h in
        let t_eq : a ≡ t = some_eq (ap (λ v. v.admin_action_execute_after) e.left) set in
        omega (arith, e.delayed)
invoke-IsLocked host env execute_admin_transfer bound w late locked =
    settle-keeps (IsLocked bound) w (Admin.execute_admin_transfer host env w) locked λ a w' h t set.
      let e = execute_admin_transfer-done host env w h in
      none_ne_some (ap (λ v. v.admin_action_execute_after) e.left) set
invoke-IsLocked host env (cancel_admin_transfer admin) bound w late locked =
    settle-keeps (IsLocked bound) w (Admin.cancel_admin_transfer host env admin w) locked
      λ a w' h t set.
        let e = cancel_admin_transfer-done host env w h in
        none_ne_some (ap (λ v. v.admin_action_execute_after) e.left) set
invoke-IsLocked host env (set_admin new_admin) bound w late locked =
    frame-IsLocked bound w (Admin.set_admin host env new_admin w) locked
      λ a w' h. ap (λ v. v.admin_action_execute_after) (set_admin-done host env w h).left
invoke-IsLocked host env (upgrade hash) bound w late locked =
    frame-IsLocked bound w (Admin.upgrade host env hash w) locked
      λ a w' h. ap (λ v. v.admin_action_execute_after) (upgrade-done host env w h).left
invoke-IsLocked host env (set_supply_cap new_cap) bound w late locked =
    frame-IsLocked bound w (Admin.set_supply_cap host env new_cap w) locked
      λ a w' h. ap (λ v. v.admin_action_execute_after) (set_supply_cap-done host env w h).left
invoke-IsLocked host env (create_stream s r amount start_time end_time) bound w late locked =
    frame-IsLocked bound w (Create.create_stream host env s r amount start_time end_time w) locked
      λ a w' h.
        ap (λ v. v.admin_action_execute_after)
          (create_stream-done host env s r amount start_time end_time w h).left
invoke-IsLocked host env (create_stream_batch sender requests) bound w late locked =
    frame-IsLocked bound w (Batch.create_stream_batch host env sender requests w) locked λ a w' h.
      let e = create_stream_batch-done host env sender h in
      ap (λ v. v.admin_action_execute_after) e.left
      ∙ ap (λ v. v.admin_action_execute_after)
          (store_all-frame host env sender (unwrap_or w.counter 0) requests
            (record w { tokens = e.tokens }))
invoke-IsLocked host env (top_up id sender amount) bound w late locked =
    frame-IsLocked bound w (TopUp.top_up host env id sender amount w) locked λ a w' h.
      ap (λ v. v.admin_action_execute_after) (top_up-done host env id sender amount w h).left
invoke-IsLocked host env (extend_stream id sender new_end) bound w late locked =
    frame-IsLocked bound w (Extend.extend_stream host env id sender new_end w) locked λ a w' h.
      ap (λ v. v.admin_action_execute_after)
        (extend_stream-done host env id sender new_end w h).left
invoke-IsLocked host env (withdraw id recipient) bound w late locked =
    frame-IsLocked bound w (Withdraw.withdraw host env id recipient w) locked λ a w' h.
      ap (λ v. v.admin_action_execute_after) (withdraw-done host env id recipient w h).left
invoke-IsLocked host env (cancel id caller) bound w late locked =
    frame-IsLocked bound w (Cancel.cancel host env id caller w) locked
      λ a w' h. ap (λ v. v.admin_action_execute_after) (cancel-done host env id caller w h).left

Run-IsLocked :
    {T : Type 0} (host : Host T) (since : ℕ) (first : World T) {now : ℕ} {w : World T}
    → IsLocked (since + admin_timelock_delay) first
    → Run host AnyCall AnyMove since first now w
    → (since ≤ now) × IsLocked (since + admin_timelock_delay) w
Run-IsLocked host since first locked start = (omega arith, locked)
Run-IsLocked host since first locked
      (call {now} {later} {w} {w'} run env c plain passed clock step) =
    let (older, still) = Run-IsLocked host since first locked run in
    (
      omega arith,
      rw step (invoke-IsLocked host env c (since + admin_timelock_delay) w (omega arith) still),
    )
Run-IsLocked host since first locked (outside {now} {w} {w'} tokens run _ moved) =
    let (older, still) = Run-IsLocked host since first locked run in
    (older, λ t set. still t (sym (ap (λ v. v.admin_action_execute_after) moved) ∙ set))

-- From a state in which no transfer is scheduled, whatever calls follow, no scheduled transfer
-- executes before the delay has passed since then.
pub timelock_enforced :
    {T : Type 0} (host : Host T) (since : ℕ) (first : World T) {now : ℕ} {w w' : World T}
    (env : Env) {a : ⊤}
    → first.admin_action_execute_after ≡ none
    → Run host AnyCall AnyMove since first now w
    → Admin.execute_admin_transfer host env w ≡ done a w'
    → since + admin_timelock_delay ≤ env.timestamp
timelock_enforced host since first {now} {w} env unscheduled run h =
    let e = execute_admin_transfer-done host env w h in
    let (_, locked) = Run-IsLocked host since first (λ t set. none_ne_some unscheduled set) run in
    omega (arith, locked e.execute_after e.was_locked, e.expired)
