-- ===== src/Trace/Office/Calls.antt =====
-- Calls and runs against the administrator's office (src/lib.rs).
use stream_pay_contracts.Base.{none_ne_some, ℕ, ◌≡◌, refl, ap, ◌∙◌, false, unwrap_or, some, none}
use stream_pay_contracts.Types.{Address}
use stream_pay_contracts.Host.{Env, Host}
use stream_pay_contracts.World.{World, Outcome, done}
use stream_pay_contracts.Contract.Admin
use stream_pay_contracts.Contract.Create
use stream_pay_contracts.Contract.Create.{new_stream}
use stream_pay_contracts.Contract.Batch
use stream_pay_contracts.Contract.TopUp
use stream_pay_contracts.Contract.Extend
use stream_pay_contracts.Contract.Withdraw
use stream_pay_contracts.Contract.Withdraw.{pay_out}
use stream_pay_contracts.Contract.Cancel
use stream_pay_contracts.Contract.Admin.Effect.{
  initialize-done, schedule_admin_transfer-done, execute_admin_transfer-done,
  cancel_admin_transfer-done, set_admin-done, upgrade-done, set_supply_cap-done,
}
use stream_pay_contracts.Contract.Create.Effect.{create_stream-done}
use stream_pay_contracts.Contract.Batch.Effect.{create_stream_batch-done, finish, store_all-frame}
use stream_pay_contracts.Contract.TopUp.Effect.{top_up-done}
use stream_pay_contracts.Contract.Extend.Effect.{extend_stream-done}
use stream_pay_contracts.Contract.Withdraw.Effect.{withdraw-done}
use stream_pay_contracts.Contract.Cancel.Effect.{cancel-done}
use stream_pay_contracts.Trace.{
  Call, initialize, schedule_admin_transfer, execute_admin_transfer, cancel_admin_transfer,
  set_admin, upgrade, set_supply_cap, create_stream, create_stream_batch, top_up, extend_stream,
  withdraw, cancel, settle, invoke, Run, AnyCall, AnyMove, start, call, outside,
}
use stream_pay_contracts.Trace.Valid.{settle-keeps}
use stream_pay_contracts.Trace.Office.{
  Office, office_of, Rules, rest, found, schedule, hand_over, revoke, replace, set_cap,
  Rules-unauthorized, Rules-founded,
}
use stream_pay_contracts.Trace.Office

module _ {T : Type 0} (host : Host T) (env : Env) (w : World T) where
  call-Rules :
      {A : Type 0} (o : Outcome T A)
      → ((a : A) (w' : World T) → o ≡ done a w' → Rules env (office_of w) (office_of w'))
      → Rules env (office_of w) (office_of (settle w o))
  call-Rules o f = settle-keeps (λ v. Rules env (office_of w) (office_of v)) w o (rest refl) f

  -- Whatever call is made, returned or not, the administrator's office makes one of its steps: it
  -- rests; is founded, with its token, while nobody holds it; hands over to the address that waits,
  -- once its time has come; or, with the authorization of whoever holds it, schedules another
  -- address for the end of the delay, revokes that, is given away at once, changes the code, or
  -- sets a positive cap.
  pub invoke-Rules : (c : Call) → Rules env (office_of w) (office_of (invoke host env c w))
  unfolding invoke
  invoke-Rules (initialize admin token) =
      call-Rules (Admin.initialize host env admin token w) λ a w' h.
        let e = initialize-done host env w h in found admin token e.unset (ap office_of e.left)
  invoke-Rules (schedule_admin_transfer admin new_admin) =
      call-Rules (Admin.schedule_admin_transfer host env admin new_admin w) λ a w' h.
        let e = schedule_admin_transfer-done host env w h in
        schedule admin new_admin e.is_admin e.authorized e.changes (
          ap office_of e.left
          ∙ ap (λ t. record (office_of w) { pending = some new_admin; execute_after = some t })
              e.delayed)
  invoke-Rules execute_admin_transfer =
      call-Rules (Admin.execute_admin_transfer host env w) λ a w' h.
        let e = execute_admin_transfer-done host env w h in
        hand_over e.pending e.execute_after e.was_pending e.was_locked e.expired
          (ap office_of e.left)
  invoke-Rules (cancel_admin_transfer admin) =
      call-Rules (Admin.cancel_admin_transfer host env admin w) λ a w' h.
        let e = cancel_admin_transfer-done host env w h in
        revoke admin e.is_admin e.authorized (ap office_of e.left)
  invoke-Rules (set_admin new_admin) = call-Rules (Admin.set_admin host env new_admin w) λ a w' h.
      let e = set_admin-done host env w h in
      replace e.current new_admin e.was_admin e.authorized (ap office_of e.left)
  invoke-Rules (upgrade hash) = call-Rules (Admin.upgrade host env hash w) λ a w' h.
      let e = upgrade-done host env w h in
      Office.upgrade e.current hash e.was_admin e.authorized (ap office_of e.left)
  invoke-Rules (set_supply_cap new_cap) =
      call-Rules (Admin.set_supply_cap host env new_cap w) λ a w' h.
        let e = set_supply_cap-done host env w h in
        set_cap e.current new_cap e.was_admin e.authorized e.positive (ap office_of e.left)
  invoke-Rules (create_stream s r amount start_time end_time) =
      call-Rules (Create.create_stream host env s r amount start_time end_time w) λ a w' h.
        rest (ap office_of (create_stream-done host env s r amount start_time end_time w h).left)
  invoke-Rules (top_up id s amount) =
      call-Rules (TopUp.top_up host env id s amount w)
        λ a w' h. rest (ap office_of (top_up-done host env id s amount w h).left)
  invoke-Rules (extend_stream id s new_end) =
      call-Rules (Extend.extend_stream host env id s new_end w)
        λ a w' h. rest (ap office_of (extend_stream-done host env id s new_end w h).left)
  invoke-Rules (withdraw id r) =
      call-Rules (Withdraw.withdraw host env id r w)
        λ a w' h. rest (ap office_of (withdraw-done host env id r w h).left)
  invoke-Rules (cancel id caller) =
      call-Rules (Cancel.cancel host env id caller w)
        λ a w' h. rest (ap office_of (cancel-done host env id caller w h).left)
  invoke-Rules (create_stream_batch sender requests) =
      call-Rules (Batch.create_stream_batch host env sender requests w) λ a w' h.
        let e = create_stream_batch-done host env sender {requests = requests} {w = w} h in
        rest (
          ap office_of e.left
          ∙ ap office_of (
              ap (finish host env sender e.next) (
                store_all-frame host env sender (unwrap_or w.counter 0) requests
                  (record w { tokens = e.tokens }))))

-- The calls that the address did not authorize.
abbrev pub Unsigned : {T : Type 0} → Address → Env → World T → Call → Type 0
Unsigned admin env w c = env.authorized admin ≡ false

-- From a state with an administrator and no scheduled transfer, whatever calls follow that this
-- administrator does not authorize leave the administrator, the schedule, the token, the cap and
-- the code as they were.
pub Run-unauthorized :
    {T : Type 0} (host : Host T) (admin : Address) (since : ℕ) (first : World T) {now : ℕ}
    {w : World T}
    → first.admin ≡ some admin
    → first.admin_action_execute_after ≡ none
    → Run host (Unsigned admin) AnyMove since first now w
    → office_of w ≡ office_of first
Run-unauthorized host admin since first held idle start = refl
Run-unauthorized host admin since first held idle
      (call {now} {later} {w} {w'} run env c unsigned passed clock step) =
    let before = Run-unauthorized host admin since first held idle run in
    ap office_of step
    ∙ Rules-unauthorized env admin (invoke-Rules host env w c) (ap (λ o. o.admin) before ∙ held)
        unsigned (λ t set. none_ne_some (ap (λ o. o.execute_after) before ∙ idle) set)
    ∙ before
Run-unauthorized host admin since first held idle (outside {now} {w} {w'} tokens run _ moved) =
    ap office_of moved ∙ Run-unauthorized host admin since first held idle run

-- From a state with an administrator, whatever calls follow, there is an administrator, and the
-- token that is paid in is the same.
pub Run-founded :
    {T : Type 0} (host : Host T) (admin : Address) (since : ℕ) (first : World T) {now : ℕ}
    {w : World T}
    → first.admin ≡ some admin
    → Run host AnyCall AnyMove since first now w
    → (w.token ≡ first.token) × ((a : Address) × (w.admin ≡ some a))
Run-founded host admin since first held start = (refl, (admin, held))
Run-founded host admin since first held
      (call {now} {later} {w} {w'} run env c _ passed clock step) =
    let (token, (a, still)) = Run-founded host admin since first held run in
    let (kept, (b, holds)) = Rules-founded env a (invoke-Rules host env w c) still in
    (ap (λ v. v.token) step ∙ kept ∙ token, (b, ap (λ v. v.admin) step ∙ holds))
Run-founded host admin since first held (outside {now} {w} {w'} tokens run _ moved) =
    let (token, (a, still)) = Run-founded host admin since first held run in
    (ap (λ v. v.token) moved ∙ token, (a, ap (λ v. v.admin) moved ∙ still))
