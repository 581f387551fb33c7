-- ===== src/Trace/Capped.antt =====
-- The supply cap over sequences of calls without batches (src/lib.rs).
use stream_pay_contracts.Base.{ℕ, ◌≡◌, refl, ap, arith}
use stream_pay_contracts.Base.Int.{ℤ, pos, ◌-ℤ◌, ◌≤ℤ◌, int_laws}
use stream_pay_contracts.Host.{Env, Host}
use stream_pay_contracts.World.{World, Outcome, done}
use stream_pay_contracts.Contract.Admin
use stream_pay_contracts.Contract.Create
use stream_pay_contracts.Contract.TopUp
use stream_pay_contracts.Contract.Extend
use stream_pay_contracts.Contract.Withdraw
use stream_pay_contracts.Contract.Cancel
use stream_pay_contracts.Contract.Admin.Effect.{
  initialize-done, schedule_admin_transfer-done, execute_admin_transfer-done,
  cancel_admin_transfer-done, set_admin-done, upgrade-done, set_supply_cap-done,
}
use stream_pay_contracts.Contract.Extend.Effect.{extend_stream-done}
use stream_pay_contracts.Contract.Withdraw.Effect.{withdraw-done}
use stream_pay_contracts.Contract.Cancel.Effect.{cancel-done}
use stream_pay_contracts.Invariant.{IsValid, IsTracked, escrow, supply}
use stream_pay_contracts.Invariant.Capped.{create_stream_capped, top_up_capped}
use stream_pay_contracts.Invariant.Flow.{withdraw-part, cancel-split}
use stream_pay_contracts.Invariant.Insert.{escrow_of_nonneg}
use stream_pay_contracts.Invariant.Supply.{withdraw-IsTracked, cancel-IsTracked}
use stream_pay_contracts.Trace.{
  Call, initialize, schedule_admin_transfer, execute_admin_transfer, cancel_admin_transfer,
  set_admin, upgrade, set_supply_cap, create_stream, create_stream_batch, top_up, extend_stream,
  withdraw, cancel, IsUnbatched, settle, invoke, deployed, Run, start, call, outside, AnyMove,
}
use stream_pay_contracts.Trace.Valid.{settle-keeps, invoke-IsValid}
use stream_pay_contracts.Trace.Tracked.{IsUnbatched-IsTyped, invoke-IsTracked}
use stream_pay_contracts.Trace.Ranges.{cap}

-- No cap is set below the reported supply.
abbrev pub IsRoomy : {T : Type 0} → World T → Call → Type 0
IsRoomy w (set_supply_cap new_cap) = supply w ≤ℤ new_cap
IsRoomy w _ = Unit

abbrev pub Roomy : {T : Type 0} → Env → World T → Call → Type 0
Roomy env w c = IsUnbatched c × IsRoomy w c

abbrev pub IsCapped : {T : Type 0} → World T → Type 0
IsCapped w = supply w ≤ℤ cap w

lowered : (s a c : ℤ) → s ≤ℤ c → pos 0 ≤ℤ a → s -ℤ a ≤ℤ c
lowered s a c h k = omega int_laws

module _ {T : Type 0} (host : Host T) (env : Env) (now : ℕ) (w : World T) (valid : IsValid now w)
    (tracked : IsTracked w) (before : IsCapped w) where
  call-IsCapped :
      {A : Type 0} (o : Outcome T A)
      → ((a : A) (w' : World T) → o ≡ done a w' → IsCapped w')
      → IsCapped (settle w o)
  call-IsCapped o f = settle-keeps IsCapped w o before f

  -- A call that changes neither the supply nor the cap.
  same-IsCapped : (w' : World T) → supply w' ≡ supply w → cap w' ≡ cap w → IsCapped w'
  same-IsCapped w' same_supply same_cap = rw (same_supply, same_cap) before

  -- A call without a batch that sets no cap below the supply keeps the supply within the cap.
  invoke-IsCapped : (c : Call) → Roomy env w c → IsCapped (invoke host env c w)
  unfolding invoke
  invoke-IsCapped (initialize admin token) roomy =
      call-IsCapped (Admin.initialize host env admin token w)
        λ a w' h. let e = initialize-done host env w h in rw e.left (omega arith)
  invoke-IsCapped (schedule_admin_transfer admin new_admin) roomy =
      call-IsCapped (Admin.schedule_admin_transfer host env admin new_admin w) λ a w' h.
        let e = schedule_admin_transfer-done host env w h in
        same-IsCapped w' (ap supply e.left) (ap cap e.left)
  invoke-IsCapped execute_admin_transfer roomy =
      call-IsCapped (Admin.execute_admin_transfer host env w) λ a w' h.
        let e = execute_admin_transfer-done host env w h in
        same-IsCapped w' (ap supply e.left) (ap cap e.left)
  invoke-IsCapped (cancel_admin_transfer admin) roomy =
      call-IsCapped (Admin.cancel_admin_transfer host env admin w) λ a w' h.
        let e = cancel_admin_transfer-done host env w h in
        same-IsCapped w' (ap supply e.left) (ap cap e.left)
  invoke-IsCapped (set_admin new_admin) roomy =
      call-IsCapped (Admin.set_admin host env new_admin w) λ a w' h.
        let e = set_admin-done host env w h in same-IsCapped w' (ap supply e.left) (ap cap e.left)
  invoke-IsCapped (upgrade hash) roomy = call-IsCapped (Admin.upgrade host env hash w) λ a w' h.
      let e = upgrade-done host env w h in same-IsCapped w' (ap supply e.left) (ap cap e.left)
  invoke-IsCapped (set_supply_cap new_cap) roomy =
      call-IsCapped (Admin.set_supply_cap host env new_cap w)
        λ a w' h. let e = set_supply_cap-done host env w h in rw e.left roomy.1
  invoke-IsCapped (create_stream s r amount start_time end_time) roomy =
      call-IsCapped (Create.create_stream host env s r amount start_time end_time w)
        λ id w' h. create_stream_capped host env w s r amount start_time end_time h
  invoke-IsCapped (create_stream_batch sender requests) roomy = absurd roomy.0
  invoke-IsCapped (top_up id sender amount) roomy =
      call-IsCapped (TopUp.top_up host env id sender amount w)
        λ a w' h. top_up_capped host env w id sender amount h
  invoke-IsCapped (extend_stream id sender new_end) roomy =
      call-IsCapped (Extend.extend_stream host env id sender new_end w) λ a w' h.
        let e = extend_stream-done host env id sender new_end w h in
        same-IsCapped w' (ap supply e.left) (ap cap e.left)
  invoke-IsCapped (withdraw id recipient) roomy =
      call-IsCapped (Withdraw.withdraw host env id recipient w) λ a w' h.
        let e = withdraw-done host env id recipient w h in
        let (low, _) = withdraw-part now w valid host env id recipient h in
        rw ((withdraw-IsTracked now w valid tracked host env id recipient h).1, ap cap e.left)
          (lowered (supply w) a (cap w) before low)
  invoke-IsCapped (cancel id caller) roomy =
      call-IsCapped (Cancel.cancel host env id caller w) λ a w' h.
        let e = cancel-done host env id caller w h in
        let (_, _, _, _, well) = cancel-split now w valid host env id caller h in
        rw ((cancel-IsTracked now w valid tracked host env id caller h).1, ap cap e.left)
          (lowered (supply w) _ (cap w) before (escrow_of_nonneg e.stream well))

states-IsCapped :
    {T : Type 0} (host : Host T) (t : T) {now : ℕ} {w : World T}
    → Run host Roomy AnyMove 0 (deployed t) now w
    → IsValid now w × IsTracked w × IsCapped w
unfolding escrow
states-IsCapped host t start = (
  record { sound = tt; counter_fits = omega arith; fresh = λ unset. refl },
  record { tracked = refl; supply_fits = omega arith },
  omega arith,
)
states-IsCapped host t (call {now} {later} {w} {w'} run env c roomy passed clock step) =
    let (valid, tracked, capped) = states-IsCapped host t run in
    rw (clock, step)
      (
        invoke-IsValid host env c now w (IsUnbatched-IsTyped c roomy.0) (rw clock at passed) valid,
        invoke-IsTracked host env c now w roomy.0 valid tracked,
        invoke-IsCapped host env now w valid tracked capped c roomy,
      )
states-IsCapped host t (outside {now} {w} {w'} tokens run _ moved) =
    let (valid, tracked, capped) = states-IsCapped host t run in
    rw moved (
      record { sound = valid.sound; counter_fits = valid.counter_fits; fresh = valid.fresh },
      record { tracked = tracked.tracked; supply_fits = tracked.supply_fits },
      capped,
    )

-- From deployment, whatever typed calls other than batches are made, if no cap is set below the
-- supply that is reported then, the active streams never hold more than the supply cap.
pub Run-IsCapped :
    {T : Type 0} (host : Host T) (t : T) {now : ℕ} {w : World T}
    → Run host Roomy AnyMove 0 (deployed t) now w
    → escrow w.streams ≤ℤ cap w
Run-IsCapped host t run =
    let (valid, tracked, capped) = states-IsCapped host t run in rw (← tracked.tracked) capped
