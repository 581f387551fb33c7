-- ===== src/Trace/Valid.antt =====
-- The state's validity over sequences of calls (src/lib.rs).
use stream_pay_contracts.Base.{ℕ, ◌≤◌, ◌≡◌, refl, sym, ap, ◌∙◌, Option, none, some, arith}
use stream_pay_contracts.Host.{Env, Host}
use stream_pay_contracts.World.{World, Outcome, done, fail, trap}
use stream_pay_contracts.Contract.Admin
use stream_pay_contracts.Contract.Create
use stream_pay_contracts.Contract.Batch
use stream_pay_contracts.Contract.TopUp
use stream_pay_contracts.Contract.Extend
use stream_pay_contracts.Contract.Withdraw
use stream_pay_contracts.Contract.Cancel
use stream_pay_contracts.Contract.Admin.Effect.{
  initialize-done, schedule_admin_transfer-done, execute_admin_transfer-done,
  cancel_admin_transfer-done, set_admin-done, upgrade-done, set_supply_cap-done,
}
use stream_pay_contracts.Invariant.{IsValid}
use stream_pay_contracts.Invariant.Preserved.{
  AllStreams-later, top_up-IsValid, extend_stream-IsValid, withdraw-IsValid, cancel-IsValid,
  create_stream-IsValid,
}
use stream_pay_contracts.Invariant.Batch.{create_stream_batch-IsValid}
use stream_pay_contracts.Trace.{
  Call, initialize, schedule_admin_transfer, execute_admin_transfer, cancel_admin_transfer,
  set_admin, upgrade, set_supply_cap, create_stream, create_stream_batch, top_up, extend_stream,
  withdraw, cancel, IsTyped, settle, invoke, deployed, Run, start, call, outside, Typed, AnyMove,
}

-- A property holds after a call if it held before and holds of every result that is returned.
pub settle-keeps :
    {T A : Type 0} (P : World T → Type 0) (w : World T) (o : Outcome T A)
    → P w
    → ((a : A) (w' : World T) → o ≡ done a w' → P w')
    → P (settle w o)
settle-keeps P w (done a w') h f = f a w' refl
settle-keeps P w (fail e w') h f = h
settle-keeps P w trap h f = h

-- Time alone keeps the state valid.
pub IsValid-later :
    {T : Type 0} (now later : ℕ) (w : World T) → now ≤ later → IsValid now w → IsValid later w
IsValid-later now later w h valid = record {
  sound = AllStreams-later w.streams h (omega arith) valid.sound;
  counter_fits = valid.counter_fits;
  fresh = valid.fresh;
}

-- A call that writes neither streams nor the counter, and unsets no administrator.
same_streams-IsValid :
    {T : Type 0} (now : ℕ) (w w' : World T)
    → IsValid now w
    → w'.streams ≡ w.streams
    → w'.counter ≡ w.counter
    → (w'.admin ≡ none → w.admin ≡ none)
    → IsValid now w'
same_streams-IsValid now w w' valid streams_eq counter_eq unset = record {
  sound = rw (streams_eq, counter_eq) valid.sound;
  counter_fits = rw counter_eq valid.counter_fits;
  fresh = λ h. streams_eq ∙ valid.fresh (unset h);
}

some_ne_none : {A B : Type 0} {a : A} {o : Option A} → o ≡ some a → o ≡ none → B
some_ne_none h k = cc

-- The same for every result of a call.
frame-IsValid :
    {T A : Type 0} (now later : ℕ) (w : World T) (o : Outcome T A)
    → now ≤ later
    → IsValid now w
    → ((a : A) (w' : World T)
        → o ≡ done a w'
        → (w'.streams ≡ w.streams) × (w'.counter ≡ w.counter) × (w'.admin ≡ none → w.admin ≡ none))
    → IsValid later (settle w o)
frame-IsValid now later w o passed valid frame =
    let kept = IsValid-later now later w passed valid in
    settle-keeps (IsValid later) w o kept λ a w' h.
      let (streams_eq, counter_eq, unset) = frame a w' h in
      same_streams-IsValid later w w' kept streams_eq counter_eq unset

-- A typed call keeps the state valid, returned or not.
pub invoke-IsValid :
    {T : Type 0} (host : Host T) (env : Env) (c : Call) (now : ℕ) (w : World T)
    → IsTyped c
    → now ≤ env.timestamp
    → IsValid now w
    → IsValid env.timestamp (invoke host env c w)
unfolding invoke
invoke-IsValid host env (initialize admin token) now w typed passed valid =
    settle-keeps (IsValid env.timestamp) w (Admin.initialize host env admin token w)
      (IsValid-later now env.timestamp w passed valid)
      λ a w' h.
        let e = initialize-done host env w h in
        rw e.left (record {
          sound = rw (valid.fresh e.unset) tt;
          counter_fits = omega arith;
          fresh = λ unset. valid.fresh e.unset;
        })
invoke-IsValid host env (schedule_admin_transfer admin new_admin) now w typed passed valid =
    frame-IsValid now env.timestamp w (Admin.schedule_admin_transfer host env admin new_admin w)
      passed valid
      λ a w' h.
        let e = schedule_admin_transfer-done host env w h in
        (
          ap (λ v. v.streams) e.left,
          ap (λ v. v.counter) e.left,
          λ unset. sym (ap (λ v. v.admin) e.left) ∙ unset,
        )
invoke-IsValid host env execute_admin_transfer now w typed passed valid =
    frame-IsValid now env.timestamp w (Admin.execute_admin_transfer host env w) passed valid
      λ a w' h.
        let e = execute_admin_transfer-done host env w h in
        (
          ap (λ v. v.streams) e.left,
          ap (λ v. v.counter) e.left,
          some_ne_none (ap (λ v. v.admin) e.left),
        )
invoke-IsValid host env (cancel_admin_transfer admin) now w typed passed valid =
    frame-IsValid now env.timestamp w (Admin.cancel_admin_transfer host env admin w) passed valid
      λ a w' h.
        let e = cancel_admin_transfer-done host env w h in
        (
          ap (λ v. v.streams) e.left,
          ap (λ v. v.counter) e.left,
          λ unset. sym (ap (λ v. v.admin) e.left) ∙ unset,
        )
invoke-IsValid host env (set_admin new_admin) now w typed passed valid =
    frame-IsValid now env.timestamp w (Admin.set_admin host env new_admin w) passed valid λ a w' h.
      let e = set_admin-done host env w h in
      (
        ap (λ v. v.streams) e.left,
        ap (λ v. v.counter) e.left,
        some_ne_none (ap (λ v. v.admin) e.left),
      )
invoke-IsValid host env (upgrade hash) now w typed passed valid =
    frame-IsValid now env.timestamp w (Admin.upgrade host env hash w) passed valid λ a w' h.
      let e = upgrade-done host env w h in
      (
        ap (λ v. v.streams) e.left,
        ap (λ v. v.counter) e.left,
        λ unset. sym (ap (λ v. v.admin) e.left) ∙ unset,
      )
invoke-IsValid host env (set_supply_cap new_cap) now w typed passed valid =
    frame-IsValid now env.timestamp w (Admin.set_supply_cap host env new_cap w) passed valid
      λ a w' h.
        let e = set_supply_cap-done host env w h in
        (
          ap (λ v. v.streams) e.left,
          ap (λ v. v.counter) e.left,
          λ unset. sym (ap (λ v. v.admin) e.left) ∙ unset,
        )
invoke-IsValid host env (create_stream s r amount start_time end_time) now w typed passed valid =
    settle-keeps (IsValid env.timestamp) w
      (Create.create_stream host env s r amount start_time end_time w)
      (IsValid-later now env.timestamp w passed valid)
      λ a w' h.
        create_stream-IsValid now w valid env.timestamp passed host env s r amount start_time
          end_time typed.0 typed.1 h
invoke-IsValid host env (create_stream_batch sender requests) now w typed passed valid =
    settle-keeps (IsValid env.timestamp) w (Batch.create_stream_batch host env sender requests w)
      (IsValid-later now env.timestamp w passed valid)
      λ a w' h. create_stream_batch-IsValid now w host env sender requests valid passed typed h
invoke-IsValid host env (top_up id sender amount) now w typed passed valid =
    settle-keeps (IsValid env.timestamp) w (TopUp.top_up host env id sender amount w)
      (IsValid-later now env.timestamp w passed valid)
      λ a w' h. top_up-IsValid now w valid env.timestamp passed host env id sender amount refl h
invoke-IsValid host env (extend_stream id sender new_end) now w typed passed valid =
    settle-keeps (IsValid env.timestamp) w (Extend.extend_stream host env id sender new_end w)
      (IsValid-later now env.timestamp w passed valid)
      λ a w' h.
        extend_stream-IsValid now w valid env.timestamp passed host env id sender new_end typed h
invoke-IsValid host env (withdraw id recipient) now w typed passed valid =
    settle-keeps (IsValid env.timestamp) w (Withdraw.withdraw host env id recipient w)
      (IsValid-later now env.timestamp w passed valid)
      λ a w' h. withdraw-IsValid now w valid env.timestamp passed host env id recipient refl h
invoke-IsValid host env (cancel id caller) now w typed passed valid =
    settle-keeps (IsValid env.timestamp) w (Cancel.cancel host env id caller w)
      (IsValid-later now env.timestamp w passed valid)
      λ a w' h. cancel-IsValid now w valid env.timestamp passed host env id caller h

-- Typed calls keep a valid state valid.
pub Run-IsValid_from :
    {T : Type 0} (host : Host T) {since : ℕ} {first : World T} {now : ℕ} {w : World T}
    → IsValid since first
    → Run host Typed AnyMove since first now w
    → IsValid now w
Run-IsValid_from host valid start = valid
Run-IsValid_from host valid (call {now} {later} {w} {w'} run env c typed passed clock step) =
    rw (clock, step)
      (invoke-IsValid host env c now w typed (rw clock at passed) (Run-IsValid_from host valid run))
Run-IsValid_from host valid (outside {now} {w} {w'} tokens run _ moved) =
    let before = Run-IsValid_from host valid run in
    rw moved
      (record { sound = before.sound; counter_fits = before.counter_fits; fresh = before.fresh })

-- Every state that typed calls reach from deployment is valid: every stored stream is well formed,
-- owes something while active and nothing once completed, a completed one has reached its end, ids
-- are below the counter, and there are no streams before the setup.
pub Run-IsValid :
    {T : Type 0} (host : Host T) (t : T) {now : ℕ} {w : World T}
    → Run host Typed AnyMove 0 (deployed t) now w
    → IsValid now w
Run-IsValid host t run =
    Run-IsValid_from host (record { sound = tt; counter_fits = omega arith; fresh = λ unset. refl })
      run
