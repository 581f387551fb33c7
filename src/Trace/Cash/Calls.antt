-- ===== src/Trace/Cash/Calls.antt =====
-- Calls and runs against the cash book (src/lib.rs, src/events.rs).
use stream_pay_contracts.Base.{ℕ, ◌≡◌, refl, sym, ap, ◌∙◌, subst, Option, some, none, [], ◌∷◌, ◌++◌}
use stream_pay_contracts.Base.Int.{pos, ◌+ℤ◌, add_zero}
use stream_pay_contracts.Types.{Address}
use stream_pay_contracts.Host.{Env, Host, MovesTokens}
use stream_pay_contracts.World.{World}
use stream_pay_contracts.Events.{Event}
use stream_pay_contracts.Contract.Admin
use stream_pay_contracts.Contract.Create
use stream_pay_contracts.Contract.Batch
use stream_pay_contracts.Contract.TopUp
use stream_pay_contracts.Contract.Extend
use stream_pay_contracts.Contract.Withdraw
use stream_pay_contracts.Contract.Cancel
use stream_pay_contracts.Contract.Admin.Effect.{
  initialize-done, schedule_admin_transfer-done, execute_admin_transfer-done,
  cancel_admin_transfer-done, set_admin-done, upgrade-done, set_supply_cap-done,
}
use stream_pay_contracts.Trace.{
  Call, initialize, schedule_admin_transfer, execute_admin_transfer, cancel_admin_transfer,
  set_admin, upgrade, set_supply_cap, create_stream, create_stream_batch, top_up, extend_stream,
  withdraw, cancel, invoke, deployed, Run, start, call, outside,
}
use stream_pay_contracts.Trace.Replay.{replay, catalog}
use stream_pay_contracts.Trace.Replay.EntryPoints.{IsLogged}
use stream_pay_contracts.Trace.Replay.Calls.{invoke-IsLogged}
use stream_pay_contracts.Trace.Cash.{flow, cash, cash_from}
use stream_pay_contracts.Trace.Cash.Booked.{IsBooked, IsPaidIn, call-IsBooked, told-IsBooked}
use stream_pay_contracts.Trace.Cash.EntryPoints.{
  create_stream-IsBooked, create_stream_batch-IsBooked, top_up-IsBooked, extend_stream-IsBooked,
  withdraw-IsBooked, cancel-IsBooked,
}

set_ne_unset : {A B : Type 0} {a : A} {o : Option A} → o ≡ some a → o ≡ none → B
set_ne_unset h k = cc

module _ {T : Type 0} (host : Host T) (laws : MovesTokens host) (t : T) (env : Env) (w : World T)
    (logged : IsLogged w) (before : IsBooked host t env.current_contract w) where
  -- A call that publishes one event and moves nothing.
  quiet-IsBooked :
      (w' : World T) (e : Event)
      → w'.events ≡ w.events ++ e ∷ []
      → w'.token ≡ w.token
      → w'.tokens ≡ w.tokens
      → (w'.admin ≡ none → w.admin ≡ none)
      → ((holder : Address) → flow env.current_contract (catalog w.streams) e holder ≡ pos 0)
      → IsBooked host t env.current_contract w'
  quiet-IsBooked w' e told same still_tokens still quiet =
      told-IsBooked host laws t env w logged before w' e told same still λ token allowed holder.
        ap (λ x. host.balance x token holder) still_tokens
        ∙ sym (ap (λ x. host.balance w.tokens token holder +ℤ x) (quiet holder) ∙ add_zero _)

  -- Whatever call is made, returned or not, the log still accounts for the tokens.
  invoke-IsBooked : (c : Call) → IsBooked host t env.current_contract (invoke host env c w)
  unfolding invoke flow
  invoke-IsBooked (initialize admin token) =
      call-IsBooked host laws t env w logged before (Admin.initialize host env admin token w)
        λ a w' h.
          let e = initialize-done host env w h in
          let unset = before.unset e.unset in
          rw e.left (record {
            unset = λ none_set. cc;
            booked = λ other _ holder.
                before.booked other (subst (λ o. IsPaidIn o other) (sym unset) tt) holder;
          })
  invoke-IsBooked (schedule_admin_transfer admin new_admin) =
      call-IsBooked host laws t env w logged before
        (Admin.schedule_admin_transfer host env admin new_admin w)
        λ a w' h.
          let e = schedule_admin_transfer-done host env w h in
          quiet-IsBooked w' _ (ap (λ v. v.events) e.left) (ap (λ v. v.token) e.left)
            (ap (λ v. v.tokens) e.left) (λ unset. sym (ap (λ v. v.admin) e.left) ∙ unset)
            λ holder. refl
  invoke-IsBooked execute_admin_transfer =
      call-IsBooked host laws t env w logged before (Admin.execute_admin_transfer host env w)
        λ a w' h.
          let e = execute_admin_transfer-done host env w h in
          quiet-IsBooked w' _ (ap (λ v. v.events) e.left) (ap (λ v. v.token) e.left)
            (ap (λ v. v.tokens) e.left) (set_ne_unset (ap (λ v. v.admin) e.left)) λ holder. refl
  invoke-IsBooked (cancel_admin_transfer admin) =
      call-IsBooked host laws t env w logged before (Admin.cancel_admin_transfer host env admin w)
        λ a w' h.
          let e = cancel_admin_transfer-done host env w h in
          quiet-IsBooked w' _ (ap (λ v. v.events) e.left) (ap (λ v. v.token) e.left)
            (ap (λ v. v.tokens) e.left) (λ unset. sym (ap (λ v. v.admin) e.left) ∙ unset)
            λ holder. refl
  invoke-IsBooked (set_admin new_admin) =
      call-IsBooked host laws t env w logged before (Admin.set_admin host env new_admin w) λ a w' h.
        let e = set_admin-done host env w h in
        quiet-IsBooked w' _ (ap (λ v. v.events) e.left) (ap (λ v. v.token) e.left)
          (ap (λ v. v.tokens) e.left) (set_ne_unset (ap (λ v. v.admin) e.left)) λ holder. refl
  invoke-IsBooked (upgrade hash) =
      call-IsBooked host laws t env w logged before (Admin.upgrade host env hash w) λ a w' h.
        let e = upgrade-done host env w h in
        quiet-IsBooked w' _ (ap (λ v. v.events) e.left) (ap (λ v. v.token) e.left)
          (ap (λ v. v.tokens) e.left) (λ unset. sym (ap (λ v. v.admin) e.left) ∙ unset)
          λ holder. refl
  invoke-IsBooked (set_supply_cap new_cap) =
      call-IsBooked host laws t env w logged before (Admin.set_supply_cap host env new_cap w)
        λ a w' h.
          let e = set_supply_cap-done host env w h in
          quiet-IsBooked w' _ (ap (λ v. v.events) e.left) (ap (λ v. v.token) e.left)
            (ap (λ v. v.tokens) e.left) (λ unset. sym (ap (λ v. v.admin) e.left) ∙ unset)
            λ holder. refl
  invoke-IsBooked (create_stream s r amount start_time end_time) =
      call-IsBooked host laws t env w logged before
        (Create.create_stream host env s r amount start_time end_time w)
        λ id w' h.
          create_stream-IsBooked host laws t env w logged before s r amount start_time end_time h
  invoke-IsBooked (create_stream_batch sender requests) =
      call-IsBooked host laws t env w logged before
        (Batch.create_stream_batch host env sender requests w)
        λ ids w' h. create_stream_batch-IsBooked host laws t env w logged before sender requests h
  invoke-IsBooked (top_up id s amount) =
      call-IsBooked host laws t env w logged before (TopUp.top_up host env id s amount w)
        λ a w' h. top_up-IsBooked host laws t env w logged before id s amount h
  invoke-IsBooked (extend_stream id s new_end) =
      call-IsBooked host laws t env w logged before (Extend.extend_stream host env id s new_end w)
        λ a w' h. extend_stream-IsBooked host laws t env w logged before id s new_end h
  invoke-IsBooked (withdraw id r) =
      call-IsBooked host laws t env w logged before (Withdraw.withdraw host env id r w)
        λ a w' h. withdraw-IsBooked host laws t env w logged before id r h
  invoke-IsBooked (cancel id caller) =
      call-IsBooked host laws t env w logged before (Cancel.cancel host env id caller w)
        λ a w' h. cancel-IsBooked host laws t env w logged before id caller h

-- The calls to the contract at `self`.
abbrev pub Here : {T : Type 0} → Address → Env → World T → Call → Type 0
Here self env w c = env.current_contract ≡ self

-- Tokens that rest outside the contract's calls.
abbrev pub Rests : {T : Type 0} → Host T → T → T → Type 0
Rests host t t' =
    (token holder : Address) → host.balance t' token holder ≡ host.balance t token holder

states-IsBooked :
    {T : Type 0} (host : Host T) (laws : MovesTokens host) (self : Address) (t : T) {now : ℕ}
    {w : World T}
    → Run host (Here self) (Rests host) 0 (deployed t) now w
    → IsLogged w × IsBooked host t self w
unfolding cash cash_from replay catalog
states-IsBooked host laws self t start = (
  refl,
  record {
    unset = λ h. refl;
    booked = λ token _ holder. sym (add_zero (host.balance t token holder));
  },
)
states-IsBooked host laws self t (call {now} {later} {w} {w'} run env c here passed clock step) =
    let (logged, booked) = states-IsBooked host laws self t run in
    rw step (
      invoke-IsLogged host env c w logged,
      subst (λ x. IsBooked host t x (invoke host env c w)) here
          (invoke-IsBooked host laws t env w logged (rw here booked) c),
    )
states-IsBooked host laws self t (outside {now} {w} {w'} tokens run rests moved) =
    let (logged, booked) = states-IsBooked host laws self t run in
    rw moved (
      logged,
      record {
        unset = booked.unset;
        booked = λ token allowed holder. rests token holder ∙ booked.booked token allowed holder;
      },
    )

-- From deployment of the contract at an address, with a token that moves what it is asked to,
-- whatever calls are made to it, if outside them no balance changes: every holder's balance of the
-- recorded token is the one at deployment plus what the published events, read as a cash book of
-- deposits, withdrawals and the two payouts of a cancellation, say that this holder has gained.
pub Run-IsBooked :
    {T : Type 0} (host : Host T) (laws : MovesTokens host) (self token : Address) (t : T) {now : ℕ}
    {w : World T}
    → Run host (Here self) (Rests host) 0 (deployed t) now w
    → w.token ≡ some token
    → (holder : Address)
    → host.balance w.tokens token holder ≡ host.balance t token holder +ℤ cash self w.events holder
Run-IsBooked host laws self token t {now} {w} run set =
    (states-IsBooked host laws self t run).1.booked token
      (subst (λ o. IsPaidIn o token) (sym set) refl)
