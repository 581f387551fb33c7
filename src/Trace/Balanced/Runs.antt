-- ===== src/Trace/Balanced/Runs.antt =====
-- Runs in which the contract is no party, from deployment on.
use stream_pay_contracts.Base.{ℕ, ◌≤◌, ◌≡◌, ◌≢◌, refl, sym, ◌∙◌, subst, none, some, arith}
use stream_pay_contracts.Base.Int.{◌+ℤ◌, add_zero}
use stream_pay_contracts.Types.{Address}
use stream_pay_contracts.Host.{Env, Host, MovesTokens}
use stream_pay_contracts.World.{World}
use stream_pay_contracts.Contract.Admin
use stream_pay_contracts.Contract.Create
use stream_pay_contracts.Contract.Batch
use stream_pay_contracts.Contract.TopUp
use stream_pay_contracts.Contract.Extend
use stream_pay_contracts.Contract.Withdraw
use stream_pay_contracts.Contract.Cancel
use stream_pay_contracts.Contract.Admin.Effect.{initialize-done}
use stream_pay_contracts.Invariant.{IsValid, escrow}
use stream_pay_contracts.Trace.{
  Call, initialize, create_stream, create_stream_batch, top_up, extend_stream, withdraw, cancel,
  IsTyped, invoke, deployed, Run, start, call, outside,
}
use stream_pay_contracts.Trace.Valid.{invoke-IsValid}
use stream_pay_contracts.Trace.Governance.{governance-SameFunds}
use stream_pay_contracts.Trace.Office.{Rules-unfounded}
use stream_pay_contracts.Trace.Office.Calls.{invoke-Rules}
use stream_pay_contracts.Trace.Solvent.{Guarded, IsFunded, IsFunded-later}
use stream_pay_contracts.Trace.Solvent.Runs.{invoke-IsFunded}
use stream_pay_contracts.Trace.Cash.Booked.{IsPaidIn}
use stream_pay_contracts.Trace.Balanced.{AllApart, IsBalanced}
use stream_pay_contracts.Trace.Balanced.EntryPoints.{
  call-IsBalanced, create_stream-IsBalanced, create_stream_batch-IsBalanced, top_up-IsBalanced,
  extend_stream-IsBalanced, withdraw-IsBalanced, cancel-IsBalanced,
}

-- A call that makes the contract no party of a stream.
abbrev pub IsOutsider : Address → Call → Type 0
IsOutsider self (create_stream sender recipient amount start_time end_time) =
    (self ≢ sender) × (self ≢ recipient)
IsOutsider self (create_stream_batch sender requests) = (self ≢ sender) × AllApart self requests
IsOutsider self _ = Unit

-- The rules of a run for the contract at `self`.
abbrev pub Apart : {T : Type 0} → Host T → Address → Env → World T → Call → Type 0
Apart host self env w c = Guarded host self env w c × IsOutsider self c

-- Tokens that move outside the contract's calls leave its balance alone.
abbrev pub Keeps : {T : Type 0} → Host T → Address → T → T → Type 0
Keeps host self t t' = (token : Address) → host.balance t' token self ≡ host.balance t token self

-- A call in which the contract is no party keeps its balance exact, returned or not.
invoke-IsBalanced :
    {T : Type 0} (host : Host T) (laws : MovesTokens host) (t : T) (env : Env) (c : Call) (now : ℕ)
    (w : World T)
    → IsTyped c
    → IsOutsider env.current_contract c
    → now ≤ env.timestamp
    → IsValid now w
    → IsFunded host env.current_contract now w
    → (w.admin ≡ none → w.token ≡ none)
    → IsBalanced host t env.current_contract w
    → IsBalanced host t env.current_contract (invoke host env c w)
unfolding invoke
invoke-IsBalanced host laws t env (initialize admin token) now w typed apart passed valid funded
      unset before =
    call-IsBalanced host laws t env now w valid before (Admin.initialize host env admin token w)
      λ a w' h.
        let e = initialize-done host env w h in
        rw e.left (record {
          apart = before.apart;
          exact = λ other _.
              before.exact other (subst (λ o. IsPaidIn o other) (sym (unset e.unset)) tt);
        })
invoke-IsBalanced host laws t env (create_stream s r amount start_time end_time) now w typed
      (from, to) passed valid funded unset before =
    call-IsBalanced host laws t env now w valid before
      (Create.create_stream host env s r amount start_time end_time w)
      λ id w' h.
        create_stream-IsBalanced host laws t env now w valid before s r amount start_time end_time
          from to h
invoke-IsBalanced host laws t env (create_stream_batch s requests) now w typed (from, all) passed
      valid funded unset before =
    call-IsBalanced host laws t env now w valid before
      (Batch.create_stream_batch host env s requests w)
      λ ids w' h.
        create_stream_batch-IsBalanced host laws t env now w valid before s requests from all typed
          h
invoke-IsBalanced host laws t env (top_up id s amount) now w typed _ passed valid funded unset
      before =
    call-IsBalanced host laws t env now w valid before (TopUp.top_up host env id s amount w)
      λ a w' h. top_up-IsBalanced host laws t env now w valid before id s amount h
invoke-IsBalanced host laws t env (extend_stream id s new_end) now w typed _ passed valid funded
      unset before =
    call-IsBalanced host laws t env now w valid before
      (Extend.extend_stream host env id s new_end w)
      λ a w' h. extend_stream-IsBalanced host laws t env now w valid before id s new_end h
invoke-IsBalanced host laws t env (withdraw id r) now w typed _ passed valid funded unset before =
    call-IsBalanced host laws t env now w valid before (Withdraw.withdraw host env id r w)
      λ a w' h. withdraw-IsBalanced host laws t env now w valid before id r h
invoke-IsBalanced host laws t env (cancel id caller) now w typed _ passed valid funded unset
      before =
    call-IsBalanced host laws t env now w valid before (Cancel.cancel host env id caller w)
      λ a w' h.
        cancel-IsBalanced host laws t env now w valid before id caller
          (IsFunded-later host env.current_contract w passed funded).all_earned h
invoke-IsBalanced host laws t env c now w typed _ passed valid funded unset before =
    let same = governance-SameFunds host env c w tt in
    record {
      apart = rw same.streams before.apart;
      exact = λ token allowed.
          rw (same.streams, same.tokens)
            (before.exact token (subst (λ o. IsPaidIn o token) same.token allowed));
    }

states-IsBalanced :
    {T : Type 0} (host : Host T) (laws : MovesTokens host) (self : Address) (t : T) {now : ℕ}
    {w : World T}
    → Run host (Apart host self) (Keeps host self) 0 (deployed t) now w
    → IsValid now w
      × IsFunded host self now w
      × (w.admin ≡ none → w.token ≡ none)
      × IsBalanced host t self w
unfolding escrow
states-IsBalanced host laws self t start = (
  record { sound = tt; counter_fits = omega arith; fresh = λ unset. refl },
  record { all_earned = tt; backed = λ token set. cc },
  λ unset. refl,
  record { apart = tt; exact = λ token _. sym (add_zero (host.balance t token self)) },
)
states-IsBalanced host laws self t
      (call {now} {later} {w} {w'} run env c ((here, typed, guarded), apart) passed clock step) =
    let (valid, funded, unset, balanced) = states-IsBalanced host laws self t run in
    let in_time = rw clock at passed in
    let w₁ = invoke host env c w in
    rw (clock, step)
      (
        invoke-IsValid host env c now w typed in_time valid,
        subst (λ x. IsFunded host x env.timestamp w₁) here
            (invoke-IsFunded host laws env c now w typed guarded in_time valid (rw here funded)),
        Rules-unfounded env (invoke-Rules host env w c) unset,
        subst (λ x. IsBalanced host t x w₁) here
            (invoke-IsBalanced host laws t env c now w typed (rw here apart) in_time valid
              (rw here funded) unset (rw here balanced)),
      )
states-IsBalanced host laws self t (outside {now} {w} {w'} tokens run keeps moved) =
    let (valid, funded, unset, balanced) = states-IsBalanced host laws self t run in
    rw moved (
      record { sound = valid.sound; counter_fits = valid.counter_fits; fresh = valid.fresh },
      record {
        all_earned = funded.all_earned;
        backed = λ token set. rw (keeps token) (funded.backed token set);
      },
      unset,
      record {
        apart = balanced.apart;
        exact = λ token allowed. keeps token ∙ balanced.exact token allowed;
      },
    )

-- From deployment of the contract at an address, with a token that moves what it is asked to,
-- whatever typed calls are made to it in which the contract is not the sender or the recipient of a
-- new stream and pays no top-up, the token that is chosen at setup shows no negative balance of the
-- contract then, and an extension leaves no more withdrawn than the longer schedule has vested by
-- then, if token moves outside the calls leave the contract's balance alone: that balance is the
-- one at deployment plus exactly what the active streams still hold.
pub Run-IsBalanced :
    {T : Type 0} (host : Host T) (laws : MovesTokens host) (self token : Address) (t : T) {now : ℕ}
    {w : World T}
    → Run host (Apart host self) (Keeps host self) 0 (deployed t) now w
    → w.token ≡ some token
    → host.balance w.tokens token self ≡ host.balance t token self +ℤ escrow w.streams
Run-IsBalanced host laws self token t run set =
    (states-IsBalanced host laws self t run).3.exact token
      (subst (λ o. IsPaidIn o token) (sym set) refl)
