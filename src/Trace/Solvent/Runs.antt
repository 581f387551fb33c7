-- ===== src/Trace/Solvent/Runs.antt =====
-- Runs under the rules, from deployment on.
use stream_pay_contracts.Base.{some-injective, ℕ, ◌≤◌, ◌≡◌, refl, subst, some, arith}
use stream_pay_contracts.Types.{Address}
use stream_pay_contracts.Host.{Env, Host, MovesTokens}
use stream_pay_contracts.World.{World}
use stream_pay_contracts.Contract.Admin
use stream_pay_contracts.Contract.Create
use stream_pay_contracts.Contract.Batch
use stream_pay_contracts.Contract.TopUp
use stream_pay_contracts.Contract.Extend
use stream_pay_contracts.Contract.Withdraw
use stream_pay_contracts.Contract.Cancel
use stream_pay_contracts.Contract.Admin.Effect.{initialize-done}
use stream_pay_contracts.Invariant.{IsValid, IsSolvent, escrow}
use stream_pay_contracts.Trace.{
  Call, initialize, create_stream, create_stream_batch, top_up, extend_stream, withdraw, cancel,
  IsTyped, invoke, deployed, Run, start, call, outside,
}
use stream_pay_contracts.Trace.Valid.{invoke-IsValid}
use stream_pay_contracts.Trace.Governance.{governance-SameFunds}
use stream_pay_contracts.Trace.Solvent.{
  IsGuarded, Guarded, Spares, IsFunded, IsFunded-later, same-IsFunded,
}
use stream_pay_contracts.Trace.Solvent.Calls.{
  call-IsFunded, create_stream-IsFunded, create_stream_batch-IsFunded, top_up-IsFunded,
  extend_stream-IsFunded, withdraw-IsFunded, cancel-IsFunded,
}

-- A guarded call keeps the contract funded, returned or not.
pub invoke-IsFunded :
    {T : Type 0} (host : Host T) (laws : MovesTokens host) (env : Env) (c : Call) (now : ℕ)
    (w : World T)
    → IsTyped c
    → IsGuarded host env w c
    → now ≤ env.timestamp
    → IsValid now w
    → IsFunded host env.current_contract now w
    → IsFunded host env.current_contract env.timestamp (invoke host env c w)
unfolding invoke escrow
invoke-IsFunded host laws env (initialize admin token) now w typed low passed valid before =
    call-IsFunded host laws env now w passed valid before (Admin.initialize host env admin token w)
      λ a w' h.
        let e = initialize-done host env w h in
        rw e.left (record {
          all_earned = rw (valid.fresh e.unset) tt;
          backed = λ other set. rw (valid.fresh e.unset, ← some-injective set) low;
        })
invoke-IsFunded host laws env (create_stream s r amount start_time end_time) now w typed apart
      passed valid before =
    call-IsFunded host laws env now w passed valid before
      (Create.create_stream host env s r amount start_time end_time w)
      λ id w' h.
        create_stream-IsFunded host laws env now w passed valid before s r amount start_time
          end_time apart h
invoke-IsFunded host laws env (create_stream_batch s requests) now w typed apart passed valid
      before =
    call-IsFunded host laws env now w passed valid before
      (Batch.create_stream_batch host env s requests w)
      λ ids w' h.
        create_stream_batch-IsFunded host laws env now w passed valid before s requests apart typed
          h
invoke-IsFunded host laws env (top_up id s amount) now w typed apart passed valid before =
    call-IsFunded host laws env now w passed valid before (TopUp.top_up host env id s amount w)
      λ a w' h. top_up-IsFunded host laws env now w passed valid before id s amount apart h
invoke-IsFunded host laws env (extend_stream id s new_end) now w typed spared passed valid before =
    call-IsFunded host laws env now w passed valid before
      (Extend.extend_stream host env id s new_end w)
      λ a w' h. extend_stream-IsFunded host laws env now w passed valid before id s new_end spared h
invoke-IsFunded host laws env (withdraw id r) now w typed _ passed valid before =
    call-IsFunded host laws env now w passed valid before (Withdraw.withdraw host env id r w)
      λ a w' h. withdraw-IsFunded host laws env now w passed valid before id r h
invoke-IsFunded host laws env (cancel id caller) now w typed _ passed valid before =
    call-IsFunded host laws env now w passed valid before (Cancel.cancel host env id caller w)
      λ a w' h. cancel-IsFunded host laws env now w passed valid before id caller h
invoke-IsFunded host laws env c now w typed _ passed valid before =
    same-IsFunded host env.current_contract env.timestamp w (invoke host env c w)
      (governance-SameFunds host env c w tt)
      (IsFunded-later host env.current_contract w passed before)

-- Every state of a guarded run is valid and funded.
pub Run-IsFunded :
    {T : Type 0} (host : Host T) (laws : MovesTokens host) (self : Address) (t : T) {now : ℕ}
    {w : World T}
    → Run host (Guarded host self) (Spares host self) 0 (deployed t) now w
    → IsValid now w × IsFunded host self now w
Run-IsFunded host laws self t start = (
  record { sound = tt; counter_fits = omega arith; fresh = λ unset. refl },
  record { all_earned = tt; backed = λ token set. cc },
)
Run-IsFunded host laws self t
      (call {now} {later} {w} {w'} run env c (here, typed, guarded) passed clock step) =
    let (valid, funded) = Run-IsFunded host laws self t run in
    let in_time = rw clock at passed in
    rw (clock, step)
      (
        invoke-IsValid host env c now w typed in_time valid,
        subst (λ x. IsFunded host x env.timestamp (invoke host env c w)) here
            (invoke-IsFunded host laws env c now w typed guarded in_time valid (rw here funded)),
      )
Run-IsFunded host laws self t (outside {now} {w} {w'} tokens run spares moved) =
    let (valid, funded) = Run-IsFunded host laws self t run in
    rw moved (
      record { sound = valid.sound; counter_fits = valid.counter_fits; fresh = valid.fresh },
      record {
        all_earned = funded.all_earned;
        backed = λ token set. omega (arith, funded.backed token set, spares token);
      },
    )

-- From deployment of the contract at an address, with a token that moves what it is asked to,
-- whatever typed calls are made to it in which no deposit comes from the contract's own address,
-- the token that is chosen at setup shows no negative balance of the contract then, and an
-- extension leaves no more withdrawn than the longer schedule has vested by then, the contract's
-- balance covers what the active streams still hold, if token moves outside the calls never lower
-- that balance.
pub Run-IsSolvent :
    {T : Type 0} (host : Host T) (laws : MovesTokens host) (self token : Address) (t : T) {now : ℕ}
    {w : World T}
    → Run host (Guarded host self) (Spares host self) 0 (deployed t) now w
    → w.token ≡ some token
    → IsSolvent host token self w
Run-IsSolvent host laws self token t run set =
    (Run-IsFunded host laws self t run).1.backed token set
