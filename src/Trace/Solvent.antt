-- ===== src/Trace/Solvent.antt =====
-- Sequences of calls, for the contract's balance against the escrow (src/lib.rs). The rules let
-- through the calls of a contract that pays nothing into itself, and whose extensions leave what
-- was withdrawn within the new schedule.
pub mod Calls
pub mod Runs
pub mod Assured
use stream_pay_contracts.Base.{
  ℕ, ◌+◌, ⊤, ◌≤◌, ◌≡◌, ◌≢◌, refl, sym, ap, ◌∙◌, subst, some, none, List, [], ◌∷◌, arith, unwrap_or,
}
use stream_pay_contracts.Base.Int.{ℤ, pos, ◌+ℤ◌, ◌≤ℤ◌, checked_add-some}
use stream_pay_contracts.Base.Dict.{lookup}
use stream_pay_contracts.Types.{Address, Stream, StreamRequest}
use stream_pay_contracts.Host.{Env, Host, MovesTokens}
use stream_pay_contracts.World.{World, Outcome, done}
use stream_pay_contracts.Vesting.Bounds.{scheduled, vested-ok}
use stream_pay_contracts.Vesting.Payout.{payout_reaches_vested}
use stream_pay_contracts.Contract.Admin
use stream_pay_contracts.Contract.Create
use stream_pay_contracts.Contract.Create.{new_stream}
use stream_pay_contracts.Contract.Batch
use stream_pay_contracts.Contract.TopUp
use stream_pay_contracts.Contract.Extend
use stream_pay_contracts.Contract.Withdraw
use stream_pay_contracts.Contract.Cancel
use stream_pay_contracts.Contract.Admin.Effect.{initialize-done}
use stream_pay_contracts.Contract.Create.Effect.{create_stream-done}
use stream_pay_contracts.Contract.Batch.Effect.{
  AllAccepted, create_stream_batch-done, store_one, store_all, store_all-frame,
}
use stream_pay_contracts.Contract.TopUp.Effect.{top_up-done}
use stream_pay_contracts.Contract.Extend.Effect.{extend_stream-done}
use stream_pay_contracts.Contract.Withdraw.Effect.{withdraw-done}
use stream_pay_contracts.Contract.Cancel.Effect.{cancel-done}
use stream_pay_contracts.Invariant.{AllStreams, IsValid, IsSolvent, escrow}
use stream_pay_contracts.Invariant.Insert.{AllStreams-lookup, AllStreams-insert, AllStreams-map}
use stream_pay_contracts.Invariant.Earned.{
  IsEarned, IsEarned-later, new-IsEarned, raised-IsEarned, paid-IsEarned, cancelled-IsEarned,
}
use stream_pay_contracts.Invariant.Solvency.{
  withdraw-IsSolvent, create_stream-IsSolvent, top_up-IsSolvent, create_stream_batch-IsSolvent,
}
use stream_pay_contracts.Invariant.Flow.{extend_stream-escrow}
use stream_pay_contracts.Invariant.Solvency.Cancellation.{cancel-IsSolvent}
use stream_pay_contracts.Trace.{
  Call, initialize, schedule_admin_transfer, execute_admin_transfer, cancel_admin_transfer,
  set_admin, upgrade, set_supply_cap, create_stream, create_stream_batch, top_up, extend_stream,
  withdraw, cancel, IsTyped, settle, invoke, deployed, Run, start, call, outside,
}
use stream_pay_contracts.Trace.Valid.{settle-keeps, invoke-IsValid}
use stream_pay_contracts.Trace.Governance.{SameFunds, governance-SameFunds}

module _ {T : Type 0} (host : Host T) where
  -- What a call must be like in a world, with the contract at its own address.
  abbrev pub IsGuarded : Env → World T → Call → Type 0
  IsGuarded env w (initialize admin token) =
      pos 0 ≤ℤ host.balance w.tokens token env.current_contract
  IsGuarded env w (create_stream sender recipient amount start_time end_time) =
      sender ≢ env.current_contract
  IsGuarded env w (create_stream_batch sender requests) = sender ≢ env.current_contract
  IsGuarded env w (top_up id sender amount) = sender ≢ env.current_contract
  IsGuarded env w (extend_stream id sender new_end) =
      (s : Stream)
      → lookup id w.streams ≡ some s
      → s.withdrawn ≤ℤ pos (scheduled (record s { end = new_end }) env.timestamp)
  IsGuarded env w _ = Unit

  -- The rules of a run for the contract at `self`.
  abbrev pub Guarded : Address → Env → World T → Call → Type 0
  Guarded self env w c = (env.current_contract ≡ self) × IsTyped c × IsGuarded env w c

  -- Tokens that move outside the contract do not leave it.
  abbrev pub Spares : Address → T → T → Type 0
  Spares self t t' = (token : Address) → host.balance t token self ≤ℤ host.balance t' token self

  pub record IsFunded (self : Address) (now : ℕ) (w : World T) : Type 0 where
    pub all_earned : AllStreams (IsEarned now) w.streams
    pub backed : (token : Address) → w.token ≡ some token → IsSolvent host token self w

  pub IsFunded-later :
      (self : Address) {now later : ℕ} (w : World T)
      → now ≤ later
      → IsFunded self now w
      → IsFunded self later w
  IsFunded-later self {now} {later} w passed h = record {
    all_earned =
        AllStreams-map (IsEarned now) (IsEarned later) w.streams
          (λ id s e. IsEarned-later id s passed e) h.all_earned;
    backed = h.backed;
  }

  -- A call that leaves the funds alone.
  pub same-IsFunded :
      (self : Address) (now : ℕ) (w w' : World T)
      → SameFunds w w'
      → IsFunded self now w
      → IsFunded self now w'
  same-IsFunded self now w w' same h = record {
    all_earned = rw same.streams h.all_earned;
    backed = λ token set. rw (same.streams, same.tokens) (h.backed token (sym same.token ∙ set));
  }

  pub store_all-IsEarned :
      (env : Env) (sender : Address) (now id : ℕ) (requests : List StreamRequest) (w : World T)
      → AllAccepted now requests
      → AllStreams (IsEarned now) w.streams
      → AllStreams (IsEarned now) (store_all host env sender id requests w).streams
  unfolding store_all store_one
  store_all-IsEarned env sender now id [] w accepted all = all
  store_all-IsEarned env sender now id (r ∷ requests) w accepted all =
      store_all-IsEarned env sender now (id + 1) requests (store_one host env sender id r w)
        accepted.1
        (AllStreams-insert (IsEarned now) id
          (new_stream sender r.recipient r.total_amount r.start_time r.end_time) w.streams all
          (new-IsEarned now id sender r.recipient r.total_amount r.start_time r.end_time
            (accepted.0).window))
