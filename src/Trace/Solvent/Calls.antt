-- ===== src/Trace/Solvent/Calls.antt =====
-- The streams' calls under the rules (src/lib.rs).
use stream_pay_contracts.Base.{ℕ, ⊤, ◌≤◌, ◌≡◌, ◌≢◌, sym, ap, ◌∙◌, some, List, arith, unwrap_or}
use stream_pay_contracts.Base.Int.{ℤ, pos, ◌≤ℤ◌, checked_add-some}
use stream_pay_contracts.Base.Dict.{lookup}
use stream_pay_contracts.Types.{Address, Stream, StreamRequest}
use stream_pay_contracts.Types.Valid.{IsWellFormed}
use stream_pay_contracts.Invariant.Batch.{AllTyped}
use stream_pay_contracts.Host.{Env, Host, MovesTokens}
use stream_pay_contracts.World.{World, Outcome, done}
use stream_pay_contracts.Vesting.Bounds.{scheduled, vested-ok}
use stream_pay_contracts.Vesting.Payout.{payout_reaches_vested}
use stream_pay_contracts.Contract.Create
use stream_pay_contracts.Contract.Create.{new_stream}
use stream_pay_contracts.Contract.Batch
use stream_pay_contracts.Contract.TopUp
use stream_pay_contracts.Contract.Extend
use stream_pay_contracts.Contract.Withdraw
use stream_pay_contracts.Contract.Cancel
use stream_pay_contracts.Contract.Create.Effect.{create_stream-done}
use stream_pay_contracts.Contract.Batch.Effect.{create_stream_batch-done, store_all-frame}
use stream_pay_contracts.Contract.TopUp.Effect.{top_up-done}
use stream_pay_contracts.Contract.Extend.Effect.{extend_stream-done}
use stream_pay_contracts.Contract.Withdraw.Effect.{withdraw-done}
use stream_pay_contracts.Contract.Cancel.Effect.{cancel-done}
use stream_pay_contracts.Invariant.{IsValid}
use stream_pay_contracts.Invariant.Insert.{AllStreams-lookup, AllStreams-insert}
use stream_pay_contracts.Invariant.Earned.{
  IsEarned, new-IsEarned, raised-IsEarned, paid-IsEarned, cancelled-IsEarned,
}
use stream_pay_contracts.Invariant.Solvency.{
  withdraw-IsSolvent, create_stream-IsSolvent, top_up-IsSolvent, create_stream_batch-IsSolvent,
}
use stream_pay_contracts.Invariant.Flow.{extend_stream-escrow}
use stream_pay_contracts.Invariant.Solvency.Cancellation.{cancel-IsSolvent}
use stream_pay_contracts.Trace.{settle}
use stream_pay_contracts.Trace.Valid.{settle-keeps}
use stream_pay_contracts.Trace.Solvent.{IsFunded, IsFunded-later, store_all-IsEarned}

module _ {T : Type 0} (host : Host T) (laws : MovesTokens host) (env : Env) (now : ℕ) (w : World T)
    (passed : now ≤ env.timestamp) (valid : IsValid now w)
    (before : IsFunded host env.current_contract now w) where
  -- The contract is funded at the time of the call.
  ready : IsFunded host env.current_contract env.timestamp w
  ready = IsFunded-later host env.current_contract w passed before

  pub call-IsFunded :
      {A : Type 0} (o : Outcome T A)
      → ((a : A) (w' : World T)
          → o ≡ done a w'
          → IsFunded host env.current_contract env.timestamp w')
      → IsFunded host env.current_contract env.timestamp (settle w o)
  call-IsFunded o f = settle-keeps (IsFunded host env.current_contract env.timestamp) w o ready f

  -- A found stream was earned, and is well formed.
  found-IsEarned :
      (id : ℕ) {s : Stream} → lookup id w.streams ≡ some s → IsEarned env.timestamp id s
  found-IsEarned id {s} found = AllStreams-lookup _ id s w.streams ready.all_earned found

  found-IsWellFormed : (id : ℕ) {s : Stream} → lookup id w.streams ≡ some s → IsWellFormed s
  found-IsWellFormed id {s} found =
      (AllStreams-lookup _ id s w.streams valid.sound found).well_formed

  pub create_stream-IsFunded :
      (sender recipient : Address) (amount : ℤ) (raw_start end_time : ℕ) {id : ℕ} {w' : World T}
      → sender ≢ env.current_contract
      → Create.create_stream host env sender recipient amount raw_start end_time w ≡ done id w'
      → IsFunded host env.current_contract env.timestamp w'
  create_stream-IsFunded sender recipient amount raw_start end_time {id} {w'} apart h =
      let e = create_stream-done host env sender recipient amount raw_start end_time w h in
      record {
        all_earned = rw (ap (λ v. v.streams) e.left) (
            AllStreams-insert (IsEarned env.timestamp) _ _ w.streams ready.all_earned
              (new-IsEarned env.timestamp _ sender recipient amount _ end_time e.window));
        backed = λ token set.
            let chosen = sym (ap (λ v. v.token) e.left) ∙ set in
            create_stream-IsSolvent host laws env token now w valid chosen sender recipient amount
              raw_start end_time apart (before.backed token chosen) h;
      }

  pub create_stream_batch-IsFunded :
      (sender : Address) (requests : List StreamRequest) {ids : List ℕ} {w' : World T}
      → sender ≢ env.current_contract
      → AllTyped requests
      → Batch.create_stream_batch host env sender requests w ≡ done ids w'
      → IsFunded host env.current_contract env.timestamp w'
  create_stream_batch-IsFunded sender requests {ids} {w'} apart typed h =
      let e = create_stream_batch-done host env sender h in
      let frame =
        store_all-frame host env sender (unwrap_or w.counter 0) requests
          (record w { tokens = e.tokens }) in
      record {
        all_earned = rw (ap (λ v. v.streams) e.left) (
            store_all-IsEarned host env sender env.timestamp (unwrap_or w.counter 0) requests
              (record w { tokens = e.tokens }) e.accepted ready.all_earned);
        backed = λ token set.
            let chosen = sym (ap (λ v. v.token) e.left ∙ ap (λ v. v.token) frame) ∙ set in
            create_stream_batch-IsSolvent host laws env token now w valid chosen sender requests
              apart typed (before.backed token chosen) h;
      }

  pub top_up-IsFunded :
      (id : ℕ) (sender : Address) (amount : ℤ) {a : ℤ} {w' : World T}
      → sender ≢ env.current_contract
      → TopUp.top_up host env id sender amount w ≡ done a w'
      → IsFunded host env.current_contract env.timestamp w'
  top_up-IsFunded id sender amount {a} {w'} apart h =
      let e = top_up-done host env id sender amount w h in
      record {
        all_earned = rw (ap (λ v. v.streams) e.left) (
            AllStreams-insert (IsEarned env.timestamp) _ _ w.streams ready.all_earned (
              raised-IsEarned env.timestamp id e.stream amount a
                (found-IsWellFormed id e.found).total_positive e.valid
                (checked_add-some _ _ _ e.summed).0 (found-IsEarned id e.found)));
        backed = λ token set.
            let chosen = sym (ap (λ v. v.token) e.left) ∙ set in
            top_up-IsSolvent host laws env token now w valid chosen id sender amount apart
              (before.backed token chosen) h;
      }

  pub extend_stream-IsFunded :
      (id : ℕ) (sender : Address) (new_end : ℕ) {a : ⊤} {w' : World T}
      → ((s : Stream)
          → lookup id w.streams ≡ some s
          → s.withdrawn ≤ℤ pos (scheduled (record s { end = new_end }) env.timestamp))
      → Extend.extend_stream host env id sender new_end w ≡ done a w'
      → IsFunded host env.current_contract env.timestamp w'
  extend_stream-IsFunded id sender new_end {a} {w'} spared h =
      let e = extend_stream-done host env id sender new_end w h in
      let window = (found-IsEarned id e.found).window in
      record {
        all_earned = rw (ap (λ v. v.streams) e.left) (
            AllStreams-insert (IsEarned env.timestamp) _ _ w.streams ready.all_earned (record {
              window = omega (arith, e.later);
              earned = λ live. spared e.stream e.found;
            }));
        backed = λ token set.
            let chosen = sym (ap (λ v. v.token) e.left) ∙ set in
            rw
              (
                extend_stream-escrow now w valid host env id sender new_end h,
                ap (λ v. v.tokens) e.left,
              )
              (before.backed token chosen);
      }

  pub withdraw-IsFunded :
      (id : ℕ) (recipient : Address) {a : ℤ} {w' : World T}
      → Withdraw.withdraw host env id recipient w ≡ done a w'
      → IsFunded host env.current_contract env.timestamp w'
  withdraw-IsFunded id recipient {a} {w'} h =
      let e = withdraw-done host env id recipient w h in
      let well = found-IsWellFormed id e.found in
      let (v, vests, reached) =
        payout_reaches_vested e.stream env.timestamp well e.due e.positive in
      record {
        all_earned = rw (ap (λ v. v.streams) e.left) (
            AllStreams-insert (IsEarned env.timestamp) _ _ w.streams ready.all_earned (
              paid-IsEarned env.timestamp id e.stream e.withdrawn
                ((checked_add-some _ _ _ e.summed).0
                  ∙ reached
                  ∙ vested-ok e.stream env.timestamp well vests)
                (found-IsEarned id e.found)));
        backed = λ token set.
            let chosen = sym (ap (λ v. v.token) e.left) ∙ set in
            withdraw-IsSolvent host laws env token now w valid chosen id recipient
              (before.backed token chosen) h;
      }

  pub cancel-IsFunded :
      (id : ℕ) (caller : Address) {a : ⊤} {w' : World T}
      → Cancel.cancel host env id caller w ≡ done a w'
      → IsFunded host env.current_contract env.timestamp w'
  cancel-IsFunded id caller {a} {w'} h =
      let e = cancel-done host env id caller w h in
      let v_eq = vested-ok e.stream env.timestamp (found-IsWellFormed id e.found) e.vests in
      let earned = found-IsEarned id e.found in
      record {
        all_earned = rw (ap (λ v. v.streams) e.left) (
            AllStreams-insert (IsEarned env.timestamp) _ _ w.streams ready.all_earned
              (cancelled-IsEarned env.timestamp id e.stream e.now_vested earned));
        backed = λ token set.
            let chosen = sym (ap (λ v. v.token) e.left) ∙ set in
            cancel-IsSolvent host laws env token now w valid chosen id caller e.stream e.now_vested
              e.found e.vests (rw v_eq (earned.earned e.not_cancelled)) (before.backed token chosen)
              h;
      }
