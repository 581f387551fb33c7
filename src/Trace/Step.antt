-- ===== src/Trace/Step.antt =====
-- What one call can do to one stored stream: the transitions of a stream's life.
pub mod Calls
use stream_pay_contracts.Base.{
  some-injective, ℕ, ◌+◌, ◌<◌, ◌≡◌, ◌⊎◌, inl, inr, refl, sym, ap, ◌∙◌, subst, some, true, false,
  List, [], ◌∷◌, arith, unwrap_or, Bool-cases, ◌==◌,
}
use stream_pay_contracts.Base.Int.{ℤ, pos, ◌+ℤ◌, ◌<ℤ◌, checked_add-some}
use stream_pay_contracts.Base.Dict.{Dict, lookup, insert, lookup-insert}
use stream_pay_contracts.Error.{ok}
use stream_pay_contracts.Types.{
  Stream, StreamRequest, Address, active, cancelled, is_status_cancelled,
}
use stream_pay_contracts.Vesting.{vested, withdrawable}
use stream_pay_contracts.Host.{Env, Host}
use stream_pay_contracts.World.{World, Outcome, done}
use stream_pay_contracts.Constants.{is_valid_amount}
use stream_pay_contracts.Contract.Admin
use stream_pay_contracts.Contract.Create
use stream_pay_contracts.Contract.Batch
use stream_pay_contracts.Contract.TopUp
use stream_pay_contracts.Contract.Extend
use stream_pay_contracts.Contract.Withdraw
use stream_pay_contracts.Contract.Withdraw.{pay_out}
use stream_pay_contracts.Contract.Cancel
use stream_pay_contracts.Contract.Admin.Effect.{
  initialize-done, schedule_admin_transfer-done, execute_admin_transfer-done,
  cancel_admin_transfer-done, set_admin-done, upgrade-done, set_supply_cap-done,
}
use stream_pay_contracts.Contract.Create.Effect.{create_stream-done}
use stream_pay_contracts.Contract.Batch.Effect.{create_stream_batch-done, store_one, store_all}
use stream_pay_contracts.Contract.TopUp.Effect.{top_up-done}
use stream_pay_contracts.Contract.Extend.Effect.{extend_stream-done}
use stream_pay_contracts.Contract.Withdraw.Effect.{withdraw-done}
use stream_pay_contracts.Contract.Cancel.Effect.{cancel-done}
use stream_pay_contracts.Invariant.{IsValid}
use stream_pay_contracts.Invariant.Insert.{AllStreams-lookup}
use stream_pay_contracts.Trace.{
  Call, initialize, schedule_admin_transfer, execute_admin_transfer, cancel_admin_transfer,
  set_admin, upgrade, set_supply_cap, create_stream, create_stream_batch, top_up, extend_stream,
  withdraw, cancel, settle, invoke,
}
use stream_pay_contracts.Trace.Valid.{settle-keeps}

-- From `s` to `s'` in a call with `env`.
pub data IsStep (env : Env) (s s' : Stream) : Type 0 where
  kept : s' ≡ s → IsStep env s s'
  raised :
      (amount : ℤ)
      → env.authorized s.sender ≡ true
      → s.status ≡ active
      → is_valid_amount amount ≡ true
      → s' ≡ record s { total = s.total +ℤ amount }
      → IsStep env s s'
  extended :
      (new_end : ℕ)
      → env.authorized s.sender ≡ true
      → s.status ≡ active
      → s.end < new_end
      → s' ≡ record s { end = new_end }
      → IsStep env s s'
  paid :
      (available : ℤ)
      → env.authorized s.recipient ≡ true
      → s.status ≡ active
      → withdrawable s env.timestamp ≡ ok available
      → pos 0 <ℤ available
      → s' ≡ pay_out s (s.withdrawn +ℤ available)
      → IsStep env s s'
  settled :
      (now_vested : ℤ)
      → (env.authorized s.sender ≡ true) ⊎ (env.authorized s.recipient ≡ true)
      → is_status_cancelled s.status ≡ false
      → vested s env.timestamp ≡ ok now_vested
      → s' ≡ record s { withdrawn = now_vested; status = cancelled }
      → IsStep env s s'

-- The stream under `id` after a call is a step from the one before.
pub record Steps {T : Type 0} (env : Env) (id : ℕ) (s : Stream) (w : World T) : Type 0 where
  pub after : Stream
  pub found : lookup id w.streams ≡ some after
  pub step : IsStep env s after

pub party_authorized :
    (env : Env) (caller : Address) (s : Stream)
    → env.authorized caller ≡ true
    → (caller ≡ s.sender) ⊎ (caller ≡ s.recipient)
    → (env.authorized s.sender ≡ true) ⊎ (env.authorized s.recipient ≡ true)
party_authorized env caller s h (inl q) = inl (ap env.authorized (sym q) ∙ h)
party_authorized env caller s h (inr q) = inr (ap env.authorized (sym q) ∙ h)

module _ {T : Type 0} (env : Env) (id : ℕ) (s : Stream) (w : World T)
    (found : lookup id w.streams ≡ some s) where
  -- A call that leaves the streams alone.
  pub same_streams-Steps : (w' : World T) → w'.streams ≡ w.streams → Steps env id s w'
  same_streams-Steps w' same = record {
    after = s;
    found = ap (lookup id) same ∙ found;
    step = kept refl;
  }

  -- A call that writes one stream, which steps if it is this one.
  pub insert-Steps :
      (w' : World T) (k : ℕ) (new : Stream)
      → w'.streams ≡ insert k new w.streams
      → (id ≡ k → IsStep env s new)
      → Steps env id s w'
  insert-Steps w' k new left step = elim (Bool-cases (id == k)) [
    | inl same ↦ record {
      after = new;
      found = ap (lookup id) left ∙ ground (arith, lookup-insert id k new w.streams);
      step = step (ground arith);
    }
    | inr other ↦ record {
      after = s;
      found = ap (lookup id) left ∙ ground (arith, lookup-insert id k new w.streams);
      step = kept refl;
    }
  ]

  -- The same, with the step from the stream that the call found.
  pub write-Steps :
      (w' : World T) (k : ℕ) (stream new : Stream)
      → w'.streams ≡ insert k new w.streams
      → lookup k w.streams ≡ some stream
      → IsStep env stream new
      → Steps env id s w'
  write-Steps w' k stream new left here step = insert-Steps w' k new left λ same.
      subst (λ x. IsStep env x new)
        (some-injective (sym here ∙ sym (ap (λ i. lookup i w.streams) same) ∙ found)) step

  -- A call whose result steps, returned or not.
  pub call-Steps :
      {A : Type 0} (o : Outcome T A)
      → ((a : A) (w' : World T) → o ≡ done a w' → Steps env id s w')
      → Steps env id s (settle w o)
  call-Steps o = settle-keeps (Steps env id s) w o (same_streams-Steps w refl)

  -- A call that leaves the streams alone, returned or not.
  pub frame-Steps :
      {A : Type 0} (o : Outcome T A)
      → ((a : A) (w' : World T) → o ≡ done a w' → w'.streams ≡ w.streams)
      → Steps env id s (settle w o)
  frame-Steps o same = call-Steps o λ a w' h. same_streams-Steps w' (same a w' h)
