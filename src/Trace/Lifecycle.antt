-- ===== src/Trace/Lifecycle.antt =====
-- What sequences of calls can do to one stream.
use stream_pay_contracts.Base.{ℕ, ◌≤◌, ◌≡◌, refl, ap, ◌∙◌, false, some, arith, inl, inr}
use stream_pay_contracts.Base.Int.{◌≤ℤ◌}
use stream_pay_contracts.Base.Dict.{lookup}
use stream_pay_contracts.Types.{Stream, cancelled}
use stream_pay_contracts.Host.{Env, Host}
use stream_pay_contracts.World.{World}
use stream_pay_contracts.Invariant.{IsValid}
use stream_pay_contracts.Invariant.Earned.{amount_grows}
use stream_pay_contracts.Trace.{Call, invoke, Run, start, call, outside, Typed, AnyMove}
use stream_pay_contracts.Trace.Valid.{Run-IsValid_from}
use stream_pay_contracts.Trace.Step.{IsStep, kept, raised, extended, paid, settled}
use stream_pay_contracts.Trace.Step.Calls.{invoke-Steps}

-- The only step that neither party authorized is none.
unauthorized_step :
    (env : Env) (s s' : Stream)
    → env.authorized s.sender ≡ false
    → env.authorized s.recipient ≡ false
    → IsStep env s s'
    → s' ≡ s
unauthorized_step env s s' no_sender no_recipient (kept same) = same
unauthorized_step env s s' no_sender no_recipient (raised _ auth _ _ _) = cc
unauthorized_step env s s' no_sender no_recipient (extended _ auth _ _ _) = cc
unauthorized_step env s s' no_sender no_recipient (paid _ auth _ _ _ _) = cc
unauthorized_step env s s' no_sender no_recipient (settled _ (inl auth) _ _ _) = cc
unauthorized_step env s s' no_sender no_recipient (settled _ (inr auth) _ _ _) = cc

-- In a valid state, a call that neither the sender nor the recipient of a stored stream authorized
-- leaves that stream as it is, whatever the call is.
pub unauthorized_kept :
    {T : Type 0} (host : Host T) (env : Env) (c : Call) (now : ℕ) (w : World T) (id : ℕ)
    (s : Stream)
    → IsValid now w
    → lookup id w.streams ≡ some s
    → env.authorized s.sender ≡ false
    → env.authorized s.recipient ≡ false
    → lookup id (invoke host env c w).streams ≡ some s
unauthorized_kept host env c now w id s valid found no_sender no_recipient =
    let after = invoke-Steps host env c now w id s valid found in
    after.found ∙ ap some (unauthorized_step env s after.after no_sender no_recipient after.step)

-- No step leaves a cancelled stream.
cancelled_step : (env : Env) (s s' : Stream) → s.status ≡ cancelled → IsStep env s s' → s' ≡ s
cancelled_step env s s' over (kept same) = same
cancelled_step env s s' over (raised _ _ open_ _ _) = cc
cancelled_step env s s' over (extended _ _ open_ _ _) = cc
cancelled_step env s s' over (paid _ _ open_ _ _ _) = cc
cancelled_step env s s' over (settled _ _ fresh _ _) = ground arith

-- From a valid state, whatever sequence of typed calls follows, a cancelled stream stays stored as
-- it is.
pub cancelled_final :
    {T : Type 0} (host : Host T) {since : ℕ} {first : World T} {now : ℕ} {w : World T} (id : ℕ)
    (s : Stream)
    → IsValid since first
    → lookup id first.streams ≡ some s
    → s.status ≡ cancelled
    → Run host Typed AnyMove since first now w
    → lookup id w.streams ≡ some s
cancelled_final host id s valid found over start = found
cancelled_final host id s valid found over (call {now} {later} {w} {w'} run env c typed _ _ step) =
    let before = cancelled_final host id s valid found over run in
    let after = invoke-Steps host env c now w id s (Run-IsValid_from host valid run) before in
    ap (λ v. lookup id v.streams) step
    ∙ after.found
    ∙ ap some (cancelled_step env s after.after over after.step)
cancelled_final host id s valid found over (outside tokens run _ moved) =
    ap (λ v. lookup id v.streams) moved ∙ cancelled_final host id s valid found over run

-- What never changes of a stream, and what never falls.
pub record IsLater (s s' : Stream) : Type 0 where
  pub sender_kept : s'.sender ≡ s.sender
  pub recipient_kept : s'.recipient ≡ s.recipient
  pub start_kept : s'.start ≡ s.start
  pub total_grows : s.total ≤ℤ s'.total
  pub end_grows : s.end ≤ s'.end

IsLater-refl : (s : Stream) → IsLater s s
IsLater-refl s = record {
  sender_kept = refl;
  recipient_kept = refl;
  start_kept = refl;
  total_grows = omega arith;
  end_grows = omega arith;
}

IsLater-trans : (a b c : Stream) → IsLater a b → IsLater b c → IsLater a c
IsLater-trans a b c h k = record {
  sender_kept = k.sender_kept ∙ h.sender_kept;
  recipient_kept = k.recipient_kept ∙ h.recipient_kept;
  start_kept = k.start_kept ∙ h.start_kept;
  total_grows = omega (arith, h.total_grows, k.total_grows);
  end_grows = omega (arith, h.end_grows, k.end_grows);
}

IsStep-IsLater : (env : Env) (s s' : Stream) → IsStep env s s' → IsLater s s'
IsStep-IsLater env s s' (kept same) = rw same (IsLater-refl s)
IsStep-IsLater env s s' (raised a _ _ positive same) = rw same (record {
  sender_kept = refl;
  recipient_kept = refl;
  start_kept = refl;
  total_grows = amount_grows s.total a positive;
  end_grows = omega arith;
})
IsStep-IsLater env s s' (extended e _ _ later same) = rw same (record {
  sender_kept = refl;
  recipient_kept = refl;
  start_kept = refl;
  total_grows = omega arith;
  end_grows = omega arith;
})
IsStep-IsLater env s s' (paid _ _ _ _ _ same) = rw same (record {
  sender_kept = refl;
  recipient_kept = refl;
  start_kept = refl;
  total_grows = omega arith;
  end_grows = omega arith;
})
IsStep-IsLater env s s' (settled _ _ _ _ same) = rw same (record {
  sender_kept = refl;
  recipient_kept = refl;
  start_kept = refl;
  total_grows = omega arith;
  end_grows = omega arith;
})

-- From a valid state, whatever sequence of typed calls follows, a stored stream stays stored with
-- its sender, recipient and start, and with a total and an end that are no smaller.
pub terms_kept :
    {T : Type 0} (host : Host T) {since : ℕ} {first : World T} {now : ℕ} {w : World T} (id : ℕ)
    (s : Stream)
    → IsValid since first
    → lookup id first.streams ≡ some s
    → Run host Typed AnyMove since first now w
    → (s' : Stream) × (lookup id w.streams ≡ some s') × IsLater s s'
terms_kept host id s valid found start = (s, found, IsLater-refl s)
terms_kept host id s valid found (call {now} {later} {w} {w'} run env c typed _ _ step) =
    let (before, here, older) = terms_kept host id s valid found run in
    let after = invoke-Steps host env c now w id before (Run-IsValid_from host valid run) here in
    (
      after.after,
      ap (λ v. lookup id v.streams) step ∙ after.found,
      IsLater-trans s before after.after older (IsStep-IsLater env before after.after after.step),
    )
terms_kept host id s valid found (outside tokens run _ moved) =
    let (before, here, older) = terms_kept host id s valid found run in
    (before, ap (λ v. lookup id v.streams) moved ∙ here, older)
