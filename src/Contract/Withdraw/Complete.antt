-- ===== src/Contract/Withdraw/Complete.antt =====
-- When a withdrawal goes through, and what the views say before and after it (src/lib.rs).
use stream_pay_contracts.Base.{ℕ, ◌≡◌, refl, ap, ◌∙◌, some, true}
use stream_pay_contracts.Base.Int.{
  ℤ, pos, ◌+ℤ◌, ◌-ℤ◌, ◌≤ℤ◌, ◌<ℤ◌, checked_add-fits, checked_sub-fits, checked_add-some, int_laws,
  IsI128,
}
use stream_pay_contracts.Base.Dict.{lookup, lookup-insert_same}
use stream_pay_contracts.Error.{ok}
use stream_pay_contracts.Types.{Address, Stream, active}
use stream_pay_contracts.Types.Valid.{IsWellFormed}
use stream_pay_contracts.Vesting.{vested, withdrawable}
use stream_pay_contracts.Vesting.Bounds.{withdrawable_bounds}
use stream_pay_contracts.Vesting.Payout.{payout_reaches_vested}
use stream_pay_contracts.Host.{Env, Host}
use stream_pay_contracts.World.{World, done}
use stream_pay_contracts.Invariant.{IsValid}
use stream_pay_contracts.Invariant.Insert.{AllStreams-lookup}
use stream_pay_contracts.Contract.Views.{get_stream, withdrawable_amount}
use stream_pay_contracts.Contract.Withdraw.{withdraw, pay_out}
use stream_pay_contracts.Contract.Withdraw.Exact.{withdraw-returns}
use stream_pay_contracts.Contract.Withdraw.Effect.{withdraw-done, withdrawn_world}

pub sum_fits :
    (s : Stream) (a : ℤ)
    → IsWellFormed s
    → (pos 0 ≤ℤ a) × (a +ℤ s.withdrawn ≤ℤ s.total)
    → IsI128 (s.withdrawn +ℤ a)
sum_fits s a h b = omega (int_laws, h.total_fits, h.withdrawn_nonneg)

difference_zero : (v : ℤ) → v -ℤ v ≡ pos 0
difference_zero v = omega int_laws

-- A stream that was paid up to the vested amount has nothing to withdraw.
spent :
    (s : Stream) (withdrawn v : ℤ) (now : ℕ)
    → vested s now ≡ ok v
    → withdrawn ≡ v
    → withdrawable (pay_out s withdrawn) now ≡ ok (pos 0)
unfolding withdrawable vested
spent s withdrawn v now vests paid =
    rw (vests, paid, checked_sub-fits v v (omega int_laws), difference_zero v) refl

module _ {T : Type 0} (host : Host T) (env : Env) where
  -- A withdrawal of an active, well-formed stream by its recipient, who authorized it, returns the
  -- withdrawable amount if that is positive and the recorded token makes the transfer; the world it
  -- leaves is the old one with the stream paid, its lifetime extended, the tokens moved, the supply
  -- lowered and one event published.
  pub withdraw_complete :
      (id : ℕ) (w : World T) (s : Stream) (token : Address) {a : ℤ} {tokens : T}
      → IsWellFormed s
      → env.authorized s.recipient ≡ true
      → lookup id w.streams ≡ some s
      → s.status ≡ active
      → withdrawable s env.timestamp ≡ ok a
      → pos 0 <ℤ a
      → w.token ≡ some token
      → host.transfer w.tokens token env.current_contract s.recipient a ≡ some tokens
      → withdraw host env id s.recipient w
        ≡ done a (withdrawn_world host env id s.recipient w s a (s.withdrawn +ℤ a) tokens)
  withdraw_complete id w s token {a} {tokens} h authorized found live due positive chosen moved =
      withdraw-returns host env id s.recipient w (record {
        stream = s;
        token = token;
        withdrawn = s.withdrawn +ℤ a;
        tokens = tokens;
        authorized = authorized;
        found = found;
        owned = refl;
        still_active = live;
        due = due;
        positive = positive;
        summed =
            checked_add-fits s.withdrawn a
              (sum_fits s a h (withdrawable_bounds s env.timestamp h due));
        token_set = chosen;
        transferred = moved;
        left = refl;
      })

  -- A withdrawal that returns in a valid state pays a positive amount, the one that the view
  -- `withdrawable_amount` reported before it, and at the same time after it the view reports
  -- nothing more.
  pub withdraw-exhausts :
      (id : ℕ) (recipient : Address) (now : ℕ) (w : World T) {a : ℤ} {w' : World T}
      → IsValid now w
      → withdraw host env id recipient w ≡ done a w'
      → (pos 0 <ℤ a)
        × (withdrawable_amount env id w ≡ done a w)
        × (withdrawable_amount env id w' ≡ done (pos 0) w')
  unfolding withdrawable_amount get_stream
  withdraw-exhausts id recipient now w {a} {w'} valid h =
      let e = withdraw-done host env id recipient w h in
      let well = (AllStreams-lookup _ id e.stream w.streams valid.sound e.found).well_formed in
      let (v, vests, reached) =
        payout_reaches_vested e.stream env.timestamp well e.due e.positive in
      (
        e.positive,
        rw (e.found, e.due) refl,
        rw
            (
              ap (λ v. lookup id v.streams) e.left,
              lookup-insert_same id (pay_out e.stream e.withdrawn) w.streams,
              spent e.stream e.withdrawn v env.timestamp vests
                  ((checked_add-some _ _ _ e.summed).0 ∙ reached),
            )
            refl,
      )
