-- ===== src/Trace/Draws.antt =====
-- Several withdrawals of one stream, one after the other (src/lib.rs), against a single one.
pub mod AsOne
use stream_pay_contracts.Base.{
  ℕ, ◌≡◌, refl, sym, ap, ap₂, subst₂, ◌∙◌, subst, true, some, some-injective, arith,
}
use stream_pay_contracts.Base.Int.{
  ℤ, pos, ◌+ℤ◌, ◌-ℤ◌, ◌<ℤ◌, int_laws, +ℤ_assoc, is_positive, checked_add-some, checked_add,
  checked_sub-fits,
}
use stream_pay_contracts.Base.Dict.{lookup, insert, lookup-insert_same, insert-insert}
use stream_pay_contracts.Error.{ok}
use stream_pay_contracts.Types.{Address, Stream, active}
use stream_pay_contracts.Types.Valid.{IsWellFormed}
use stream_pay_contracts.Host.{Env, Host, MovesTokens}
use stream_pay_contracts.World.{World, done}
use stream_pay_contracts.Vesting.{vested, withdrawable}
use stream_pay_contracts.Vesting.Bounds.{vested_bounds}
use stream_pay_contracts.Vesting.Payout.{payout_reaches_vested}
use stream_pay_contracts.Contract.Withdraw.{withdraw, pay_out}
use stream_pay_contracts.Contract.Withdraw.Effect.{withdraw-done, withdrawn_world}
use stream_pay_contracts.Contract.Withdraw.Complete.{withdraw_complete}
use stream_pay_contracts.Invariant.WellFormed.{paid-IsWellFormed}
use stream_pay_contracts.Trace.Cash.{moved, moved_add, transfer-moved}

-- The worlds that withdrawals of one stream lead to, with the sum of what they returned and the
-- time of the last.
pub data Draws {T : Type 0} (host : Host T) (self : Address) (id : ℕ) (recipient : Address)
    (first : World T) : ℕ → ℤ → World T → Type 0 where
  one :
      {now : ℕ} {a : ℤ} {w : World T} (env : Env)
      → env.current_contract ≡ self
      → env.timestamp ≡ now
      → withdraw host env id recipient first ≡ done a w
      → Draws host self id recipient first now a w
  more :
      {before now : ℕ} {a b sum : ℤ} {w w' : World T}
      → Draws host self id recipient first before a w
      → (env : Env) → env.current_contract ≡ self
      → env.timestamp ≡ now
      → withdraw host env id recipient w ≡ done b w'
      → sum ≡ a +ℤ b
      → Draws host self id recipient first now sum w'

module _ {T : Type 0} (host : Host T) (token self : Address) (id : ℕ) (first : World T)
    (s : Stream) where
  -- A world that a single withdrawal of `sum` could have left.
  pub record IsDrawn (now : ℕ) (sum : ℤ) (w : World T) : Type 0 where
    pub positive : pos 0 <ℤ sum
    pub reached : vested s now ≡ ok (s.withdrawn +ℤ sum)
    pub stored : w.streams ≡ insert id (pay_out s (s.withdrawn +ℤ sum)) first.streams
    pub well_formed : IsWellFormed (pay_out s (s.withdrawn +ℤ sum))
    pub same_token : w.token ≡ first.token
    pub gained :
        (holder : Address)
        → host.balance w.tokens token holder
          ≡ host.balance first.tokens token holder +ℤ moved self s.recipient sum holder

-- Paying out twice is paying out once.
pub pay_out-pay_out :
    (s : Stream) (x y : ℤ)
    → s.status ≡ active
    → (pay_out s x).status ≡ active
    → pay_out (pay_out s x) y ≡ pay_out s y
pay_out-pay_out s x y live still = ground arith

-- What is due of a stream that has vested more than was withdrawn.
pub withdrawable-vested :
    (s : Stream) (now : ℕ) (a : ℤ)
    → IsWellFormed s
    → vested s now ≡ ok (s.withdrawn +ℤ a)
    → pos 0 <ℤ a
    → withdrawable s now ≡ ok a
unfolding withdrawable
withdrawable-vested s now a h vests positive =
    let (low, high) = vested_bounds s now h vests in
    let rest : s.withdrawn +ℤ a -ℤ s.withdrawn ≡ a = omega int_laws in
    rw
      (
        vests,
        checked_sub-fits (s.withdrawn +ℤ a) s.withdrawn
            (omega (int_laws, h.total_fits, h.withdrawn_nonneg)),
        rest,
        is_positive a positive,
      )
      refl

module _ {T : Type 0} (host : Host T) (laws : MovesTokens host) (token : Address) (id : ℕ)
    (s : Stream) where
  -- One withdrawal.
  pub withdraw-IsDrawn :
      (env : Env) (recipient : Address) (w : World T) {a : ℤ} {w' : World T}
      → IsWellFormed s
      → lookup id w.streams ≡ some s
      → w.token ≡ some token
      → withdraw host env id recipient w ≡ done a w'
      → IsDrawn host token env.current_contract id w s env.timestamp a w'
        × (s.status ≡ active)
        × (s.recipient ≡ recipient)
  withdraw-IsDrawn env recipient w {a} {w'} h found chosen returned =
      let e = withdraw-done host env id recipient w returned in
      let same : e.stream ≡ s = some-injective (sym e.found ∙ found) in
      let due = ap (λ x. withdrawable x env.timestamp) (sym same) ∙ e.due in
      let live = ap (λ x. x.status) (sym same) ∙ e.still_active in
      let owned = ap (λ x. x.recipient) (sym same) ∙ e.owned in
      let summed = ap (λ x. checked_add x.withdrawn a) (sym same) ∙ e.summed in
      let (v, vests, reached) = payout_reaches_vested s env.timestamp h due e.positive in
      let (sum_eq, _) = checked_add-some s.withdrawn a e.withdrawn summed in
      let well = (paid-IsWellFormed s env.timestamp h live due e.positive summed).0 in
      (
        record {
          positive = e.positive;
          reached = vests ∙ ap ok (sym reached);
          stored =
              ap (λ v. v.streams) e.left
              ∙ ap₂ (λ x y. insert id (pay_out x y) w.streams) same sum_eq;
          well_formed = subst (λ x. IsWellFormed (pay_out s x)) sum_eq well;
          same_token = ap (λ v. v.token) e.left;
          gained = λ holder.
              ap (λ v. host.balance v.tokens token holder) e.left
              ∙ transfer-moved host laws w.tokens e.tokens token env.current_contract recipient a
                  (ap (λ x. host.transfer w.tokens x env.current_contract recipient a)
                      (some-injective (sym chosen ∙ e.token_set))
                    ∙ e.transferred)
                  holder
              ∙ ap
                  (λ x. host.balance w.tokens token holder +ℤ moved env.current_contract x a holder)
                  (sym owned);
        },
        live,
        owned,
      )
