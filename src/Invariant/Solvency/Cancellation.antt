-- ===== src/Invariant/Solvency/Cancellation.antt =====
-- The contract's token balance under a cancellation.
use stream_pay_contracts.Base.{some-injective, ℕ, ⊤, ◌≡◌, ◌≢◌, sym, ap, ap₂, ◌∙◌, subst, some}
use stream_pay_contracts.Base.Int.{ℤ, ◌+ℤ◌, ◌-ℤ◌, ◌≤ℤ◌, ◌<ℤ◌, int_laws}
use stream_pay_contracts.Base.Dict.{lookup}
use stream_pay_contracts.Error.{ok}
use stream_pay_contracts.Types.{Address, Stream}
use stream_pay_contracts.Host.{Env, Host, MovesTokens}
use stream_pay_contracts.World.{World, done}
use stream_pay_contracts.Vesting.{vested}
use stream_pay_contracts.Vesting.Bounds.{vested_bounds}
use stream_pay_contracts.Types.Valid.{IsWellFormed}
use stream_pay_contracts.Contract.Cancel.{cancel}
use stream_pay_contracts.Contract.Cancel.Effect.{PaysIfPositive, cancel-done}
use stream_pay_contracts.Invariant.{IsValid, IsSolvent, escrow, escrow_of}
use stream_pay_contracts.Invariant.Escrow.{ok-injective}
use stream_pay_contracts.Invariant.Flow.{cancel-escrow, cancel-split}
use stream_pay_contracts.Invariant.Payments.{
  positive_part, positive_part_of, positive_part_none, PaysIfPositive-moves, PaysIfPositive-covers,
}
use stream_pay_contracts.Invariant.Solvency.{solvent_out}

-- The two payouts of a cancellation where less has vested than was withdrawn.
payouts_exceed :
    (b t w v : ℤ)
    → v <ℤ w
    → v ≤ℤ t
    → b -ℤ positive_part (v -ℤ w) -ℤ positive_part (t -ℤ v) +ℤ (w -ℤ v) ≡ b -ℤ (t -ℤ w)
payouts_exceed b t w v h k =
    rw (positive_part_none (v -ℤ w) (omega int_laws), positive_part_of (t -ℤ v) (omega int_laws))
      (omega int_laws)

covered_exact :
    (b b₁ b₂ t w v : ℤ) → b -ℤ (v -ℤ w) ≤ℤ b₁ → b₁ -ℤ (t -ℤ v) ≤ℤ b₂ → b -ℤ (t -ℤ w) ≤ℤ b₂
covered_exact b b₁ b₂ t w v first second = omega int_laws

-- Two payments that sum to what the stream held leave the rest.
covered :
    (b b₁ b₂ t w v p r : ℤ)
    → p ≡ v -ℤ w
    → r ≡ t -ℤ v
    → w ≤ℤ v
    → v ≤ℤ t
    → b -ℤ positive_part p ≤ℤ b₁
    → b₁ -ℤ positive_part r ≤ℤ b₂
    → b -ℤ (t -ℤ w) ≤ℤ b₂
covered b b₁ b₂ t w v p r p_eq r_eq earned high first second =
    let p_all = positive_part_of p (rw p_eq (omega int_laws)) ∙ p_eq in
    let r_all = positive_part_of r (rw r_eq (omega int_laws)) ∙ r_eq in
    covered_exact b b₁ b₂ t w v (subst (λ x. b -ℤ x ≤ℤ b₁) p_all first)
      (subst (λ x. b₁ -ℤ x ≤ℤ b₂) r_all second)

module _ {T : Type 0} (host : Host T) (laws : MovesTokens host) (env : Env) (token : Address)
    (now : ℕ) (w : World T) (valid : IsValid now w) (chosen : w.token ≡ some token) where
  module _ (id : ℕ) (caller : Address) (s : Stream) (v : ℤ) {a : ⊤} {w' : World T}
      (found : lookup id w.streams ≡ some s) (vests : vested s env.timestamp ≡ ok v)
      (from_sender : env.current_contract ≢ s.sender)
      (from_recipient : env.current_contract ≢ s.recipient)
      (h : cancel host env id caller w ≡ done a w') where
    -- In a valid state, with a token that moves what it is asked to and parties other than the
    -- contract, a cancellation pays from the contract's balance what has vested beyond the
    -- withdrawn amount, where that is positive, and all that has not vested; the escrow falls by
    -- what the stream still held.
    pub cancel_pays :
        (host.balance w'.tokens token env.current_contract
          ≡ host.balance w.tokens token env.current_contract
            -ℤ positive_part (v -ℤ s.withdrawn)
            -ℤ positive_part (s.total -ℤ v))
        × (escrow w'.streams ≡ escrow w.streams -ℤ (s.total -ℤ s.withdrawn))
    cancel_pays =
        let e = cancel-done host env id caller w h in
        let same : e.stream ≡ s = some-injective (sym e.found ∙ found) in
        let v_eq : e.now_vested ≡ v =
          ok-injective (sym e.vests ∙ ap (λ x. vested x env.timestamp) same ∙ vests) in
        let (_, paid_eq, refund_eq, held_eq, _) = cancel-split now w valid host env id caller h in
        let first =
          PaysIfPositive-moves host laws w.tokens e.tokens token env.current_contract
            (e.stream).recipient e.recipient_paid
            (λ q. from_recipient (q ∙ ap (λ x. x.recipient) same))
            (subst
              (λ o.
                PaysIfPositive host o env.current_contract (e.stream).recipient e.recipient_paid
                  w.tokens e.tokens)
              chosen e.to_recipient) in
        let second =
          PaysIfPositive-moves host laws e.tokens e.tokens' token env.current_contract
            (e.stream).sender e.sender_refund (λ q. from_sender (q ∙ ap (λ x. x.sender) same))
            (subst
              (λ o.
                PaysIfPositive host o env.current_contract (e.stream).sender e.sender_refund
                  e.tokens e.tokens')
              chosen e.to_sender) in
        let paid_is : e.recipient_paid ≡ v -ℤ s.withdrawn =
          paid_eq ∙ ap₂ ◌-ℤ◌ v_eq (ap (λ x. x.withdrawn) same) in
        let refund_is : e.sender_refund ≡ s.total -ℤ v =
          refund_eq ∙ ap₂ ◌-ℤ◌ (ap (λ x. x.total) same) v_eq in
        (
          ap (λ x. host.balance x.tokens token env.current_contract) e.left
              ∙ second
              ∙ ap₂ (λ x y. x -ℤ positive_part y)
                  (first
                    ∙ ap (λ y. host.balance w.tokens token env.current_contract -ℤ positive_part y)
                        paid_is)
                  refund_is,
          cancel-escrow now w valid host env id caller h
              ∙ ap (λ x. escrow w.streams -ℤ x) (held_eq ∙ ap (λ x. x.total -ℤ x.withdrawn) same),
        )

    -- In a valid state, with a token that moves what it is asked to and parties other than the
    -- contract, a cancellation of a well-formed stream of which more was withdrawn than has vested
    -- by now, which an extension can bring about, lowers the escrow by what the stream still held,
    -- but the contract's balance by more, the excess being the difference of the withdrawn and the
    -- vested amount.
    pub cancel_overpays :
        IsWellFormed s
        → v <ℤ s.withdrawn
        → (host.balance w'.tokens token env.current_contract +ℤ (s.withdrawn -ℤ v)
            ≡ host.balance w.tokens token env.current_contract -ℤ (s.total -ℤ s.withdrawn))
          × (escrow w'.streams ≡ escrow w.streams -ℤ (s.total -ℤ s.withdrawn))
    cancel_overpays well over =
        let (pays, less) = cancel_pays in
        let (_, high) = vested_bounds s env.timestamp well vests in
        (
          ap (λ x. x +ℤ (s.withdrawn -ℤ v)) pays
              ∙ payouts_exceed (host.balance w.tokens token env.current_contract) s.total
                  s.withdrawn v over high,
          less,
        )

  -- A cancellation in a valid state, with a token that moves what it is asked to, keeps the
  -- contract's balance at or above the escrow of the active streams, if no more was withdrawn than
  -- has vested by now.
  pub cancel-IsSolvent :
      (id : ℕ) (caller : Address) (s : Stream) (v : ℤ) {a : ⊤} {w' : World T}
      → lookup id w.streams ≡ some s
      → vested s env.timestamp ≡ ok v
      → s.withdrawn ≤ℤ v
      → IsSolvent host token env.current_contract w
      → cancel host env id caller w ≡ done a w'
      → IsSolvent host token env.current_contract w'
  cancel-IsSolvent id caller s v {a} {w'} found vests earned solvent h =
      let e = cancel-done host env id caller w h in
      let same : e.stream ≡ s = some-injective (sym e.found ∙ found) in
      let v_eq : e.now_vested ≡ v =
        ok-injective (sym e.vests ∙ ap (λ x. vested x env.timestamp) same ∙ vests) in
      let (_, paid_eq, refund_eq, held_eq, well) = cancel-split now w valid host env id caller h in
      let (_, high) = vested_bounds e.stream env.timestamp well e.vests in
      let self = env.current_contract in
      let first =
        PaysIfPositive-covers host laws w.tokens e.tokens token self (e.stream).recipient
          e.recipient_paid
          (subst
            (λ o.
              PaysIfPositive host o self (e.stream).recipient e.recipient_paid w.tokens e.tokens)
            chosen e.to_recipient) in
      let second =
        PaysIfPositive-covers host laws e.tokens e.tokens' token self (e.stream).sender
          e.sender_refund
          (subst
            (λ o. PaysIfPositive host o self (e.stream).sender e.sender_refund e.tokens e.tokens')
            chosen e.to_sender) in
      solvent_out (escrow w.streams) (escrow w'.streams) (host.balance w.tokens token self)
        (host.balance w'.tokens token self) (escrow_of e.stream) solvent
        (cancel-escrow now w valid host env id caller h)
        (rw (ap (λ v. host.balance v.tokens token self) e.left, held_eq)
          (covered (host.balance w.tokens token self) (host.balance e.tokens token self)
            (host.balance e.tokens' token self) (e.stream).total (e.stream).withdrawn e.now_vested
            e.recipient_paid e.sender_refund paid_eq refund_eq
            (rw (v_eq, ap (λ x. x.withdrawn) same) earned) high first second))
