-- ===== src/Trace/Solvent/Assured.antt =====
-- What the parties of a stream can get out of a contract that follows the rules (src/lib.rs).
use stream_pay_contracts.Base.{
  ℕ, ◌≤◌, ◌≡◌, ◌⊎◌, inl, inr, refl, sym, ap, subst, true, some, arith, Bool-cases,
}
use stream_pay_contracts.Base.Int.{ℤ, pos, ◌+ℤ◌, ◌-ℤ◌, ◌≤ℤ◌, ◌<ℤ◌, ltb_ℤ, int_laws}
use stream_pay_contracts.Base.Dict.{lookup}
use stream_pay_contracts.Error.{ok}
use stream_pay_contracts.Types.{Address, Stream, active, is_status_cancelled}
use stream_pay_contracts.Vesting.{withdrawable}
use stream_pay_contracts.Vesting.Bounds.{Fits, scheduled, withdrawable_bounds, vested_bounds}
use stream_pay_contracts.Host.{Env, Host, MovesTokens}
use stream_pay_contracts.World.{World, done}
use stream_pay_contracts.Invariant.Insert.{AllStreams-lookup, escrow_of-le}
use stream_pay_contracts.Invariant.Escrow.{escrow_of-active}
use stream_pay_contracts.Invariant.Earned.{IsEarned-later}
use stream_pay_contracts.Invariant.Payments.{positive_part_of, PaysIfPositive-covers}
use stream_pay_contracts.Contract.Withdraw.{withdraw}
use stream_pay_contracts.Contract.Withdraw.Effect.{withdrawn_world}
use stream_pay_contracts.Contract.Withdraw.Complete.{withdraw_complete}
use stream_pay_contracts.Contract.Cancel.{cancel}
use stream_pay_contracts.Contract.Cancel.Effect.{PaysIfPositive, skipped, paid}
use stream_pay_contracts.Contract.Cancel.Complete.{cancel_complete}
use stream_pay_contracts.Trace.{Run, deployed}
use stream_pay_contracts.Trace.Payout.{vested-Fits}
use stream_pay_contracts.Trace.Solvent.{Guarded, Spares}
use stream_pay_contracts.Trace.Solvent.Runs.{Run-IsFunded}

-- The token makes this one transfer of a positive amount, if the payer can cover it. A Stellar asset
-- does so where it holds both parties authorized and the recipient has an account and a trustline
-- with room for the amount.
abbrev pub MadeIfCovered :
    {T : Type 0} → Host T → (t : T) (token from to : Address) (amount : ℤ) → Type 0
MadeIfCovered {T} host t token from to amount =
    pos 0 <ℤ amount
    → amount ≤ℤ host.balance t token from
    → (t' : T) × (host.transfer t token from to amount ≡ some t')

positive_of : (x : ℤ) → ltb_ℤ (pos 0) x ≡ true → pos 0 <ℤ x
positive_of x h = ground arith

first_covered : (p r b : ℤ) → pos 0 ≤ℤ r → p +ℤ r ≤ℤ b → p ≤ℤ b
first_covered p r b low covered = omega int_laws

second_covered : (p r b b' : ℤ) → p +ℤ r ≤ℤ b → b -ℤ p ≤ℤ b' → r ≤ℤ b'
second_covered p r b b' covered left = omega int_laws

split_rest : (t v w : ℤ) → v -ℤ w +ℤ (t -ℤ v) ≡ t -ℤ w
split_rest t v w = omega int_laws

difference_low : (v w : ℤ) → w ≤ℤ v → pos 0 ≤ℤ v -ℤ w
difference_low v w h = omega int_laws

module _ {T : Type 0} (host : Host T) (laws : MovesTokens host) where
  -- A payment that the payer can cover is made.
  paid_when_covered :
      (t : T) (token from to : Address) (amount : ℤ)
      → MadeIfCovered host t token from to amount
      → amount ≤ℤ host.balance t token from
      → (t' : T) × PaysIfPositive host (some token) from to amount t t'
  paid_when_covered t token from to amount honours covered =
      elim (Bool-cases (ltb_ℤ (pos 0) amount)) [
        | inl positive ↦
            let high = positive_of amount positive in
            let (t', made) = honours high covered in (t', paid token high refl made)
        | inr negative ↦ (t, skipped (ground arith) refl)
      ]

  -- Two payments that the payer can cover together, the first of which is not negative.
  both_paid :
      (t : T) (token from to to' : Address) (p r : ℤ)
      → pos 0 ≤ℤ p
      → pos 0 ≤ℤ r
      → MadeIfCovered host t token from to p
      → ((t' : T)
          → PaysIfPositive host (some token) from to p t t'
          → MadeIfCovered host t' token from to' r)
      → p +ℤ r ≤ℤ host.balance t token from
      → (t' : T) × (u : T) × PaysIfPositive host (some token) from to p t t'
        × PaysIfPositive host (some token) from to' r t' u
  both_paid t token from to to' p r low low' honours honours' covered =
      let (t', made) =
        paid_when_covered t token from to p honours
          (first_covered p r (host.balance t token from) low' covered) in
      let left =
        subst (λ q. host.balance t token from -ℤ q ≤ℤ host.balance t' token from)
          (positive_part_of p low) (PaysIfPositive-covers host laws t t' token from to p made) in
      let (u, made') =
        paid_when_covered t' token from to' r (honours' t' made)
          (second_covered p r _ _ covered left) in
      (t', u, made, made')

  module _ (self token : Address) (t : T) {now : ℕ} {w : World T} (env : Env) (id : ℕ) (s : Stream)
      (run : Run host (Guarded host self) (Spares host self) 0 (deployed t) now w)
      (chosen : w.token ≡ some token) (found : lookup id w.streams ≡ some s)
      (live : s.status ≡ active) (here : env.current_contract ≡ self) where
    -- The contract's balance covers what the stream still holds.
    rest_covered : s.total -ℤ s.withdrawn ≤ℤ host.balance w.tokens token env.current_contract
    rest_covered =
        let (valid, funded) = Run-IsFunded host laws self t run in
        rw (here, ← escrow_of-active s live)
          (omega (
            arith,
            funded.backed token chosen,
            escrow_of-le now _ id s w.streams valid.sound found,
          ))

    -- From deployment of the contract at an address, with a token that moves what it is asked to,
    -- whatever typed calls were made to it in which no deposit comes from the contract's own
    -- address, the token that is chosen at setup shows no negative balance of the contract then,
    -- and an extension leaves no more withdrawn than the longer schedule has vested by then, if
    -- token moves outside the calls never lower that balance: a withdrawal from an active stream
    -- that its recipient authorizes returns the withdrawable amount, where that is computed and
    -- positive, unless the token refuses to pay the recipient that amount out of a balance of the
    -- contract that covers it.
    pub withdraw_assured :
        {a : ℤ}
        → env.authorized s.recipient ≡ true
        → withdrawable s env.timestamp ≡ ok a
        → pos 0 <ℤ a
        → MadeIfCovered host w.tokens token env.current_contract s.recipient a
        → (w' : World T) × (withdraw host env id s.recipient w ≡ done a w')
    withdraw_assured {a} authorized due positive honours =
        let (valid, funded) = Run-IsFunded host laws self t run in
        let well = (AllStreams-lookup _ id s w.streams valid.sound found).well_formed in
        let bounds = withdrawable_bounds s env.timestamp well due in
        let (tokens, made) = honours positive (omega (int_laws, rest_covered, bounds.1)) in
        (
          withdrawn_world host env id s.recipient w s a (s.withdrawn +ℤ a) tokens,
          withdraw_complete host env id w s token well authorized found live due positive chosen
              made,
        )

    -- From deployment of the contract at an address, with a token that moves what it is asked to,
    -- whatever typed calls were made to it in which no deposit comes from the contract's own
    -- address, the token that is chosen at setup shows no negative balance of the contract then,
    -- and an extension leaves no more withdrawn than the longer schedule has vested by then, if
    -- token moves outside the calls never lower that balance: a cancellation of an active stream
    -- that its sender or its recipient calls and authorizes, later than the calls before it or at
    -- the same time, returns, if the time is outside the window or the product of the total and the
    -- elapsed seconds fits an i128, unless the token refuses one of the two payments, where it is
    -- positive and the contract's balance covers it: the recipient's share that has vested and is
    -- not withdrawn, or, after that payment, the sender's refund of what has not vested.
    pub cancel_assured :
        (caller : Address)
        → (caller ≡ s.sender) ⊎ (caller ≡ s.recipient)
        → env.authorized caller ≡ true
        → now ≤ env.timestamp
        → Fits s env.timestamp
        → MadeIfCovered host w.tokens token env.current_contract s.recipient
            (pos (scheduled s env.timestamp) -ℤ s.withdrawn)
        → ((t' : T)
            → PaysIfPositive host
                (some token)
                env.current_contract
                s.recipient
                (pos (scheduled s env.timestamp) -ℤ s.withdrawn)
                w.tokens
                t'
            → MadeIfCovered host t' token env.current_contract s.sender
                (s.total -ℤ pos (scheduled s env.timestamp)))
        → (w' : World T) × (cancel host env id caller w ≡ done tt w')
    cancel_assured caller party authorized passed fits honours honours' =
        let (valid, funded) = Run-IsFunded host laws self t run in
        let well = (AllStreams-lookup _ id s w.streams valid.sound found).well_formed in
        let earned =
          (IsEarned-later id s passed
              (AllStreams-lookup _ id s w.streams funded.all_earned found)).earned
            (ap is_status_cancelled live) in
        let vests = vested-Fits s env.timestamp well fits in
        let v = pos (scheduled s env.timestamp) in
        let (t', u, made, made') =
          both_paid w.tokens token env.current_contract s.recipient s.sender (v -ℤ s.withdrawn)
            (s.total -ℤ v) (difference_low v s.withdrawn earned)
            (difference_low s.total v (vested_bounds s env.timestamp well vests).1) honours honours'
            (subst (λ x. x ≤ℤ host.balance w.tokens token env.current_contract)
              (sym (split_rest s.total v s.withdrawn)) rest_covered) in
        (
          _,
          cancel_complete host env id caller w s token v t' u well authorized found party
              (ap is_status_cancelled live) vests chosen made made',
        )
