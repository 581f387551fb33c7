-- ===== src/Trace/Draws/AsOne.antt =====
-- A sequence of withdrawals of one stream as a single withdrawal (src/lib.rs).
use stream_pay_contracts.Base.{ℕ, ◌≡◌, sym, ap, ap₂, subst₂, ◌∙◌, subst, true, some}
use stream_pay_contracts.Base.Int.{ℤ, ◌+ℤ◌, int_laws, +ℤ_assoc}
use stream_pay_contracts.Base.Dict.{lookup, insert, lookup-insert_same, insert-insert}
use stream_pay_contracts.Error.{ok}
use stream_pay_contracts.Types.{Address, Stream, active}
use stream_pay_contracts.Types.Valid.{IsWellFormed}
use stream_pay_contracts.Host.{Env, Host, MovesTokens}
use stream_pay_contracts.World.{World, done}
use stream_pay_contracts.Vesting.{vested}
use stream_pay_contracts.Contract.Withdraw.{withdraw, pay_out}
use stream_pay_contracts.Contract.Withdraw.Effect.{withdrawn_world}
use stream_pay_contracts.Contract.Withdraw.Complete.{withdraw_complete}
use stream_pay_contracts.Trace.Cash.{moved, moved_add, transfer-moved}
use stream_pay_contracts.Trace.Draws.{
  Draws, one, more, IsDrawn, pay_out-pay_out, withdrawable-vested, withdraw-IsDrawn,
}

module _ {T : Type 0} (host : Host T) (laws : MovesTokens host) (token : Address) (id : ℕ)
    (s : Stream) where
  -- A withdrawal after others is one of the sum.
  then-IsDrawn :
      (self : Address) (first w w' : World T) {before now : ℕ} {a b : ℤ}
      → s.status ≡ active
      → IsDrawn host token self id first s before a w
      → (pay_out s (s.withdrawn +ℤ a)).status ≡ active
      → IsDrawn host token self id w (pay_out s (s.withdrawn +ℤ a)) now b w'
      → IsDrawn host token self id first s now (a +ℤ b) w'
  unfolding vested
  then-IsDrawn self first w w' {before} {now} {a} {b} live h still k =
      let x = s.withdrawn +ℤ a in
      let once : pay_out (pay_out s x) (x +ℤ b) ≡ pay_out s (s.withdrawn +ℤ (a +ℤ b)) =
        pay_out-pay_out s x (x +ℤ b) live still ∙ ap (pay_out s) (+ℤ_assoc s.withdrawn a b) in
      record {
        positive = omega (int_laws, h.positive, k.positive);
        reached = k.reached ∙ ap ok (+ℤ_assoc s.withdrawn a b);
        stored =
            k.stored
            ∙ ap₂ (insert id) once h.stored
            ∙ insert-insert id (pay_out s x) (pay_out s (s.withdrawn +ℤ (a +ℤ b))) first.streams;
        well_formed = subst IsWellFormed once k.well_formed;
        same_token = k.same_token ∙ h.same_token;
        gained = λ holder.
            k.gained holder
            ∙ ap (λ y. y +ℤ moved self s.recipient b holder) (h.gained holder)
            ∙ +ℤ_assoc _ _ _
            ∙ ap (λ y. host.balance first.tokens token holder +ℤ y)
                (moved_add self s.recipient a b holder);
      }

  -- Withdrawals one after the other.
  Draws-IsDrawn :
      (self recipient : Address) (first : World T) {now : ℕ} {sum : ℤ} {w : World T}
      → IsWellFormed s
      → lookup id first.streams ≡ some s
      → first.token ≡ some token
      → Draws host self id recipient first now sum w
      → IsDrawn host token self id first s now sum w
        × (s.status ≡ active)
        × (s.recipient ≡ recipient)
  Draws-IsDrawn self recipient first {now} {sum} {w} h found chosen (one env here clock returned) =
      subst₂
        (λ x y.
          IsDrawn host token x id first s y sum w × (s.status ≡ active) × (s.recipient ≡ recipient))
        here clock
        (withdraw-IsDrawn host laws token id s env recipient first h found chosen returned)
  Draws-IsDrawn self recipient first h found chosen
        (more {before} {now} {a} {b} {sum} {w} {w'} draws env here clock returned total) =
      let (drawn, live, owned) = Draws-IsDrawn self recipient first h found chosen draws in
      let paid = pay_out s (s.withdrawn +ℤ a) in
      let (last, still, _) =
        withdraw-IsDrawn host laws token id paid env recipient w drawn.well_formed
          (ap (lookup id) drawn.stored ∙ lookup-insert_same id paid first.streams)
          (drawn.same_token ∙ chosen) returned in
      let last_here = subst₂ (λ x y. IsDrawn host token x id w paid y b w') here clock last in
      (
        subst (λ x. IsDrawn host token self id first s now x w') (sym total)
            (then-IsDrawn self first w w' live drawn still last_here),
        live,
        owned,
      )

  -- With a token that moves what it is asked to: after any sequence of withdrawals of one
  -- well-formed stream with nothing between them, a single withdrawal in the first state at the
  -- time of the last returns the sum of what they returned, and leaves the same streams and every
  -- holder the same balance, if its recipient authorizes it and the recorded token makes the
  -- transfer of the sum.
  pub withdrawals_as_one :
      (first : World T) {sum : ℤ} {w : World T} (env : Env) (tokens : T)
      → IsWellFormed s
      → lookup id first.streams ≡ some s
      → first.token ≡ some token
      → Draws host env.current_contract id s.recipient first env.timestamp sum w
      → env.authorized s.recipient ≡ true
      → host.transfer first.tokens token env.current_contract s.recipient sum ≡ some tokens
      → (w' : World T) × (withdraw host env id s.recipient first ≡ done sum w')
        × (w'.streams ≡ w.streams)
        × ((holder : Address)
            → host.balance w'.tokens token holder ≡ host.balance w.tokens token holder)
  withdrawals_as_one first {sum} {w} env tokens h found chosen draws authorized made =
      let (drawn, live, owned) =
        Draws-IsDrawn env.current_contract s.recipient first h found chosen draws in
      let due = withdrawable-vested s env.timestamp sum h drawn.reached drawn.positive in
      (
        withdrawn_world host env id s.recipient first s sum (s.withdrawn +ℤ sum) tokens,
        withdraw_complete host env id first s token h authorized found live due drawn.positive
            chosen made,
        sym drawn.stored,
        λ holder.
            transfer-moved host laws first.tokens tokens token env.current_contract s.recipient sum
              made holder
            ∙ sym (drawn.gained holder),
      )
