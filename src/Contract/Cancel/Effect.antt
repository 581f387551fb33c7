-- ===== src/Contract/Cancel/Effect.antt =====
-- What a cancellation that returns has checked and written.
use stream_pay_contracts.Host.{Env, Host}
use stream_pay_contracts.World.{World, done, Action, ◌>>◌}
use stream_pay_contracts.World.Inversion.{
  after_raise_if, after_or_raise, after_try, after_unwrap, done-result,
}
use stream_pay_contracts.Storage.{bump_stream_live}
use stream_pay_contracts.Contract.Calls.Inversion.{after_auth, after_transfer}
use stream_pay_contracts.Base.{
  ℕ, ⊤, ◌≡◌, ◌⊎◌, inl, inr, refl, not, ◌==◌, ◌&&◌, true, false, Option, some, [], ◌∷◌, ◌++◌, arith,
  unwrap_or, Bool-cases,
}
use stream_pay_contracts.Base.Int.{ℤ, pos, ◌≤ℤ◌, ◌<ℤ◌, ltb_ℤ, checked_add, checked_sub}
use stream_pay_contracts.Base.Dict.{lookup, insert}
use stream_pay_contracts.Error.{ok}
use stream_pay_contracts.Types.{Address, Stream, cancelled, is_status_cancelled}
use stream_pay_contracts.Vesting.{vested, unvested}
use stream_pay_contracts.Events.{stream_cancelled}
use stream_pay_contracts.Contract.Cancel.{cancel, transfer_if_positive}

-- The tokens' state after a transfer that is made only for a positive amount.
pub data PaysIfPositive {T : Type 0} (host : Host T) (token : Option Address) (from to : Address)
    (amount : ℤ) (t t' : T) : Type 0 where
  skipped : amount ≤ℤ pos 0 → t' ≡ t → PaysIfPositive host token from to amount t t'
  paid :
      (address : Address)
      → pos 0 <ℤ amount
      → token ≡ some address
      → host.transfer t address from to amount ≡ some t'
      → PaysIfPositive host token from to amount t t'

module _ {ℓ} {C : Type ℓ} {T B : Type 0} {w w' : World T} {b : B} where
  after_transfer_if_positive :
      (host : Host T) (from to : Address) (amount : ℤ) (k : Action T B)
      → (transfer_if_positive host from to amount >> k) w ≡ done b w'
      → ((tokens : T)
          → PaysIfPositive host w.token from to amount w.tokens tokens
          → k (record w { tokens = tokens }) ≡ done b w'
          → C)
      → C
  unfolding transfer_if_positive
  after_transfer_if_positive host from to amount k h f = elim (Bool-cases (ltb_ℤ (pos 0) amount)) [
    | inl positive ↦
        after_transfer host from to amount k (rw positive at h)
          λ token tokens token_set transferred h₁.
            f tokens (paid token (ground arith) token_set transferred) h₁
    | inr negative ↦ f w.tokens (skipped (ground arith) refl) (rw negative at h)
  ]

passed_either : (a b c : ℕ) → (not (a == b) && not (a == c)) ≡ false → (a ≡ b) ⊎ (a ≡ c)
passed_either a b c h = ground arith

module _ {T : Type 0} (host : Host T) (env : Env) (id : ℕ) (caller : Address) (w : World T) where
  pub record IsCancellation (w' : World T) : Type 0 where
    pub stream : Stream
    pub now_vested : ℤ
    pub recipient_paid : ℤ
    pub sender_refund : ℤ
    pub tokens : T
    pub tokens' : T
    pub authorized : env.authorized caller ≡ true
    pub found : lookup id w.streams ≡ some stream
    pub party : (caller ≡ stream.sender) ⊎ (caller ≡ stream.recipient)
    pub not_cancelled : is_status_cancelled stream.status ≡ false
    pub vests : vested stream env.timestamp ≡ ok now_vested
    pub pays : checked_sub now_vested stream.withdrawn ≡ some recipient_paid
    pub refunds : unvested stream env.timestamp ≡ ok sender_refund
    pub token : Address
    pub token_set : w.token ≡ some token
    pub to_recipient :
        PaysIfPositive host w.token env.current_contract stream.recipient recipient_paid w.tokens
          tokens
    pub to_sender :
        PaysIfPositive host w.token env.current_contract stream.sender sender_refund tokens tokens'
    pub left : w' ≡ record w {
      streams = insert id (record stream { withdrawn = now_vested; status = cancelled }) w.streams;
      stream_live = bump_stream_live host env id w.stream_live;
      tokens = tokens';
      total_supply = some (
          unwrap_or
            (checked_sub
              (unwrap_or w.total_supply (pos 0))
              (unwrap_or (checked_add recipient_paid sender_refund) sender_refund))
            (pos 0));
      events = w.events ++ stream_cancelled id caller sender_refund recipient_paid ∷ [];
    }

  pub cancel-done :
      {a : ⊤} {w' : World T} → cancel host env id caller w ≡ done a w' → IsCancellation w'
  unfolding cancel
  cancel-done {a} {w'} h = after_auth env caller _ h λ authorized h₁.
      after_or_raise (lookup id w.streams) _ _ h₁ λ stream found h₂.
        after_raise_if (not (caller == stream.sender) && not (caller == stream.recipient)) _ _ h₂
          λ party h₃. after_raise_if (is_status_cancelled stream.status) _ _ h₃ λ not_cancelled h₄.
            after_try (vested stream env.timestamp) _ h₄ λ now_vested vests h₅.
              after_or_raise (checked_sub now_vested stream.withdrawn) _ _ h₅
                λ recipient_paid pays h₆.
                  after_try (unvested stream env.timestamp) _ h₆ λ sender_refund refunds h₇.
                    after_unwrap w.token _ h₇ λ token token_set h₈.
                      after_transfer_if_positive host env.current_contract stream.recipient
                        recipient_paid _ h₈
                        λ tokens to_recipient h₉.
                          after_transfer_if_positive host env.current_contract stream.sender
                            sender_refund _ h₉
                            λ tokens' to_sender h₁₀. record {
                              stream = stream;
                              now_vested = now_vested;
                              recipient_paid = recipient_paid;
                              sender_refund = sender_refund;
                              tokens = tokens;
                              tokens' = tokens';
                              authorized = authorized;
                              found = found;
                              party = passed_either _ _ _ party;
                              not_cancelled = not_cancelled;
                              vests = vests;
                              pays = pays;
                              refunds = refunds;
                              token = token;
                              token_set = token_set;
                              to_recipient = to_recipient;
                              to_sender = to_sender;
                              left = (done-result h₁₀).1;
                            }
