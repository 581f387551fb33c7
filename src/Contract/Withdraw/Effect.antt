-- ===== src/Contract/Withdraw/Effect.antt =====
-- What a withdrawal that returns has checked and written.
use stream_pay_contracts.Base.{
  subst, not, ◌==◌, ℕ, ◌≡◌, ◌++◌, ◌∷◌, [], true, false, some, arith, unwrap_or,
}
use stream_pay_contracts.Base.Int.{ℤ, pos, ◌<ℤ◌, leb_ℤ, checked_add, checked_sub}
use stream_pay_contracts.Base.Dict.{lookup, insert}
use stream_pay_contracts.Error.{ok}
use stream_pay_contracts.Types.{Address, Stream, active, is_status_completed, is_status_cancelled}
use stream_pay_contracts.Vesting.{withdrawable}
use stream_pay_contracts.Events.{stream_withdrawn}
use stream_pay_contracts.Host.{Env, Host}
use stream_pay_contracts.World.{World, done}
use stream_pay_contracts.Storage.{bump_stream_live}
use stream_pay_contracts.World.Inversion.{after_raise_if, after_or_raise, after_try, done-result}
use stream_pay_contracts.Contract.Calls.Inversion.{
  after_auth, after_transfer, passed_eq, passed_open,
}
use stream_pay_contracts.Contract.Withdraw.{withdraw, pay_out}

passed_positive : (a : ℤ) → leb_ℤ a (pos 0) ≡ false → pos 0 <ℤ a
passed_positive a h = ground arith

module _ {T : Type 0} (host : Host T) (env : Env) (id : ℕ) (recipient : Address) (w : World T) where
  -- The world that a withdrawal of `available` from `stream` leaves.
  abbrev pub withdrawn_world : Stream → ℤ → ℤ → T → World T
  withdrawn_world stream available withdrawn tokens = record w {
    streams = insert id (pay_out stream withdrawn) w.streams;
    stream_live = bump_stream_live host env id w.stream_live;
    tokens = tokens;
    total_supply =
        some (unwrap_or (checked_sub (unwrap_or w.total_supply (pos 0)) available) (pos 0));
    events = w.events ++ stream_withdrawn id recipient available ∷ [];
  }

  pub record IsWithdrawal (available : ℤ) (w' : World T) : Type 0 where
    pub stream : Stream
    pub token : Address
    pub withdrawn : ℤ
    pub tokens : T
    pub authorized : env.authorized recipient ≡ true
    pub found : lookup id w.streams ≡ some stream
    pub owned : stream.recipient ≡ recipient
    pub still_active : stream.status ≡ active
    pub due : withdrawable stream env.timestamp ≡ ok available
    pub positive : pos 0 <ℤ available
    pub summed : checked_add stream.withdrawn available ≡ some withdrawn
    pub token_set : w.token ≡ some token
    pub transferred :
        host.transfer w.tokens token env.current_contract recipient available ≡ some tokens
    pub left : w' ≡ withdrawn_world stream available withdrawn tokens

  pub withdraw-done :
      {a : ℤ} {w' : World T} → withdraw host env id recipient w ≡ done a w' → IsWithdrawal a w'
  unfolding withdraw
  withdraw-done {a} {w'} h = after_auth env recipient _ h λ authorized h₁.
      after_or_raise (lookup id w.streams) _ _ h₁ λ stream found h₂.
        after_raise_if (not (stream.recipient == recipient)) _ _ h₂ λ owned h₃.
          after_raise_if (is_status_cancelled stream.status) _ _ h₃ λ not_cancelled h₄.
            after_raise_if (is_status_completed stream.status) _ _ h₄ λ not_completed h₅.
              after_try (withdrawable stream env.timestamp) _ h₅ λ available due h₆.
                after_raise_if (leb_ℤ available (pos 0)) _ _ h₆ λ positive h₇.
                  after_or_raise (checked_add stream.withdrawn available) _ _ h₇
                    λ withdrawn summed h₈.
                      after_transfer host env.current_contract recipient available _ h₈
                        λ token tokens token_set transferred h₉.
                          let (same, left) = done-result h₉ in
                          subst (λ x. IsWithdrawal x w') same
                            (record {
                              stream = stream;
                              token = token;
                              withdrawn = withdrawn;
                              tokens = tokens;
                              authorized = authorized;
                              found = found;
                              owned = passed_eq _ _ owned;
                              still_active = passed_open _ not_cancelled not_completed;
                              due = due;
                              positive = passed_positive _ positive;
                              summed = summed;
                              token_set = token_set;
                              transferred = transferred;
                              left = left;
                            })
