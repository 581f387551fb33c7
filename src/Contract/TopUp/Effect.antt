-- ===== src/Contract/TopUp/Effect.antt =====
-- What a top-up that returns has checked and written.
use stream_pay_contracts.Host.{Env, Host}
use stream_pay_contracts.World.{World, done}
use stream_pay_contracts.World.Inversion.{after_raise_if, after_or_raise, done-result}
use stream_pay_contracts.Storage.{bump_stream_live, bump_threshold, bump_extend}
use stream_pay_contracts.Contract.Calls.Inversion.{
  after_auth, after_transfer, passed_eq, passed_not, passed_active, passed_ltb_ℤ,
}
use stream_pay_contracts.Base.{ℕ, ◌≡◌, subst, not, ◌==◌, true, some, [], ◌∷◌, ◌++◌, unwrap_or}
use stream_pay_contracts.Base.Int.{ℤ, pos, ◌≤ℤ◌, ltb_ℤ, checked_add, i128_max}
use stream_pay_contracts.Base.Dict.{lookup, insert}
use stream_pay_contracts.Types.{Address, Stream, active, is_status_active}
use stream_pay_contracts.Constants.{is_valid_amount}
use stream_pay_contracts.Events.{stream_topped_up}
use stream_pay_contracts.Contract.TopUp.{top_up}

module _ {T : Type 0} (host : Host T) (env : Env) (id : ℕ) (sender : Address) (amount : ℤ)
    (w : World T) where
  pub record IsTopUp (total : ℤ) (w' : World T) : Type 0 where
    pub stream : Stream
    pub token : Address
    pub supply : ℤ
    pub tokens : T
    pub authorized : env.authorized sender ≡ true
    pub valid : is_valid_amount amount ≡ true
    pub found : lookup id w.streams ≡ some stream
    pub owned : sender ≡ stream.sender
    pub still_active : stream.status ≡ active
    pub summed : checked_add stream.total amount ≡ some total
    pub supplied : checked_add (unwrap_or w.total_supply (pos 0)) amount ≡ some supply
    pub capped : supply ≤ℤ unwrap_or w.supply_cap i128_max
    pub token_set : w.token ≡ some token
    pub transferred : host.transfer w.tokens token sender env.current_contract amount ≡ some tokens
    pub left : w' ≡ record w {
      streams = insert id (record stream { total = total }) w.streams;
      stream_live = bump_stream_live host env id w.stream_live;
      instance_live = host.extend_ttl env.sequence w.instance_live bump_threshold bump_extend;
      tokens = tokens;
      total_supply = some supply;
      events = w.events ++ stream_topped_up id sender amount total ∷ [];
    }

  pub top_up-done :
      {a : ℤ} {w' : World T} → top_up host env id sender amount w ≡ done a w' → IsTopUp a w'
  unfolding top_up
  top_up-done {a} {w'} h = after_auth env sender _ h λ authorized h₁.
      after_raise_if (not (is_valid_amount amount)) _ _ h₁ λ valid h₂.
        after_or_raise (lookup id w.streams) _ _ h₂ λ stream found h₃.
          after_raise_if (not (sender == stream.sender)) _ _ h₃ λ owned h₄.
            after_raise_if (not (is_status_active stream.status)) _ _ h₄ λ still_active h₅.
              after_or_raise (checked_add stream.total amount) _ _ h₅ λ total summed h₆.
                after_or_raise (checked_add (unwrap_or w.total_supply (pos 0)) amount) _ _ h₆
                  λ supply supplied h₇.
                    after_raise_if (ltb_ℤ (unwrap_or w.supply_cap i128_max) supply) _ _ h₇
                      λ capped h₈.
                        after_transfer host sender env.current_contract amount _ h₈
                          λ token tokens token_set transferred h₉.
                            let (same, left) = done-result h₉ in
                            subst (λ x. IsTopUp x w') same
                              (record {
                                stream = stream;
                                token = token;
                                supply = supply;
                                tokens = tokens;
                                authorized = authorized;
                                valid = passed_not _ valid;
                                found = found;
                                owned = passed_eq _ _ owned;
                                still_active = passed_active _ still_active;
                                summed = summed;
                                supplied = supplied;
                                capped =
                                    passed_ltb_ℤ (unwrap_or w.supply_cap i128_max) supply capped;
                                token_set = token_set;
                                transferred = transferred;
                                left = left;
                              })
