-- ===== src/Contract/Create/Effect.antt =====
-- What a creation that returns has checked and written.
use stream_pay_contracts.Host.{Env, Host}
use stream_pay_contracts.World.{World, done}
use stream_pay_contracts.World.Inversion.{after_raise_if, after_or_raise, done-result}
use stream_pay_contracts.Storage.{bump_stream_live, bump_threshold, bump_extend, is_some}
use stream_pay_contracts.Contract.Calls.Inversion.{
  after_auth, after_transfer, passed_not, passed_le, passed_ltb_ℤ,
}
use stream_pay_contracts.Base.{ℕ, ◌<◌, ◌≡◌, not, leb, true, some, [], ◌∷◌, ◌++◌, unwrap_or}
use stream_pay_contracts.Base.Int.{ℤ, pos, ◌≤ℤ◌, ltb_ℤ, checked_add, checked_add_u64, i128_max}
use stream_pay_contracts.Base.Dict.{insert}
use stream_pay_contracts.Types.{Address, Stream}
use stream_pay_contracts.Constants.{is_valid_amount, min_stream_amount}
use stream_pay_contracts.Normalize.{normalize_start_time}
use stream_pay_contracts.Events.{stream_created}
use stream_pay_contracts.Contract.Create.{new_stream, create_stream}

module _ {T : Type 0} (host : Host T) (env : Env) (sender recipient : Address) (amount : ℤ)
    (raw_start end_time : ℕ) (w : World T) where
  -- The stream that the call opens.
  abbrev pub opened : Stream
  opened =
      new_stream sender recipient amount (normalize_start_time env.timestamp raw_start) end_time

  pub record IsCreation (id : ℕ) (w' : World T) : Type 0 where
    pub token : Address
    pub supply : ℤ
    pub next : ℕ
    pub tokens : T
    pub initialized : is_some w.admin ≡ true
    pub authorized : env.authorized sender ≡ true
    pub valid : is_valid_amount amount ≡ true
    pub window : normalize_start_time env.timestamp raw_start < end_time
    pub future : env.timestamp < end_time
    pub supplied : checked_add (unwrap_or w.total_supply (pos 0)) amount ≡ some supply
    pub capped : supply ≤ℤ unwrap_or w.supply_cap i128_max
    pub token_set : w.token ≡ some token
    pub transferred : host.transfer w.tokens token sender env.current_contract amount ≡ some tokens
    pub numbered : unwrap_or w.counter 0 ≡ id
    pub counted : checked_add_u64 (unwrap_or w.counter 0) 1 ≡ some next
    pub left : w' ≡ record w {
      streams = insert (unwrap_or w.counter 0) opened w.streams;
      stream_live = bump_stream_live host env (unwrap_or w.counter 0) w.stream_live;
      instance_live = host.extend_ttl env.sequence w.instance_live bump_threshold bump_extend;
      tokens = tokens;
      counter = some next;
      total_supply = some supply;
      events = w.events ++ stream_created (unwrap_or w.counter 0) sender recipient amount ∷ [];
    }

  pub create_stream-done :
      {id : ℕ} {w' : World T}
      → create_stream host env sender recipient amount raw_start end_time w ≡ done id w'
      → IsCreation id w'
  unfolding create_stream
  create_stream-done {id} {w'} h = after_raise_if (not (is_some w.admin)) _ _ h λ initialized h₁.
      after_auth env sender _ h₁ λ authorized h₂.
        after_raise_if (not (is_valid_amount amount)) _ _ h₂ λ valid h₃.
          after_raise_if (ltb_ℤ amount min_stream_amount) _ _ h₃ λ _ h₄.
            after_raise_if (leb end_time (normalize_start_time env.timestamp raw_start)) _ _ h₄
              λ window h₅. after_raise_if (leb end_time env.timestamp) _ _ h₅ λ future h₆.
                after_or_raise (checked_add (unwrap_or w.total_supply (pos 0)) amount) _ _ h₆
                  λ supply supplied h₇.
                    after_raise_if (ltb_ℤ (unwrap_or w.supply_cap i128_max) supply) _ _ h₇
                      λ capped h₈.
                        after_transfer host sender env.current_contract amount _ h₈
                          λ token tokens token_set transferred h₉.
                            after_or_raise (checked_add_u64 (unwrap_or w.counter 0) 1) _ _ h₉
                              λ next counted h₁₀.
                                let (same, left) = done-result h₁₀ in
                                record {
                                  token = token;
                                  supply = supply;
                                  next = next;
                                  tokens = tokens;
                                  initialized = passed_not _ initialized;
                                  authorized = authorized;
                                  valid = passed_not _ valid;
                                  window = passed_le _ _ window;
                                  future = passed_le _ _ future;
                                  supplied = supplied;
                                  capped =
                                      passed_ltb_ℤ (unwrap_or w.supply_cap i128_max) supply capped;
                                  token_set = token_set;
                                  transferred = transferred;
                                  numbered = same;
                                  counted = counted;
                                  left = left;
                                }
