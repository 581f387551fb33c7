-- ===== src/Contract/Batch/Effect.antt =====
-- What a batch that returns has checked and written: the first loop only validates and sums, and
-- the second stores every request under the next id.
use stream_pay_contracts.Host.{Env, Host}
use stream_pay_contracts.World.{World, done, Action, ◌>>=◌, ◌>>◌}
use stream_pay_contracts.World.Inversion.{
  after_inner_raise_if, after_any, after_raise_if, after_or_raise, done-result,
}
use stream_pay_contracts.Storage.{bump_stream_live, bump_threshold, bump_extend, is_some}
use stream_pay_contracts.Contract.Calls.Inversion.{
  after_auth, after_transfer, passed_not, passed_le,
}
use stream_pay_contracts.Base.{
  ℕ, ◌+◌, ◌<◌, ◌≡◌, refl, sym, ap, ◌∙◌, subst, not, leb, true, false, some, List, [], ◌∷◌, ◌++◌,
  unwrap_or, length, arith,
}
use stream_pay_contracts.Base.Int.{
  ℤ, pos, ◌+ℤ◌, ◌≤ℤ◌, i128_max, ltb_ℤ, checked_add, checked_add-some, add_zero, zero_add, +ℤ_assoc,
  checked_add_u64,
}
use stream_pay_contracts.Base.Dict.{insert}
use stream_pay_contracts.Types.{Address, StreamRequest}
use stream_pay_contracts.Constants.{is_valid_amount, min_stream_amount}
use stream_pay_contracts.Events.{stream_created}
use stream_pay_contracts.Contract.Create.{new_stream}
use stream_pay_contracts.Contract.Batch.{
  is_empty, validate, aggregate, open_streams, create_stream_batch,
}

-- What the loop checks of a request.
pub record IsAccepted (now : ℕ) (request : StreamRequest) : Type 0 where
  pub valid : is_valid_amount request.total_amount ≡ true
  pub window : request.start_time < request.end_time
  pub future : now < request.end_time

abbrev pub AllAccepted : ℕ → List StreamRequest → Type 0
AllAccepted now [] = Unit
AllAccepted now (r ∷ requests) = IsAccepted now r × AllAccepted now requests

-- The sum of the amounts.
unfoldable pub amounts : List StreamRequest → ℤ
amounts [] = pos 0
amounts (r ∷ requests) = r.total_amount +ℤ amounts requests

-- The ids that a batch returns.
unfoldable pub ids_from : ℕ → List StreamRequest → List ℕ
ids_from id [] = []
ids_from id (_ ∷ requests) = id ∷ ids_from (id + 1) requests

module _ {ℓ} {C : Type ℓ} {T B : Type 0} {w w' : World T} {b : B} where
  after_validate :
      (now : ℕ) (r : StreamRequest) (k : Action T B)
      → (validate now r >> k) w ≡ done b w'
      → (IsAccepted now r → k w ≡ done b w' → C)
      → C
  unfolding validate
  after_validate now r k h f =
      after_inner_raise_if w (not (is_valid_amount r.total_amount)) _ _ k h λ valid h₁.
        after_inner_raise_if w (ltb_ℤ r.total_amount min_stream_amount) _ _ k h₁ λ _ h₂.
          after_inner_raise_if w (leb r.end_time r.start_time) _ _ k h₂ λ window h₃.
            after_raise_if (leb r.end_time now) _ k h₃ λ future h₄.
              f
                (record {
                  valid = passed_not _ valid;
                  window = passed_le _ _ window;
                  future = passed_le _ _ future;
                })
                h₄

module _ {T : Type 0} where
  -- A first loop that returns has accepted every request, summed the amounts, and written nothing.
  pub aggregate-done :
      (now : ℕ) (acc : ℤ) (requests : List StreamRequest) {w w' : World T} {sum : ℤ}
      → aggregate now acc requests w ≡ done sum w'
      → acc ≤ℤ i128_max
      → AllAccepted now requests × (sum ≡ acc +ℤ amounts requests) × (sum ≤ℤ i128_max) × (w' ≡ w)
  unfolding aggregate amounts
  aggregate-done now acc [] h low =
      let (same, left) = done-result h in
      (tt, sym same ∙ sym (add_zero acc), subst (λ x. x ≤ℤ i128_max) same low, left)
  aggregate-done now acc (r ∷ requests) {w} {w'} {sum} h low =
      after_validate now r _ h λ accepted h₁.
        after_or_raise (checked_add acc r.total_amount) _ _ h₁ λ next summed h₂.
          let (next_eq, next_fits) = checked_add-some acc r.total_amount next summed in
          let (all, total, fits, left) =
            aggregate-done now next requests h₂
              (subst (λ x. x ≤ℤ i128_max) (sym next_eq) next_fits.1) in
          (
            (accepted, all),
            total
                ∙ ap (λ x. x +ℤ amounts requests) next_eq
                ∙ +ℤ_assoc acc r.total_amount (amounts requests),
            fits,
            left,
          )

module _ {ℓ} {C : Type ℓ} {T B : Type 0} {w w' : World T} {b : B} where
  after_aggregate :
      (now : ℕ) (requests : List StreamRequest) (k : ℤ → Action T B)
      → (aggregate now (pos 0) requests >>= k) w ≡ done b w'
      → ((sum : ℤ)
          → AllAccepted now requests
          → sum ≡ amounts requests
          → sum ≤ℤ i128_max
          → k sum w ≡ done b w'
          → C)
      → C
  after_aggregate now requests k h f =
      after_any (aggregate now (pos 0) requests) k h λ sum w₁ returned h₁.
        let (accepted, total, fits, same) =
          aggregate-done now (pos 0) requests returned (omega arith) in
        f sum accepted (total ∙ zero_add (amounts requests)) fits
          (subst (λ v. k sum v ≡ done b w') same h₁)

module _ {T : Type 0} (host : Host T) (env : Env) (sender : Address) where
  -- The world after one request is stored, and after all are.
  unfoldable pub store_one : ℕ → StreamRequest → World T → World T
  store_one id r w = record w {
    streams =
        insert id (new_stream sender r.recipient r.total_amount r.start_time r.end_time) w.streams;
    stream_live = bump_stream_live host env id w.stream_live;
    events = w.events ++ stream_created id sender r.recipient r.total_amount ∷ [];
  }

  unfoldable pub store_all : ℕ → List StreamRequest → World T → World T
  store_all id [] w = w
  store_all id (r ∷ requests) w = store_all (id + 1) requests (store_one id r w)

  -- Storing changes streams, their lives and the events, and nothing else.
  pub store_all-frame :
      (id : ℕ) (requests : List StreamRequest) (w : World T)
      → let stored = store_all id requests w in
        stored ≡ record w {
          streams = stored.streams;
          stream_live = stored.stream_live;
          events = stored.events;
        }
  unfolding store_all store_one
  store_all-frame id [] w = refl
  store_all-frame id (r ∷ requests) w =
      let frame = store_all-frame (id + 1) requests (store_one id r w) in frame

  -- The second loop always returns, with consecutive ids and every request stored.
  pub open_streams_lem :
      (id : ℕ) (requests : List StreamRequest) (w : World T)
      → open_streams host env sender id requests w
        ≡ done (ids_from id requests) (store_all id requests w)
  unfolding open_streams store_all store_one ids_from
  open_streams_lem id [] w = refl
  open_streams_lem id (r ∷ requests) w = rw (open_streams_lem (id + 1) requests (store_one id r w))

  -- The writes after the second loop.
  abbrev pub finish : ℕ → World T → World T
  finish next stored = record stored {
    counter = some next;
    instance_live = host.extend_ttl env.sequence stored.instance_live bump_threshold bump_extend;
  }

  pub record IsBatch (requests : List StreamRequest) (w : World T) (ids : List ℕ) (w' : World T)
      : Type 0 where
    pub token : Address
    pub sum : ℤ
    pub next : ℕ
    pub tokens : T
    pub initialized : is_some w.admin ≡ true
    pub authorized : env.authorized sender ≡ true
    pub not_empty : is_empty requests ≡ false
    pub accepted : AllAccepted env.timestamp requests
    pub summed : sum ≡ amounts requests
    pub sum_fits : sum ≤ℤ i128_max
    pub counted : checked_add_u64 (unwrap_or w.counter 0) (length requests) ≡ some next
    pub token_set : w.token ≡ some token
    pub transferred : host.transfer w.tokens token sender env.current_contract sum ≡ some tokens
    pub numbered : ids ≡ ids_from (unwrap_or w.counter 0) requests
    pub left :
        w' ≡ finish next (store_all (unwrap_or w.counter 0) requests (record w { tokens = tokens }))

  pub create_stream_batch-done :
      {requests : List StreamRequest} {w w' : World T} {ids : List ℕ}
      → create_stream_batch host env sender requests w ≡ done ids w'
      → IsBatch requests w ids w'
  unfolding create_stream_batch
  create_stream_batch-done {requests} {w} {w'} {ids} h =
      after_raise_if (not (is_some w.admin)) _ _ h λ initialized h₁.
        after_auth env sender _ h₁ λ authorized h₂.
          after_raise_if (is_empty requests) _ _ h₂ λ not_empty h₃.
            after_aggregate env.timestamp requests _ h₃ λ sum accepted summed sum_fits h₄.
              after_or_raise (checked_add_u64 (unwrap_or w.counter 0) (length requests)) _ _ h₄
                λ next counted h₅.
                  after_transfer host sender env.current_contract sum _ h₅
                    λ token tokens token_set transferred h₆.
                      after_any (open_streams host env sender (unwrap_or w.counter 0) requests) _ h₆
                        λ opened w₂ returned h₇.
                          let (ids_eq, stored) = done-result (
                            sym (
                              open_streams_lem (unwrap_or w.counter 0) requests
                                (record w { tokens = tokens }))
                            ∙ returned) in
                          let (same, left) = done-result h₇ in
                          record {
                            token = token;
                            sum = sum;
                            next = next;
                            tokens = tokens;
                            initialized = passed_not _ initialized;
                            authorized = authorized;
                            not_empty = not_empty;
                            accepted = accepted;
                            summed = summed;
                            sum_fits = sum_fits;
                            counted = counted;
                            token_set = token_set;
                            transferred = transferred;
                            numbered = sym same ∙ sym ids_eq;
                            left = left ∙ ap (finish next) stored;
                          }
