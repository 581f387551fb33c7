-- ===== src/Trace/Errors/EntryPoints.antt =====
-- The entry points of streams that return an error (src/lib.rs).
use stream_pay_contracts.Base.{
  ℕ, ◌≡◌, refl, sym, ◌∙◌, List, [], ◌∷◌, arith, unwrap_or, ◌<◌, not, ◌==◌, leb, ◌&&◌, Bool-cases,
  inl, inr, subst, length,
}
use stream_pay_contracts.Base.Int.{
  ℤ, pos, ltb_ℤ, leb_ℤ, checked_add, checked_sub, checked_add_u64, checked_add_u64-fits, i128_max,
  u64_max,
}
use stream_pay_contracts.Types.{
  Address, StreamRequest, is_status_active, is_status_cancelled, is_status_completed,
}
use stream_pay_contracts.Host.{Env, Host}
use stream_pay_contracts.World.{World, Outcome, done, fail, trap, Action, ◌>>◌, ◌>>=◌, continue}
use stream_pay_contracts.Contract.Create
use stream_pay_contracts.Contract.Create.{new_stream}
use stream_pay_contracts.Contract.Batch
use stream_pay_contracts.Contract.TopUp
use stream_pay_contracts.Contract.Extend
use stream_pay_contracts.Contract.Withdraw
use stream_pay_contracts.Contract.Withdraw.{pay_out}
use stream_pay_contracts.Contract.Cancel
use stream_pay_contracts.Base.Dict.{lookup}
use stream_pay_contracts.Error.{Error}
use stream_pay_contracts.Vesting.{vested, unvested, withdrawable}
use stream_pay_contracts.World.Failure.{
  past_raise_if, past_inner_raise_if, past_or_raise, past_try, past_unwrap,
}
use stream_pay_contracts.Contract.Calls.Failure.{past_auth, past_transfer}
use stream_pay_contracts.Contract.Cancel.{transfer_if_positive}
use stream_pay_contracts.Storage.{is_some}
use stream_pay_contracts.World.Inversion.{bind_runs}
use stream_pay_contracts.Contract.Batch.{is_empty}
use stream_pay_contracts.Contract.Batch.Effect.{aggregate-done, open_streams_lem}
use stream_pay_contracts.Constants.{is_valid_amount, min_stream_amount}
use stream_pay_contracts.Normalize.{normalize_start_time}

module _ {ℓ} {C : Type ℓ} {T B : Type 0} (w : World T) {w' : World T} {x : Error} where
  pub past_transfer_if_positive :
      (host : Host T) (from to : Address) (amount : ℤ) (k : Action T B)
      → (transfer_if_positive host from to amount >> k) w ≡ fail x w'
      → ((t : T) → k (record w { tokens = t }) ≡ fail x w' → C)
      → C
  unfolding transfer_if_positive
  past_transfer_if_positive host from to amount k h f = elim (Bool-cases (ltb_ℤ (pos 0) amount)) [
    | inl positive ↦ past_transfer w host from to amount k (rw positive at h) f
    | inr negative ↦ f w.tokens (rw negative at h)
  ]

pub no_failure : {C T A : Type 0} {a : A} {w w' : World T} {x : Error} → done a w ≡ fail x w' → C
no_failure h = cc

fail-same :
    {T A : Type 0} {x e : Error} {w w' : World T}
    → ◌≡◌ {A = Outcome T A} (fail x w) (fail e w')
    → w' ≡ w
fail-same h = cc

module _ {T : Type 0} {w' : World T} {x : Error} where
  -- The first loop of a batch writes nothing.
  aggregate_fails :
      (now : ℕ) (acc : ℤ) (requests : List StreamRequest) (w : World T)
      → Batch.aggregate now acc requests w ≡ fail x w'
      → w' ≡ w
  unfolding Batch.aggregate Batch.validate
  aggregate_fails now acc [] w h = cc
  aggregate_fails now acc (r ∷ requests) w h =
      past_inner_raise_if (not (is_valid_amount r.total_amount)) _ _ _ h λ h₁.
        past_inner_raise_if (ltb_ℤ r.total_amount min_stream_amount) _ _ _ h₁ λ h₂.
          past_inner_raise_if (leb r.end_time r.start_time) _ _ _ h₂ λ h₃.
            past_raise_if (leb r.end_time now) _ _ h₃ λ _ h₄.
              past_or_raise (checked_add acc r.total_amount) _ _ h₄
                λ sum _ h₅. aggregate_fails now sum requests w h₅

  -- An action that leaves the world alone, and the rest.
  past_reading :
      {A B : Type 0} (w : World T) (m : Action T A) (k : A → Action T B)
      → (m >>= k) w ≡ fail x w'
      → ((e : Error) (v : World T) → m w ≡ fail e v → v ≡ w)
      → ((a : A) (v : World T) → m w ≡ done a v → v ≡ w)
      → ((a : A) → k a w ≡ fail x w' → w' ≡ w)
      → w' ≡ w
  past_reading {A} w m k h failed returned f = by_case (m w) refl h
    where
      by_case : (o : Outcome T A) → m w ≡ o → continue o k ≡ fail x w' → w' ≡ w
      by_case (done a v) e h = f a (subst (λ u. k a u ≡ fail x w') (returned a v e) h)
      by_case (fail y v) e h = fail-same h ∙ failed y v e
      by_case trap e h = cc

module _ {T : Type 0} (host : Host T) (env : Env) (w : World T) {w' : World T} {x : Error} where
  pub withdraw_fails :
      (id : ℕ) (recipient : Address)
      → Withdraw.withdraw host env id recipient w ≡ fail x w'
      → w' ≡ w
  unfolding Withdraw.withdraw
  withdraw_fails id recipient h = past_auth env recipient _ h λ h₁.
      past_or_raise (lookup id w.streams) _ _ h₁ λ stream found h₂.
        past_raise_if (not (stream.recipient == recipient)) _ _ h₂ λ _ h₃.
          past_raise_if (is_status_cancelled stream.status) _ _ h₃ λ _ h₄.
            past_raise_if (is_status_completed stream.status) _ _ h₄ λ _ h₅.
              past_try (withdrawable stream env.timestamp) _ h₅ λ available _ h₆.
                past_raise_if (leb_ℤ available (pos 0)) _ _ h₆ λ _ h₇.
                  past_or_raise (checked_add stream.withdrawn available) _ _ h₇ λ withdrawn _ h₈.
                    past_transfer _ host env.current_contract recipient available _ h₈ λ t h₉. cc

  pub cancel_fails :
      (id : ℕ) (caller : Address) → Cancel.cancel host env id caller w ≡ fail x w' → w' ≡ w
  unfolding Cancel.cancel
  cancel_fails id caller h = past_auth env caller _ h λ h₁.
      past_or_raise (lookup id w.streams) _ _ h₁ λ stream found h₂.
        past_raise_if (not (caller == stream.sender) && not (caller == stream.recipient)) _ _ h₂
          λ _ h₃. past_raise_if (is_status_cancelled stream.status) _ _ h₃ λ _ h₄.
            past_try (vested stream env.timestamp) _ h₄ λ v _ h₅.
              past_or_raise (checked_sub v stream.withdrawn) _ _ h₅ λ paid _ h₆.
                past_try (unvested stream env.timestamp) _ h₆ λ refund _ h₇.
                  past_unwrap w.token _ h₇ λ token h₈.
                    past_transfer_if_positive _ host env.current_contract stream.recipient paid _ h₈
                      λ t h₉.
                        past_transfer_if_positive _ host env.current_contract stream.sender refund _
                          h₉ λ t' h₁₀. cc

  pub top_up_fails :
      (id : ℕ) (sender : Address) (amount : ℤ)
      → TopUp.top_up host env id sender amount w ≡ fail x w'
      → w' ≡ w
  unfolding TopUp.top_up
  top_up_fails id sender amount h = past_auth env sender _ h λ h₁.
      past_raise_if (not (is_valid_amount amount)) _ _ h₁ λ _ h₂.
        past_or_raise (lookup id w.streams) _ _ h₂ λ stream _ h₃.
          past_raise_if (not (sender == stream.sender)) _ _ h₃ λ _ h₄.
            past_raise_if (not (is_status_active stream.status)) _ _ h₄ λ _ h₅.
              past_or_raise (checked_add stream.total amount) _ _ h₅ λ total _ h₆.
                past_or_raise (checked_add (unwrap_or w.total_supply (pos 0)) amount) _ _ h₆
                  λ supply _ h₇.
                    past_raise_if (ltb_ℤ (unwrap_or w.supply_cap i128_max) supply) _ _ h₇ λ _ h₈.
                      past_transfer _ host sender env.current_contract amount _ h₈ λ t h₉. cc

  pub extend_stream_fails :
      (id : ℕ) (sender : Address) (new_end : ℕ)
      → Extend.extend_stream host env id sender new_end w ≡ fail x w'
      → w' ≡ w
  unfolding Extend.extend_stream
  extend_stream_fails id sender new_end h = past_auth env sender _ h λ h₁.
      past_or_raise (lookup id w.streams) _ _ h₁ λ stream _ h₂.
        past_raise_if (not (sender == stream.sender)) _ _ h₂ λ _ h₃.
          past_raise_if (not (is_status_active stream.status)) _ _ h₃
            λ _ h₄. past_raise_if (leb new_end stream.end) _ _ h₄ λ _ h₅. cc

  pub create_stream_fails :
      (sender recipient : Address) (amount : ℤ) (raw_start end_time : ℕ)
      → unwrap_or w.counter 0 < u64_max
      → Create.create_stream host env sender recipient amount raw_start end_time w ≡ fail x w'
      → w' ≡ w
  unfolding Create.create_stream
  create_stream_fails sender recipient amount raw_start end_time room h =
      past_raise_if (not (is_some w.admin)) _ _ h λ _ h₁. past_auth env sender _ h₁ λ h₂.
        past_raise_if (not (is_valid_amount amount)) _ _ h₂ λ _ h₃.
          past_raise_if (ltb_ℤ amount min_stream_amount) _ _ h₃ λ _ h₄.
            past_raise_if (leb end_time (normalize_start_time env.timestamp raw_start)) _ _ h₄
              λ _ h₅. past_raise_if (leb end_time env.timestamp) _ _ h₅ λ _ h₆.
                past_or_raise (checked_add (unwrap_or w.total_supply (pos 0)) amount) _ _ h₆
                  λ supply _ h₇.
                    past_raise_if (ltb_ℤ (unwrap_or w.supply_cap i128_max) supply) _ _ h₇ λ _ h₈.
                      past_transfer _ host sender env.current_contract amount _ h₈ λ t h₉.
                        no_failure (
                          rw (checked_add_u64-fits (unwrap_or w.counter 0) 1 (omega (arith, room)))
                            at h₉)

  pub create_stream_batch_fails :
      (sender : Address) (requests : List StreamRequest)
      → Batch.create_stream_batch host env sender requests w ≡ fail x w'
      → w' ≡ w
  unfolding Batch.create_stream_batch
  create_stream_batch_fails sender requests h = past_raise_if (not (is_some w.admin)) _ _ h λ _ h₁.
      past_auth env sender _ h₁ λ h₂. past_raise_if (is_empty requests) _ _ h₂ λ _ h₃.
        past_reading w (Batch.aggregate env.timestamp (pos 0) requests) _ h₃
          (λ e v. aggregate_fails env.timestamp (pos 0) requests w)
          (λ sum v e. (aggregate-done env.timestamp (pos 0) requests e (omega arith)).3)
          λ sum h₄.
            past_or_raise (checked_add_u64 (unwrap_or w.counter 0) (length requests)) _ _ h₄
              λ next _ h₅. past_transfer _ host sender env.current_contract sum _ h₅ λ t h₆.
                no_failure (
                  sym (
                    bind_runs (record w { tokens = t })
                      (Batch.open_streams host env sender (unwrap_or w.counter 0) requests) _
                      (open_streams_lem host env sender (unwrap_or w.counter 0) requests
                        (record w { tokens = t })))
                  ∙ h₆)
