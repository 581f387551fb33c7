-- ===== src/Trace/Causes/Opening.antt =====
-- Why the opening of a stream fails, and that of a batch (src/lib.rs).
use stream_pay_contracts.Base.{
  ℕ, ◌≤◌, ◌≡◌, refl, sym, ◌∙◌, subst, true, arith, List, [], ◌∷◌, length, not, leb, inl, inr,
  unwrap_or, ◌+◌, ◌<◌,
}
use stream_pay_contracts.Base.Int.{
  ℤ, pos, ◌+ℤ◌, ◌≤ℤ◌, ltb_ℤ, checked_add, checked_add_u64, checked_add-some, u64_max,
}
use stream_pay_contracts.Constants.{is_valid_amount, min_stream_amount}
use stream_pay_contracts.Error.{
  Error, invalid_amount, invalid_time_range, overflow, end_time_in_past,
}
use stream_pay_contracts.Types.{Address, StreamRequest}
use stream_pay_contracts.Host.{Env, Host}
use stream_pay_contracts.World.{World, fail}
use stream_pay_contracts.World.Inversion.{bind_runs}
use stream_pay_contracts.World.Failure.{
  blame_raise_if, blame_inner_raise_if, blame_or_raise, blame_reading,
}
use stream_pay_contracts.Storage.{is_some}
use stream_pay_contracts.Contract.Calls.Failure.{
  past_auth, past_transfer, failed_set, failed_valid, failed_least, failed_after, failed_sum,
  failed_count, failed_below,
}
use stream_pay_contracts.Contract.Batch
use stream_pay_contracts.Contract.Batch.{is_empty}
use stream_pay_contracts.Contract.Batch.Effect.{aggregate-done, open_streams_lem}
use stream_pay_contracts.Trace.{create_stream_batch, create_stream}
use stream_pay_contracts.Trace.Errors.EntryPoints.{no_failure}
use stream_pay_contracts.Trace.Causes.{IsCause, SomeRequest, Overruns, exceeds}
use stream_pay_contracts.Normalize.{normalize_start_time}
use stream_pay_contracts.Contract.Create
use stream_pay_contracts.Invariant.{supply}
use stream_pay_contracts.Trace.Ranges.{cap}

full : (n : ℕ) → u64_max < n + 1 → u64_max ≤ n
full n h = omega (arith, h)

module _ {T : Type 0} (host : Host T) (env : Env) (w : World T) {w' : World T} {x : Error} where
  pub create_stream-IsCause :
      (sender recipient : Address) (amount : ℤ) (raw_start end_time : ℕ)
      → Create.create_stream host env sender recipient amount raw_start end_time w ≡ fail x w'
      → IsCause env w (create_stream sender recipient amount raw_start end_time) x
  unfolding Create.create_stream
  create_stream-IsCause sender recipient amount raw_start end_time h =
      let P = IsCause env w (create_stream sender recipient amount raw_start end_time) in
      let start_time = normalize_start_time env.timestamp raw_start in
      blame_raise_if P (not (is_some w.admin)) _ _ h (failed_set w.admin) λ _ h₁.
        past_auth env sender _ h₁ λ h₂.
          blame_raise_if P (not (is_valid_amount amount)) _ _ h₂ (failed_valid amount) λ good h₃.
            blame_raise_if P (ltb_ℤ amount min_stream_amount) _ _ h₃ (failed_least amount good)
              λ _ h₄. blame_raise_if P (leb end_time start_time) _ _ h₄ (failed_after _ _) λ _ h₅.
                blame_raise_if P (leb end_time env.timestamp) _ _ h₅ (failed_after _ _) λ _ h₆.
                  blame_or_raise P (checked_add (supply w) amount) _ _ h₆
                    (λ over. inl (failed_sum (supply w) amount over))
                    λ new_supply summed h₇.
                      blame_raise_if P (ltb_ℤ (cap w) new_supply) _ _ h₇
                        (λ over.
                          exceeds (cap w) (supply w) amount new_supply
                            (checked_add-some _ _ _ summed).0
                            (failed_below (cap w) new_supply over))
                        λ _ h₈. past_transfer _ host sender env.current_contract amount _ h₈ λ t h₉.
                          blame_or_raise P (checked_add_u64 (unwrap_or w.counter 0) 1) _ _ h₉
                            (λ over. inr (full _ (failed_count _ _ over))) λ next _ h₁₀. cc

-- The errors of the first loop, from a sum on.
abbrev LoopCause : ℕ → ℤ → List StreamRequest → Error → Type 0
LoopCause now acc requests invalid_amount = SomeRequest (λ r. r.total_amount ≤ℤ pos 0) requests
LoopCause now acc requests invalid_time_range =
    SomeRequest (λ r. r.end_time ≤ r.start_time) requests
LoopCause now acc requests end_time_in_past = SomeRequest (λ r. r.end_time ≤ now) requests
LoopCause now acc requests overflow = Overruns acc requests
LoopCause now acc requests _ = ⊥

-- A later request's errors are the batch's.
LoopCause-later :
    (now : ℕ) (acc : ℤ) (r : StreamRequest) (requests : List StreamRequest) (x : Error)
    → LoopCause now (acc +ℤ r.total_amount) requests x
    → LoopCause now acc (r ∷ requests) x
LoopCause-later now acc r requests invalid_amount h = inr h
LoopCause-later now acc r requests invalid_time_range h = inr h
LoopCause-later now acc r requests end_time_in_past h = inr h
LoopCause-later now acc r requests overflow h = inr h
LoopCause-later now acc r requests _ h = absurd h

aggregate-LoopCause :
    {T : Type 0} (now : ℕ) (acc : ℤ) (requests : List StreamRequest) (w : World T) {w' : World T}
    {x : Error}
    → Batch.aggregate now acc requests w ≡ fail x w'
    → LoopCause now acc requests x
unfolding Batch.aggregate Batch.validate
aggregate-LoopCause now acc [] w h = cc
aggregate-LoopCause now acc (r ∷ requests) w {w'} {x} h =
    let P = LoopCause now acc (r ∷ requests) in
    blame_inner_raise_if P w (not (is_valid_amount r.total_amount)) _ _ _ h
      (λ bad. inl (failed_valid r.total_amount bad))
      λ good h₁.
        blame_inner_raise_if P w (ltb_ℤ r.total_amount min_stream_amount) _ _ _ h₁
          (failed_least r.total_amount good)
          λ _ h₂.
            blame_inner_raise_if P w (leb r.end_time r.start_time) _ _ _ h₂
              (λ bad. inl (failed_after r.end_time r.start_time bad))
              λ _ h₃.
                blame_raise_if P (leb r.end_time now) _ _ h₃
                  (λ bad. inl (failed_after r.end_time now bad))
                  λ _ h₄.
                    blame_or_raise P (checked_add acc r.total_amount) _ _ h₄
                      (λ over. inl (failed_sum acc r.total_amount over))
                      λ next summed h₅.
                        let next_eq = (checked_add-some acc r.total_amount next summed).0 in
                        LoopCause-later now acc r requests x (
                          subst (λ n. LoopCause now n requests x) next_eq
                            (aggregate-LoopCause now next requests w h₅))

is_empty_nil : (requests : List StreamRequest) → is_empty requests ≡ true → requests ≡ []
is_empty_nil [] h = refl
is_empty_nil (r ∷ requests) h = cc

module _ {T : Type 0} (env : Env) (w : World T) where
  LoopCause-IsCause :
      (sender : Address) (requests : List StreamRequest) (e : Error)
      → LoopCause env.timestamp (pos 0) requests e
      → IsCause env w (create_stream_batch sender requests) e
  LoopCause-IsCause sender requests invalid_amount h = h
  LoopCause-IsCause sender requests invalid_time_range h = h
  LoopCause-IsCause sender requests end_time_in_past h = h
  LoopCause-IsCause sender requests overflow h = inl h
  LoopCause-IsCause sender requests _ h = absurd h

module _ {T : Type 0} (host : Host T) (env : Env) (w : World T) {w' : World T} {x : Error} where
  pub create_stream_batch-IsCause :
      (sender : Address) (requests : List StreamRequest)
      → Batch.create_stream_batch host env sender requests w ≡ fail x w'
      → IsCause env w (create_stream_batch sender requests) x
  unfolding Batch.create_stream_batch
  create_stream_batch-IsCause sender requests h =
      let P = IsCause env w (create_stream_batch sender requests) in
      let first = unwrap_or w.counter 0 in
      blame_raise_if P (not (is_some w.admin)) _ _ h (failed_set w.admin) λ _ h₁.
        past_auth env sender _ h₁ λ h₂.
          blame_raise_if P (is_empty requests) _ _ h₂ (is_empty_nil requests) λ _ h₃.
            blame_reading P (Batch.aggregate env.timestamp (pos 0) requests) _ h₃
              (λ e v failed.
                LoopCause-IsCause env w sender requests e
                  (aggregate-LoopCause env.timestamp (pos 0) requests w failed))
              (λ sum v e. (aggregate-done env.timestamp (pos 0) requests e (omega arith)).3)
              λ sum h₄.
                blame_or_raise P (checked_add_u64 first (length requests)) _ _ h₄
                  (λ over. inr (failed_count first (length requests) over))
                  λ next _ h₅. past_transfer _ host sender env.current_contract sum _ h₅ λ t h₆.
                    no_failure (
                      sym (
                        bind_runs (record w { tokens = t })
                          (Batch.open_streams host env sender first requests) _
                          (open_streams_lem host env sender first requests
                            (record w { tokens = t })))
                      ∙ h₆)
