-- ===== src/Contract/Batch/Complete.antt =====
-- When a batch goes through (src/lib.rs).
use stream_pay_contracts.Constants.{valid_least}
use stream_pay_contracts.Base.Int.{
  leb_no, ℤ, pos, ◌+ℤ◌, ◌≤ℤ◌, checked_add, checked_add-fits, checked_add_u64-fits, int_laws,
  add_zero, zero_add, +ℤ_assoc, i128_max, u64_max,
}
use stream_pay_contracts.Base.{
  ℕ, ◌+◌, ◌≤◌, ◌≡◌, refl, ap, ◌∙◌, length, true, false, some, List, [], ◌∷◌, arith, unwrap_or,
}
use stream_pay_contracts.Types.{Address, StreamRequest}
use stream_pay_contracts.Host.{Env, Host}
use stream_pay_contracts.Storage.{is_some, write_counter, extend_instance}
use stream_pay_contracts.Contract.Calls.{transfer}
use stream_pay_contracts.Contract.Calls.Inversion.{transfer_runs}
use stream_pay_contracts.Error.{overflow}
use stream_pay_contracts.World.{World, done, Action, pure, or_raise, ◌>>=◌, ◌>>◌}
use stream_pay_contracts.World.Inversion.{bind_runs}
use stream_pay_contracts.Contract.Batch.{
  is_empty, validate, aggregate, create_stream_batch, open_streams,
}
use stream_pay_contracts.Contract.Batch.Effect.{
  IsAccepted, AllAccepted, amounts, ids_from, store_all, finish, open_streams_lem,
}

validate_runs :
    {T : Type 0} (now : ℕ) (r : StreamRequest) (w : World T)
    → IsAccepted now r
    → validate now r w ≡ done tt w
unfolding validate
validate_runs now r w a =
    rw (a.valid, (valid_least r.total_amount a.valid).0, leb_no _ _ a.window, leb_no _ _ a.future)
      refl

-- The sum of accepted requests is not negative.
pub amounts_nonneg :
    (now : ℕ) (requests : List StreamRequest) → AllAccepted now requests → pos 0 ≤ℤ amounts requests
unfolding amounts
amounts_nonneg now [] all = omega arith
amounts_nonneg now (r ∷ requests) all =
    let first = (valid_least r.total_amount (all.0).valid).1 in
    let rest = amounts_nonneg now requests all.1 in omega int_laws

aggregate_runs :
    {T : Type 0} (now : ℕ) (acc : ℤ) (requests : List StreamRequest) (w : World T)
    → AllAccepted now requests
    → pos 0 ≤ℤ acc
    → acc +ℤ amounts requests ≤ℤ i128_max
    → aggregate now acc requests w ≡ done (acc +ℤ amounts requests) w
unfolding aggregate amounts
aggregate_runs now acc [] w all low fits = rw (add_zero acc)
aggregate_runs now acc (r ∷ requests) w all low fits =
    let least = (valid_least r.total_amount (all.0).valid).1 in
    let rest = amounts_nonneg now requests all.1 in
    let sum = acc +ℤ r.total_amount in
    bind_runs w (validate now r)
      (λ _.
        or_raise (checked_add acc r.total_amount) overflow >>= λ next. aggregate now next requests)
      (validate_runs now r w all.0)
    ∙ rw (checked_add-fits acc r.total_amount (omega int_laws)) (
        aggregate_runs now sum requests w all.1 (omega int_laws) (omega int_laws)
        ∙ ap (λ x. done x w) (+ℤ_assoc acc r.total_amount (amounts requests)))

starts_low :
    (requests : List StreamRequest)
    → amounts requests ≤ℤ i128_max
    → pos 0 +ℤ amounts requests ≤ℤ i128_max
starts_low requests h = omega int_laws

module _ {T : Type 0} (host : Host T) (env : Env) (sender : Address) where
  pub create_stream_batch_complete :
      (requests : List StreamRequest) (w : World T) (token : Address) (t : T)
      → is_some w.admin ≡ true
      → env.authorized sender ≡ true
      → is_empty requests ≡ false
      → AllAccepted env.timestamp requests
      → amounts requests ≤ℤ i128_max
      → unwrap_or w.counter 0 + length requests ≤ u64_max
      → w.token ≡ some token
      → host.transfer w.tokens token sender env.current_contract (amounts requests) ≡ some t
      → create_stream_batch host env sender requests w
        ≡ done (ids_from (unwrap_or w.counter 0) requests) (
            finish host env sender (unwrap_or w.counter 0 + length requests) (
              store_all host env sender (unwrap_or w.counter 0) requests (record w { tokens = t })))
  unfolding create_stream_batch
  create_stream_batch_complete requests w token t initialized authorized some_requests all fits room
        chosen moved =
      rw
        (
          initialized,
          authorized,
          some_requests,
          aggregate_runs env.timestamp (pos 0) requests w all (omega arith)
              (starts_low requests fits),
          zero_add (amounts requests),
          checked_add_u64-fits (unwrap_or w.counter 0) (length requests) room,
        )
        (bind_runs w (transfer host sender env.current_contract (amounts requests))
            (λ _. open_streams host env sender first requests >>= closing)
            (transfer_runs host sender env.current_contract (amounts requests) w token t chosen
              moved)
          ∙ bind_runs (record w { tokens = t }) (open_streams host env sender first requests)
              closing (open_streams_lem host env sender first requests (record w { tokens = t })))
    where
      first : ℕ
      first = unwrap_or w.counter 0

      closing : List ℕ → Action T (List ℕ)
      closing ids =
          write_counter (first + length requests) >> (extend_instance host env >> pure ids)
