-- ===== src/Contract/Batch.antt =====
-- Opening several streams with one transfer (src/lib.rs). Each `while` loop over the request index
-- is a recursion on the requests that are left; an index is below 2 ^ 32.
pub mod Effect
pub mod Exact
pub mod Complete
pub mod Payments
pub mod Sequence
pub mod Equivalent
use stream_pay_contracts.Base.{ℕ, suc, ◌+◌, ⊤, true, false, List, [], ◌∷◌, not, leb, length, Bool}
use stream_pay_contracts.Base.Int.{ℤ, pos, ltb_ℤ, checked_add, checked_add_u64}
use stream_pay_contracts.Error.{
  Result, ok, err, invalid_amount, amount_below_minimum, invalid_time_range, end_time_in_past,
  overflow, empty_batch, ok_or,
}
use stream_pay_contracts.Constants.{is_valid_amount, min_stream_amount}
use stream_pay_contracts.Types.{Address, StreamRequest}
use stream_pay_contracts.Events.{stream_created}
use stream_pay_contracts.Host.{Env, Host}
use stream_pay_contracts.World.{Action, pure, raise_if, or_raise, ◌>>=◌, ◌>>◌}
use stream_pay_contracts.Storage.{read_counter, write_counter, write_stream, extend_instance}
use stream_pay_contracts.Contract.Calls.{require_auth, publish, transfer}
use stream_pay_contracts.Contract.Admin.{require_initialized}
use stream_pay_contracts.Contract.Create.{new_stream}

abbrev pub is_empty : List StreamRequest → Bool
is_empty [] = true
is_empty (_ ∷ _) = false

module _ {T : Type 0} where
  -- The checks of one request.
  unfoldable pub validate : ℕ → StreamRequest → Action T ⊤
  validate now request = do
    raise_if (not (is_valid_amount request.total_amount)) invalid_amount
    raise_if (ltb_ℤ request.total_amount min_stream_amount) amount_below_minimum
    raise_if (leb request.end_time request.start_time) invalid_time_range
    raise_if (leb request.end_time now) end_time_in_past

  -- The first loop: it validates, and sums the amounts.
  unfoldable pub aggregate : ℕ → ℤ → List StreamRequest → Action T ℤ
  unfolding validate
  aggregate now aggregate_amount [] = pure aggregate_amount
  aggregate now aggregate_amount (request ∷ requests) = do
    validate now request
    sum ← or_raise (checked_add aggregate_amount request.total_amount) overflow
    aggregate now sum requests

module _ {T : Type 0} (host : Host T) (env : Env) (sender : Address) where
  -- The body of the second loop.
  unfoldable pub open_stream : ℕ → StreamRequest → Action T ⊤
  open_stream id request = do
    write_stream host env id (
        new_stream sender request.recipient request.total_amount request.start_time
          request.end_time)
    publish (stream_created id sender request.recipient request.total_amount)

  -- The second loop: it stores the streams under consecutive ids, which it returns.
  unfoldable pub open_streams : ℕ → List StreamRequest → Action T (List ℕ)
  unfolding open_stream
  open_streams id [] = pure []
  open_streams id (request ∷ requests) = do
    open_stream id request
    ids ← open_streams (id + 1) requests
    pure (id ∷ ids)

  unfoldable pub create_stream_batch : List StreamRequest → Action T (List ℕ)
  unfolding aggregate open_streams
  create_stream_batch requests = do
    require_initialized
    require_auth env sender
    raise_if (is_empty requests) empty_batch
    aggregate_amount ← aggregate env.timestamp (pos 0) requests
    first_id ← read_counter
    next_counter ← or_raise (checked_add_u64 first_id (length requests)) overflow
    transfer host sender env.current_contract aggregate_amount
    ids ← open_streams first_id requests
    write_counter next_counter
    extend_instance host env
    pure ids
