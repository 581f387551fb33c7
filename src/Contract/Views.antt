-- ===== src/Contract/Views.antt =====
-- The views of one stream (src/lib.rs). A view returns in the monad and changes nothing.
pub mod Agreement
use stream_pay_contracts.Base.{ℕ, ◌-◌, ◌^◌, ◌%◌, Bool, leb, if◌then◌else◌}
use stream_pay_contracts.Base.Int.{ℤ, pos, pos_part, neg_part, leb_ℤ, checked_mul, ◌/ℤ◌}
use stream_pay_contracts.Error.{stream_not_found, overflow}
use stream_pay_contracts.Types.{Stream, StreamSummary, Status, is_status_active}
use stream_pay_contracts.Vesting
use stream_pay_contracts.Host.{Env}
use stream_pay_contracts.World.{Action, pure, panic, try, or_raise, unwrap, ◌>>=◌}
use stream_pay_contracts.Storage.{read_stream}

-- `as u32` keeps the low 32 bits of the two's complement.
unfoldable pub as_u32 : ℤ → ℕ
as_u32 a = if leb_ℤ (pos 0) a then pos_part a % 2 ^ 32 else 2 ^ 32 - 1 - (neg_part a - 1) % 2 ^ 32

module _ {T : Type 0} where
  unfoldable pub get_stream : ℕ → Action T Stream
  get_stream id = do or_raise (← read_stream id) stream_not_found

  unfoldable pub get_status : ℕ → Action T Status
  unfolding get_stream
  get_status id = do stream ← get_stream id; pure stream.status

  unfoldable pub is_active : ℕ → Action T Bool
  unfolding get_stream
  is_active id = do stream ← get_stream id; pure (is_status_active stream.status)

  -- `stream.end - stream.start` traps below zero, since overflow checks are on.
  unfoldable pub duration : ℕ → Action T ℕ
  unfolding get_stream
  duration id = do
    stream ← get_stream id
    if leb stream.start stream.end then pure (stream.end - stream.start) else panic

  -- The share withdrawn of a positive total, in basis points.
  unfoldable pub withdrawn_bps : Stream → Action T ℕ
  withdrawn_bps stream = do
    scaled ← or_raise (checked_mul stream.withdrawn (pos 10_000)) overflow
    pure (as_u32 (scaled /ℤ stream.total))

  unfoldable pub percent_withdrawn : ℕ → Action T ℕ
  unfolding get_stream withdrawn_bps
  percent_withdrawn id = do
    stream ← get_stream id
    if leb_ℤ stream.total (pos 0) then pure 0 else withdrawn_bps stream

module _ {T : Type 0} (env : Env) where
  unfoldable pub elapsed : ℕ → Action T ℕ
  unfolding get_stream
  elapsed id = do stream ← get_stream id; unwrap (Vesting.elapsed stream env.timestamp)

  unfoldable pub streamed_amount : ℕ → Action T ℤ
  unfolding get_stream
  streamed_amount id = do stream ← get_stream id; try (Vesting.vested stream env.timestamp)

  unfoldable pub progress_bps : ℕ → Action T ℕ
  unfolding get_stream
  progress_bps id = do stream ← get_stream id; pure (Vesting.progress_bps stream env.timestamp)

  unfoldable pub remaining_amount : ℕ → Action T ℤ
  unfolding get_stream
  remaining_amount id = do stream ← get_stream id; try (Vesting.unvested stream env.timestamp)

  unfoldable pub withdrawable_amount : ℕ → Action T ℤ
  unfolding get_stream
  withdrawable_amount id = do
    stream ← get_stream id
    try (Vesting.withdrawable stream env.timestamp)

  unfoldable pub get_summary : ℕ → Action T StreamSummary
  unfolding get_stream
  get_summary id = do
    stream ← get_stream id
    vested ← try (Vesting.vested stream env.timestamp)
    withdrawable ← try (Vesting.withdrawable stream env.timestamp)
    pure (record {
      total = stream.total;
      vested = vested;
      withdrawn = stream.withdrawn;
      withdrawable = withdrawable;
      progress_bps = Vesting.progress_bps stream env.timestamp;
      status = stream.status;
    })
