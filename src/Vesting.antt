-- ===== src/Vesting.antt =====
-- The linear vesting arithmetic of src/vesting.rs. The `u64` differences of `vested` and
-- `progress_bps` and the `u32` cast are exact: the differences are taken after a test of the order,
-- and the quotient is below 10_000.
pub mod Schedule
pub mod Bounds
pub mod Payout
pub mod Progress
pub mod Terms
pub mod Failure
use stream_pay_contracts.Base.{ℕ, ◌-◌, ◌*◌, ◌/◌, leb, if◌then◌else◌, Option, none, some}
use stream_pay_contracts.Base.Int.{ℤ, pos, ltb_ℤ, checked_sub, checked_mul, checked_div}
use stream_pay_contracts.Error.{Result, ok, overflow, ok_or, ◌>>=◌}
use stream_pay_contracts.Types.{Stream}
use stream_pay_contracts.Normalize.{clamp_to_window}

-- What `vested` does strictly inside the window.
unfoldable pub interpolate : ℤ → ℕ → ℕ → Result ℤ
interpolate total elapsed duration = do
  numerator ← ok_or (checked_mul total (pos elapsed)) overflow
  ok_or (checked_div numerator (pos duration)) overflow

unfoldable pub vested : Stream → ℕ → Result ℤ
unfolding interpolate
vested stream now =
    if leb now stream.start
    then ok (pos 0)
    else if leb stream.end now
    then ok stream.total
    else interpolate stream.total (now - stream.start) (stream.end - stream.start)

unfoldable pub unvested : Stream → ℕ → Result ℤ
unvested stream now = do v ← vested stream now; ok_or (checked_sub stream.total v) overflow

unfoldable pub withdrawable : Stream → ℕ → Result ℤ
withdrawable stream now = do
  v ← vested stream now
  available ← ok_or (checked_sub v stream.withdrawn) overflow
  ok (if ltb_ℤ (pos 0) available then available else pos 0)

-- The difference traps below zero, since overflow checks are on: here `none`.
unfoldable pub elapsed : Stream → ℕ → Option ℕ
elapsed stream now =
    let clamped = clamp_to_window stream.start stream.end now in
    if leb stream.start clamped then some (clamped - stream.start) else none

unfoldable pub progress_bps : Stream → ℕ → ℕ
progress_bps stream now =
    if leb now stream.start
    then 0
    else if leb stream.end now
    then 10_000
    else (now - stream.start) * 10_000 / (stream.end - stream.start)
