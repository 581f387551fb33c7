-- ===== src/Tests/Vesting.antt =====
-- The vesting theorems on the sample stream.
use stream_pay_contracts.Tests.Sample.{half_vested, rent, rent-IsWellFormed, machine}
use stream_pay_contracts.Base.{◌≡◌, refl, ◌↔◌, arith, ◌≤◌}
use stream_pay_contracts.Base.Int.{pos, ◌+ℤ◌, ◌*ℤ◌, ◌≤ℤ◌, ◌<ℤ◌}
use stream_pay_contracts.Error.{ok, err, overflow}
use stream_pay_contracts.Vesting.{vested, withdrawable, progress_bps}
use stream_pay_contracts.Vesting.Progress.{progress_bps_bounds}
use stream_pay_contracts.Vesting.Bounds.{Overflows, vested-err_iff, vested_floor, vested_mono}

late_vested : vested rent 180 ≡ ok (pos 800)
unfolding machine
late_vested = refl

quarter_due : withdrawable rent 150 ≡ ok (pos 250)
unfolding machine
quarter_due = refl

vested-err_iff_example : (vested rent 150 ≡ err overflow) ↔ Overflows rent 150
vested-err_iff_example = vested-err_iff rent 150 rent-IsWellFormed

vested_mono_example : pos 500 ≤ℤ pos 800
vested_mono_example =
    vested_mono rent 150 180 rent-IsWellFormed (omega arith) half_vested late_vested

vested_floor_example :
    (pos 500 *ℤ pos 100 ≤ℤ pos 1000 *ℤ pos 50)
    × (pos 1000 *ℤ pos 50 <ℤ (pos 500 +ℤ pos 1) *ℤ pos 100)
unfolding machine
vested_floor_example =
    vested_floor rent 150 rent-IsWellFormed (omega arith) (omega arith) half_vested

progress_bps_bounds_example :
    (progress_bps rent 150 ≤ progress_bps rent 180)
    × (progress_bps rent 180 ≤ 10_000)
    × ((progress_bps rent 150 ≡ 10_000) ↔ (200 ≤ 150))
progress_bps_bounds_example = progress_bps_bounds rent 150 180 (omega arith) (omega arith)
