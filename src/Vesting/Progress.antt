-- ===== src/Vesting/Progress.antt =====
-- The progress that a stream reports, in basis points and in seconds.
use stream_pay_contracts.Base.{ℕ, ◌-◌, ◌≤◌, ◌<◌, ◌≡◌, ◌↔◌, arith, some}
use stream_pay_contracts.Types.{Stream}
use stream_pay_contracts.Normalize.{clamp_to_window}
use stream_pay_contracts.Vesting.{elapsed, progress_bps}
use stream_pay_contracts.Vesting.Schedule.{linear, linear-le, linear-lt, linear_mono}

-- Progress is the linear schedule of 10_000.
progress_bps-linear : (s : Stream) (now : ℕ) → progress_bps s now ≡ linear 10_000 s.start s.end now
unfolding progress_bps linear
progress_bps-linear s now = ground arith

-- For a window that is not empty, the progress never falls as time goes on, is at most 10_000 basis
-- points, and is 10_000 exactly from the end of the window on.
pub progress_bps_bounds :
    (s : Stream) (now later : ℕ)
    → s.start < s.end
    → now ≤ later
    → (progress_bps s now ≤ progress_bps s later)
      × (progress_bps s later ≤ 10_000)
      × ((progress_bps s now ≡ 10_000) ↔ (s.end ≤ now))
unfolding linear
progress_bps_bounds s now later window le =
    rw (progress_bps-linear s now, progress_bps-linear s later)
      (
        linear_mono 10_000 s.start s.end now later window le,
        linear-le 10_000 s.start s.end later,
        (λ full. ground (arith, linear-lt 10_000 s.start s.end now window), λ ended. ground arith),
      )

-- For a window that is not empty, the elapsed time is computed; it is at most the window's length,
-- equals it exactly from the end on, and is zero exactly up to the start.
pub elapsed_bounds :
    (s : Stream) (now : ℕ)
    → s.start < s.end
    → (t : ℕ) × (elapsed s now ≡ some t)
      × (t ≤ s.end - s.start)
      × ((t ≡ s.end - s.start) ↔ (s.end ≤ now))
      × ((t ≡ 0) ↔ (now ≤ s.start))
unfolding elapsed clamp_to_window
elapsed_bounds s now window = (
  clamp_to_window s.start s.end now - s.start,
  ground arith,
  ground arith,
  ground arith,
  ground arith,
)
