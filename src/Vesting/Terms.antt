-- ===== src/Vesting/Terms.antt =====
-- How the vested amount moves with the terms that top_up and extend_stream change (src/lib.rs).
use stream_pay_contracts.Base.{ℕ, ◌≤◌, ◌≡◌, arith}
use stream_pay_contracts.Base.Int.{ℤ, pos_part, ◌≤ℤ◌}
use stream_pay_contracts.Error.{ok}
use stream_pay_contracts.Types.{Stream}
use stream_pay_contracts.Types.Valid.{IsWellFormed}
use stream_pay_contracts.Vesting.{vested}
use stream_pay_contracts.Vesting.Schedule.{linear_extend, linear_mono_total}
use stream_pay_contracts.Vesting.Bounds.{vested-ok}

-- Pushing back the end of a stream that stays well formed never raises what has vested at a given
-- time.
pub vested_extended :
    (s : Stream) (new_end now : ℕ) {v v' : ℤ}
    → IsWellFormed s
    → IsWellFormed (record s { end = new_end })
    → s.end ≤ new_end
    → vested s now ≡ ok v
    → vested (record s { end = new_end }) now ≡ ok v'
    → v' ≤ℤ v
vested_extended s new_end now h h' later e e' = ground (
  arith,
  vested-ok s now h e,
  vested-ok (record s { end = new_end }) now h' e',
  linear_extend (pos_part s.total) s.start s.end new_end now h.window later,
)

-- Raising the total of a stream that stays well formed never lowers what has vested at a given
-- time.
pub vested_raised :
    (s : Stream) (new_total : ℤ) (now : ℕ) {v v' : ℤ}
    → IsWellFormed s
    → IsWellFormed (record s { total = new_total })
    → s.total ≤ℤ new_total
    → vested s now ≡ ok v
    → vested (record s { total = new_total }) now ≡ ok v'
    → v ≤ℤ v'
vested_raised s new_total now h h' more e e' = ground (
  arith,
  vested-ok s now h e,
  vested-ok (record s { total = new_total }) now h' e',
  h.total_positive,
  h'.total_positive,
  linear_mono_total (pos_part s.total) (pos_part new_total) s.start s.end now,
)
