-- ===== src/Vesting/Payout.antt =====
-- A payout of the withdrawable amount, and what it means for the stream.
use stream_pay_contracts.Base.{ℕ, ◌≤◌, ◌≡◌, arith, if◌then◌else◌}
use stream_pay_contracts.Base.Int.{
  ℤ, pos, pos_part, ◌+ℤ◌, ◌-ℤ◌, ◌≤ℤ◌, ◌<ℤ◌, ltb_ℤ, +ℤ_parts, -ℤ_parts, eq_of_parts,
}
use stream_pay_contracts.Error.{ok}
use stream_pay_contracts.Types.{Stream}
use stream_pay_contracts.Types.Valid.{IsWellFormed}
use stream_pay_contracts.Vesting.{vested, withdrawable}
use stream_pay_contracts.Vesting.Schedule.{linear-lt}
use stream_pay_contracts.Vesting.Bounds.{vested-ok, withdrawable-ok}

-- A positive payout brings what was withdrawn up to the vested amount.
pub payout_reaches_vested :
    (s : Stream) (now : ℕ) {a : ℤ}
    → IsWellFormed s
    → withdrawable s now ≡ ok a
    → pos 0 <ℤ a
    → (v : ℤ) × (vested s now ≡ ok v) × (s.withdrawn +ℤ a ≡ v)
payout_reaches_vested s now {a} h e positive =
    let (v, good, a_eq) = withdrawable-ok s now h e in (v, good, reached v a_eq)
  where
    reached :
        (v : ℤ)
        → a ≡ (if ltb_ℤ (pos 0) (v -ℤ s.withdrawn) then v -ℤ s.withdrawn else pos 0)
        → s.withdrawn +ℤ a ≡ v
    reached v a_eq = eq_of_parts _ _ (grind (arith, +ℤ_parts, -ℤ_parts))

-- The total has vested only at the end of the window or later.
pub vested_all-ended :
    (s : Stream) (now : ℕ) {v : ℤ}
    → IsWellFormed s
    → vested s now ≡ ok v
    → s.total ≤ℤ v
    → s.end ≤ now
vested_all-ended s now {v} h e all = ground (
  arith,
  vested-ok s now h e,
  h.total_positive,
  linear-lt (pos_part s.total) s.start s.end now h.window,
)
