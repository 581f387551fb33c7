-- ===== src/Vesting/Bounds.antt =====
-- The vesting functions on a well-formed stream: results, bounds and the only way to fail.
use stream_pay_contracts.Base.{
  ℕ, ◌-◌, ◌*◌, ◌/◌, ◌^◌, ◌≤◌, ◌<◌, ◌≡◌, arith, leb, if◌then◌else◌, ◌⊎◌, inl, inr, ◌↔◌,
}
use stream_pay_contracts.Base.Int.{
  ℤ, pos, pos_part, ◌≤ℤ◌, ◌<ℤ◌, ◌-ℤ◌, ◌+ℤ◌, int_laws, IsI128, checked_mul-pos, checked_div-pos,
  checked_sub-fits, ◌*ℤ◌, *ℤ-pos, +ℤ-pos, +ℤ_parts, ltb_ℤ, -ℤ_parts,
}
use stream_pay_contracts.Error.{ok, err, overflow}
use stream_pay_contracts.Types.{Stream}
use stream_pay_contracts.Types.Valid.{IsWellFormed}
use stream_pay_contracts.Vesting.{interpolate, vested, unvested, withdrawable}
use stream_pay_contracts.Vesting.Schedule.{linear, linear-floor, linear-le, linear_mono}

interpolate-pos :
    (t e d : ℕ)
    → 0 < d
    → interpolate (pos t) e d
      ≡ (if leb (t * e) (2 ^ 127 - 1) then ok (pos (t * e / d)) else err overflow)
unfolding interpolate
interpolate-pos t e d h = ground (arith, checked_mul-pos t e, checked_div-pos (t * e) d h)

-- The amount that the schedule gives for a stream.
abbrev pub scheduled : Stream → ℕ → ℕ
scheduled s now = linear (pos_part s.total) s.start s.end now

-- The product that `vested` checks does not fit an `i128`.
abbrev pub Overflows : Stream → ℕ → Type 0
Overflows s now =
    (s.start < now) × (now < s.end) × (2 ^ 127 - 1 < pos_part s.total * (now - s.start))

pub pos-pos_part : (a : ℤ) → pos 0 ≤ℤ a → a ≡ pos (pos_part a)
pos-pos_part a h = ground arith

-- The complement of `Overflows`.
abbrev pub Fits : Stream → ℕ → Type 0
Fits s now = (now ≤ s.start) ⊎ (s.end ≤ now) ⊎ (pos_part s.total * (now - s.start) ≤ 2 ^ 127 - 1)

vested_of_pos :
    (s : Stream) (t now : ℕ)
    → s.total ≡ pos t
    → s.start < s.end
    → ((vested s now ≡ ok (pos (scheduled s now))) × Fits s now)
      ⊎ ((vested s now ≡ err overflow) × Overflows s now)
unfolding vested linear
vested_of_pos s t now e w = ground (arith, interpolate-pos t (now - s.start) (s.end - s.start))

-- `vested` returns the scheduled amount, or `overflow` exactly where the product does not fit.
pub vested-cases :
    (s : Stream) (now : ℕ)
    → IsWellFormed s
    → ((vested s now ≡ ok (pos (scheduled s now))) × Fits s now)
      ⊎ ((vested s now ≡ err overflow) × Overflows s now)
vested-cases s now h =
    vested_of_pos s (pos_part s.total) now (pos-pos_part s.total (omega (arith, h.total_positive)))
      h.window

-- A vested amount is the scheduled one.
pub vested-ok :
    (s : Stream) (now : ℕ) {v : ℤ}
    → IsWellFormed s
    → vested s now ≡ ok v
    → v ≡ pos (scheduled s now)
vested-ok s now h e = ground (arith, vested-cases s now h)

-- For a well-formed stream the vested amount ends in `overflow` exactly when the time is strictly
-- inside the window and the product of total and elapsed seconds does not fit an i128.
pub vested-err_iff :
    (s : Stream) (now : ℕ) → IsWellFormed s → (vested s now ≡ err overflow) ↔ Overflows s now
vested-err_iff s now h =
    (λ e. ground (arith, vested-cases s now h), λ o. ground (arith, vested-cases s now h))

-- A vested amount of a well-formed stream is between nothing and the total.
pub vested_bounds :
    (s : Stream) (now : ℕ) {v : ℤ}
    → IsWellFormed s
    → vested s now ≡ ok v
    → (pos 0 ≤ℤ v) × (v ≤ℤ s.total)
vested_bounds s now h e =
    ground (arith, vested-ok s now h e, linear-le (pos_part s.total) s.start s.end now)

-- Where the vested amount of a well-formed stream is computed, the unvested one is, and the two sum
-- to the total.
pub unvested_lem :
    (s : Stream) (now : ℕ) {v : ℤ}
    → IsWellFormed s
    → vested s now ≡ ok v
    → unvested s now ≡ ok (s.total -ℤ v)
unfolding unvested
unvested_lem s now {v} h e = rw (e, checked_sub-fits s.total v (sub_fits (vested_bounds s now h e)))
  where
    sub_fits : (pos 0 ≤ℤ v) × (v ≤ℤ s.total) → IsI128 (s.total -ℤ v)
    sub_fits b = omega (int_laws, h.total_fits)

-- What a withdrawal would pay: the vested amount less what was paid, and never below zero.
pub withdrawable_lem :
    (s : Stream) (now : ℕ) {v : ℤ}
    → IsWellFormed s
    → vested s now ≡ ok v
    → withdrawable s now ≡ ok (if ltb_ℤ (pos 0) (v -ℤ s.withdrawn) then v -ℤ s.withdrawn else pos 0)
unfolding withdrawable
withdrawable_lem s now {v} h e =
    rw (e, checked_sub-fits v s.withdrawn (sub_fits (vested_bounds s now h e)))
  where
    sub_fits : (pos 0 ≤ℤ v) × (v ≤ℤ s.total) → IsI128 (v -ℤ s.withdrawn)
    sub_fits b = omega (int_laws, h.total_fits, h.withdrawn_nonneg, h.withdrawn_le_total)

-- A withdrawable amount comes from a vested one.
pub withdrawable-ok :
    (s : Stream) (now : ℕ) {a : ℤ}
    → IsWellFormed s
    → withdrawable s now ≡ ok a
    → (v : ℤ) × (vested s now ≡ ok v)
      × (a ≡ (if ltb_ℤ (pos 0) (v -ℤ s.withdrawn) then v -ℤ s.withdrawn else pos 0))
withdrawable-ok s now {a} h e = elim (vested-cases s now h) [
  | inl (good, _) ↦ (pos (scheduled s now), good, ground (arith, e, withdrawable_lem s now h good))
  | inr (bad, _) ↦ absurd (unfold withdrawable in cc (bad, e))
]

-- A withdrawable amount of a well-formed stream is not negative, and with what was withdrawn not
-- more than the total.
pub withdrawable_bounds :
    (s : Stream) (now : ℕ) {a : ℤ}
    → IsWellFormed s
    → withdrawable s now ≡ ok a
    → (pos 0 ≤ℤ a) × (a +ℤ s.withdrawn ≤ℤ s.total)
withdrawable_bounds s now {a} h e =
    let (v, good, a_eq) = withdrawable-ok s now h e in
    from_vested v a_eq (vested_bounds s now h good)
  where
    from_vested :
        (v : ℤ)
        → a ≡ (if ltb_ℤ (pos 0) (v -ℤ s.withdrawn) then v -ℤ s.withdrawn else pos 0)
        → (pos 0 ≤ℤ v) × (v ≤ℤ s.total)
        → (pos 0 ≤ℤ a) × (a +ℤ s.withdrawn ≤ℤ s.total)
    from_vested v a_eq b = grind (arith, +ℤ_parts, -ℤ_parts, h.withdrawn_le_total)

-- Between two times at which the vested amount of a well-formed stream is computed, it never falls.
pub vested_mono :
    (s : Stream) (now later : ℕ) {v v' : ℤ}
    → IsWellFormed s
    → now ≤ later
    → vested s now ≡ ok v
    → vested s later ≡ ok v'
    → v ≤ℤ v'
vested_mono s now later h le e e' = ground (
  arith,
  vested-ok s now h e,
  vested-ok s later h e',
  linear_mono (pos_part s.total) s.start s.end now later h.window le,
)

-- Strictly inside the window of a well-formed stream, a vested amount is the exact linear share of
-- the total, rounded down.
pub vested_floor :
    (s : Stream) (now : ℕ) {v : ℤ}
    → IsWellFormed s
    → s.start < now
    → now < s.end
    → vested s now ≡ ok v
    → (v *ℤ pos (s.end - s.start) ≤ℤ s.total *ℤ pos (now - s.start))
      × (s.total *ℤ pos (now - s.start) <ℤ (v +ℤ pos 1) *ℤ pos (s.end - s.start))
vested_floor s now {v} h after before e =
    rw (vested-ok s now h e, pos-pos_part s.total (omega (arith, h.total_positive)))
      (simp (*ℤ-pos, +ℤ-pos)
        (omega (arith, linear-floor (pos_part s.total) s.start s.end now after before)))
