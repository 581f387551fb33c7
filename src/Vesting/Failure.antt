-- ===== src/Vesting/Failure.antt =====
-- When the vesting arithmetic of src/vesting.rs ends in an error.
use stream_pay_contracts.Base.{ℕ, ◌≡◌, refl, inl, inr, if◌then◌else◌}
use stream_pay_contracts.Base.Int.{ℤ, ◌-ℤ◌, pos, int_laws, IsI128, checked_sub-fits, ltb_ℤ}
use stream_pay_contracts.Error.{Error, Result, ok, err, overflow}
use stream_pay_contracts.Types.{Stream}
use stream_pay_contracts.Types.Valid.{IsWellFormed}
use stream_pay_contracts.Vesting.{vested, unvested, withdrawable}
use stream_pay_contracts.Vesting.Bounds.{Overflows, vested-cases, vested_bounds, unvested_lem}

ok_ne_err : {C A : Type 0} {a : A} {e : Error} {r : Result A} → r ≡ ok a → r ≡ err e → C
ok_ne_err h k = cc

err-same : {A : Type 0} {d e : Error} {r : Result A} → r ≡ err d → r ≡ err e → e ≡ d
err-same h k = cc

-- The two other amounts fail where the vested one does.
unvested_fails : (s : Stream) (now : ℕ) {e : Error} → vested s now ≡ err e → unvested s now ≡ err e
unfolding unvested
unvested_fails s now bad = rw bad refl

withdrawable_fails :
    (s : Stream) (now : ℕ) {e : Error} → vested s now ≡ err e → withdrawable s now ≡ err e
unfolding withdrawable
withdrawable_fails s now bad = rw bad refl

withdrawable_returns :
    (s : Stream) (now : ℕ) {v : ℤ}
    → vested s now ≡ ok v
    → IsI128 (v -ℤ s.withdrawn)
    → (a : ℤ) × (withdrawable s now ≡ ok a)
unfolding withdrawable
withdrawable_returns s now {v} good fits = (
  if ltb_ℤ (pos 0) (v -ℤ s.withdrawn) then v -ℤ s.withdrawn else pos 0,
  rw (good, checked_sub-fits v s.withdrawn fits) refl,
)

module _ (s : Stream) (now : ℕ) (h : IsWellFormed s) where
  pub vested-err : {e : Error} → vested s now ≡ err e → (e ≡ overflow) × Overflows s now
  vested-err failed = elim (vested-cases s now h) [
    | inl (good, _) ↦ ok_ne_err good failed
    | inr (bad, over) ↦ (err-same bad failed, over)
  ]

  pub unvested-err : {e : Error} → unvested s now ≡ err e → (e ≡ overflow) × Overflows s now
  unvested-err failed = elim (vested-cases s now h) [
    | inl (good, _) ↦ ok_ne_err (unvested_lem s now h good) failed
    | inr (bad, over) ↦ (err-same (unvested_fails s now bad) failed, over)
  ]

  -- What has vested and what was withdrawn differ by an `i128`.
  pub rest_fits : {v : ℤ} → vested s now ≡ ok v → IsI128 (v -ℤ s.withdrawn)
  rest_fits good =
      let (low, high) = vested_bounds s now h good in
      omega (int_laws, low, high, h.total_fits, h.withdrawn_nonneg, h.withdrawn_le_total)

  pub withdrawable-err : {e : Error} → withdrawable s now ≡ err e → (e ≡ overflow) × Overflows s now
  withdrawable-err failed = elim (vested-cases s now h) [
    | inl (good, _) ↦ ok_ne_err (withdrawable_returns s now good (rest_fits good)).1 failed
    | inr (bad, over) ↦ (err-same (withdrawable_fails s now bad) failed, over)
  ]
