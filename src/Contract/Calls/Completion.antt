-- ===== src/Contract/Calls/Completion.antt =====
-- The tests of the entry points of src/lib.rs where they are met.
use stream_pay_contracts.Base.{
  ℕ, ◌≡◌, ◌≢◌, ◌⊎◌, not, ◌==◌, ◌&&◌, false, true, Option, some, arith, refl,
}
use stream_pay_contracts.Base.Int.{ℤ, pos, ◌<ℤ◌, leb_ℤ}
use stream_pay_contracts.Types.{
  Status, active, is_status_active, is_status_cancelled, is_status_completed,
}
use stream_pay_contracts.Storage.{is_some}

pub met_eq : (a b : ℕ) → a ≡ b → not (a == b) ≡ false
met_eq a b h = ground arith

pub met_ne : (a b : ℕ) → a ≢ b → (a == b) ≡ false
met_ne a b h = ground arith

pub met_either : (a b c : ℕ) → (a ≡ b) ⊎ (a ≡ c) → (not (a == b) && not (a == c)) ≡ false
met_either a b c h = ground arith

pub met_active : (s : Status) → s ≡ active → not (is_status_active s) ≡ false
met_active s h = ground arith

pub met_open :
    (s : Status) → s ≡ active → (is_status_cancelled s ≡ false) × (is_status_completed s ≡ false)
met_open s h = (ground arith, ground arith)

pub met_positive : (a : ℤ) → pos 0 <ℤ a → leb_ℤ a (pos 0) ≡ false
met_positive a h = ground arith

pub met_some : {A : Type 0} (o : Option A) {a : A} → o ≡ some a → is_some o ≡ true
met_some o h = rw h refl
