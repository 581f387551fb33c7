-- ===== src/Error.antt =====
-- The error codes of src/error.rs and the `Result` that the fallible functions return.
use stream_pay_contracts.Base.{refl, ◌≢◌, ℕ, ◌≡◌, Option, none, some}

pub data Error : Type 0 where
  already_initialized not_initialized stream_not_found invalid_amount invalid_time_range : Error
  unauthorized overflow already_cancelled nothing_to_withdraw already_completed : Error
  end_time_in_past amount_below_minimum stream_not_active no_pending_admin_action : Error
  timelock_not_expired invalid_admin_action supply_cap_exceeded empty_batch : Error

-- The `repr(u32)` discriminants.
unfoldable pub error_code : Error → ℕ
error_code already_initialized = 1
error_code not_initialized = 2
error_code stream_not_found = 3
error_code invalid_amount = 4
error_code invalid_time_range = 5
error_code unauthorized = 6
error_code overflow = 7
error_code already_cancelled = 8
error_code nothing_to_withdraw = 9
error_code already_completed = 10
error_code end_time_in_past = 11
error_code amount_below_minimum = 12
error_code stream_not_active = 13
error_code no_pending_admin_action = 14
error_code timelock_not_expired = 15
error_code invalid_admin_action = 16
error_code supply_cap_exceeded = 18
error_code empty_batch = 19

pub data Result {ℓ} (A : Type ℓ) : Type ℓ where
  ok : A → Result A
  err : Error → Result A

-- `?` on a `Result`: the rest runs on a value, an error is returned.
infixl 5 ◌>>=◌
abbrev pub ◌>>=◌ {ℓ κ} : {A : Type ℓ} {B : Type κ} → Result A → (A → Result B) → Result B
ok a >>= f = f a
err e >>= f = err e

-- `Option::ok_or`
abbrev pub ok_or {ℓ} : {A : Type ℓ} → Option A → Error → Result A
ok_or none e = err e
ok_or (some a) _ = ok a

-- A result that is no error has a value.
pub ok_of {ℓ} : {A : Type ℓ} (r : Result A) → ((e : Error) → r ≢ err e) → (a : A) × (r ≡ ok a)
ok_of (ok a) h = (a, refl)
ok_of (err e) h = absurd (h e refl)
