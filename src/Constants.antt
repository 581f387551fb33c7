-- ===== src/Constants.antt =====
-- The limits of src/constants.rs and the amount test that the entry points share.
use stream_pay_contracts.Base.{ℕ, ◌≡◌, Bool, true, false, ◌&&◌, arith}
use stream_pay_contracts.Base.Int.{ℤ, pos, leb_ℤ, ltb_ℤ, ◌≤ℤ◌, i128_max}

abbrev pub min_stream_amount : ℤ
min_stream_amount = pos 1

abbrev pub admin_timelock_delay : ℕ
admin_timelock_delay = 86_400

abbrev pub min_valid_amount : ℤ
min_valid_amount = pos 1

abbrev pub default_supply_cap : ℤ
default_supply_cap = i128_max

pub data LimitError : Type 0 where
  invalid_amount amount_below_minimum : LimitError

-- The `repr(u32)` discriminants.
unfoldable pub limit_error_code : LimitError → ℕ
limit_error_code invalid_amount = 4
limit_error_code amount_below_minimum = 12

unfoldable pub is_valid_amount : ℤ → Bool
is_valid_amount amount = leb_ℤ min_valid_amount amount && leb_ℤ min_stream_amount amount

-- A valid amount reaches the minimum.
pub valid_least :
    (a : ℤ) → is_valid_amount a ≡ true → (ltb_ℤ a min_stream_amount ≡ false) × (pos 1 ≤ℤ a)
unfolding is_valid_amount
valid_least a h = ground arith
