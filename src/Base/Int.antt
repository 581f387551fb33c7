-- ===== src/Base/Int.antt =====
-- Signed integers over the native numbers, and the checked arithmetic of Rust's `i128` and `u64`.
use Prim.Native.Nat.{ℕ, suc, ◌+◌, ◌-◌, ◌*◌, ◌/◌, ◌^◌, ◌≤◌, ◌<◌}
use mathlib.Core.Path.{◌≡◌}
use mathlib.Core.Bool.{Bool, true, false, ◌&&◌}
use mathlib.Core.Option.{Option, none, some}
use native.Mathlib.Omega.{arith}
use stream_pay_contracts.Base.Tests.{ltb, leb, ◌==◌, if◌then◌else◌}

-- `negsuc n` is -(n + 1).
pub data ℤ : Type 0 where
  pos : ℕ → ℤ
  negsuc : ℕ → ℤ

abbrev pub pos_part : ℤ → ℕ
pos_part (pos n) = n
pos_part (negsuc _) = 0

abbrev pub neg_part : ℤ → ℕ
neg_part (pos _) = 0
neg_part (negsuc n) = suc n

abbrev pub sub_ℕ : ℕ → ℕ → ℤ
sub_ℕ a b = if leb b a then pos (a - b) else negsuc (b - a - 1)

infixl 65 ◌+ℤ◌ ◌-ℤ◌
infixl 70 ◌*ℤ◌ ◌/ℤ◌
infix 50 ◌≤ℤ◌ ◌<ℤ◌
unfoldable pub ◌+ℤ◌ : ℤ → ℤ → ℤ
a +ℤ b = sub_ℕ (pos_part a + pos_part b) (neg_part a + neg_part b)

unfoldable pub ◌-ℤ◌ : ℤ → ℤ → ℤ
a -ℤ b = sub_ℕ (pos_part a + neg_part b) (neg_part a + pos_part b)

unfoldable pub ◌*ℤ◌ : ℤ → ℤ → ℤ
a *ℤ b =
    sub_ℕ (pos_part a * pos_part b + neg_part a * neg_part b)
      (pos_part a * neg_part b + neg_part a * pos_part b)

-- Division rounds toward zero, as Rust's does.
unfoldable pub ◌/ℤ◌ : ℤ → ℤ → ℤ
pos a /ℤ pos b = pos (a / b)
pos a /ℤ negsuc b = sub_ℕ 0 (a / suc b)
negsuc a /ℤ pos b = sub_ℕ 0 (suc a / b)
negsuc a /ℤ negsuc b = pos (suc a / suc b)

abbrev pub ◌≤ℤ◌ : ℤ → ℤ → Type 0
a ≤ℤ b = pos_part a + neg_part b ≤ pos_part b + neg_part a

abbrev pub ◌<ℤ◌ : ℤ → ℤ → Type 0
a <ℤ b = pos_part a + neg_part b < pos_part b + neg_part a

abbrev pub ltb_ℤ : ℤ → ℤ → Bool
ltb_ℤ a b = ltb (pos_part a + neg_part b) (pos_part b + neg_part a)

abbrev pub leb_ℤ : ℤ → ℤ → Bool
leb_ℤ a b = leb (pos_part a + neg_part b) (pos_part b + neg_part a)

abbrev pub i128_max : ℤ
i128_max = pos (2 ^ 127 - 1)

abbrev pub i128_min : ℤ
i128_min = negsuc (2 ^ 127 - 1)

abbrev pub u64_max : ℕ
u64_max = 2 ^ 64 - 1

-- The value is one of an `i128`.
abbrev pub IsI128 : ℤ → Type 0
IsI128 a = (i128_min ≤ℤ a) × (a ≤ℤ i128_max)

unfoldable pub fits_i128 : ℤ → Bool
fits_i128 a = leb_ℤ i128_min a && leb_ℤ a i128_max

unfoldable pub check_i128 : ℤ → Option ℤ
check_i128 a = if fits_i128 a then some a else none

-- `i128::checked_add` and its siblings.
unfoldable pub checked_add : ℤ → ℤ → Option ℤ
checked_add a b = check_i128 (a +ℤ b)

unfoldable pub checked_sub : ℤ → ℤ → Option ℤ
checked_sub a b = check_i128 (a -ℤ b)

unfoldable pub checked_mul : ℤ → ℤ → Option ℤ
checked_mul a b = check_i128 (a *ℤ b)

is_zero : ℤ → Bool
is_zero a = pos_part a + neg_part a == 0

unfoldable pub checked_div : ℤ → ℤ → Option ℤ
unfolding is_zero
checked_div a b = if is_zero b then none else check_i128 (a /ℤ b)

-- `u64::checked_add`
unfoldable pub checked_add_u64 : ℕ → ℕ → Option ℕ
checked_add_u64 a b = if leb (a + b) u64_max then some (a + b) else none

-- With these the operations can stay shut.
pub +ℤ_parts :
    (a b : ℤ)
    → pos_part (a +ℤ b) + neg_part a + neg_part b ≡ neg_part (a +ℤ b) + pos_part a + pos_part b
unfolding ◌+ℤ◌
+ℤ_parts a b = ground arith

pub -ℤ_parts :
    (a b : ℤ)
    → pos_part (a -ℤ b) + neg_part a + pos_part b ≡ neg_part (a -ℤ b) + pos_part a + neg_part b
unfolding ◌-ℤ◌
-ℤ_parts a b = ground arith

pub eq_of_parts : (a b : ℤ) → pos_part a + neg_part b ≡ pos_part b + neg_part a → a ≡ b
eq_of_parts a b h = ground arith

pub ruleset int_laws = (arith, +ℤ_parts, -ℤ_parts, eq_of_parts)

-- A checked result is the true one and fits; what fits is returned.
pub check_i128-some : (a c : ℤ) → check_i128 a ≡ some c → (c ≡ a) × IsI128 a
unfolding check_i128 fits_i128
check_i128-some a c h = ground arith

pub check_i128-fits : (a : ℤ) → IsI128 a → check_i128 a ≡ some a
unfolding check_i128 fits_i128
check_i128-fits a h = ground arith

pub checked_add-some : (a b c : ℤ) → checked_add a b ≡ some c → (c ≡ a +ℤ b) × IsI128 (a +ℤ b)
unfolding checked_add
checked_add-some a b c h = check_i128-some (a +ℤ b) c h

pub checked_mul-some : (a b c : ℤ) → checked_mul a b ≡ some c → c ≡ a *ℤ b
unfolding checked_mul
checked_mul-some a b c h = (check_i128-some (a *ℤ b) c h).0

pub checked_sub-some : (a b c : ℤ) → checked_sub a b ≡ some c → (c ≡ a -ℤ b) × IsI128 (a -ℤ b)
unfolding checked_sub
checked_sub-some a b c h = check_i128-some (a -ℤ b) c h

pub checked_add-fits : (a b : ℤ) → IsI128 (a +ℤ b) → checked_add a b ≡ some (a +ℤ b)
unfolding checked_add
checked_add-fits a b h = check_i128-fits (a +ℤ b) h

pub checked_sub-fits : (a b : ℤ) → IsI128 (a -ℤ b) → checked_sub a b ≡ some (a -ℤ b)
unfolding checked_sub
checked_sub-fits a b h = check_i128-fits (a -ℤ b) h

-- The product of natural numbers, in the form that the vesting arithmetic meets.
pub checked_mul-pos :
    (a b : ℕ)
    → checked_mul (pos a) (pos b) ≡ (if leb (a * b) (2 ^ 127 - 1) then some (pos (a * b)) else none)
unfolding checked_mul ◌*ℤ◌ check_i128 fits_i128
checked_mul-pos a b = ground arith

pub checked_div-pos :
    (a b : ℕ) → 0 < b → a ≤ 2 ^ 127 - 1 → checked_div (pos a) (pos b) ≡ some (pos (a / b))
unfolding checked_div ◌/ℤ◌ check_i128 fits_i128
checked_div-pos a b h fit = grind arith

pub +ℤ-pos : (a b : ℕ) → pos a +ℤ pos b ≡ pos (a + b)
unfolding ◌+ℤ◌
+ℤ-pos a b = ground arith

pub *ℤ-pos : (a b : ℕ) → pos a *ℤ pos b ≡ pos (a * b)
unfolding ◌*ℤ◌
*ℤ-pos a b = ground arith

pub checked_add_u64-some : (a b c : ℕ) → checked_add_u64 a b ≡ some c → (c ≡ a + b) × (c ≤ u64_max)
unfolding checked_add_u64
checked_add_u64-some a b c h = ground arith

-- Tests that an order decides.
pub not_positive : (x : ℤ) → x ≤ℤ pos 0 → ltb_ℤ (pos 0) x ≡ false
not_positive x h = ground arith

pub is_positive : (x : ℤ) → pos 0 <ℤ x → ltb_ℤ (pos 0) x ≡ true
is_positive x h = ground arith

pub ltb_ℤ_no : (a b : ℤ) → b ≤ℤ a → ltb_ℤ a b ≡ false
ltb_ℤ_no a b h = ground arith

pub leb_no : (a b : ℕ) → b < a → leb a b ≡ false
leb_no a b h = ground arith

pub ltb_no : (a b : ℕ) → b ≤ a → ltb a b ≡ false
ltb_no a b h = ground arith

pub checked_add_u64-fits : (a b : ℕ) → a + b ≤ u64_max → checked_add_u64 a b ≡ some (a + b)
unfolding checked_add_u64
checked_add_u64-fits a b h = ground arith

pub add_zero : (a : ℤ) → a +ℤ pos 0 ≡ a
add_zero a = omega int_laws

pub +ℤ_assoc : (a b c : ℤ) → a +ℤ b +ℤ c ≡ a +ℤ (b +ℤ c)
+ℤ_assoc a b c = omega int_laws

pub zero_add : (a : ℤ) → pos 0 +ℤ a ≡ a
zero_add a = omega int_laws
