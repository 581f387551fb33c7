-- ===== src/Vesting/Schedule.antt =====
-- The vesting schedule over the natural numbers, with no overflow: what the code of
-- src/vesting.rs is compared with.
use stream_pay_contracts.Base.{ℕ, ◌+◌, ◌-◌, ◌*◌, ◌/◌, ◌≤◌, ◌<◌, arith, leb, if◌then◌else◌}

unfoldable pub linear : ℕ → ℕ → ℕ → ℕ → ℕ
linear t start end now =
    if leb now start then 0 else if leb end now then t else t * (now - start) / (end - start)

quotient-le : (t e d : ℕ) → e ≤ d → 0 < d → t * e / d ≤ t
quotient-le t e d h p = grind arith

pub linear-le : (t start end now : ℕ) → linear t start end now ≤ t
unfolding linear
linear-le t start end now = ground (arith, quotient-le t (now - start) (end - start))

pub quotient_mono : (a b d : ℕ) → 0 < d → a ≤ b → a / d ≤ b / d
quotient_mono a b d p h = grind arith

pub linear_mono :
    (t start end now later : ℕ)
    → start < end
    → now ≤ later
    → linear t start end now ≤ linear t start end later
unfolding linear
linear_mono t start end now later w h = ground (
  arith,
  quotient-le t (now - start) (end - start),
  quotient_mono (t * (now - start)) (t * (later - start)) (end - start),
  mul_mono t (now - start) (later - start),
)
  where
    mul_mono : (t a b : ℕ) → a ≤ b → t * a ≤ t * b
    mul_mono t a b h = grind arith

pub linear_mono_total :
    (t t' start end now : ℕ) → t ≤ t' → linear t start end now ≤ linear t' start end now
unfolding linear
linear_mono_total t t' start end now h = ground (
  arith,
  quotient_mono (t * (now - start)) (t' * (now - start)) (end - start),
  mul_mono t t' (now - start),
)
  where
    mul_mono : (t t' a : ℕ) → t ≤ t' → t * a ≤ t' * a
    mul_mono t t' a h = grind arith

-- A longer window divides by more.
quotient_anti : (a d d' : ℕ) → 0 < d → d ≤ d' → a / d' ≤ a / d
quotient_anti a d d' p h = grind arith

pub linear_extend :
    (t start end end' now : ℕ)
    → start < end
    → end ≤ end'
    → linear t start end' now ≤ linear t start end now
unfolding linear
linear_extend t start end end' now w h = ground (
  arith,
  quotient-le t (now - start) (end' - start),
  quotient_anti (t * (now - start)) (end - start) (end' - start),
)

-- The truncated quotient, described with no division.
pub linear-floor :
    (t start end now : ℕ)
    → start < now
    → now < end
    → (linear t start end now * (end - start) ≤ t * (now - start))
      × (t * (now - start) < (linear t start end now + 1) * (end - start))
unfolding linear
linear-floor t start end now h k = ground (arith, floor (t * (now - start)) (end - start))
  where
    floor : (a d : ℕ) → 0 < d → (a / d * d ≤ a) × (a < (a / d + 1) * d)
    floor a d p = grind arith

quotient-lt : (t e d : ℕ) → e < d → 0 < t → t * e / d < t
quotient-lt t e d h p = grind arith

-- Before the end something is always still to vest.
pub linear-lt : (t start end now : ℕ) → start < end → now < end → 0 < t → linear t start end now < t
unfolding linear
linear-lt t start end now w h p = ground (arith, quotient-lt t (now - start) (end - start))
