-- ===== src/Contract/Batch/Payments.antt =====
-- What a holder has after payments that follow one another (src/lib.rs).
use stream_pay_contracts.Base.{ℕ, ◌≡◌, Bool, true, false, ◌==◌, if◌then◌else◌}
use stream_pay_contracts.Base.Int.{ℤ, pos, ◌+ℤ◌, ◌-ℤ◌, int_laws}

-- What a holder has after the sender paid the amount to the contract.
abbrev pub paid_in : ℕ → ℕ → ℕ → ℤ → ℤ → ℤ
paid_in holder from to b a =
    b +ℤ (if holder == to then a else pos 0) -ℤ (if holder == from then a else pos 0)

pub paid_by :
    (to from : Bool) (b x y : ℤ)
    → b
        +ℤ (if to then x else pos 0)
        -ℤ (if from then x else pos 0)
        +ℤ (if to then y else pos 0)
        -ℤ (if from then y else pos 0)
      ≡ b +ℤ (if to then x +ℤ y else pos 0) -ℤ (if from then x +ℤ y else pos 0)
paid_by true true b x y = omega int_laws
paid_by true false b x y = omega int_laws
paid_by false true b x y = omega int_laws
paid_by false false b x y = omega int_laws

pub paid_none :
    (to from : Bool) (b : ℤ)
    → b +ℤ (if to then pos 0 else pos 0) -ℤ (if from then pos 0 else pos 0) ≡ b
paid_none true true b = omega int_laws
paid_none true false b = omega int_laws
paid_none false true b = omega int_laws
paid_none false false b = omega int_laws
