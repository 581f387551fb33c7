-- ===== src/Invariant/Escrow.antt =====
-- The escrow of one stream as the entry points change it, and the arithmetic of the sum.
use stream_pay_contracts.Base.{ℕ, ◌≡◌, sym, subst, false, arith}
use stream_pay_contracts.Base.Int.{
  ℤ, pos, ◌+ℤ◌, ◌-ℤ◌, ◌≤ℤ◌, int_laws, -ℤ_parts, eq_of_parts, i128_max, IsI128,
}
use stream_pay_contracts.Error.{ok}
use stream_pay_contracts.Types.{Address, Stream, active, cancelled, is_status_cancelled}
use stream_pay_contracts.Types.Valid.{IsWellFormed}
use stream_pay_contracts.Contract.Create.{new_stream}
use stream_pay_contracts.Contract.Withdraw.{pay_out}
use stream_pay_contracts.Invariant.{escrow_of}

pub escrow_of-active : (s : Stream) → s.status ≡ active → escrow_of s ≡ s.total -ℤ s.withdrawn
unfolding escrow_of
escrow_of-active s e = ground arith

-- An active stream after a payout holds what the payout left, completed or not.
pub escrow_of-pay_out :
    (s : Stream) (withdrawn : ℤ)
    → s.status ≡ active
    → withdrawn ≤ℤ s.total
    → escrow_of (pay_out s withdrawn) ≡ s.total -ℤ withdrawn
unfolding escrow_of
escrow_of-pay_out s withdrawn e h = eq_of_parts _ _ (grind (arith, -ℤ_parts))

-- A stream that is not cancelled holds its total less what was withdrawn.
pub escrow_of-open :
    (s : Stream)
    → IsWellFormed s
    → is_status_cancelled s.status ≡ false
    → escrow_of s ≡ s.total -ℤ s.withdrawn
unfolding escrow_of
escrow_of-open s h e = eq_of_parts _ _ (grind (arith, -ℤ_parts, h.paid_out))

pub escrow_of-cancelled : (s : Stream) → s.status ≡ cancelled → escrow_of s ≡ pos 0
unfolding escrow_of
escrow_of-cancelled s e = ground arith

-- The sum follows the change of one stream's escrow.
pub exchange_add :
    (sum sum' old new x : ℤ) → sum' +ℤ old ≡ sum +ℤ new → new ≡ old +ℤ x → sum' ≡ sum +ℤ x
exchange_add sum sum' old new x h k = grind int_laws

pub exchange_sub :
    (sum sum' old new x : ℤ) → sum' +ℤ old ≡ sum +ℤ new → old ≡ new +ℤ x → sum' ≡ sum -ℤ x
exchange_sub sum sum' old new x h k = grind int_laws

pub sub_regroup : (t w x : ℤ) → t +ℤ x -ℤ w ≡ t -ℤ w +ℤ x
sub_regroup t w x = omega int_laws

pub split_sub : (t w x : ℤ) → t -ℤ w ≡ t -ℤ (w +ℤ x) +ℤ x
split_sub t w x = omega int_laws

pub split_vested : (t w v : ℤ) → t -ℤ w ≡ pos 0 +ℤ (v -ℤ w +ℤ (t -ℤ v))
split_vested t w v = omega int_laws

pub difference_fits :
    (total sum one x : ℤ)
    → total ≡ sum
    → total ≤ℤ i128_max
    → one ≤ℤ sum
    → pos 0 ≤ℤ x
    → x ≤ℤ one
    → IsI128 (total -ℤ x)
difference_fits total sum one x same capped part low high =
    subst (λ y. IsI128 (y -ℤ x)) (sym same) (sum_fits (subst (λ y. y ≤ℤ i128_max) same capped))
  where
    sum_fits : sum ≤ℤ i128_max → IsI128 (sum -ℤ x)
    sum_fits capped_sum = omega int_laws

pub difference_within : (s : Stream) → IsWellFormed s → IsI128 (s.total -ℤ s.withdrawn)
difference_within s h =
    omega (int_laws, h.total_fits, h.withdrawn_nonneg, h.withdrawn_le_total, h.total_positive)

pub ok-injective : {A : Type 0} {a b : A} → ok a ≡ ok b → a ≡ b
ok-injective h = cc

-- A new stream holds its whole amount.
pub escrow_of-new :
    (sender recipient : Address) (amount : ℤ) (start end : ℕ)
    → escrow_of (new_stream sender recipient amount start end) ≡ amount
unfolding escrow_of
escrow_of-new sender recipient amount start end = omega int_laws

pub lowered_fits : (total x : ℤ) → total ≤ℤ i128_max → pos 0 ≤ℤ x → total -ℤ x ≤ℤ i128_max
lowered_fits total x h k = omega int_laws
