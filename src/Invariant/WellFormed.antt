-- ===== src/Invariant/WellFormed.antt =====
-- The streams that the entry points of src/lib.rs write, for their well-formedness.
use stream_pay_contracts.Base.{ℕ, ◌≤◌, ◌<◌, ◌≡◌, ◌∙◌, true, some, arith}
use stream_pay_contracts.Base.Int.{
  ℤ, pos, ◌≤ℤ◌, ◌<ℤ◌, int_laws, eq_of_parts, i128_max, u64_max, checked_add, checked_add-some,
}
use stream_pay_contracts.Error.{ok}
use stream_pay_contracts.Constants.{is_valid_amount}
use stream_pay_contracts.Types.{Address, Stream, active, cancelled, completed}
use stream_pay_contracts.Types.Valid.{IsWellFormed}
use stream_pay_contracts.Vesting.{vested, withdrawable}
use stream_pay_contracts.Vesting.Bounds.{vested_bounds}
use stream_pay_contracts.Vesting.Payout.{payout_reaches_vested, vested_all-ended}
use stream_pay_contracts.Contract.Create.{new_stream}
use stream_pay_contracts.Contract.Withdraw.{pay_out}

-- The changed streams of each entry point are well formed.
pub topped_up-IsWellFormed :
    (s : Stream) (amount total : ℤ)
    → IsWellFormed s
    → s.status ≡ active
    → is_valid_amount amount ≡ true
    → checked_add s.total amount ≡ some total
    → IsWellFormed (record s { total = total })
unfolding is_valid_amount
topped_up-IsWellFormed s amount total h still_active valid summed =
    let (total_eq, fits) = checked_add-some s.total amount total summed in
    let amount_positive : pos 1 ≤ℤ amount = ground arith in
    record {
      total_positive = rw total_eq (omega (int_laws, eq_of_parts, h.total_positive));
      total_fits = rw total_eq fits.1;
      withdrawn_nonneg = h.withdrawn_nonneg;
      withdrawn_le_total = rw total_eq (omega (int_laws, eq_of_parts, h.withdrawn_le_total));
      window = h.window;
      end_fits = h.end_fits;
      paid_out = λ done. absurd (ground arith);
      owed = λ live. rw total_eq (omega (int_laws, eq_of_parts, h.owed live, amount_positive));
    }

pub extended-IsWellFormed :
    (s : Stream) (new_end : ℕ)
    → IsWellFormed s
    → s.end < new_end
    → new_end ≤ u64_max
    → IsWellFormed (record s { end = new_end })
extended-IsWellFormed s new_end h later fits = record {
  total_positive = h.total_positive;
  total_fits = h.total_fits;
  withdrawn_nonneg = h.withdrawn_nonneg;
  withdrawn_le_total = h.withdrawn_le_total;
  window = omega (arith, h.window);
  end_fits = fits;
  paid_out = h.paid_out;
  owed = h.owed;
}

pub cancelled-IsWellFormed :
    (s : Stream) (now : ℕ) {v : ℤ}
    → IsWellFormed s
    → vested s now ≡ ok v
    → IsWellFormed (record s { withdrawn = v; status = cancelled })
cancelled-IsWellFormed s now h e =
    let (low, high) = vested_bounds s now h e in
    record {
      total_positive = h.total_positive;
      total_fits = h.total_fits;
      withdrawn_nonneg = low;
      withdrawn_le_total = high;
      window = h.window;
      end_fits = h.end_fits;
      paid_out = λ done. cc;
      owed = λ live. cc;
    }

-- After a payout the stream is well formed, and has reached its end if it is completed.
pub paid-IsWellFormed :
    (s : Stream) (now : ℕ) {available withdrawn : ℤ}
    → IsWellFormed s
    → s.status ≡ active
    → withdrawable s now ≡ ok available
    → pos 0 <ℤ available
    → checked_add s.withdrawn available ≡ some withdrawn
    → IsWellFormed (pay_out s withdrawn) × ((pay_out s withdrawn).status ≡ completed → s.end ≤ now)
paid-IsWellFormed s now {available} {withdrawn} h still_active due positive summed =
    let (v, good, reached) = payout_reaches_vested s now h due positive in
    let withdrawn_eq : withdrawn ≡ v =
      (checked_add-some s.withdrawn available withdrawn summed).0 ∙ reached in
    from_vested v good withdrawn_eq (vested_bounds s now h good)
  where
    from_vested :
        (v : ℤ)
        → vested s now ≡ ok v
        → withdrawn ≡ v
        → (pos 0 ≤ℤ v) × (v ≤ℤ s.total)
        → IsWellFormed (pay_out s withdrawn)
          × ((pay_out s withdrawn).status ≡ completed → s.end ≤ now)
    from_vested v good withdrawn_eq bounds = (
      record {
        total_positive = h.total_positive;
        total_fits = h.total_fits;
        withdrawn_nonneg = rw withdrawn_eq bounds.0;
        withdrawn_le_total = rw withdrawn_eq bounds.1;
        window = h.window;
        end_fits = h.end_fits;
        paid_out = λ done. eq_of_parts _ _ (ground arith);
        owed = λ live. ground arith;
      },
      λ done. vested_all-ended s now h good (ground arith),
    )

pub created-IsWellFormed :
    (sender recipient : Address) (amount : ℤ) (start end : ℕ)
    → is_valid_amount amount ≡ true
    → amount ≤ℤ i128_max
    → start < end
    → end ≤ u64_max
    → IsWellFormed (new_stream sender recipient amount start end)
unfolding is_valid_amount
created-IsWellFormed sender recipient amount start end valid fits window end_fits = record {
  total_positive = ground arith;
  total_fits = fits;
  withdrawn_nonneg = omega arith;
  withdrawn_le_total = ground arith;
  window = window;
  end_fits = end_fits;
  paid_out = λ done. cc;
  owed = λ live. ground arith;
}
