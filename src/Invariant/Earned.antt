-- ===== src/Invariant/Earned.antt =====
-- Streams of which no more was withdrawn than has vested, and the entry points of src/lib.rs.
use stream_pay_contracts.Base.{ℕ, ◌≤◌, ◌<◌, ◌≡◌, false, true, arith}
use stream_pay_contracts.Base.Int.{ℤ, pos, pos_part, ◌≤ℤ◌, ◌+ℤ◌, +ℤ_parts}
use stream_pay_contracts.Constants.{is_valid_amount}
use stream_pay_contracts.Types.{Address, Stream, cancelled, is_status_cancelled}
use stream_pay_contracts.Vesting.Schedule.{linear_mono, linear_mono_total}
use stream_pay_contracts.Vesting.Bounds.{scheduled}
use stream_pay_contracts.Contract.Create.{new_stream}
use stream_pay_contracts.Contract.Withdraw.{pay_out}

-- Of a stream that is not cancelled no more was withdrawn than its schedule gives at `now`.
pub record IsEarned (now id : ℕ) (s : Stream) : Type 0 where
  pub window : s.start < s.end
  pub earned : is_status_cancelled s.status ≡ false → s.withdrawn ≤ℤ pos (scheduled s now)

-- The schedule never falls.
pub IsEarned-later :
    {now later : ℕ} (id : ℕ) (s : Stream) → now ≤ later → IsEarned now id s → IsEarned later id s
IsEarned-later {now} {later} id s passed h = record {
  window = h.window;
  earned = λ live. omega (
    arith,
    h.earned live,
    linear_mono (pos_part s.total) s.start s.end now later h.window passed,
  );
}

pub new-IsEarned :
    (now id : ℕ) (sender recipient : Address) (amount : ℤ) (start end : ℕ)
    → start < end
    → IsEarned now id (new_stream sender recipient amount start end)
new-IsEarned now id sender recipient amount start end window = record {
  window = window;
  earned = λ live. omega arith;
}

-- A valid amount adds to a total.
pub amount_grows : (t a : ℤ) → is_valid_amount a ≡ true → t ≤ℤ t +ℤ a
unfolding is_valid_amount
amount_grows t a h = grind (arith, +ℤ_parts)

pos_part_mono : (t u : ℤ) → pos 1 ≤ℤ t → t ≤ℤ u → pos_part t ≤ pos_part u
pos_part_mono t u h k = ground arith

pub raised-IsEarned :
    (now id : ℕ) (s : Stream) (amount total : ℤ)
    → pos 1 ≤ℤ s.total
    → is_valid_amount amount ≡ true
    → total ≡ s.total +ℤ amount
    → IsEarned now id s
    → IsEarned now id (record s { total = total })
raised-IsEarned now id s amount total low valid sum h =
    let more = pos_part_mono s.total total low (rw sum (amount_grows s.total amount valid)) in
    record {
      window = h.window;
      earned = λ live. omega (
        arith,
        h.earned live,
        linear_mono_total (pos_part s.total) (pos_part total) s.start s.end now more,
      );
    }

pub paid-IsEarned :
    (now id : ℕ) (s : Stream) (withdrawn : ℤ)
    → withdrawn ≡ pos (scheduled s now)
    → IsEarned now id s
    → IsEarned now id (pay_out s withdrawn)
paid-IsEarned now id s withdrawn reached h = record {
  window = h.window;
  earned = λ live. rw reached (omega arith);
}

pub cancelled-IsEarned :
    (now id : ℕ) (s : Stream) (v : ℤ)
    → IsEarned now id s
    → IsEarned now id (record s { withdrawn = v; status = cancelled })
cancelled-IsEarned now id s v h = record { window = h.window; earned = λ live. cc }
