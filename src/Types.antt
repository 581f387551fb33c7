-- ===== src/Types.antt =====
-- The data types of src/types.rs. An address is only compared, so it is a number.
pub mod Valid
use stream_pay_contracts.Base.{ℕ, Bool, true, false}
use stream_pay_contracts.Base.Int.{ℤ}

abbrev pub Address : Type 0
Address = ℕ

pub record StreamRequest : Type 0 where
  pub recipient : Address
  pub total_amount : ℤ  -- i128
  pub start_time : ℕ  -- u64
  pub end_time : ℕ  -- u64

pub data Status : Type 0 where
  active cancelled completed : Status

pub Status-discrete : Discrete Status
Status-discrete = hlevel

-- `==` on a status
abbrev pub is_status_active : Status → Bool
is_status_active active = true
is_status_active _ = false

abbrev pub is_status_cancelled : Status → Bool
is_status_cancelled cancelled = true
is_status_cancelled _ = false

abbrev pub is_status_completed : Status → Bool
is_status_completed completed = true
is_status_completed _ = false

pub record StreamSummary : Type 0 where
  pub total : ℤ  -- i128
  pub vested : ℤ  -- i128
  pub withdrawn : ℤ  -- i128
  pub withdrawable : ℤ  -- i128
  pub progress_bps : ℕ  -- u32
  pub status : Status

pub record Stream : Type 0 where
  pub sender : Address
  pub recipient : Address
  pub total : ℤ  -- i128
  pub withdrawn : ℤ  -- i128
  pub start : ℕ  -- u64
  pub end : ℕ  -- u64
  pub status : Status
