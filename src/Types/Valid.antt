-- ===== src/Types/Valid.antt =====
-- What the entry points keep true of every stored stream.
use stream_pay_contracts.Base.{◌<◌, ◌≤◌, ◌≡◌}
use stream_pay_contracts.Base.Int.{pos, ◌≤ℤ◌, ◌<ℤ◌, i128_max, u64_max}
use stream_pay_contracts.Types.{Stream, active, completed}

pub record IsWellFormed (s : Stream) : Type 0 where
  pub total_positive : pos 1 ≤ℤ s.total
  pub total_fits : s.total ≤ℤ i128_max
  pub withdrawn_nonneg : pos 0 ≤ℤ s.withdrawn
  pub withdrawn_le_total : s.withdrawn ≤ℤ s.total
  pub window : s.start < s.end
  pub end_fits : s.end ≤ u64_max
  pub paid_out : s.status ≡ completed → s.withdrawn ≡ s.total
  pub owed : s.status ≡ active → s.withdrawn <ℤ s.total
