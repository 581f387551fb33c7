-- ===== src/Normalize.antt =====
-- The input normalization of src/normalize.rs.
use stream_pay_contracts.Base.{ℕ, leb, ◌==◌, if◌then◌else◌}

abbrev pub start_now : ℕ
start_now = 0

unfoldable pub normalize_start_time : ℕ → ℕ → ℕ
normalize_start_time now start_time = if start_time == start_now then now else start_time

unfoldable pub clamp_to_window : ℕ → ℕ → ℕ → ℕ
clamp_to_window start end now = if leb now start then start else if leb end now then end else now
