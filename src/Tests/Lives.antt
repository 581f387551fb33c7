-- ===== src/Tests/Lives.antt =====
-- The lives of entries on the sample host, after a withdrawal.
use stream_pay_contracts.Base.{ℕ, ◌+◌, ◌≤◌, arith, ltb, if◌then◌else◌}
use stream_pay_contracts.Trace.{invoke, withdraw}
use stream_pay_contracts.Trace.Lives.{ExtendsLife, IsLasting}
use stream_pay_contracts.Trace.Lives.Calls.{invoke-IsLasting}
use stream_pay_contracts.Tests.Sample.{sample_host, env_at, renting}

set_keeps : (s l : ℕ) → l ≤ (if ltb l s then s else l)
set_keeps s l = ground arith

extend_keeps : (s l t e : ℕ) → t ≤ e → l ≤ (if ltb l (s + t) then s + e else l)
extend_keeps s l t e h = ground arith

extend_reaches : (s l t e : ℕ) → t ≤ e → s + t ≤ (if ltb l (s + t) then s + e else l)
extend_reaches s l t e h = ground arith

sample_lives : ExtendsLife sample_host
sample_lives = record {
  set_keeps = set_keeps;
  extend_keeps = extend_keeps;
  extend_reaches = extend_reaches;
}

invoke-IsLasting_example :
    IsLasting (env_at 150) renting (invoke sample_host (env_at 150) (withdraw 0 20) renting) 0
invoke-IsLasting_example =
    invoke-IsLasting sample_host sample_lives (env_at 150) 0 renting (withdraw 0 20)
