-- ===== src/Tests/Capped.antt =====
-- A cap of 2000, and then a stream of 1000.
use stream_pay_contracts.Base.{refl, arith}
use stream_pay_contracts.Base.Int.{pos, ◌≤ℤ◌}
use stream_pay_contracts.World.{World}
use stream_pay_contracts.Invariant.{escrow, supply}
use stream_pay_contracts.Trace.{
  invoke, deployed, Run, start, call, initialize, set_supply_cap, create_stream, AnyMove,
}
use stream_pay_contracts.Trace.Ranges.{cap}
use stream_pay_contracts.Trace.Capped.{Roomy, Run-IsCapped}
use stream_pay_contracts.Tests.Sample.{Tokens, sample_host, env_at, balances, machine}
use stream_pay_contracts.Tests.Story.{set_up}

abbrev limited : World Tokens
limited = invoke sample_host (env_at 60) (set_supply_cap (pos 2000)) set_up

abbrev filled : World Tokens
filled = invoke sample_host (env_at 100) (create_stream 10 20 (pos 1000) 0 200) limited

roomy : supply set_up ≤ℤ pos 2000
unfolding machine
roomy = omega arith

run : Run sample_host Roomy AnyMove 0 (deployed balances) 100 filled
run =
    call
      (call (call start (env_at 50) (initialize 1 2) (tt, tt) (omega arith) refl refl) (env_at 60)
        (set_supply_cap (pos 2000)) ((omega arith, omega arith), roomy) (omega arith) refl refl)
      (env_at 100) (create_stream 10 20 (pos 1000) 0 200) ((omega arith, omega arith), tt)
      (omega arith) refl refl

Run-IsCapped_example : escrow filled.streams ≤ℤ cap filled
Run-IsCapped_example = Run-IsCapped sample_host balances run
