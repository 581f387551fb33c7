-- ===== src/Tests/Traces.antt =====
-- The theorems about sequences of calls, on a deployment, a setup and a creation.
use stream_pay_contracts.Base.{◌+◌, ◌≤◌, ◌≡◌, refl, none, arith, unwrap_or}
use stream_pay_contracts.Base.Int.{pos, u64_max}
use stream_pay_contracts.World.{World, done}
use stream_pay_contracts.Contract.Admin
use stream_pay_contracts.Invariant.{IsValid, IsTracked, AllStreams}
use stream_pay_contracts.Trace.{
  invoke, settle, deployed, Run, start, call, initialize, create_stream, schedule_admin_transfer,
  Typed, Unbatched, AnyMove,
}
use stream_pay_contracts.Trace.Valid.{Run-IsValid}
use stream_pay_contracts.Trace.Tracked.{Run-IsTracked}
use stream_pay_contracts.Trace.Timelock.{timelock_enforced}
use stream_pay_contracts.Trace.Ranges.{IsInRange, StreamInRange}
use stream_pay_contracts.Trace.Ranges.Calls.{Run-IsInRange}
use stream_pay_contracts.Tests.Sample.{Tokens, sample_host, env_at, balances, machine}

abbrev set_up : World Tokens
set_up = invoke sample_host (env_at 50) (initialize 1 2) (deployed balances)

abbrev opened : World Tokens
opened = invoke sample_host (env_at 60) (create_stream 10 20 (pos 1000) 0 200) set_up

run : Run sample_host Typed AnyMove 0 (deployed balances) 60 opened
run =
    call (call start (env_at 50) (initialize 1 2) tt (omega arith) refl refl) (env_at 60)
      (create_stream 10 20 (pos 1000) 0 200) (omega arith, omega arith) (omega arith) refl refl

plain-Run : Run sample_host Unbatched AnyMove 0 (deployed balances) 60 opened
plain-Run =
    call (call start (env_at 50) (initialize 1 2) tt (omega arith) refl refl) (env_at 60)
      (create_stream 10 20 (pos 1000) 0 200) (omega arith, omega arith) (omega arith) refl refl

Run-IsValid_example : IsValid 60 opened
Run-IsValid_example = Run-IsValid sample_host balances run

Run-IsTracked_example : IsValid 60 opened × IsTracked opened
Run-IsTracked_example = Run-IsTracked sample_host balances plain-Run

-- A transfer scheduled at second 70 executes a day later.
abbrev scheduled : World Tokens
scheduled = invoke sample_host (env_at 70) (schedule_admin_transfer 1 3) set_up

abbrev executed : World Tokens
executed = settle scheduled (Admin.execute_admin_transfer sample_host (env_at 90_000) scheduled)

execute_runs : Admin.execute_admin_transfer sample_host (env_at 90_000) scheduled ≡ done tt executed
unfolding machine
execute_runs = refl

set_up_unscheduled : set_up.admin_action_execute_after ≡ none
unfolding machine
set_up_unscheduled = refl

timelock_enforced_example : 50 + 86_400 ≤ 90_000
timelock_enforced_example =
    timelock_enforced sample_host 50 set_up (env_at 90_000) set_up_unscheduled
      (call start (env_at 70) (schedule_admin_transfer 1 3) tt (omega arith) refl refl) execute_runs

Run-IsInRange_example :
    IsInRange opened
    × AllStreams StreamInRange opened.streams
    × (unwrap_or opened.counter 0 ≤ u64_max)
Run-IsInRange_example = Run-IsInRange sample_host balances run
