-- ===== src/Tests/Replay.antt =====
-- A catalog built from the published events: setup, a stream, a withdrawal, a cancellation.
use stream_pay_contracts.Base.{◌≡◌, refl, arith}
use stream_pay_contracts.Base.Int.{pos}
use stream_pay_contracts.World.{World}
use stream_pay_contracts.Trace.{
  invoke, deployed, Run, start, call, initialize, create_stream, withdraw, cancel, AnyCall, AnyMove,
}
use stream_pay_contracts.Trace.Replay.{replay, catalog}
use stream_pay_contracts.Trace.Replay.Calls.{Run-IsLogged}
use stream_pay_contracts.Tests.Story.{drawn}
use stream_pay_contracts.Tests.Sample.{Tokens, sample_host, env_at, balances}

abbrev ended : World Tokens
ended = invoke sample_host (env_at 160) (cancel 0 10) drawn

run : Run sample_host AnyCall AnyMove 0 (deployed balances) 160 ended
run =
    call
      (call
        (call (call start (env_at 50) (initialize 1 2) tt (omega arith) refl refl) (env_at 100)
          (create_stream 10 20 (pos 1000) 0 200) tt (omega arith) refl refl)
        (env_at 150) (withdraw 0 20) tt (omega arith) refl refl)
      (env_at 160) (cancel 0 10) tt (omega arith) refl refl

Run-IsLogged_example : replay ended.events ≡ catalog ended.streams
Run-IsLogged_example = Run-IsLogged sample_host balances run
