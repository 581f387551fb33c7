-- ===== src/Tests/Cash.antt =====
-- A cash book kept from the published events: setup, a stream, a withdrawal, a cancellation.
use stream_pay_contracts.Base.{◌≡◌, refl, some, arith}
use stream_pay_contracts.Base.Int.{pos, ◌+ℤ◌}
use stream_pay_contracts.World.{World}
use stream_pay_contracts.Trace.{
  invoke, deployed, Run, start, call, initialize, create_stream, withdraw, cancel,
}
use stream_pay_contracts.Trace.Replay.{observe, update}
use stream_pay_contracts.Trace.Cash.{cash, cash_from, flow, moved, moved_if_positive, settled}
use stream_pay_contracts.Trace.Cash.Calls.{Here, Rests, Run-IsBooked}
use stream_pay_contracts.Tests.Story.{drawn}
use stream_pay_contracts.Tests.Sample.{Tokens, sample_host, sample_laws, env_at, balances, machine}

abbrev ended : World Tokens
ended = invoke sample_host (env_at 160) (cancel 0 10) drawn

run : Run sample_host (Here 100) (Rests sample_host) 0 (deployed balances) 160 ended
run =
    call
      (call
        (call (call start (env_at 50) (initialize 1 2) refl (omega arith) refl refl) (env_at 100)
          (create_stream 10 20 (pos 1000) 0 200) refl (omega arith) refl refl)
        (env_at 150) (withdraw 0 20) refl (omega arith) refl refl)
      (env_at 160) (cancel 0 10) refl (omega arith) refl refl

ended_token : ended.token ≡ some 2
unfolding machine
ended_token = refl

-- 500 by the withdrawal and 100 by the cancellation.
cash_recipient : cash 100 ended.events 20 ≡ pos 600
unfolding machine cash cash_from flow moved moved_if_positive settled observe update
cash_recipient = refl

Run-IsBooked_example : ended.tokens 20 ≡ balances 20 +ℤ cash 100 ended.events 20
Run-IsBooked_example = Run-IsBooked sample_host sample_laws 100 2 balances run ended_token 20
