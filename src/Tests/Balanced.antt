-- ===== src/Tests/Balanced.antt =====
-- The contract's balance after a setup, a stream, a withdrawal and an extension.
use stream_pay_contracts.Base.{◌≡◌, refl, some, arith}
use stream_pay_contracts.Base.Int.{pos, ◌+ℤ◌}
use stream_pay_contracts.Trace.{
  deployed, Run, start, call, initialize, create_stream, withdraw, extend_stream,
}
use stream_pay_contracts.Tests.Story.{longer, spared}
use stream_pay_contracts.Tests.Sample.{sample_host, sample_laws, env_at, balances, machine}
use stream_pay_contracts.Invariant.{escrow}
use stream_pay_contracts.Trace.Balanced.Runs.{Apart, Keeps, Run-IsBalanced}

run :
    Run sample_host (Apart sample_host 100) (Keeps sample_host 100) 0 (deployed balances) 190 longer
run =
    call
      (call
        (call
          (call start (env_at 50) (initialize 1 2) ((refl, tt, omega arith), tt) (omega arith) refl
            refl)
          (env_at 100) (create_stream 10 20 (pos 1000) 0 200)
          ((refl, (omega arith, omega arith), omega arith), (omega arith, omega arith))
          (omega arith) refl refl)
        (env_at 150) (withdraw 0 20) ((refl, tt, tt), tt) (omega arith) refl refl)
      (env_at 190) (extend_stream 0 10 250) ((refl, omega arith, spared), tt) (omega arith) refl
      refl

longer_token : longer.token ≡ some 2
unfolding machine
longer_token = refl

-- 500 are still held.
longer_escrow : escrow longer.streams ≡ pos 500
unfolding machine
longer_escrow = refl

Run-IsBalanced_example : longer.tokens 100 ≡ balances 100 +ℤ escrow longer.streams
Run-IsBalanced_example = Run-IsBalanced sample_host sample_laws 100 2 balances run longer_token
