-- ===== src/Tests/Office.antt =====
-- The administrator's office on the sample state.
use stream_pay_contracts.Base.{ℕ, ◌≡◌, refl, not, arith, ◌==◌}
use stream_pay_contracts.Host.{Env}
use stream_pay_contracts.World.{World}
use stream_pay_contracts.Trace.{
  invoke, Run, start, call, withdraw, upgrade, schedule_admin_transfer, AnyMove,
}
use stream_pay_contracts.Trace.Office.{Rules, office_of}
use stream_pay_contracts.Trace.Office.Calls.{Unsigned, invoke-Rules, Run-unauthorized}
use stream_pay_contracts.Tests.Sample.{Tokens, sample_host, env_at, renting}

invoke-Rules_example :
    Rules
      (env_at 150)
      (office_of renting)
      (office_of (invoke sample_host (env_at 150) (schedule_admin_transfer 1 3) renting))
invoke-Rules_example = invoke-Rules sample_host (env_at 150) renting (schedule_admin_transfer 1 3)

-- Everybody but the administrator, who is 1, signs.
abbrev unsigned_at : ℕ → Env
unsigned_at timestamp = record (env_at timestamp) { authorized = λ a. not (a == 1) }

abbrev paid : World Tokens
paid = invoke sample_host (unsigned_at 150) (withdraw 0 20) renting

abbrev tried : World Tokens
tried = invoke sample_host (unsigned_at 160) (upgrade 99) paid

quiet-Run : Run sample_host (Unsigned 1) AnyMove 125 renting 160 tried
quiet-Run =
    call (call start (unsigned_at 150) (withdraw 0 20) refl (omega arith) refl refl)
      (unsigned_at 160) (upgrade 99) refl (omega arith) refl refl

Run-unauthorized_example : office_of tried ≡ office_of renting
Run-unauthorized_example = Run-unauthorized sample_host 1 125 renting refl refl quiet-Run
