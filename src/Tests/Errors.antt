-- ===== src/Tests/Errors.antt =====
-- A creation past the supply cap.
use stream_pay_contracts.Base.{◌≡◌, refl, arith}
use stream_pay_contracts.Base.Int.{pos}
use stream_pay_contracts.Error.{supply_cap_exceeded}
use stream_pay_contracts.World.{World, Outcome, fail}
use stream_pay_contracts.Contract.Create
use stream_pay_contracts.Trace.{create_stream}
use stream_pay_contracts.Trace.Errors.{Fails, errors_first}
use stream_pay_contracts.Tests.Sample.{Tokens, sample_host, env_at, renting, machine}

-- The world of a call that failed.
abbrev left_by : {A : Type 0} → World Tokens → Outcome Tokens A → World Tokens
left_by w (fail _ w') = w'
left_by w _ = w

abbrev refused : World Tokens
refused =
    left_by renting (Create.create_stream sample_host (env_at 150) 11 21 (pos 1500) 0 400 renting)

cap_passed :
    Fails sample_host
      (env_at 150)
      (create_stream 11 21 (pos 1500) 0 400)
      renting
      supply_cap_exceeded
      refused
unfolding Fails machine
cap_passed = refl

errors_first_example : refused ≡ renting
errors_first_example =
    errors_first sample_host (env_at 150) (create_stream 11 21 (pos 1500) 0 400) renting
      supply_cap_exceeded refused (omega arith) cap_passed
