-- ===== src/Tests/Causes.antt =====
-- An extension of the rent to second 150, which is not later than its end.
use stream_pay_contracts.Base.{◌≤◌, ◌≡◌, refl, some}
use stream_pay_contracts.Base.Dict.{lookup}
use stream_pay_contracts.Error.{invalid_time_range}
use stream_pay_contracts.Types.{Stream}
use stream_pay_contracts.World.{fail}
use stream_pay_contracts.Contract.Extend.{extend_stream}
use stream_pay_contracts.Trace
use stream_pay_contracts.Trace.Causes.Calls.{perform-IsCause}
use stream_pay_contracts.Tests.Sample.{sample_host, env_at, renting, renting-IsValid, machine}

refused : extend_stream sample_host (env_at 125) 0 10 150 renting ≡ fail invalid_time_range renting
unfolding machine
refused = refl

perform-IsCause_example : (s : Stream) × (lookup 0 renting.streams ≡ some s) × (150 ≤ s.end)
perform-IsCause_example =
    perform-IsCause sample_host (env_at 125) 125 renting (Trace.extend_stream 0 10 150)
      renting-IsValid refused
