-- ===== src/Tests/Exact.antt =====
-- An extension of the rent to second 300, against its description.
use stream_pay_contracts.Base.{◌≡◌, ◌↔◌}
use stream_pay_contracts.World.{World, done}
use stream_pay_contracts.Contract.Extend.{extend_stream}
use stream_pay_contracts.Contract.Extend.Effect.{IsExtension}
use stream_pay_contracts.Trace.{settle}
use stream_pay_contracts.Trace
use stream_pay_contracts.Trace.Exact.{perform-done_iff}
use stream_pay_contracts.Tests.Sample.{Tokens, sample_host, env_at, renting}

abbrev longer : World Tokens
longer = settle renting (extend_stream sample_host (env_at 150) 0 10 300 renting)

perform-done_iff_example :
    (extend_stream sample_host (env_at 150) 0 10 300 renting ≡ done tt longer)
    ↔ IsExtension sample_host (env_at 150) 0 10 300 renting longer
perform-done_iff_example =
    perform-done_iff sample_host (env_at 150) renting longer (Trace.extend_stream 0 10 300) tt
