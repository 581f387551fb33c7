-- ===== src/Tests/Story.antt =====
-- A setup, a stream of 1000 from 10 to 20, a withdrawal halfway, and an extension.
use stream_pay_contracts.Base.{◌≡◌, some, some-injective, subst, arith}
use stream_pay_contracts.Base.Int.{pos, ◌≤ℤ◌}
use stream_pay_contracts.Base.Dict.{lookup}
use stream_pay_contracts.Types.{Stream}
use stream_pay_contracts.Vesting.Bounds.{scheduled}
use stream_pay_contracts.World.{World}
use stream_pay_contracts.Trace.{
  invoke, deployed, initialize, create_stream, withdraw, extend_stream,
}
use stream_pay_contracts.Tests.Sample.{Tokens, sample_host, env_at, balances, machine}

abbrev pub set_up : World Tokens
set_up = invoke sample_host (env_at 50) (initialize 1 2) (deployed balances)

abbrev pub opened : World Tokens
opened = invoke sample_host (env_at 100) (create_stream 10 20 (pos 1000) 0 200) set_up

abbrev pub drawn : World Tokens
drawn = invoke sample_host (env_at 150) (withdraw 0 20) opened

-- 500 are withdrawn: by second 190 the longer schedule has given 600.
abbrev pub longer : World Tokens
longer = invoke sample_host (env_at 190) (extend_stream 0 10 250) drawn

pub spared :
    (s : Stream)
    → lookup 0 drawn.streams ≡ some s
    → s.withdrawn ≤ℤ pos (scheduled (record s { end = 250 }) 190)
unfolding machine
spared s found =
    subst (λ x. x.withdrawn ≤ℤ pos (scheduled (record x { end = 250 }) 190)) (some-injective found)
      (omega arith)
