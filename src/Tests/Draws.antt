-- ===== src/Tests/Draws.antt =====
-- The rent withdrawn at second 150 and again at second 180, and once at second 180.
use stream_pay_contracts.Base.{ℕ, ◌≡◌, refl, some}
use stream_pay_contracts.Base.Int.{pos}
use stream_pay_contracts.World.{World, done}
use stream_pay_contracts.Contract.Withdraw.{withdraw}
use stream_pay_contracts.Trace.{settle}
use stream_pay_contracts.Trace.Draws.{Draws, one, more}
use stream_pay_contracts.Trace.Draws.AsOne.{withdrawals_as_one}
use stream_pay_contracts.Tests.Sample.{
  Tokens, sample_host, sample_laws, env_at, balances, moved, rent, rent-IsWellFormed, rent_found,
  renting, machine,
}

abbrev early : World Tokens
early = settle renting (withdraw sample_host (env_at 150) 0 20 renting)

early_runs : withdraw sample_host (env_at 150) 0 20 renting ≡ done (pos 250) early
unfolding machine
early_runs = refl

abbrev late : World Tokens
late = settle early (withdraw sample_host (env_at 180) 0 20 early)

late_runs : withdraw sample_host (env_at 180) 0 20 early ≡ done (pos 300) late
unfolding machine
late_runs = refl

both : Draws sample_host 100 0 20 renting 180 (pos 550) late
unfolding machine
both = more (one (env_at 150) refl refl early_runs) (env_at 180) refl refl late_runs refl

made : sample_host.transfer balances 2 100 20 (pos 550) ≡ some (moved balances 100 20 (pos 550))
made = refl

withdrawals_as_one_example :
    (w' : World Tokens) × (withdraw sample_host (env_at 180) 0 20 renting ≡ done (pos 550) w')
    × (w'.streams ≡ late.streams)
    × ((holder : ℕ) → w'.tokens holder ≡ late.tokens holder)
withdrawals_as_one_example =
    withdrawals_as_one sample_host sample_laws 2 0 rent renting (env_at 180)
      (moved balances 100 20 (pos 550)) rent-IsWellFormed rent_found refl both refl made
