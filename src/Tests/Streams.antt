-- ===== src/Tests/Streams.antt =====
-- The theorems about opening, topping up and extending a stream, on the sample states.
use stream_pay_contracts.Base.{◌≡◌, refl}
use stream_pay_contracts.Base.Int.{pos, ◌<ℤ◌}
use stream_pay_contracts.Contract.Views.{withdrawable_amount}
use stream_pay_contracts.Contract.Create.{create_stream}
use stream_pay_contracts.Contract.Withdraw.{withdraw}
use stream_pay_contracts.Contract.Withdraw.Complete.{withdraw-exhausts}
use stream_pay_contracts.World.{World, done}
use stream_pay_contracts.Contract.TopUp.{top_up}
use stream_pay_contracts.Trace.{settle}
use stream_pay_contracts.Tests.Sample.{
  Tokens, sample_host, env_at, renting, renting-IsValid, machine,
}

-- A second stream of 600, from now to second 400.
abbrev opened_150 : World Tokens
opened_150 = settle renting (create_stream sample_host (env_at 150) 11 21 (pos 600) 0 400 renting)

-- 300 more for the rent.
abbrev raised_150 : World Tokens
raised_150 = settle renting (top_up sample_host (env_at 150) 0 10 (pos 300) renting)

top_up_runs : top_up sample_host (env_at 150) 0 10 (pos 300) renting ≡ done (pos 1300) raised_150
unfolding machine
top_up_runs = refl

-- At second 150 there are 250 to withdraw, and nothing after the withdrawal.
withdraw_runs :
    withdraw sample_host (env_at 150) 0 20 renting
    ≡ done (pos 250) (settle renting (withdraw sample_host (env_at 150) 0 20 renting))
unfolding machine
withdraw_runs = refl

withdraw-exhausts_example :
    (pos 0 <ℤ pos 250)
    × (withdrawable_amount (env_at 150) 0 renting ≡ done (pos 250) renting)
    × (withdrawable_amount
          (env_at 150)
          0
          (settle renting (withdraw sample_host (env_at 150) 0 20 renting))
        ≡ done (pos 0) (settle renting (withdraw sample_host (env_at 150) 0 20 renting)))
withdraw-exhausts_example =
    withdraw-exhausts sample_host (env_at 150) 0 20 125 renting renting-IsValid withdraw_runs
