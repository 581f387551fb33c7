-- ===== src/Tests/Views.antt =====
-- The theorems about the views, on the sample stream at second 150.
use stream_pay_contracts.Tests.Sample.{
  rent_found, env_at, rent, rent-IsWellFormed, renting, machine,
}
use stream_pay_contracts.Base.{◌≡◌, ◌*◌, ◌/◌, ◌≤◌, refl}
use stream_pay_contracts.Base.Int.{pos}
use stream_pay_contracts.Types.{StreamSummary, active}
use stream_pay_contracts.World.{done}
use stream_pay_contracts.Vesting
use stream_pay_contracts.Contract.Views.{
  as_u32, get_stream, get_status, get_summary, streamed_amount, progress_bps, withdrawable_amount,
  percent_withdrawn, withdrawn_bps,
}
use stream_pay_contracts.Contract.Views.Agreement.{get_summary_agrees, percent_withdrawn_lem}

abbrev summary : StreamSummary
summary = record {
  total = pos 1000;
  vested = pos 500;
  withdrawn = pos 250;
  withdrawable = pos 250;
  progress_bps = 5000;
  status = active;
}

summary_runs : get_summary (env_at 150) 0 renting ≡ done summary renting
unfolding machine get_summary get_stream Vesting.progress_bps
summary_runs = refl

get_summary_agrees_example :
    (streamed_amount (env_at 150) 0 renting ≡ done (pos 500) renting)
    × (withdrawable_amount (env_at 150) 0 renting ≡ done (pos 250) renting)
    × (progress_bps (env_at 150) 0 renting ≡ done 5000 renting)
    × (get_status 0 renting ≡ done active renting)
get_summary_agrees_example = get_summary_agrees (env_at 150) 0 renting summary_runs

percent_runs : percent_withdrawn 0 renting ≡ done 2500 renting
unfolding machine percent_withdrawn withdrawn_bps get_stream as_u32
percent_runs = refl

percent_withdrawn_lem_example : (2500 ≡ 250 * 10_000 / 1000) × (2500 ≤ 10_000)
percent_withdrawn_lem_example =
    percent_withdrawn_lem 0 renting rent rent_found rent-IsWellFormed percent_runs
