-- ===== src/Tests/Handover.antt =====
-- The theorems about admin changes, on a contract with an administrator.
use stream_pay_contracts.Base.{◌≡◌, refl, some, arith}
use stream_pay_contracts.World.{World, done}
use stream_pay_contracts.Contract.Admin.{schedule_admin_transfer, set_admin}
use stream_pay_contracts.Contract.Admin.Handover.{IsHandedOver, schedule-execute, set_admin-deposed}
use stream_pay_contracts.Trace.{settle}
use stream_pay_contracts.Tests.Sample.{Tokens, sample_host, env_at, renting, machine}

-- Admin 1 schedules a transfer to 3 at second 150.
abbrev scheduled : World Tokens
scheduled = settle renting (schedule_admin_transfer sample_host (env_at 150) 1 3 renting)

schedule_runs : schedule_admin_transfer sample_host (env_at 150) 1 3 renting ≡ done 86_550 scheduled
unfolding machine
schedule_runs = refl

schedule-execute_example : IsHandedOver sample_host 3 (env_at 86_550) scheduled
schedule-execute_example =
    schedule-execute sample_host (env_at 150) (env_at 86_550) renting 1 3 schedule_runs
      (omega arith)

-- Meanwhile it makes 4 the admin.
abbrev replaced : World Tokens
replaced = settle scheduled (set_admin sample_host (env_at 200) 4 scheduled)

set_admin_runs : set_admin sample_host (env_at 200) 4 scheduled ≡ done tt replaced
unfolding machine
set_admin_runs = refl

scheduled_pending : scheduled.pending_admin ≡ some 3
unfolding machine
scheduled_pending = refl

scheduled_lock : scheduled.admin_action_execute_after ≡ some 86_550
unfolding machine
scheduled_lock = refl

set_admin-deposed_example :
    (replaced.admin ≡ some 4) × IsHandedOver sample_host 3 (env_at 86_550) replaced
set_admin-deposed_example =
    set_admin-deposed sample_host (env_at 200) (env_at 86_550) scheduled scheduled_pending
      scheduled_lock set_admin_runs (omega arith)
