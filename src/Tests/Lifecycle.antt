-- ===== src/Tests/Lifecycle.antt =====
-- The theorems about a stream's life, on the sample states.
use stream_pay_contracts.Tests.Sample.{
  rent_found, Tokens, sample_host, env_at, rent, renting, renting-IsValid, machine,
}
use stream_pay_contracts.Base.{◌≡◌, refl, some, arith, ◌==◌}
use stream_pay_contracts.Base.Int.{pos}
use stream_pay_contracts.Base.Dict.{lookup}
use stream_pay_contracts.Types.{Stream, cancelled}
use stream_pay_contracts.Host.{Env}
use stream_pay_contracts.World.{World}
use stream_pay_contracts.Invariant.{IsValid}
use stream_pay_contracts.Trace.{invoke, start, call, create_stream, top_up, withdraw, cancel}
use stream_pay_contracts.Trace.Valid.{invoke-IsValid}
use stream_pay_contracts.Trace.Step.{Steps}
use stream_pay_contracts.Trace.Step.Calls.{invoke-Steps}
use stream_pay_contracts.Trace.Lifecycle.{IsLater, unauthorized_kept, cancelled_final, terms_kept}

invoke-Steps_example :
    Steps (env_at 150) 0 rent (invoke sample_host (env_at 150) (withdraw 0 20) renting)
invoke-Steps_example =
    invoke-Steps sample_host (env_at 150) (withdraw 0 20) 125 renting 0 rent renting-IsValid
      rent_found

-- Only 11 has signed, who has no part in the rent.
abbrev env_of_11 : Env
env_of_11 = record (env_at 150) { authorized = λ a. a == 11 }

unauthorized_kept_example :
    lookup 0 (invoke sample_host env_of_11 (create_stream 11 21 (pos 600) 0 400) renting).streams
    ≡ some rent
unauthorized_kept_example =
    unauthorized_kept sample_host env_of_11 (create_stream 11 21 (pos 600) 0 400) 125 renting 0 rent
      renting-IsValid rent_found refl refl

-- The rent is cancelled at second 150, and its recipient asks for more at second 160.
abbrev over : World Tokens
over = invoke sample_host (env_at 150) (cancel 0 10) renting

over-IsValid : IsValid 150 over
over-IsValid =
    invoke-IsValid sample_host (env_at 150) (cancel 0 10) 125 renting tt (omega arith)
      renting-IsValid

abbrev ended : Stream
ended = record rent { withdrawn = pos 500; status = cancelled }

ended_found : lookup 0 over.streams ≡ some ended
unfolding machine
ended_found = refl

cancelled_final_example :
    lookup 0 (invoke sample_host (env_at 160) (withdraw 0 20) over).streams ≡ some ended
cancelled_final_example =
    cancelled_final sample_host 0 ended over-IsValid ended_found refl
      (call start (env_at 160) (withdraw 0 20) tt (omega arith) refl refl)

terms_kept_example :
    (s : Stream) × (lookup 0
        (invoke sample_host (env_at 150) (top_up 0 10 (pos 300)) renting).streams
      ≡ some s)
    × IsLater rent s
terms_kept_example =
    terms_kept sample_host 0 rent renting-IsValid rent_found
      (call start (env_at 150) (top_up 0 10 (pos 300)) tt (omega arith) refl refl)
