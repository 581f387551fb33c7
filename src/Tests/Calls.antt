-- ===== src/Tests/Calls.antt =====
-- The theorems about single calls on the sample states.
use stream_pay_contracts.Tests.Sample.{
  half_vested, rent_found, Tokens, sample_host, sample_laws, env_at, rent, rent-IsWellFormed,
  renting, renting-IsValid, machine,
}
use stream_pay_contracts.Base.{◌≡◌, refl, some, List, [], ◌∷◌, arith, ◌==◌, if◌then◌else◌}
use stream_pay_contracts.Base.Int.{pos, ◌+ℤ◌, ◌-ℤ◌}
use stream_pay_contracts.Error.{ok}
use stream_pay_contracts.Types.{StreamRequest, Stream}
use stream_pay_contracts.Types.Valid.{IsWellFormed}
use stream_pay_contracts.World.{World, done}
use stream_pay_contracts.Contract.Batch.{create_stream_batch}
use stream_pay_contracts.Contract.Batch.Effect.{amounts}
use stream_pay_contracts.Contract.Withdraw.{withdraw}
use stream_pay_contracts.Contract.Cancel.{cancel}
use stream_pay_contracts.Invariant.{IsValid, escrow, supply}
use stream_pay_contracts.Invariant.Batch.{create_stream_batch-supply, AllTyped}
use stream_pay_contracts.Invariant.Solvency.{withdraw_pays}
use stream_pay_contracts.Invariant.Solvency.Cancellation.{cancel_pays, cancel_overpays}
use stream_pay_contracts.Base.Dict.{lookup}
use stream_pay_contracts.Vesting.{vested}
use stream_pay_contracts.Invariant.WellFormed.{extended-IsWellFormed}
use stream_pay_contracts.Invariant.Payments.{positive_part}
use stream_pay_contracts.Trace.{settle}

-- At second 150 half of the rent has vested, and 250 of that is still to be withdrawn.
abbrev withdrawn_150 : World Tokens
withdrawn_150 = settle renting (withdraw sample_host (env_at 150) 0 20 renting)

withdraw_runs : withdraw sample_host (env_at 150) 0 20 renting ≡ done (pos 250) withdrawn_150
unfolding machine
withdraw_runs = refl

withdraw_pays_example :
    (withdrawn_150.tokens 20 ≡ pos 5000 +ℤ pos 250)
    × (withdrawn_150.tokens 100 ≡ pos 750 -ℤ pos 250)
    × (escrow withdrawn_150.streams ≡ escrow renting.streams -ℤ pos 250)
withdraw_pays_example =
    withdraw_pays sample_host sample_laws (env_at 150) 2 125 renting renting-IsValid refl 0 20
      (omega arith) withdraw_runs

-- A cancellation at second 150 pays 250 to the recipient and 500 to the sender.
abbrev cancelled_150 : World Tokens
cancelled_150 = settle renting (cancel sample_host (env_at 150) 0 10 renting)

cancel_runs : cancel sample_host (env_at 150) 0 10 renting ≡ done tt cancelled_150
unfolding machine
cancel_runs = refl

cancel_pays_example :
    (cancelled_150.tokens 100
      ≡ pos 750 -ℤ positive_part (pos 500 -ℤ pos 250) -ℤ positive_part (pos 1000 -ℤ pos 500))
    × (escrow cancelled_150.streams ≡ escrow renting.streams -ℤ (pos 1000 -ℤ pos 250))
cancel_pays_example =
    cancel_pays sample_host sample_laws (env_at 150) 2 125 renting renting-IsValid refl 0 10 rent
      (pos 500) rent_found half_vested (omega arith) (omega arith) cancel_runs

-- The same stream with its end pushed back, beside another stream: 250 were withdrawn, of which
-- only 5 would have vested by now.
abbrev stretched : Stream
stretched = record rent { end = 10_000 }

abbrev other_rent : Stream
other_rent = record rent { sender = 11; total = pos 1250; withdrawn = pos 0 }

abbrev shared : World Tokens
shared = record renting {
  counter = some 2;
  total_supply = some (pos 2000);
  streams = (0, stretched) ∷ (1, other_rent) ∷ [];
  tokens = λ holder. if holder == 100 then pos 2000 else pos 5000;
}

stretched-IsWellFormed : IsWellFormed stretched
stretched-IsWellFormed =
    extended-IsWellFormed rent 10_000 rent-IsWellFormed (omega arith) (omega arith)

other_rent-IsWellFormed : IsWellFormed other_rent
other_rent-IsWellFormed = record {
  total_positive = omega arith;
  total_fits = omega arith;
  withdrawn_nonneg = omega arith;
  withdrawn_le_total = omega arith;
  window = omega arith;
  end_fits = omega arith;
  paid_out = λ done. cc;
  owed = λ live. omega arith;
}

shared-IsValid : IsValid 125 shared
shared-IsValid = record {
  sound = (
    record { well_formed = stretched-IsWellFormed; settled = λ done. cc; numbered = omega arith },
    (
      record {
        well_formed = other_rent-IsWellFormed;
        settled = λ done. cc;
        numbered = omega arith;
      },
      tt,
    ),
  );
  counter_fits = omega arith;
  fresh = λ unset. cc;
}

abbrev overpaid : World Tokens
overpaid = settle shared (cancel sample_host (env_at 150) 0 10 shared)

overpaid_runs : cancel sample_host (env_at 150) 0 10 shared ≡ done tt overpaid
unfolding machine
overpaid_runs = refl

little_vested : vested stretched 150 ≡ ok (pos 5)
unfolding machine
little_vested = refl

stretched_found : lookup 0 shared.streams ≡ some stretched
unfolding lookup
stretched_found = refl

cancel_overpays_example :
    (overpaid.tokens 100 +ℤ (pos 250 -ℤ pos 5) ≡ pos 2000 -ℤ (pos 1000 -ℤ pos 250))
    × (escrow overpaid.streams ≡ escrow shared.streams -ℤ (pos 1000 -ℤ pos 250))
cancel_overpays_example =
    cancel_overpays sample_host sample_laws (env_at 150) 2 125 shared shared-IsValid refl 0 10
      stretched (pos 5) stretched_found little_vested (omega arith) (omega arith) overpaid_runs
      stretched-IsWellFormed (omega arith)

-- The other stream's 1250 are no longer covered.
not_covered : overpaid.tokens 100 ≡ pos 1005
unfolding machine
not_covered = refl

-- A batch of two requests escrows 700.
abbrev requests : List StreamRequest
requests =
    record { recipient = 20; total_amount = pos 300; start_time = 100; end_time = 400 }
    ∷ record { recipient = 21; total_amount = pos 400; start_time = 200; end_time = 300 }
    ∷ []

requests-AllTyped : AllTyped requests
requests-AllTyped = ((omega arith, omega arith), ((omega arith, omega arith), tt))

abbrev batched : World Tokens
batched = settle renting (create_stream_batch sample_host (env_at 150) 10 requests renting)

batch_runs :
    create_stream_batch sample_host (env_at 150) 10 requests renting ≡ done (1 ∷ 2 ∷ []) batched
unfolding machine
batch_runs = refl

create_stream_batch-supply_example :
    (escrow batched.streams ≡ escrow renting.streams +ℤ amounts requests)
    × (supply batched ≡ supply renting)
create_stream_batch-supply_example =
    create_stream_batch-supply 125 renting sample_host (env_at 150) 10 requests renting-IsValid
      requests-AllTyped batch_runs
