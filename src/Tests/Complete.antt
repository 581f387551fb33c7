-- ===== src/Tests/Complete.antt =====
-- A batch of two requests on the sample state.
use stream_pay_contracts.Base.{◌≡◌, refl, List, [], ◌∷◌, arith, unwrap_or, ℕ}
use stream_pay_contracts.Base.Int.{pos, ◌+ℤ◌}
use stream_pay_contracts.Types.{StreamRequest}
use stream_pay_contracts.World.{done, World}
use stream_pay_contracts.Contract.Batch.{create_stream_batch}
use stream_pay_contracts.Contract.Batch.Sequence.{create_each}
use stream_pay_contracts.Contract.Batch.Equivalent.{paid_as, batch_as_creations}
use stream_pay_contracts.Trace.{settle}
use stream_pay_contracts.Tests.Sample.{
  sample_laws, Tokens, sample_host, moved, env_at, renting, balances, machine,
}
use stream_pay_contracts.Contract.Batch.Effect.{amounts}

-- A batch of two requests brings 700.
abbrev requests : List StreamRequest
requests =
    record { recipient = 20; total_amount = pos 300; start_time = 100; end_time = 400 }
    ∷ record { recipient = 21; total_amount = pos 400; start_time = 200; end_time = 300 }
    ∷ []

abbrev brought : Tokens
brought = moved balances 10 100 (pos 700)

-- The same two requests, opened together and one by one.
abbrev together : World Tokens
together = settle renting (create_stream_batch sample_host (env_at 150) 10 requests renting)

abbrev singly : World Tokens
singly = settle renting (create_each sample_host (env_at 150) 10 requests renting)

abbrev together_ids : List ℕ
together_ids = 1 ∷ 2 ∷ []

abbrev singly_ids : List ℕ
singly_ids = 1 ∷ 2 ∷ []

together_runs :
    create_stream_batch sample_host (env_at 150) 10 requests renting ≡ done together_ids together
unfolding machine
together_runs = refl

singly_runs : create_each sample_host (env_at 150) 10 requests renting ≡ done singly_ids singly
unfolding machine create_each
singly_runs = refl

batch_as_creations_example :
    (singly_ids ≡ together_ids)
    × (singly ≡ paid_as sample_host (env_at 150) 10 together singly)
    × (unwrap_or singly.total_supply (pos 0)
        ≡ unwrap_or together.total_supply (pos 0) +ℤ amounts requests)
    × ((holder : ℕ) → singly.tokens holder ≡ together.tokens holder)
batch_as_creations_example =
    batch_as_creations sample_host (env_at 150) 10 requests renting 2 sample_laws refl
      ((λ zero. omega arith), ((λ zero. omega arith), tt)) together_runs singly_runs
