-- ===== src/Tests/Solvent.antt =====
-- A guarded run: setup, a stream, a withdrawal, an extension, a cancellation.
use stream_pay_contracts.Base.{◌≡◌, refl, some, arith, ℕ, inl, inr}
use stream_pay_contracts.Base.Int.{pos, ◌≤ℤ◌, ℤ, ltb_ℤ_no, int_laws}
use stream_pay_contracts.Base.Dict.{lookup}
use stream_pay_contracts.Types.{Stream, active}
use stream_pay_contracts.World.{World, done}
use stream_pay_contracts.Invariant.{IsSolvent}
use stream_pay_contracts.Trace.{
  invoke, deployed, Run, start, call, initialize, create_stream, withdraw, extend_stream, cancel,
}
use stream_pay_contracts.Trace.Solvent.{Guarded, Spares}
use stream_pay_contracts.Error.{ok}
use stream_pay_contracts.Vesting.{withdrawable}
use stream_pay_contracts.Contract.Withdraw
use stream_pay_contracts.Contract.Cancel
use stream_pay_contracts.Tests.Story.{longer, spared}
use stream_pay_contracts.Tests.Sample.{
  moved, Tokens, sample_host, sample_laws, env_at, balances, machine,
}
use stream_pay_contracts.Trace.Solvent.Assured.{MadeIfCovered, withdraw_assured, cancel_assured}
use stream_pay_contracts.Trace.Solvent.Runs.{Run-IsSolvent}

abbrev ended : World Tokens
ended = invoke sample_host (env_at 210) (cancel 0 10) longer

early-Run :
    Run sample_host
      (Guarded sample_host 100)
      (Spares sample_host 100)
      0
      (deployed balances)
      190
      longer
early-Run =
    call
      (call
        (call
          (call start (env_at 50) (initialize 1 2) (refl, tt, omega arith) (omega arith) refl refl)
          (env_at 100) (create_stream 10 20 (pos 1000) 0 200)
          (refl, (omega arith, omega arith), omega arith) (omega arith) refl refl)
        (env_at 150) (withdraw 0 20) (refl, tt, tt) (omega arith) refl refl)
      (env_at 190) (extend_stream 0 10 250) (refl, omega arith, spared) (omega arith) refl refl

run :
    Run sample_host
      (Guarded sample_host 100)
      (Spares sample_host 100)
      0
      (deployed balances)
      210
      ended
run = call early-Run (env_at 210) (cancel 0 10) (refl, tt, tt) (omega arith) refl refl

ended_token : ended.token ≡ some 2
unfolding machine
ended_token = refl

Run-IsSolvent_example : IsSolvent sample_host 2 100 ended
Run-IsSolvent_example = Run-IsSolvent sample_host sample_laws 100 2 balances run ended_token

transfer_made :
    (t : Tokens) (from to : ℕ) (amount : ℤ)
    → pos 0 ≤ℤ amount
    → amount ≤ℤ t from
    → sample_host.transfer t 2 from to amount ≡ some (moved t from to amount)
transfer_made t from to amount low covered =
    rw (ltb_ℤ_no amount (pos 0) low, ltb_ℤ_no (t from) amount covered) refl

-- The sample token refuses a transfer of a positive amount for want of cover alone.
sample_honours :
    (t : Tokens) (from to : ℕ) (amount : ℤ) → MadeIfCovered sample_host t 2 from to amount
sample_honours t from to amount positive covered =
    (moved t from to amount, transfer_made t from to amount (omega int_laws) covered)

abbrev longer_rent : Stream
longer_rent = record {
  sender = 10;
  recipient = 20;
  total = pos 1000;
  withdrawn = pos 500;
  start = 100;
  end = 250;
  status = active;
}

longer_found : lookup 0 longer.streams ≡ some longer_rent
unfolding machine
longer_found = refl

longer_token : longer.token ≡ some 2
unfolding machine
longer_token = refl

due_220 : withdrawable longer_rent 220 ≡ ok (pos 300)
unfolding machine
due_220 = refl

withdraw_assured_example :
    (w' : World Tokens) × (Withdraw.withdraw sample_host (env_at 220) 0 20 longer
      ≡ done (pos 300) w')
withdraw_assured_example =
    withdraw_assured sample_host sample_laws 100 2 balances (env_at 220) 0 longer_rent early-Run
      longer_token longer_found refl refl refl due_220 (omega arith)
      (sample_honours longer.tokens 100 20 (pos 300))

cancel_assured_example :
    (w' : World Tokens) × (Cancel.cancel sample_host (env_at 220) 0 10 longer ≡ done tt w')
cancel_assured_example =
    cancel_assured sample_host sample_laws 100 2 balances (env_at 220) 0 longer_rent early-Run
      longer_token longer_found refl refl 10 (inl refl) refl (omega arith) (inr (inr (omega arith)))
      (sample_honours longer.tokens 100 20 _) (λ t' paid. sample_honours t' 100 10 _)
