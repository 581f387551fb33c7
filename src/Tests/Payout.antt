-- ===== src/Tests/Payout.antt =====
-- A stream that has ended: setup, a creation, a withdrawal halfway, and the rest after the end.
use stream_pay_contracts.Base.{◌≡◌, refl, some, arith, inl, inr}
use stream_pay_contracts.Base.Int.{pos, ◌-ℤ◌}
use stream_pay_contracts.Base.Dict.{lookup}
use stream_pay_contracts.Types.{Stream, active, completed}
use stream_pay_contracts.World.{World, done}
use stream_pay_contracts.Contract.Withdraw.{withdraw}
use stream_pay_contracts.Trace.{
  invoke, settle, deployed, Run, start, call, initialize, create_stream, Typed, AnyMove,
}
use stream_pay_contracts.Trace
use stream_pay_contracts.Trace.Payout.{withdraw_rest, cancel_settles, settled_at}
use stream_pay_contracts.Vesting.Bounds.{scheduled}
use stream_pay_contracts.Contract.Cancel.{cancel}
use stream_pay_contracts.Contract.Cancel.Effect.{paid}
use stream_pay_contracts.Tests.Story.{drawn}
use stream_pay_contracts.Tests.Sample.{Tokens, sample_host, moved, env_at, balances, machine}

run : Run sample_host Typed AnyMove 0 (deployed balances) 150 drawn
run =
    call
      (call (call start (env_at 50) (initialize 1 2) tt (omega arith) refl refl) (env_at 100)
        (create_stream 10 20 (pos 1000) 0 200) (omega arith, omega arith) (omega arith) refl refl)
      (env_at 150) (Trace.withdraw 0 20) tt (omega arith) refl refl

abbrev half_paid : Stream
half_paid = record {
  sender = 10;
  recipient = 20;
  total = pos 1000;
  withdrawn = pos 500;
  start = 100;
  end = 200;
  status = active;
}

half_paid_found : lookup 0 drawn.streams ≡ some half_paid
unfolding machine
half_paid_found = refl

token_chosen : drawn.token ≡ some 2
unfolding machine
token_chosen = refl

abbrev rest_moved : Tokens
rest_moved = moved drawn.tokens 100 20 (pos 1000 -ℤ pos 500)

rest_paid : sample_host.transfer drawn.tokens 2 100 20 (pos 1000 -ℤ pos 500) ≡ some rest_moved
unfolding machine
rest_paid = refl

abbrev ended : World Tokens
ended = settle drawn (withdraw sample_host (env_at 250) 0 20 drawn)

withdraw_rest_example :
    (withdraw sample_host (env_at 250) 0 20 drawn ≡ done (pos 1000 -ℤ pos 500) ended)
    × (lookup 0 ended.streams
        ≡ some (record half_paid { withdrawn = pos 1000; status = completed }))
    × (ended.tokens ≡ rest_moved)
withdraw_rest_example =
    withdraw_rest sample_host balances (env_at 250) 0 half_paid 2 run half_paid_found refl
      (omega arith) refl token_chosen rest_paid

-- At second 160 the sender settles the stream: 100 to the recipient and 400 back.
abbrev owed_paid : Tokens
owed_paid = moved drawn.tokens 100 20 (pos (scheduled half_paid 160) -ℤ pos 500)

abbrev refund_paid : Tokens
refund_paid = moved owed_paid 100 10 (pos 1000 -ℤ pos (scheduled half_paid 160))

owed_moves :
    sample_host.transfer drawn.tokens 2 100 20 (pos (scheduled half_paid 160) -ℤ pos 500)
    ≡ some owed_paid
unfolding machine
owed_moves = refl

refund_moves :
    sample_host.transfer owed_paid 2 100 10 (pos 1000 -ℤ pos (scheduled half_paid 160))
    ≡ some refund_paid
unfolding machine
refund_moves = refl

abbrev closed : World Tokens
closed = settle drawn (cancel sample_host (env_at 160) 0 10 drawn)

cancel_settles_example :
    (cancel sample_host (env_at 160) 0 10 drawn ≡ done tt closed)
    × (lookup 0 closed.streams ≡ some (settled_at half_paid 160))
    × (closed.tokens ≡ refund_paid)
unfolding machine
cancel_settles_example =
    cancel_settles sample_host balances (env_at 160) 0 10 half_paid 2 run half_paid_found refl
      (inl refl) refl (inr (inr (omega arith))) token_chosen (paid 2 (omega arith) refl owed_moves)
      (paid 2 (omega arith) refl refund_moves)
