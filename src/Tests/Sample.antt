-- ===== src/Tests/Sample.antt =====
-- A token ledger that keeps what the token documents, and states with one or two streams.
use stream_pay_contracts.Error.{ok}
use stream_pay_contracts.Base.{
  some-injective, ℕ, ⊤, ◌+◌, ◌≡◌, refl, sym, ap, Bool, true, false, none, some, [], ◌∷◌, arith,
  ◌==◌, if◌then◌else◌, ltb,
}
use stream_pay_contracts.Base.Int.{
  ℤ, pos, ◌+ℤ◌, ◌-ℤ◌, ◌*ℤ◌, ◌/ℤ◌, ltb_ℤ, fits_i128, check_i128, checked_add, checked_sub,
  checked_mul, checked_div, checked_add_u64,
}
use stream_pay_contracts.Base.Dict.{lookup, insert}
use stream_pay_contracts.Constants.{is_valid_amount}
use stream_pay_contracts.Normalize.{normalize_start_time, clamp_to_window}
use stream_pay_contracts.Types.{Address, Stream, active}
use stream_pay_contracts.Types.Valid.{IsWellFormed}
use stream_pay_contracts.Vesting.{vested, unvested, withdrawable}
use stream_pay_contracts.Vesting.Schedule.{linear}
use stream_pay_contracts.Host.{Env, Host, MovesTokens}
use stream_pay_contracts.World.{World}
use stream_pay_contracts.Contract.Admin
use stream_pay_contracts.Contract.Create.{create_stream}
use stream_pay_contracts.Contract.Batch.{create_stream_batch}
use stream_pay_contracts.Contract.Batch.Effect.{amounts}
use stream_pay_contracts.Contract.TopUp.{top_up}
use stream_pay_contracts.Contract.Extend.{extend_stream}
use stream_pay_contracts.Contract.Withdraw.{withdraw}
use stream_pay_contracts.Contract.Cancel.{cancel}
use stream_pay_contracts.Invariant.{IsValid, IsTracked, escrow_of, escrow}
use stream_pay_contracts.Trace.{invoke}

-- Balances of one token.
abbrev pub Tokens : Type 0
Tokens = Address → ℤ

abbrev pub moved : Tokens → Address → Address → ℤ → Tokens
moved t from to amount holder =
    t holder
    +ℤ (if holder == to then amount else pos 0)
    -ℤ (if holder == from then amount else pos 0)

-- A transfer of a negative amount, or of more than the payer has, is refused.
abbrev pub sample_host : Host Tokens
sample_host = record {
  balance = λ t _ holder. t holder;
  transfer = λ t _ from to amount.
      if ltb_ℤ amount (pos 0)
      then none
      else if ltb_ℤ (t from) amount
      then none
      else some (moved t from to amount);
  set_live = λ sequence live. if ltb live sequence then sequence else live;
  extend_ttl = λ sequence live threshold extend_to.
      if ltb live (sequence + threshold) then sequence + extend_to else live;
}

accepted :
    (a b : Bool) (t t' : Tokens)
    → (if a then none else if b then none else some t) ≡ some t'
    → t ≡ t'
accepted true b t t' h = cc
accepted false true t t' h = cc
accepted false false t t' h = some-injective h

pub sample_laws : MovesTokens sample_host
sample_laws = record {
  moves = λ t t' token from to amount h holder. sym (
      ap (λ f. f holder)
        (accepted (ltb_ℤ amount (pos 0)) (ltb_ℤ (t from) amount) (moved t from to amount) t' h));
}

-- Address 100 is the contract; every signature is there.
abbrev pub env_at : ℕ → Env
env_at timestamp = record {
  timestamp = timestamp;
  sequence = 7;
  current_contract = 100;
  authorized = λ _. true;
  uploaded = λ _. true;
}

-- A stream of 1000 from 10 to 20, from second 100 to second 200, with 250 withdrawn.
abbrev pub rent : Stream
rent = record {
  sender = 10;
  recipient = 20;
  total = pos 1000;
  withdrawn = pos 250;
  start = 100;
  end = 200;
  status = active;
}

pub rent-IsWellFormed : IsWellFormed rent
rent-IsWellFormed = record {
  total_positive = omega arith;
  total_fits = omega arith;
  withdrawn_nonneg = omega arith;
  withdrawn_le_total = omega arith;
  window = omega arith;
  end_fits = omega arith;
  paid_out = λ done. cc;
  owed = λ live. omega arith;
}

abbrev pub balances : Tokens
balances holder = if holder == 100 then pos 750 else pos 5000

abbrev pub renting : World Tokens
renting = record {
  admin = some 1;
  token = some 2;
  counter = some 1;
  pending_admin = none;
  admin_action_execute_after = none;
  total_supply = some (pos 750);
  supply_cap = some (pos 2000);
  streams = (0, rent) ∷ [];
  instance_live = 0;
  stream_live = λ _. 0;
  events = [];
  wasm_hash = 0;
  tokens = balances;
}

pub renting-IsValid : IsValid 125 renting
renting-IsValid = record {
  sound = (
    record { well_formed = rent-IsWellFormed; settled = λ done. cc; numbered = omega arith },
    tt,
  );
  counter_fits = omega arith;
  fresh = λ unset. cc;
}

pub renting-IsTracked : IsTracked renting
unfolding escrow escrow_of ◌+ℤ◌ ◌-ℤ◌
renting-IsTracked = record { tracked = refl; supply_fits = omega arith }

-- What a run of an entry point computes with.
unfoldable pub machine : ⊤
unfolding ◌+ℤ◌ ◌-ℤ◌ ◌*ℤ◌ ◌/ℤ◌ fits_i128 check_i128 checked_add checked_sub checked_mul checked_div
    checked_add_u64 lookup insert is_valid_amount normalize_start_time clamp_to_window vested
    unvested withdrawable create_stream create_stream_batch top_up extend_stream withdraw cancel
    escrow escrow_of amounts invoke linear Admin.initialize Admin.set_admin
    Admin.execute_admin_transfer Admin.schedule_admin_transfer
machine = tt

pub half_vested : vested rent 150 ≡ ok (pos 500)
unfolding machine
half_vested = refl

pub rent_found : lookup 0 renting.streams ≡ some rent
unfolding lookup
rent_found = refl
