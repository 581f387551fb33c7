-- ===== src/Trace/Balanced.antt =====
-- The contract's balance against what its streams hold, to the unit: streams between parties other
-- than the contract (src/lib.rs).
pub mod EntryPoints
pub mod Runs
use stream_pay_contracts.Base.{
  ℕ, ⊤, ◌+◌, ◌≡◌, ◌≢◌, refl, sym, ap, ap₂, ◌∙◌, subst, some-injective, none, some, true, false,
  List, [], ◌∷◌, arith, unwrap_or, Bool-cases, inl, inr,
}
use stream_pay_contracts.Base.Int.{
  ℤ, pos, ◌+ℤ◌, ◌-ℤ◌, ◌≤ℤ◌, int_laws, add_zero, +ℤ_assoc, ltb_ℤ, eq_of_parts,
}
use stream_pay_contracts.Base.Dict.{lookup, insert}
use stream_pay_contracts.Types.{Address, Stream, StreamRequest}
use stream_pay_contracts.Host.{Env, Host, MovesTokens}
use stream_pay_contracts.World.{World, Outcome, done}
use stream_pay_contracts.Vesting.Bounds.{scheduled, vested-ok, vested_bounds}
use stream_pay_contracts.Contract.Create
use stream_pay_contracts.Contract.Create.{new_stream}
use stream_pay_contracts.Contract.Batch
use stream_pay_contracts.Contract.TopUp
use stream_pay_contracts.Contract.Extend
use stream_pay_contracts.Contract.Withdraw
use stream_pay_contracts.Contract.Withdraw.{pay_out}
use stream_pay_contracts.Contract.Cancel
use stream_pay_contracts.Contract.Create.Effect.{create_stream-done}
use stream_pay_contracts.Contract.Batch.Effect.{
  amounts, create_stream_batch-done, store_one, store_all, store_all-frame,
}
use stream_pay_contracts.Contract.TopUp.Effect.{top_up-done}
use stream_pay_contracts.Contract.Extend.Effect.{extend_stream-done}
use stream_pay_contracts.Contract.Withdraw.Effect.{withdraw-done}
use stream_pay_contracts.Contract.Cancel.Effect.{cancel-done}
use stream_pay_contracts.Invariant.{AllStreams, IsValid, escrow}
use stream_pay_contracts.Invariant.Earned.{IsEarned}
use stream_pay_contracts.Invariant.Insert.{AllStreams-lookup, AllStreams-insert}
use stream_pay_contracts.Invariant.Payments.{==_ne, ==_self}
use stream_pay_contracts.Invariant.Batch.{AllTyped, create_stream_batch-supply}
use stream_pay_contracts.Invariant.Flow.{
  create_stream-escrow, top_up-escrow, extend_stream-escrow, withdraw-escrow, cancel-escrow,
  cancel-split,
}
use stream_pay_contracts.Trace.{settle}
use stream_pay_contracts.Trace.Valid.{settle-keeps}
use stream_pay_contracts.Trace.Cash.{moved, moved_if_positive}
use stream_pay_contracts.Trace.Cash.Booked.{IsPaidIn, PaysIfPositive-moved, recorded-moved}

-- The parties of a stream are others than the contract.
abbrev pub IsApart : Address → ℕ → Stream → Type 0
IsApart self id s = (self ≢ s.sender) × (self ≢ s.recipient)

abbrev pub AllApart : Address → List StreamRequest → Type 0
AllApart self [] = Unit
AllApart self (r ∷ requests) = (self ≢ r.recipient) × AllApart self requests

module _ {T : Type 0} (host : Host T) (t : T) (self : Address) where
  -- Since the tokens' state `t`, the contract has gained what the active streams hold.
  pub record IsBalanced (w : World T) : Type 0 where
    pub apart : AllStreams (IsApart self) w.streams
    pub exact :
        (token : Address)
        → IsPaidIn w.token token
        → host.balance w.tokens token self ≡ host.balance t token self +ℤ escrow w.streams

-- What the contract pays and is paid by others.
pub moved_in : (from self : Address) (a : ℤ) → self ≢ from → moved from self a self ≡ a
unfolding moved
moved_in from self a apart = rw (==_self self, ==_ne self from apart) (omega int_laws)

pub moved_out : (self to : Address) (a : ℤ) → self ≢ to → moved self to a self ≡ pos 0 -ℤ a
unfolding moved
moved_out self to a apart = rw (==_self self, ==_ne self to apart) refl

pub moved_out_if_positive :
    (self to : Address) (a : ℤ)
    → self ≢ to
    → pos 0 ≤ℤ a
    → moved_if_positive self to a self ≡ pos 0 -ℤ a
unfolding moved_if_positive
moved_out_if_positive self to a apart low = elim (Bool-cases (ltb_ℤ (pos 0) a)) [
  | inl positive ↦ rw positive (moved_out self to a apart)
  | inr negative ↦
      let zero : a ≡ pos 0 = eq_of_parts _ _ (ground arith) in
      rw negative (rw zero (omega int_laws))
]

pub take : (b e a : ℤ) → b +ℤ e +ℤ (pos 0 -ℤ a) ≡ b +ℤ (e -ℤ a)
take b e a = omega int_laws

pub take_both :
    (b e p r x : ℤ) → p +ℤ r ≡ x → b +ℤ e +ℤ (pos 0 -ℤ p) +ℤ (pos 0 -ℤ r) ≡ b +ℤ (e -ℤ x)
take_both b e p r x h = rw (← h) (omega int_laws)

-- The second loop of a batch.
pub store_all-AllApart :
    {T : Type 0} (host : Host T) (env : Env) (sender self : Address) (id : ℕ)
    (requests : List StreamRequest) (w : World T)
    → self ≢ sender
    → AllApart self requests
    → AllStreams (IsApart self) w.streams
    → AllStreams (IsApart self) (store_all host env sender id requests w).streams
unfolding store_all store_one
store_all-AllApart host env sender self id [] w apart all before = before
store_all-AllApart host env sender self id (r ∷ requests) w apart all before =
    store_all-AllApart host env sender self (id + 1) requests (store_one host env sender id r w)
      apart all.1
      (AllStreams-insert (IsApart self) id
        (new_stream sender r.recipient r.total_amount r.start_time r.end_time) w.streams before
        (apart, all.0))
