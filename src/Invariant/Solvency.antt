-- ===== src/Invariant/Solvency.antt =====
-- The contract's token balance under each entry point.
pub mod Cancellation
use stream_pay_contracts.Base.{
  some-injective, ℕ, ⊤, ◌≡◌, ◌≢◌, sym, ap, ap₂, ◌∙◌, subst, subst₂, some, List, unwrap_or, arith,
}
use stream_pay_contracts.Base.Int.{ℤ, pos, ◌+ℤ◌, ◌-ℤ◌, ◌≤ℤ◌, ◌<ℤ◌, int_laws}
use stream_pay_contracts.Base.Dict.{lookup}
use stream_pay_contracts.Error.{ok}
use stream_pay_contracts.Types.{Address, Stream, StreamRequest}
use stream_pay_contracts.Host.{Env, Host, MovesTokens}
use stream_pay_contracts.World.{World, done}
use stream_pay_contracts.Vesting.{vested}
use stream_pay_contracts.Vesting.Bounds.{vested_bounds}
use stream_pay_contracts.Types.Valid.{IsWellFormed}
use stream_pay_contracts.Contract.Create.{create_stream}
use stream_pay_contracts.Contract.Create.Effect.{create_stream-done}
use stream_pay_contracts.Contract.Batch.{create_stream_batch}
use stream_pay_contracts.Contract.Batch.Effect.{create_stream_batch-done, amounts, store_all-frame}
use stream_pay_contracts.Contract.TopUp.{top_up}
use stream_pay_contracts.Contract.TopUp.Effect.{top_up-done}
use stream_pay_contracts.Contract.Withdraw.{withdraw}
use stream_pay_contracts.Contract.Withdraw.Effect.{withdraw-done}
use stream_pay_contracts.Contract.Cancel.{cancel}
use stream_pay_contracts.Contract.Cancel.Effect.{PaysIfPositive, cancel-done}
use stream_pay_contracts.Invariant.{IsValid, IsSolvent, escrow}
use stream_pay_contracts.Invariant.Escrow.{ok-injective}
use stream_pay_contracts.Invariant.Batch.{AllTyped, create_stream_batch-supply}
use stream_pay_contracts.Invariant.Flow.{
  top_up-escrow, withdraw-escrow, cancel-escrow, cancel-split, create_stream-escrow,
}
use stream_pay_contracts.Invariant.Payments.{
  positive_part, positive_part_of, positive_part_none, transfer_moves, transfer_covers,
  PaysIfPositive-moves,
}

-- What one operation does to the escrow and to the balance it does to their difference.
solvent_in : (e e' b b' x : ℤ) → e ≤ℤ b → e' ≡ e +ℤ x → b' ≡ b +ℤ x → e' ≤ℤ b'
solvent_in e e' b b' x h p q = subst₂ ◌≤ℤ◌ (sym p) (sym q) (omega int_laws)

pub solvent_out : (e e' b b' x : ℤ) → e ≤ℤ b → e' ≡ e -ℤ x → b -ℤ x ≤ℤ b' → e' ≤ℤ b'
solvent_out e e' b b' x h p q = rw p (omega int_laws)

le_of_lt : (a : ℤ) → pos 0 <ℤ a → pos 0 ≤ℤ a
le_of_lt a h = omega arith

module _ {T : Type 0} (host : Host T) (laws : MovesTokens host) (env : Env) (token : Address)
    (now : ℕ) (w : World T) (valid : IsValid now w) (chosen : w.token ≡ some token) where
  -- The recorded token is the one of a call's transfer.
  same_token :
      {other from to : Address} {amount : ℤ} {t t' : T}
      → w.token ≡ some other
      → host.transfer t other from to amount ≡ some t'
      → host.transfer t token from to amount ≡ some t'
  same_token {other} {from} {to} {amount} {t} {t'} set moved =
      subst (λ x. host.transfer t x from to amount ≡ some t') (some-injective (sym set ∙ chosen))
        moved

  -- In a valid state, with a token that moves what it is asked to, a withdrawal by another address
  -- than the contract's own adds the amount it returns to the recipient's balance, and takes it
  -- from the contract's balance and from the escrow.
  pub withdraw_pays :
      (id : ℕ) (recipient : Address) {a : ℤ} {w' : World T}
      → env.current_contract ≢ recipient
      → withdraw host env id recipient w ≡ done a w'
      → (host.balance w'.tokens token recipient ≡ host.balance w.tokens token recipient +ℤ a)
        × (host.balance w'.tokens token env.current_contract
            ≡ host.balance w.tokens token env.current_contract -ℤ a)
        × (escrow w'.streams ≡ escrow w.streams -ℤ a)
  withdraw_pays id recipient {a} {w'} apart h =
      let e = withdraw-done host env id recipient w h in
      let (gives, gets) =
        transfer_moves host laws w.tokens e.tokens token env.current_contract recipient a apart
          (same_token e.token_set e.transferred) in
      (
        ap (λ v. host.balance v.tokens token recipient) e.left ∙ gets,
        ap (λ v. host.balance v.tokens token env.current_contract) e.left ∙ gives,
        withdraw-escrow now w valid host env id recipient h,
      )

  -- In a valid state, with a token that moves what it is asked to, a withdrawal keeps the
  -- contract's balance at or above the escrow of the active streams.
  pub withdraw-IsSolvent :
      (id : ℕ) (recipient : Address) {a : ℤ} {w' : World T}
      → IsSolvent host token env.current_contract w
      → withdraw host env id recipient w ≡ done a w'
      → IsSolvent host token env.current_contract w'
  withdraw-IsSolvent id recipient {a} {w'} solvent h =
      let e = withdraw-done host env id recipient w h in
      solvent_out (escrow w.streams) (escrow w'.streams)
        (host.balance w.tokens token env.current_contract)
        (host.balance w'.tokens token env.current_contract) a solvent
        (withdraw-escrow now w valid host env id recipient h)
        (rw e.left (
          transfer_covers host laws w.tokens e.tokens token env.current_contract recipient a
            (le_of_lt a e.positive) (same_token e.token_set e.transferred)))

  -- In a valid state, with a token that moves what it is asked to and a sender other than the
  -- contract, a creation keeps the contract's balance at or above the escrow.
  pub create_stream-IsSolvent :
      (sender recipient : Address) (amount : ℤ) (raw_start end_time : ℕ) {id : ℕ} {w' : World T}
      → sender ≢ env.current_contract
      → IsSolvent host token env.current_contract w
      → create_stream host env sender recipient amount raw_start end_time w ≡ done id w'
      → IsSolvent host token env.current_contract w'
  create_stream-IsSolvent sender recipient amount raw_start end_time {id} {w'} apart solvent h =
      let e = create_stream-done host env sender recipient amount raw_start end_time w h in
      let (_, gets) =
        transfer_moves host laws w.tokens e.tokens token sender env.current_contract amount apart
          (same_token e.token_set e.transferred) in
      solvent_in (escrow w.streams) (escrow w'.streams)
        (host.balance w.tokens token env.current_contract)
        (host.balance w'.tokens token env.current_contract) amount solvent
        (create_stream-escrow now w valid host env sender recipient amount raw_start end_time h)
        (ap (λ v. host.balance v.tokens token env.current_contract) e.left ∙ gets)

  -- In a valid state, with a token that moves what it is asked to and a sender other than the
  -- contract, a top-up keeps the contract's balance at or above the escrow.
  pub top_up-IsSolvent :
      (id : ℕ) (sender : Address) (amount : ℤ) {a : ℤ} {w' : World T}
      → sender ≢ env.current_contract
      → IsSolvent host token env.current_contract w
      → top_up host env id sender amount w ≡ done a w'
      → IsSolvent host token env.current_contract w'
  top_up-IsSolvent id sender amount {a} {w'} apart solvent h =
      let e = top_up-done host env id sender amount w h in
      let (_, gets) =
        transfer_moves host laws w.tokens e.tokens token sender env.current_contract amount apart
          (same_token e.token_set e.transferred) in
      solvent_in (escrow w.streams) (escrow w'.streams)
        (host.balance w.tokens token env.current_contract)
        (host.balance w'.tokens token env.current_contract) amount solvent
        (top_up-escrow now w valid host env id sender amount h)
        (ap (λ v. host.balance v.tokens token env.current_contract) e.left ∙ gets)

  -- In a valid state, with a token that moves what it is asked to and a sender other than the
  -- contract, a batch of typed requests keeps the contract's balance at or above the escrow: the
  -- one transfer brings what its streams hold together.
  pub create_stream_batch-IsSolvent :
      (sender : Address) (requests : List StreamRequest) {ids : List ℕ} {w' : World T}
      → sender ≢ env.current_contract
      → AllTyped requests
      → IsSolvent host token env.current_contract w
      → create_stream_batch host env sender requests w ≡ done ids w'
      → IsSolvent host token env.current_contract w'
  create_stream_batch-IsSolvent sender requests {ids} {w'} apart typed solvent h =
      let e = create_stream_batch-done host env sender h in
      let frame =
        store_all-frame host env sender (unwrap_or w.counter 0) requests
          (record w { tokens = e.tokens }) in
      let (_, gets) =
        transfer_moves host laws w.tokens e.tokens token sender env.current_contract e.sum apart
          (same_token e.token_set e.transferred) in
      solvent_in (escrow w.streams) (escrow w'.streams)
        (host.balance w.tokens token env.current_contract)
        (host.balance w'.tokens token env.current_contract) (amounts requests) solvent
        (create_stream_batch-supply now w host env sender requests valid typed h).0
        (ap (λ v. host.balance v.tokens token env.current_contract) e.left
          ∙ ap (λ v. host.balance v.tokens token env.current_contract) frame
          ∙ gets
          ∙ ap (λ x. host.balance w.tokens token env.current_contract +ℤ x) e.summed)
