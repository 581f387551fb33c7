-- ===== src/Invariant/Supply.antt =====
-- The reported supply under each entry point of src/lib.rs but the batch, against the escrow.
use stream_pay_contracts.Base.{ℕ, ⊤, ◌≡◌, sym, ap, ◌∙◌, subst, some, arith, unwrap_or}
use stream_pay_contracts.Base.Int.{
  ℤ, pos, ◌+ℤ◌, ◌-ℤ◌, ◌≤ℤ◌, checked_add-fits, checked_sub, checked_sub-fits, i128_max, IsI128,
  checked_add-some,
}
use stream_pay_contracts.Base.Dict.{lookup}
use stream_pay_contracts.Types.{Address, Stream}
use stream_pay_contracts.Host.{Env, Host}
use stream_pay_contracts.World.{World, done}
use stream_pay_contracts.Contract.Create.{create_stream}
use stream_pay_contracts.Contract.Create.Effect.{create_stream-done}
use stream_pay_contracts.Contract.TopUp.{top_up}
use stream_pay_contracts.Contract.TopUp.Effect.{top_up-done}
use stream_pay_contracts.Contract.Extend.{extend_stream}
use stream_pay_contracts.Contract.Extend.Effect.{extend_stream-done}
use stream_pay_contracts.Contract.Withdraw.{withdraw}
use stream_pay_contracts.Contract.Withdraw.Effect.{withdraw-done}
use stream_pay_contracts.Contract.Cancel.{cancel}
use stream_pay_contracts.Contract.Cancel.Effect.{cancel-done}
use stream_pay_contracts.Invariant.{IsValid, IsTracked, supply, escrow, escrow_of}
use stream_pay_contracts.Invariant.Insert.{escrow_of_nonneg, escrow_of-le}
use stream_pay_contracts.Invariant.Escrow.{difference_fits, difference_within, lowered_fits}
use stream_pay_contracts.Invariant.Flow.{
  top_up-escrow, extend_stream-escrow, withdraw-part, withdraw-escrow, cancel-escrow, cancel-split,
  create_stream-escrow,
}

module _ {T : Type 0} (now : ℕ) (w : World T) (valid : IsValid now w) (tracked : IsTracked w) where
  -- The supply can be lowered by any part of the escrow of a stream.
  lower_supply :
      (id : ℕ) (s : Stream) (x : ℤ)
      → lookup id w.streams ≡ some s
      → pos 0 ≤ℤ x
      → x ≤ℤ escrow_of s
      → unwrap_or (checked_sub (supply w) x) (pos 0) ≡ supply w -ℤ x
  lower_supply id s x found low high =
      ap (λ o. unwrap_or o (pos 0))
        (checked_sub-fits (supply w) x (
          difference_fits (supply w) (escrow w.streams) (escrow_of s) x tracked.tracked
            tracked.supply_fits
            (escrow_of-le now (unwrap_or w.counter 0) id s w.streams valid.sound found) low high))

  -- A supply that grows or shrinks with the escrow stays tracked.
  moved-IsTracked :
      {w' : World T} (change : ℤ → ℤ)
      → supply w' ≡ change (supply w)
      → escrow w'.streams ≡ change (escrow w.streams)
      → change (supply w) ≤ℤ i128_max
      → IsTracked w'
  moved-IsTracked change supply_eq escrow_eq fits = record {
    tracked = supply_eq ∙ ap change tracked.tracked ∙ sym escrow_eq;
    supply_fits = subst (λ x. x ≤ℤ i128_max) (sym supply_eq) fits;
  }

  -- From a valid state whose reported supply is the escrow, a top-up keeps the two equal and adds
  -- its amount to the supply.
  pub top_up-IsTracked :
      (host : Host T) (env : Env) (id : ℕ) (sender : Address) (amount : ℤ) {a : ℤ} {w' : World T}
      → top_up host env id sender amount w ≡ done a w'
      → IsTracked w' × (supply w' ≡ supply w +ℤ amount)
  top_up-IsTracked host env id sender amount {a} {w'} h =
      let e = top_up-done host env id sender amount w h in
      let (added, fits) = checked_add-some (supply w) amount e.supply e.supplied in
      let supply_eq = ap supply e.left ∙ added in
      (
        moved-IsTracked (λ x. x +ℤ amount) supply_eq
            (top_up-escrow now w valid host env id sender amount h) fits.1,
        supply_eq,
      )

  -- From a valid state whose reported supply is the escrow, an extension keeps the two equal and
  -- leaves the supply alone.
  pub extend_stream-IsTracked :
      (host : Host T) (env : Env) (id : ℕ) (sender : Address) (new_end : ℕ) {a : ⊤} {w' : World T}
      → extend_stream host env id sender new_end w ≡ done a w'
      → IsTracked w' × (supply w' ≡ supply w)
  extend_stream-IsTracked host env id sender new_end {a} {w'} h =
      let e = extend_stream-done host env id sender new_end w h in
      let supply_eq = ap supply e.left in
      (
        moved-IsTracked (λ x. x) supply_eq
            (extend_stream-escrow now w valid host env id sender new_end h) tracked.supply_fits,
        supply_eq,
      )

  -- From a valid state whose reported supply is the escrow, a withdrawal keeps the two equal and
  -- takes the amount that it returns from the supply.
  pub withdraw-IsTracked :
      (host : Host T) (env : Env) (id : ℕ) (recipient : Address) {a : ℤ} {w' : World T}
      → withdraw host env id recipient w ≡ done a w'
      → IsTracked w' × (supply w' ≡ supply w -ℤ a)
  withdraw-IsTracked host env id recipient {a} {w'} h =
      let e = withdraw-done host env id recipient w h in
      let (low, part) = withdraw-part now w valid host env id recipient h in
      let supply_eq = ap supply e.left ∙ lower_supply id e.stream a e.found low part in
      (
        moved-IsTracked (λ x. x -ℤ a) supply_eq
            (withdraw-escrow now w valid host env id recipient h)
            (lowered_fits (supply w) a tracked.supply_fits low),
        supply_eq,
      )

  -- A cancellation takes the whole escrow of its stream from the supply.
  pub cancel-IsTracked :
      (host : Host T) (env : Env) (id : ℕ) (caller : Address) {a : ⊤} {w' : World T}
      → (h : cancel host env id caller w ≡ done a w')
      → IsTracked w'
        × (supply w' ≡ supply w -ℤ escrow_of (cancel-done host env id caller w h).stream)
  cancel-IsTracked host env id caller {a} {w'} h =
      let e = cancel-done host env id caller w h in
      let held = escrow_of e.stream in
      let (sum_eq, _, _, held_eq, well) = cancel-split now w valid host env id caller h in
      let fits : IsI128 (e.recipient_paid +ℤ e.sender_refund) =
        subst IsI128 (sym (sum_eq ∙ held_eq)) (difference_within e.stream well) in
      let released =
        ap (λ o. unwrap_or o e.sender_refund)
          (checked_add-fits e.recipient_paid e.sender_refund fits)
        ∙ sum_eq in
      let low = escrow_of_nonneg e.stream well in
      let supply_eq =
        ap supply e.left
        ∙ ap (λ x. unwrap_or (checked_sub (supply w) x) (pos 0)) released
        ∙ lower_supply id e.stream held e.found low (omega arith) in
      (
        moved-IsTracked (λ x. x -ℤ held) supply_eq (cancel-escrow now w valid host env id caller h)
            (lowered_fits (supply w) held tracked.supply_fits low),
        supply_eq,
      )

  -- From a valid state whose reported supply is the escrow, a creation keeps the two equal and adds
  -- its amount to the supply.
  pub create_stream-IsTracked :
      (host : Host T) (env : Env) (sender recipient : Address) (amount : ℤ) (raw_start end_time : ℕ)
      {id : ℕ} {w' : World T}
      → create_stream host env sender recipient amount raw_start end_time w ≡ done id w'
      → IsTracked w' × (supply w' ≡ supply w +ℤ amount)
  create_stream-IsTracked host env sender recipient amount raw_start end_time {id} {w'} h =
      let e = create_stream-done host env sender recipient amount raw_start end_time w h in
      let (added, fits) = checked_add-some (supply w) amount e.supply e.supplied in
      let supply_eq = ap supply e.left ∙ added in
      (
        moved-IsTracked (λ x. x +ℤ amount) supply_eq
            (create_stream-escrow now w valid host env sender recipient amount raw_start end_time h)
            fits.1,
        supply_eq,
      )
