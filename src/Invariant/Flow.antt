-- ===== src/Invariant/Flow.antt =====
-- How each entry point changes the escrow of the active streams.
use stream_pay_contracts.Base.{ℕ, ⊤, ◌≡◌, refl, sym, ap, ◌∙◌, ap₂, unwrap_or}
use stream_pay_contracts.Base.Int.{
  ℤ, pos, ◌+ℤ◌, ◌-ℤ◌, ◌≤ℤ◌, int_laws, add_zero, zero_add, checked_add-some, checked_sub-some,
}
use stream_pay_contracts.Base.Dict.{insert}
use stream_pay_contracts.Types.{Address, cancelled}
use stream_pay_contracts.Types.Valid.{IsWellFormed}
use stream_pay_contracts.Host.{Env, Host}
use stream_pay_contracts.World.{World, done}
use stream_pay_contracts.Contract.Create.{create_stream}
use stream_pay_contracts.Contract.Create.Effect.{opened, create_stream-done}
use stream_pay_contracts.Contract.TopUp.{top_up}
use stream_pay_contracts.Contract.TopUp.Effect.{top_up-done}
use stream_pay_contracts.Contract.Extend.{extend_stream}
use stream_pay_contracts.Contract.Extend.Effect.{extend_stream-done}
use stream_pay_contracts.Contract.Withdraw.{withdraw, pay_out}
use stream_pay_contracts.Contract.Withdraw.Effect.{withdraw-done}
use stream_pay_contracts.Contract.Cancel.{cancel}
use stream_pay_contracts.Contract.Cancel.Effect.{cancel-done}
use stream_pay_contracts.Invariant.{IsValid, escrow, escrow_of}
use stream_pay_contracts.Vesting.Bounds.{unvested_lem, withdrawable_bounds}
use stream_pay_contracts.Invariant.Preserved.{found-IsSound}
use stream_pay_contracts.Invariant.Insert.{escrow-insert, escrow-insert_new, lookup-next}
use stream_pay_contracts.Invariant.Escrow.{
  escrow_of-active, escrow_of-pay_out, escrow_of-open, escrow_of-cancelled, exchange_add,
  exchange_sub, sub_regroup, split_sub, split_vested, ok-injective, escrow_of-new,
}

module _ {T : Type 0} (now : ℕ) (w : World T) (valid : IsValid now w) where
  pub top_up-escrow :
      (host : Host T) (env : Env) (id : ℕ) (sender : Address) (amount : ℤ) {a : ℤ} {w' : World T}
      → top_up host env id sender amount w ≡ done a w'
      → escrow w'.streams ≡ escrow w.streams +ℤ amount
  top_up-escrow host env id sender amount {a} {w'} h =
      let e = top_up-done host env id sender amount w h in
      let s = e.stream in
      let new = record (e.stream) { total = a } in
      let (total_eq, _) = checked_add-some s.total amount a e.summed in
      let grown : escrow_of new ≡ escrow_of s +ℤ amount =
        escrow_of-active new e.still_active
        ∙ ap (λ t. t -ℤ s.withdrawn) total_eq
        ∙ sub_regroup s.total s.withdrawn amount
        ∙ ap (λ x. x +ℤ amount) (sym (escrow_of-active s e.still_active)) in
      ap (λ v. escrow v.streams) e.left
      ∙ exchange_add (escrow w.streams) (escrow (insert id new w.streams)) (escrow_of s)
          (escrow_of new) amount (escrow-insert id new s w.streams e.found) grown

  pub extend_stream-escrow :
      (host : Host T) (env : Env) (id : ℕ) (sender : Address) (new_end : ℕ) {a : ⊤} {w' : World T}
      → extend_stream host env id sender new_end w ≡ done a w'
      → escrow w'.streams ≡ escrow w.streams
  extend_stream-escrow host env id sender new_end {a} {w'} h =
      let e = extend_stream-done host env id sender new_end w h in
      let s = e.stream in
      let new = record (e.stream) { end = new_end } in
      let same : escrow_of new ≡ escrow_of s +ℤ pos 0 =
        escrow_of-active new e.still_active
        ∙ sym (escrow_of-active s e.still_active)
        ∙ sym (add_zero (escrow_of s)) in
      ap (λ v. escrow v.streams) e.left
      ∙ exchange_add (escrow w.streams) (escrow (insert id new w.streams)) (escrow_of s)
          (escrow_of new) (pos 0) (escrow-insert id new s w.streams e.found) same
      ∙ add_zero (escrow w.streams)

  -- A payout is part of what its stream holds.
  pub withdraw-part :
      (host : Host T) (env : Env) (id : ℕ) (recipient : Address) {a : ℤ} {w' : World T}
      → (h : withdraw host env id recipient w ≡ done a w')
      → (pos 0 ≤ℤ a) × (a ≤ℤ escrow_of (withdraw-done host env id recipient w h).stream)
  withdraw-part host env id recipient {a} {w'} h =
      let e = withdraw-done host env id recipient w h in
      let s = e.stream in
      let well = (found-IsSound now w valid id e.found).well_formed in
      let (low, high) = withdrawable_bounds s env.timestamp well e.due in
      let before = escrow_of-active s e.still_active in (low, rw before (omega int_laws))

  pub withdraw-escrow :
      (host : Host T) (env : Env) (id : ℕ) (recipient : Address) {a : ℤ} {w' : World T}
      → withdraw host env id recipient w ≡ done a w'
      → escrow w'.streams ≡ escrow w.streams -ℤ a
  withdraw-escrow host env id recipient {a} {w'} h =
      let e = withdraw-done host env id recipient w h in
      let s = e.stream in
      let well = (found-IsSound now w valid id e.found).well_formed in
      let new = pay_out e.stream e.withdrawn in
      let (withdrawn_eq, _) = checked_add-some s.withdrawn a e.withdrawn e.summed in
      let (low, high) = withdrawable_bounds s env.timestamp well e.due in
      let within : e.withdrawn ≤ℤ s.total = rw withdrawn_eq (omega int_laws) in
      let paid : escrow_of s ≡ escrow_of new +ℤ a =
        escrow_of-active s e.still_active
        ∙ split_sub s.total s.withdrawn a
        ∙ ap (λ x. s.total -ℤ x +ℤ a) (sym withdrawn_eq)
        ∙ ap (λ x. x +ℤ a) (sym (escrow_of-pay_out s e.withdrawn e.still_active within)) in
      ap (λ v. escrow v.streams) e.left
      ∙ exchange_sub (escrow w.streams) (escrow (insert id new w.streams)) (escrow_of s)
          (escrow_of new) a (escrow-insert id new s w.streams e.found) paid

  pub cancel-escrow :
      (host : Host T) (env : Env) (id : ℕ) (caller : Address) {a : ⊤} {w' : World T}
      → (h : cancel host env id caller w ≡ done a w')
      → escrow w'.streams
        ≡ escrow w.streams -ℤ escrow_of (cancel-done host env id caller w h).stream
  cancel-escrow host env id caller {a} {w'} h =
      let e = cancel-done host env id caller w h in
      let s = e.stream in
      let new = record (e.stream) { withdrawn = e.now_vested; status = cancelled } in
      let gone : escrow_of s ≡ escrow_of new +ℤ escrow_of s =
        sym (zero_add (escrow_of s))
        ∙ ap (λ x. x +ℤ escrow_of s) (sym (escrow_of-cancelled new refl)) in
      ap (λ v. escrow v.streams) e.left
      ∙ exchange_sub (escrow w.streams) (escrow (insert id new w.streams)) (escrow_of s)
          (escrow_of new) (escrow_of s) (escrow-insert id new s w.streams e.found) gone

  -- The two payouts of a cancellation add up to what the stream holds.
  pub cancel-split :
      (host : Host T) (env : Env) (id : ℕ) (caller : Address) {a : ⊤} {w' : World T}
      → (h : cancel host env id caller w ≡ done a w')
      → let e = cancel-done host env id caller w h in
        (e.recipient_paid +ℤ e.sender_refund ≡ escrow_of e.stream)
        × (e.recipient_paid ≡ e.now_vested -ℤ (e.stream).withdrawn)
        × (e.sender_refund ≡ (e.stream).total -ℤ e.now_vested)
        × (escrow_of e.stream ≡ (e.stream).total -ℤ (e.stream).withdrawn)
        × IsWellFormed e.stream
  cancel-split host env id caller {a} {w'} h =
      let e = cancel-done host env id caller w h in
      let s = e.stream in
      let well = (found-IsSound now w valid id e.found).well_formed in
      let held = escrow_of-open s well e.not_cancelled in
      let (paid_eq, _) = checked_sub-some e.now_vested s.withdrawn e.recipient_paid e.pays in
      let refund_eq = ok-injective (sym e.refunds ∙ unvested_lem s env.timestamp well e.vests) in
      (
        ap₂ ◌+ℤ◌ paid_eq refund_eq
            ∙ sym (zero_add (e.now_vested -ℤ s.withdrawn +ℤ (s.total -ℤ e.now_vested)))
            ∙ sym (split_vested s.total s.withdrawn e.now_vested)
            ∙ sym held,
        paid_eq,
        refund_eq,
        held,
        well,
      )

  pub create_stream-escrow :
      (host : Host T) (env : Env) (sender recipient : Address) (amount : ℤ) (raw_start end_time : ℕ)
      {id : ℕ} {w' : World T}
      → create_stream host env sender recipient amount raw_start end_time w ≡ done id w'
      → escrow w'.streams ≡ escrow w.streams +ℤ amount
  create_stream-escrow host env sender recipient amount raw_start end_time {id} {w'} h =
      let e = create_stream-done host env sender recipient amount raw_start end_time w h in
      let next = unwrap_or w.counter 0 in
      let new = opened host env sender recipient amount raw_start end_time w in
      ap (λ v. escrow v.streams) e.left
      ∙ escrow-insert_new next new w.streams (lookup-next now next w.streams valid.sound)
      ∙ ap (λ x. escrow w.streams +ℤ x) (escrow_of-new sender recipient amount _ _)
