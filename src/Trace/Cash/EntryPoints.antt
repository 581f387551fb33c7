-- ===== src/Trace/Cash/EntryPoints.antt =====
-- The entry points that move tokens against the cash book (src/lib.rs, src/events.rs).
use stream_pay_contracts.Base.{ℕ, ⊤, ◌≡◌, sym, ap, ◌∙◌, subst, List, unwrap_or}
use stream_pay_contracts.Base.Int.{ℤ, ◌+ℤ◌, add_zero, +ℤ_assoc}
use stream_pay_contracts.Types.{Address, StreamRequest}
use stream_pay_contracts.Host.{Env, Host, MovesTokens}
use stream_pay_contracts.World.{World, done}
use stream_pay_contracts.Contract.Create
use stream_pay_contracts.Contract.Batch
use stream_pay_contracts.Contract.TopUp
use stream_pay_contracts.Contract.Extend
use stream_pay_contracts.Contract.Withdraw
use stream_pay_contracts.Contract.Cancel
use stream_pay_contracts.Contract.Create.Effect.{create_stream-done}
use stream_pay_contracts.Contract.Batch.Effect.{amounts, create_stream_batch-done, store_all-frame}
use stream_pay_contracts.Contract.TopUp.Effect.{top_up-done}
use stream_pay_contracts.Contract.Extend.Effect.{extend_stream-done}
use stream_pay_contracts.Contract.Withdraw.Effect.{withdraw-done}
use stream_pay_contracts.Contract.Cancel.Effect.{cancel-done}
use stream_pay_contracts.Trace.Replay.EntryPoints.{IsLogged}
use stream_pay_contracts.Trace.Cash.{moved, moved_if_positive, settled, flow, cash, lookup-catalog}
use stream_pay_contracts.Trace.Cash.Booked.{
  IsPaidIn, IsBooked, PaysIfPositive-moved, store_all-cash, told-IsBooked, recorded-moved,
}

module _ {T : Type 0} (host : Host T) (laws : MovesTokens host) (t : T) (env : Env) (w : World T)
    (logged : IsLogged w) (before : IsBooked host t env.current_contract w) where
  pub create_stream-IsBooked :
      (sender recipient : Address) (amount : ℤ) (raw_start end_time : ℕ) {id : ℕ} {w' : World T}
      → Create.create_stream host env sender recipient amount raw_start end_time w ≡ done id w'
      → IsBooked host t env.current_contract w'
  unfolding flow
  create_stream-IsBooked sender recipient amount raw_start end_time {id} {w'} h =
      let e = create_stream-done host env sender recipient amount raw_start end_time w h in
      told-IsBooked host laws t env w logged before w' _ (ap (λ v. v.events) e.left)
        (ap (λ v. v.token) e.left) (λ unset. sym (ap (λ v. v.admin) e.left) ∙ unset)
        λ token allowed holder.
          ap (λ v. host.balance v.tokens token holder) e.left
          ∙ recorded-moved host laws w token sender env.current_contract amount e.tokens e.token_set
              e.transferred allowed holder

  pub top_up-IsBooked :
      (id : ℕ) (sender : Address) (amount : ℤ) {a : ℤ} {w' : World T}
      → TopUp.top_up host env id sender amount w ≡ done a w'
      → IsBooked host t env.current_contract w'
  unfolding flow
  top_up-IsBooked id sender amount {a} {w'} h =
      let e = top_up-done host env id sender amount w h in
      told-IsBooked host laws t env w logged before w' _ (ap (λ v. v.events) e.left)
        (ap (λ v. v.token) e.left) (λ unset. sym (ap (λ v. v.admin) e.left) ∙ unset)
        λ token allowed holder.
          ap (λ v. host.balance v.tokens token holder) e.left
          ∙ recorded-moved host laws w token sender env.current_contract amount e.tokens e.token_set
              e.transferred allowed holder

  pub extend_stream-IsBooked :
      (id : ℕ) (sender : Address) (new_end : ℕ) {a : ⊤} {w' : World T}
      → Extend.extend_stream host env id sender new_end w ≡ done a w'
      → IsBooked host t env.current_contract w'
  unfolding flow
  extend_stream-IsBooked id sender new_end {a} {w'} h =
      let e = extend_stream-done host env id sender new_end w h in
      told-IsBooked host laws t env w logged before w' _ (ap (λ v. v.events) e.left)
        (ap (λ v. v.token) e.left) (λ unset. sym (ap (λ v. v.admin) e.left) ∙ unset)
        λ token allowed holder.
          ap (λ v. host.balance v.tokens token holder) e.left
          ∙ sym (add_zero (host.balance w.tokens token holder))

  pub withdraw-IsBooked :
      (id : ℕ) (recipient : Address) {a : ℤ} {w' : World T}
      → Withdraw.withdraw host env id recipient w ≡ done a w'
      → IsBooked host t env.current_contract w'
  unfolding flow
  withdraw-IsBooked id recipient {a} {w'} h =
      let e = withdraw-done host env id recipient w h in
      told-IsBooked host laws t env w logged before w' _ (ap (λ v. v.events) e.left)
        (ap (λ v. v.token) e.left) (λ unset. sym (ap (λ v. v.admin) e.left) ∙ unset)
        λ token allowed holder.
          ap (λ v. host.balance v.tokens token holder) e.left
          ∙ recorded-moved host laws w token env.current_contract recipient a e.tokens e.token_set
              e.transferred allowed holder

  pub cancel-IsBooked :
      (id : ℕ) (caller : Address) {a : ⊤} {w' : World T}
      → Cancel.cancel host env id caller w ≡ done a w'
      → IsBooked host t env.current_contract w'
  unfolding flow settled
  cancel-IsBooked id caller {a} {w'} h =
      let e = cancel-done host env id caller w h in
      let s = e.stream in
      let self = env.current_contract in
      told-IsBooked host laws t env w logged before w' _ (ap (λ v. v.events) e.left)
        (ap (λ v. v.token) e.left) (λ unset. sym (ap (λ v. v.admin) e.left) ∙ unset)
        λ token allowed holder. rw (lookup-catalog id w.streams e.found) (
          ap (λ v. host.balance v.tokens token holder) e.left
          ∙ PaysIfPositive-moved host laws w.token token self s.sender e.sender_refund e.tokens
              e.tokens' e.to_sender allowed holder
          ∙ ap (λ x. x +ℤ moved_if_positive self s.sender e.sender_refund holder)
              (PaysIfPositive-moved host laws w.token token self s.recipient e.recipient_paid
                w.tokens e.tokens e.to_recipient allowed holder)
          ∙ +ℤ_assoc _ _ _)

  pub create_stream_batch-IsBooked :
      (sender : Address) (requests : List StreamRequest) {ids : List ℕ} {w' : World T}
      → Batch.create_stream_batch host env sender requests w ≡ done ids w'
      → IsBooked host t env.current_contract w'
  create_stream_batch-IsBooked sender requests {ids} {w'} h =
      let e = create_stream_batch-done host env sender h in
      let self = env.current_contract in
      let paid = record w { tokens = e.tokens } in
      let frame = store_all-frame host env sender (unwrap_or w.counter 0) requests paid in
      let token_eq : w'.token ≡ w.token = ap (λ v. v.token) e.left ∙ ap (λ v. v.token) frame in
      record {
        unset = λ h.
            token_eq ∙ before.unset (sym (ap (λ v. v.admin) e.left ∙ ap (λ v. v.admin) frame) ∙ h);
        booked = λ token allowed holder.
            let recorded = subst (λ o. IsPaidIn o token) token_eq allowed in
            ap (λ v. host.balance v.tokens token holder) e.left
            ∙ ap (λ v. host.balance v.tokens token holder) frame
            ∙ recorded-moved host laws w token sender self e.sum e.tokens e.token_set e.transferred
                recorded holder
            ∙ ap (λ x. host.balance w.tokens token holder +ℤ moved sender self x holder) e.summed
            ∙ ap (λ x. x +ℤ moved sender self (amounts requests) holder)
                (before.booked token recorded holder)
            ∙ +ℤ_assoc _ _ _
            ∙ sym (
                ap (λ x. host.balance t token holder +ℤ x)
                  (ap (λ v. cash self v.events holder) e.left
                    ∙ store_all-cash host env sender self (unwrap_or w.counter 0) requests paid
                        holder));
      }
