-- ===== src/Trace/Balanced/EntryPoints.antt =====
-- The entry points of streams and the contract's balance, to the unit (src/lib.rs).
use stream_pay_contracts.Base.{ℕ, ⊤, ◌≡◌, ◌≢◌, sym, ap, ap₂, ◌∙◌, subst, some, List, unwrap_or}
use stream_pay_contracts.Base.Int.{ℤ, pos, ◌+ℤ◌, ◌≤ℤ◌, int_laws, +ℤ_assoc}
use stream_pay_contracts.Base.Dict.{lookup, insert}
use stream_pay_contracts.Types.{Address, Stream, StreamRequest}
use stream_pay_contracts.Host.{Env, Host, MovesTokens}
use stream_pay_contracts.World.{World, Outcome, done}
use stream_pay_contracts.Vesting.Bounds.{vested-ok, vested_bounds}
use stream_pay_contracts.Contract.Create
use stream_pay_contracts.Contract.Create.{new_stream}
use stream_pay_contracts.Contract.Batch
use stream_pay_contracts.Contract.TopUp
use stream_pay_contracts.Contract.Extend
use stream_pay_contracts.Contract.Withdraw
use stream_pay_contracts.Contract.Withdraw.{pay_out}
use stream_pay_contracts.Contract.Cancel
use stream_pay_contracts.Contract.Create.Effect.{create_stream-done}
use stream_pay_contracts.Contract.Batch.Effect.{create_stream_batch-done, store_all-frame}
use stream_pay_contracts.Contract.TopUp.Effect.{top_up-done}
use stream_pay_contracts.Contract.Extend.Effect.{extend_stream-done}
use stream_pay_contracts.Contract.Withdraw.Effect.{withdraw-done}
use stream_pay_contracts.Contract.Cancel.Effect.{cancel-done}
use stream_pay_contracts.Invariant.{AllStreams, IsValid, escrow}
use stream_pay_contracts.Invariant.Earned.{IsEarned}
use stream_pay_contracts.Invariant.Insert.{AllStreams-lookup, AllStreams-insert}
use stream_pay_contracts.Invariant.Batch.{AllTyped, create_stream_batch-supply}
use stream_pay_contracts.Invariant.Flow.{
  create_stream-escrow, top_up-escrow, extend_stream-escrow, withdraw-escrow, cancel-escrow,
  cancel-split,
}
use stream_pay_contracts.Trace.{settle}
use stream_pay_contracts.Trace.Valid.{settle-keeps}
use stream_pay_contracts.Trace.Cash.Booked.{IsPaidIn, PaysIfPositive-moved, recorded-moved}
use stream_pay_contracts.Trace.Balanced.{
  IsApart, AllApart, IsBalanced, moved_in, moved_out, moved_out_if_positive, take, take_both,
  store_all-AllApart,
}

module _ {T : Type 0} (host : Host T) (laws : MovesTokens host) (t : T) (env : Env) (now : ℕ)
    (w : World T) (valid : IsValid now w) (before : IsBalanced host t env.current_contract w) where
  pub call-IsBalanced :
      {A : Type 0} (o : Outcome T A)
      → ((a : A) (w' : World T) → o ≡ done a w' → IsBalanced host t env.current_contract w')
      → IsBalanced host t env.current_contract (settle w o)
  call-IsBalanced o f = settle-keeps (IsBalanced host t env.current_contract) w o before f

  found-IsApart :
      (id : ℕ) {s : Stream} → lookup id w.streams ≡ some s → IsApart env.current_contract id s
  found-IsApart id {s} found = AllStreams-lookup _ id s w.streams before.apart found

  -- A call that writes one stream.
  written-IsBalanced :
      (id : ℕ) (s : Stream) (w' : World T)
      → w'.streams ≡ insert id s w.streams
      → IsApart env.current_contract id s
      → w'.token ≡ w.token
      → ((token : Address)
          → IsPaidIn w.token token
          → host.balance w'.tokens token env.current_contract
            ≡ host.balance t token env.current_contract +ℤ escrow w'.streams)
      → IsBalanced host t env.current_contract w'
  written-IsBalanced id s w' written apart same gain = record {
    apart =
        rw written
          (AllStreams-insert (IsApart env.current_contract) id s w.streams before.apart apart);
    exact = λ token allowed. gain token (subst (λ o. IsPaidIn o token) same allowed);
  }

  -- A deposit from another holder.
  deposited :
      (token from : Address) (amount : ℤ) (tokens : T) {recorded : Address} (w' : World T)
      → w.token ≡ some recorded
      → host.transfer w.tokens recorded from env.current_contract amount ≡ some tokens
      → IsPaidIn w.token token
      → env.current_contract ≢ from
      → w'.tokens ≡ tokens
      → escrow w'.streams ≡ escrow w.streams +ℤ amount
      → host.balance w'.tokens token env.current_contract
        ≡ host.balance t token env.current_contract +ℤ escrow w'.streams
  deposited token from amount tokens w' set made allowed apart left grown =
      ap (λ x. host.balance x token env.current_contract) left
      ∙ recorded-moved host laws w token from env.current_contract amount tokens set made allowed
          env.current_contract
      ∙ ap₂ ◌+ℤ◌ (before.exact token allowed) (moved_in from env.current_contract amount apart)
      ∙ +ℤ_assoc _ _ _
      ∙ ap (λ x. host.balance t token env.current_contract +ℤ x) (sym grown)

  pub create_stream-IsBalanced :
      (sender recipient : Address) (amount : ℤ) (raw_start end_time : ℕ) {id : ℕ} {w' : World T}
      → env.current_contract ≢ sender
      → env.current_contract ≢ recipient
      → Create.create_stream host env sender recipient amount raw_start end_time w ≡ done id w'
      → IsBalanced host t env.current_contract w'
  create_stream-IsBalanced sender recipient amount raw_start end_time {id} {w'} from to h =
      let e = create_stream-done host env sender recipient amount raw_start end_time w h in
      written-IsBalanced _ _ w' (ap (λ v. v.streams) e.left) (from, to) (ap (λ v. v.token) e.left)
        λ token allowed.
          deposited token sender amount e.tokens w' e.token_set e.transferred allowed from
            (ap (λ v. v.tokens) e.left)
            (create_stream-escrow now w valid host env sender recipient amount raw_start end_time h)

  pub top_up-IsBalanced :
      (id : ℕ) (sender : Address) (amount : ℤ) {a : ℤ} {w' : World T}
      → TopUp.top_up host env id sender amount w ≡ done a w'
      → IsBalanced host t env.current_contract w'
  top_up-IsBalanced id sender amount {a} {w'} h =
      let e = top_up-done host env id sender amount w h in
      let (from, to) = found-IsApart id e.found in
      written-IsBalanced id _ w' (ap (λ v. v.streams) e.left) (from, to) (ap (λ v. v.token) e.left)
        λ token allowed.
          deposited token sender amount e.tokens w' e.token_set e.transferred allowed
            (λ q. from (q ∙ e.owned)) (ap (λ v. v.tokens) e.left)
            (top_up-escrow now w valid host env id sender amount h)

  pub extend_stream-IsBalanced :
      (id : ℕ) (sender : Address) (new_end : ℕ) {a : ⊤} {w' : World T}
      → Extend.extend_stream host env id sender new_end w ≡ done a w'
      → IsBalanced host t env.current_contract w'
  extend_stream-IsBalanced id sender new_end {a} {w'} h =
      let e = extend_stream-done host env id sender new_end w h in
      written-IsBalanced id _ w' (ap (λ v. v.streams) e.left) (found-IsApart id e.found)
        (ap (λ v. v.token) e.left)
        λ token allowed.
          ap (λ v. host.balance v.tokens token env.current_contract) e.left
          ∙ before.exact token allowed
          ∙ ap (λ x. host.balance t token env.current_contract +ℤ x)
              (sym (extend_stream-escrow now w valid host env id sender new_end h))

  pub withdraw-IsBalanced :
      (id : ℕ) (recipient : Address) {a : ℤ} {w' : World T}
      → Withdraw.withdraw host env id recipient w ≡ done a w'
      → IsBalanced host t env.current_contract w'
  withdraw-IsBalanced id recipient {a} {w'} h =
      let e = withdraw-done host env id recipient w h in
      let self = env.current_contract in
      let (from, to) = found-IsApart id e.found in
      written-IsBalanced id (pay_out e.stream e.withdrawn) w' (ap (λ v. v.streams) e.left)
        (from, to) (ap (λ v. v.token) e.left)
        λ token allowed.
          ap (λ v. host.balance v.tokens token self) e.left
          ∙ recorded-moved host laws w token self recipient a e.tokens e.token_set e.transferred
              allowed self
          ∙ ap₂ ◌+ℤ◌ (before.exact token allowed)
              (moved_out self recipient a (λ q. to (q ∙ sym e.owned)))
          ∙ take _ _ _
          ∙ ap (λ x. host.balance t token self +ℤ x)
              (sym (withdraw-escrow now w valid host env id recipient h))

  pub cancel-IsBalanced :
      (id : ℕ) (caller : Address) {a : ⊤} {w' : World T}
      → AllStreams (IsEarned env.timestamp) w.streams
      → Cancel.cancel host env id caller w ≡ done a w'
      → IsBalanced host t env.current_contract w'
  cancel-IsBalanced id caller {a} {w'} all_earned h =
      let e = cancel-done host env id caller w h in
      let s = e.stream in
      let self = env.current_contract in
      let (from, to) = found-IsApart id e.found in
      let (sum, paid_eq, refund_eq, _, well) = cancel-split now w valid host env id caller h in
      let earned = (AllStreams-lookup _ id s w.streams all_earned e.found).earned e.not_cancelled in
      let v_eq = vested-ok s env.timestamp well e.vests in
      let reached : s.withdrawn ≤ℤ e.now_vested = rw v_eq earned in
      let (_, high) = vested_bounds s env.timestamp well e.vests in
      let paid_low : pos 0 ≤ℤ e.recipient_paid = rw paid_eq (omega int_laws) in
      let refund_low : pos 0 ≤ℤ e.sender_refund = rw refund_eq (omega int_laws) in
      written-IsBalanced id _ w' (ap (λ v. v.streams) e.left) (from, to) (ap (λ v. v.token) e.left)
        λ token allowed.
          ap (λ v. host.balance v.tokens token self) e.left
          ∙ PaysIfPositive-moved host laws w.token token self s.sender e.sender_refund e.tokens
              e.tokens' e.to_sender allowed self
          ∙ ap₂ ◌+ℤ◌
              (PaysIfPositive-moved host laws w.token token self s.recipient e.recipient_paid
                  w.tokens e.tokens e.to_recipient allowed self
                ∙ ap₂ ◌+ℤ◌ (before.exact token allowed)
                    (moved_out_if_positive self s.recipient e.recipient_paid to paid_low))
              (moved_out_if_positive self s.sender e.sender_refund from refund_low)
          ∙ take_both _ _ _ _ _ sum
          ∙ ap (λ x. host.balance t token self +ℤ x)
              (sym (cancel-escrow now w valid host env id caller h))

  pub create_stream_batch-IsBalanced :
      (sender : Address) (requests : List StreamRequest) {ids : List ℕ} {w' : World T}
      → env.current_contract ≢ sender
      → AllApart env.current_contract requests
      → AllTyped requests
      → Batch.create_stream_batch host env sender requests w ≡ done ids w'
      → IsBalanced host t env.current_contract w'
  create_stream_batch-IsBalanced sender requests {ids} {w'} from all typed h =
      let e = create_stream_batch-done host env sender h in
      let first = unwrap_or w.counter 0 in
      let paid = record w { tokens = e.tokens } in
      let frame = store_all-frame host env sender first requests paid in
      record {
        apart = rw (ap (λ v. v.streams) e.left) (
            store_all-AllApart host env sender env.current_contract first requests paid from all
              before.apart);
        exact = λ token allowed.
            deposited token sender e.sum e.tokens w' e.token_set e.transferred
              (subst (λ o. IsPaidIn o token) (ap (λ v. v.token) e.left ∙ ap (λ v. v.token) frame)
                allowed)
              from (ap (λ v. v.tokens) e.left ∙ ap (λ v. v.tokens) frame)
              ((create_stream_batch-supply now w host env sender requests valid typed h).0
                ∙ ap (λ x. escrow w.streams +ℤ x) (sym e.summed));
      }
