-- ===== src/Trace/Ranges/EntryPoints.antt =====
-- The entry points of streams against the ranges of the state's and the events' numbers
-- (src/lib.rs).
use stream_pay_contracts.Base.{
  ℕ, ◌+◌, ⊤, ◌≤◌, ◌≡◌, ap, List, [], ◌∷◌, ◌++◌, some, arith, unwrap_or, length, true,
}
use stream_pay_contracts.Base.Int.{
  ℤ, pos, ◌≤ℤ◌, int_laws, IsI128, i128_max, u64_max, checked_add-some, checked_sub-some,
  checked_add_u64-some,
}
use stream_pay_contracts.Base.Dict.{lookup}
use stream_pay_contracts.Constants.{is_valid_amount, valid_least}
use stream_pay_contracts.Types.{Address, Stream, StreamRequest}
use stream_pay_contracts.Events.{Event}
use stream_pay_contracts.Host.{Env, Host}
use stream_pay_contracts.World.{World, Outcome, done}
use stream_pay_contracts.Vesting.Bounds.{vested_bounds, withdrawable_bounds}
use stream_pay_contracts.Contract.Create
use stream_pay_contracts.Contract.Batch
use stream_pay_contracts.Contract.TopUp
use stream_pay_contracts.Contract.Extend
use stream_pay_contracts.Contract.Withdraw
use stream_pay_contracts.Contract.Cancel
use stream_pay_contracts.Contract.Create.Effect.{create_stream-done}
use stream_pay_contracts.Contract.Batch.Effect.{
  AllAccepted, create_stream_batch-done, store_one, store_all, store_all-frame,
}
use stream_pay_contracts.Contract.TopUp.Effect.{top_up-done}
use stream_pay_contracts.Contract.Extend.Effect.{extend_stream-done}
use stream_pay_contracts.Contract.Withdraw.Effect.{withdraw-done}
use stream_pay_contracts.Contract.Cancel.Effect.{cancel-done}
use stream_pay_contracts.Invariant.{IsValid, supply}
use stream_pay_contracts.Invariant.Preserved.{found-IsSound}
use stream_pay_contracts.Invariant.Batch.{AllTyped}
use stream_pay_contracts.Invariant.Flow.{cancel-split}
use stream_pay_contracts.Trace.{settle}
use stream_pay_contracts.Trace.Valid.{settle-keeps}
use stream_pay_contracts.Trace.Ranges.{
  EventInRange, LogInRange, IsInRange, cap, LogInRange-append, sum-InRange, difference-InRange,
}

valid-InRange : (amount : ℤ) → is_valid_amount amount ≡ true → amount ≤ℤ i128_max → IsI128 amount
valid-InRange amount valid fits = (omega (arith, (valid_least amount valid).1), fits)

-- An amount between nought and an `i128` total.
part-InRange : (a total : ℤ) → pos 0 ≤ℤ a → a ≤ℤ total → total ≤ℤ i128_max → IsI128 a
part-InRange a total low high fits = (omega arith, omega arith)

-- The second loop of a batch.
store_all-LogInRange :
    {T : Type 0} (host : Host T) (env : Env) (sender : Address) (id : ℕ)
    (requests : List StreamRequest) (w : World T)
    → id + length requests ≤ u64_max
    → AllAccepted env.timestamp requests
    → AllTyped requests
    → LogInRange w.events
    → LogInRange (store_all host env sender id requests w).events
unfolding store_all store_one
store_all-LogInRange host env sender id [] w room accepted typed all = all
store_all-LogInRange host env sender id (r ∷ requests) w room accepted typed all =
    store_all-LogInRange host env sender (id + 1) requests (store_one host env sender id r w)
      (omega arith) accepted.1 typed.1
      (LogInRange-append w.events _ all
        (omega arith, valid-InRange r.total_amount (accepted.0).valid typed.0.0))

module _ {T : Type 0} (w : World T) (before : IsInRange w) where
  pub call-IsInRange :
      {A : Type 0} (o : Outcome T A)
      → ((a : A) (w' : World T) → o ≡ done a w' → IsInRange w')
      → IsInRange (settle w o)
  call-IsInRange o f = settle-keeps IsInRange w o before f

  -- A call that publishes one event and leaves the cap and the deadline alone.
  pub told-IsInRange :
      (w' : World T) (e : Event) {s : ℤ}
      → w'.events ≡ w.events ++ e ∷ []
      → cap w' ≡ cap w
      → w'.admin_action_execute_after ≡ w.admin_action_execute_after
      → supply w' ≡ s
      → IsI128 s
      → EventInRange e
      → IsInRange w'
  told-IsInRange w' e told same_cap same_deadline supply_eq supplied one = record {
    supply_fits = rw supply_eq supplied;
    cap_fits = rw same_cap before.cap_fits;
    deadline_fits = rw same_deadline before.deadline_fits;
    log_fits = rw told (LogInRange-append w.events e before.log_fits one);
  }

  module _ (now : ℕ) (valid : IsValid now w) (host : Host T) (env : Env) where
    -- A stored stream's id.
    found-InRange : (id : ℕ) {s : Stream} → lookup id w.streams ≡ some s → id ≤ u64_max
    found-InRange id found =
        omega (arith, (found-IsSound now w valid id found).numbered, valid.counter_fits)

    pub create_stream-IsInRange :
        (sender recipient : Address) (amount : ℤ) (raw_start end_time : ℕ) {id : ℕ} {w' : World T}
        → amount ≤ℤ i128_max
        → Create.create_stream host env sender recipient amount raw_start end_time w ≡ done id w'
        → IsInRange w'
    create_stream-IsInRange sender recipient amount raw_start end_time {id} {w'} fits h =
        let e = create_stream-done host env sender recipient amount raw_start end_time w h in
        told-IsInRange w' _ (ap (λ v. v.events) e.left) (ap cap e.left)
          (ap (λ v. v.admin_action_execute_after) e.left) (ap supply e.left)
          (sum-InRange _ _ _ e.supplied) (valid.counter_fits, valid-InRange amount e.valid fits)

    pub create_stream_batch-IsInRange :
        (sender : Address) (requests : List StreamRequest) {ids : List ℕ} {w' : World T}
        → AllTyped requests
        → Batch.create_stream_batch host env sender requests w ≡ done ids w'
        → IsInRange w'
    create_stream_batch-IsInRange sender requests {ids} {w'} typed h =
        let e = create_stream_batch-done host env sender h in
        let first = unwrap_or w.counter 0 in
        let paid = record w { tokens = e.tokens } in
        let (next_eq, next_fits) = checked_add_u64-some first (length requests) e.next e.counted in
        let frame = store_all-frame host env sender first requests paid in
        rw e.left (record {
          supply_fits = rw (ap supply frame) before.supply_fits;
          cap_fits = rw (ap cap frame) before.cap_fits;
          deadline_fits =
              rw (ap (λ v. unwrap_or v.admin_action_execute_after 0) frame) before.deadline_fits;
          log_fits =
              store_all-LogInRange host env sender first requests paid (omega arith) e.accepted
                typed before.log_fits;
        })

    pub top_up-IsInRange :
        (id : ℕ) (sender : Address) (amount : ℤ) {a : ℤ} {w' : World T}
        → TopUp.top_up host env id sender amount w ≡ done a w'
        → IsInRange w'
    top_up-IsInRange id sender amount {a} {w'} h =
        let e = top_up-done host env id sender amount w h in
        let s = e.stream in
        let well = (found-IsSound now w valid id e.found).well_formed in
        let (total_eq, fits) = checked_add-some s.total amount a e.summed in
        let within : amount ≤ℤ i128_max = omega (int_laws, well.total_positive, fits) in
        told-IsInRange w' _ (ap (λ v. v.events) e.left) (ap cap e.left)
          (ap (λ v. v.admin_action_execute_after) e.left) (ap supply e.left)
          (sum-InRange _ _ _ e.supplied)
          (
            found-InRange id e.found,
            valid-InRange amount e.valid within,
            sum-InRange s.total amount a e.summed,
          )

    pub extend_stream-IsInRange :
        (id : ℕ) (sender : Address) (new_end : ℕ) {a : ⊤} {w' : World T}
        → new_end ≤ u64_max
        → Extend.extend_stream host env id sender new_end w ≡ done a w'
        → IsInRange w'
    extend_stream-IsInRange id sender new_end {a} {w'} fits h =
        let e = extend_stream-done host env id sender new_end w h in
        let well = (found-IsSound now w valid id e.found).well_formed in
        told-IsInRange w' _ (ap (λ v. v.events) e.left) (ap cap e.left)
          (ap (λ v. v.admin_action_execute_after) e.left) (ap supply e.left) before.supply_fits
          (found-InRange id e.found, well.end_fits, fits)

    pub withdraw-IsInRange :
        (id : ℕ) (recipient : Address) {a : ℤ} {w' : World T}
        → Withdraw.withdraw host env id recipient w ≡ done a w'
        → IsInRange w'
    withdraw-IsInRange id recipient {a} {w'} h =
        let e = withdraw-done host env id recipient w h in
        let s = e.stream in
        let well = (found-IsSound now w valid id e.found).well_formed in
        let (low, high) = withdrawable_bounds s env.timestamp well e.due in
        let within : a ≤ℤ s.total = omega (int_laws, high, well.withdrawn_nonneg) in
        told-IsInRange w' _ (ap (λ v. v.events) e.left) (ap cap e.left)
          (ap (λ v. v.admin_action_execute_after) e.left) (ap supply e.left)
          (difference-InRange (supply w) a)
          (found-InRange id e.found, part-InRange a s.total low within well.total_fits)

    pub cancel-IsInRange :
        (id : ℕ) (caller : Address) {a : ⊤} {w' : World T}
        → Cancel.cancel host env id caller w ≡ done a w'
        → IsInRange w'
    cancel-IsInRange id caller {a} {w'} h =
        let e = cancel-done host env id caller w h in
        let s = e.stream in
        let (_, paid_eq, refund_eq, _, well) = cancel-split now w valid host env id caller h in
        let (low, high) = vested_bounds s env.timestamp well e.vests in
        let paid_fits = (checked_sub-some e.now_vested s.withdrawn e.recipient_paid e.pays).1 in
        let refund_low : pos 0 ≤ℤ e.sender_refund = rw refund_eq (omega int_laws) in
        let refund_high : e.sender_refund ≤ℤ s.total = rw refund_eq (omega int_laws) in
        told-IsInRange w' _ (ap (λ v. v.events) e.left) (ap cap e.left)
          (ap (λ v. v.admin_action_execute_after) e.left) (ap supply e.left)
          (difference-InRange (supply w) _)
          (
            found-InRange id e.found,
            part-InRange e.sender_refund s.total refund_low refund_high well.total_fits,
            rw paid_eq paid_fits,
          )
