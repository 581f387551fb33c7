-- ===== src/Invariant/Batch.antt =====
-- A batch, for the state's validity, the escrow and the supply (src/lib.rs).
use stream_pay_contracts.Base.{
  ℕ, ◌+◌, ◌≤◌, ◌≡◌, sym, ap, ◌∙◌, List, [], ◌∷◌, arith, unwrap_or, length,
}
use stream_pay_contracts.Base.Int.{
  ◌+ℤ◌, ◌≤ℤ◌, add_zero, +ℤ_assoc, i128_max, u64_max, checked_add_u64-some,
}
use native.Mathlib.Nat.{le_refl}
use stream_pay_contracts.Types.{Address, StreamRequest}
use stream_pay_contracts.Host.{Env, Host}
use stream_pay_contracts.World.{World, done}
use stream_pay_contracts.Contract.Create.{new_stream}
use stream_pay_contracts.Contract.Batch.{create_stream_batch}
use stream_pay_contracts.Contract.Batch.Effect.{
  AllAccepted, store_one, store_all, store_all-frame, amounts, create_stream_batch-done,
}
use stream_pay_contracts.Invariant.{IsSound, AllStreams, IsValid, escrow, supply}
use stream_pay_contracts.Invariant.WellFormed.{created-IsWellFormed}
use stream_pay_contracts.Invariant.Preserved.{AllStreams-later, set_ne_none}
use stream_pay_contracts.Invariant.Escrow.{escrow_of-new}
use stream_pay_contracts.Invariant.Insert.{AllStreams-insert, escrow-insert_new, lookup-next}

-- The values of a request fit their types.
abbrev pub AllTyped : List StreamRequest → Type 0
AllTyped [] = Unit
AllTyped (r ∷ requests) =
    ((r.total_amount ≤ℤ i128_max) × (r.end_time ≤ u64_max)) × AllTyped requests

module _ {T : Type 0} (host : Host T) (env : Env) (sender : Address) (now counter : ℕ) where
  store_all-IsSound :
      (id : ℕ) (requests : List StreamRequest) (w : World T)
      → id + length requests ≤ counter
      → AllAccepted env.timestamp requests
      → AllTyped requests
      → AllStreams (IsSound now counter) w.streams
      → AllStreams (IsSound now counter) (store_all host env sender id requests w).streams
  unfolding store_all store_one
  store_all-IsSound id [] w room accepted typed all = all
  store_all-IsSound id (r ∷ requests) w room accepted typed all =
      let a = accepted.0 in
      store_all-IsSound (id + 1) requests (store_one host env sender id r w) (omega arith)
        accepted.1 typed.1
        (AllStreams-insert (IsSound now counter) id
          (new_stream sender r.recipient r.total_amount r.start_time r.end_time) w.streams all
          (record {
            well_formed =
                created-IsWellFormed sender r.recipient r.total_amount r.start_time r.end_time
                  a.valid typed.0.0 a.window typed.0.1;
            settled = λ done. cc;
            numbered = omega arith;
          }))

-- A batch keeps the state valid.
pub create_stream_batch-IsValid :
    {T : Type 0} (now : ℕ) (w : World T) (host : Host T) (env : Env) (sender : Address)
    (requests : List StreamRequest) {ids : List ℕ} {w' : World T}
    → IsValid now w
    → now ≤ env.timestamp
    → AllTyped requests
    → create_stream_batch host env sender requests w ≡ done ids w'
    → IsValid env.timestamp w'
create_stream_batch-IsValid now w host env sender requests {ids} {w'} valid passed typed h =
    let e = create_stream_batch-done host env sender h in
    let first = unwrap_or w.counter 0 in
    let (next_eq, next_fits) = checked_add_u64-some first (length requests) e.next e.counted in
    let paid = record w { tokens = e.tokens } in
    let frame = store_all-frame host env sender first requests paid in
    rw e.left (record {
      sound =
          store_all-IsSound host env sender env.timestamp e.next first requests paid (omega arith)
            e.accepted typed (AllStreams-later w.streams passed (omega arith) valid.sound);
      counter_fits = next_fits;
      fresh = λ unset.
          absurd (set_ne_none w.admin e.initialized (sym (ap (λ v. v.admin) frame) ∙ unset));
    })

module _ {T : Type 0} (host : Host T) (env : Env) (sender : Address) (now : ℕ) where
  -- Storing the requests adds their amounts to the escrow.
  store_all-escrow :
      (id : ℕ) (requests : List StreamRequest) (w : World T)
      → AllAccepted env.timestamp requests
      → AllTyped requests
      → AllStreams (IsSound now id) w.streams
      → escrow (store_all host env sender id requests w).streams
        ≡ escrow w.streams +ℤ amounts requests
  unfolding store_all store_one amounts
  store_all-escrow id [] w accepted typed all = sym (add_zero (escrow w.streams))
  store_all-escrow id (r ∷ requests) w accepted typed all =
      let a = accepted.0 in
      let new = new_stream sender r.recipient r.total_amount r.start_time r.end_time in
      store_all-escrow (id + 1) requests (store_one host env sender id r w) accepted.1 typed.1 (
        AllStreams-insert (IsSound now (id + 1)) id new w.streams
          (AllStreams-later w.streams (le_refl now) (omega arith) all)
          (record {
            well_formed =
                created-IsWellFormed sender r.recipient r.total_amount r.start_time r.end_time
                  a.valid typed.0.0 a.window typed.0.1;
            settled = λ done. cc;
            numbered = omega arith;
          }))
      ∙ ap (λ x. x +ℤ amounts requests)
          (escrow-insert_new id new w.streams (lookup-next now id w.streams all)
            ∙ ap (λ x. escrow w.streams +ℤ x)
                (escrow_of-new sender r.recipient r.total_amount r.start_time r.end_time))
      ∙ +ℤ_assoc (escrow w.streams) r.total_amount (amounts requests)

-- In a valid state a batch of typed requests adds the amounts of its requests to the escrow, and
-- nothing to the reported supply.
pub create_stream_batch-supply :
    {T : Type 0} (now : ℕ) (w : World T) (host : Host T) (env : Env) (sender : Address)
    (requests : List StreamRequest) {ids : List ℕ} {w' : World T}
    → IsValid now w
    → AllTyped requests
    → create_stream_batch host env sender requests w ≡ done ids w'
    → (escrow w'.streams ≡ escrow w.streams +ℤ amounts requests) × (supply w' ≡ supply w)
create_stream_batch-supply now w host env sender requests {ids} {w'} valid typed h =
    let e = create_stream_batch-done host env sender h in
    let first = unwrap_or w.counter 0 in
    let paid = record w { tokens = e.tokens } in
    let frame = store_all-frame host env sender first requests paid in
    rw e.left (
      store_all-escrow host env sender now first requests paid e.accepted typed valid.sound,
      ap supply frame,
    )
