-- ===== src/Trace/Replay/EntryPoints.antt =====
-- The entry points of streams against the event log (src/lib.rs, src/events.rs).
use stream_pay_contracts.Base.{
  ℕ, ◌+◌, ⊤, ◌≡◌, refl, sym, ap, ◌∙◌, false, List, [], ◌∷◌, ◌++◌, arith,
}
use stream_pay_contracts.Base.Int.{ℤ, ◌+ℤ◌, ◌-ℤ◌, int_laws, checked_add-some, checked_sub-some}
use stream_pay_contracts.Types.{Address, Stream, StreamRequest, active}
use stream_pay_contracts.Host.{Env, Host}
use stream_pay_contracts.World.{World, Outcome, done}
use stream_pay_contracts.Events.{Event}
use stream_pay_contracts.Contract.Create
use stream_pay_contracts.Contract.Create.{new_stream}
use stream_pay_contracts.Contract.TopUp
use stream_pay_contracts.Contract.Extend
use stream_pay_contracts.Contract.Withdraw
use stream_pay_contracts.Contract.Withdraw.{pay_out}
use stream_pay_contracts.Contract.Cancel
use stream_pay_contracts.Contract.Create.Effect.{create_stream-done}
use stream_pay_contracts.Contract.Batch.Effect.{store_one, store_all}
use stream_pay_contracts.Contract.TopUp.Effect.{top_up-done}
use stream_pay_contracts.Contract.Extend.Effect.{extend_stream-done}
use stream_pay_contracts.Contract.Withdraw.Effect.{withdraw-done}
use stream_pay_contracts.Contract.Cancel.Effect.{cancel-done}
use stream_pay_contracts.Trace.{settle}
use stream_pay_contracts.Trace.Valid.{settle-keeps}
use stream_pay_contracts.Trace.Replay.{
  observe, replay, entry_of, catalog, replay-append, catalog-insert, catalog-update, catalog-unseen,
}

-- The log replays to the stored streams.
abbrev pub IsLogged : {T : Type 0} → World T → Type 0
IsLogged w = replay w.events ≡ catalog w.streams

paid_entry :
    (s : Stream) (withdrawn a : ℤ)
    → s.status ≡ active
    → withdrawn ≡ s.withdrawn +ℤ a
    → record (entry_of s) { withdrawn = s.withdrawn +ℤ a } ≡ entry_of (pay_out s withdrawn)
paid_entry s withdrawn a live sum = ground arith

restored : (w v p : ℤ) → p ≡ v -ℤ w → w +ℤ p ≡ v
restored w v p e = rw e (omega int_laws)

module _ {T : Type 0} (w : World T) (logged : IsLogged w) where
  pub call-IsLogged :
      {A : Type 0} (o : Outcome T A)
      → ((a : A) (w' : World T) → o ≡ done a w' → IsLogged w')
      → IsLogged (settle w o)
  call-IsLogged o f = settle-keeps IsLogged w o logged f

  -- An event that tells of no stream, from a call that changes none.
  pub quiet-IsLogged :
      (w' : World T) (e : Event)
      → w'.events ≡ w.events ++ e ∷ []
      → w'.streams ≡ w.streams
      → observe (replay w.events) e ≡ replay w.events
      → IsLogged w'
  quiet-IsLogged w' e told same quiet =
      ap replay told ∙ replay-append w.events e ∙ quiet ∙ logged ∙ ap catalog (sym same)

  -- An event that tells how the streams change.
  pub told-IsLogged :
      (w' : World T) (e : Event)
      → w'.events ≡ w.events ++ e ∷ []
      → observe (catalog w.streams) e ≡ catalog w'.streams
      → IsLogged w'
  told-IsLogged w' e told same =
      ap replay told ∙ replay-append w.events e ∙ ap (λ d. observe d e) logged ∙ same

  pub create_stream-IsLogged :
      (host : Host T) (env : Env) (sender recipient : Address) (amount : ℤ) (raw_start end_time : ℕ)
      {id : ℕ} {w' : World T}
      → Create.create_stream host env sender recipient amount raw_start end_time w ≡ done id w'
      → IsLogged w'
  unfolding observe
  create_stream-IsLogged host env sender recipient amount raw_start end_time {id} {w'} h =
      let e = create_stream-done host env sender recipient amount raw_start end_time w h in
      told-IsLogged w' _ (ap (λ v. v.events) e.left)
        (sym (ap (λ v. catalog v.streams) e.left ∙ catalog-insert _ _ w.streams))

  pub top_up-IsLogged :
      (host : Host T) (env : Env) (id : ℕ) (sender : Address) (amount : ℤ) {a : ℤ} {w' : World T}
      → TopUp.top_up host env id sender amount w ≡ done a w'
      → IsLogged w'
  unfolding observe
  top_up-IsLogged host env id sender amount {a} {w'} h =
      let e = top_up-done host env id sender amount w h in
      told-IsLogged w' _ (ap (λ v. v.events) e.left) (
        sym (
          ap (λ v. catalog v.streams) e.left
          ∙ catalog-update id e.stream _ _ w.streams e.found refl))

  pub extend_stream-IsLogged :
      (host : Host T) (env : Env) (id : ℕ) (sender : Address) (new_end : ℕ) {a : ⊤} {w' : World T}
      → Extend.extend_stream host env id sender new_end w ≡ done a w'
      → IsLogged w'
  unfolding observe
  extend_stream-IsLogged host env id sender new_end {a} {w'} h =
      let e = extend_stream-done host env id sender new_end w h in
      told-IsLogged w' _ (ap (λ v. v.events) e.left) (
        sym (
          ap (λ v. catalog v.streams) e.left ∙ catalog-unseen id e.stream _ w.streams e.found refl))

  pub withdraw-IsLogged :
      (host : Host T) (env : Env) (id : ℕ) (recipient : Address) {a : ℤ} {w' : World T}
      → Withdraw.withdraw host env id recipient w ≡ done a w'
      → IsLogged w'
  unfolding observe
  withdraw-IsLogged host env id recipient {a} {w'} h =
      let e = withdraw-done host env id recipient w h in
      told-IsLogged w' _ (ap (λ v. v.events) e.left) (
        sym (
          ap (λ v. catalog v.streams) e.left
          ∙ catalog-update id e.stream (pay_out e.stream e.withdrawn) _ w.streams e.found (
              paid_entry e.stream e.withdrawn a e.still_active
                (checked_add-some _ _ _ e.summed).0)))

  pub cancel-IsLogged :
      (host : Host T) (env : Env) (id : ℕ) (caller : Address) {a : ⊤} {w' : World T}
      → Cancel.cancel host env id caller w ≡ done a w'
      → IsLogged w'
  unfolding observe
  cancel-IsLogged host env id caller {a} {w'} h =
      let e = cancel-done host env id caller w h in
      told-IsLogged w' _ (ap (λ v. v.events) e.left) (
        sym (
          ap (λ v. catalog v.streams) e.left
          ∙ catalog-update id e.stream _ _ w.streams e.found (
              ap (λ x. record (entry_of e.stream) { withdrawn = x; is_open = false })
                (restored (e.stream).withdrawn e.now_vested e.recipient_paid
                  (checked_sub-some _ _ _ e.pays).0))))

-- The second loop of a batch publishes a creation for each stream.
pub store_all-IsLogged :
    {T : Type 0} (host : Host T) (env : Env) (sender : Address) (id : ℕ)
    (requests : List StreamRequest) (w : World T)
    → IsLogged w
    → IsLogged (store_all host env sender id requests w)
unfolding store_all store_one observe
store_all-IsLogged host env sender id [] w logged = logged
store_all-IsLogged host env sender id (r ∷ requests) w logged =
    store_all-IsLogged host env sender (id + 1) requests (store_one host env sender id r w) (
      told-IsLogged w logged (store_one host env sender id r w) _ refl
        (sym (catalog-insert id _ w.streams)))
