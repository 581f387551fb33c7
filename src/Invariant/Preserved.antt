-- ===== src/Invariant/Preserved.antt =====
-- The entry points that return, for the state's validity (src/lib.rs).
use stream_pay_contracts.Base.{
  ℕ, ⊤, ◌≤◌, ◌≡◌, sym, ap, ◌∙◌, true, Option, none, some, arith, unwrap_or,
}
use stream_pay_contracts.Base.Int.{ℤ, ◌≤ℤ◌, i128_max, u64_max, checked_add_u64-some}
use stream_pay_contracts.Base.Dict.{Dict, lookup, insert}
use stream_pay_contracts.Normalize.{normalize_start_time}
use stream_pay_contracts.Types.{Address, Stream, active, cancelled, completed, Status}
use stream_pay_contracts.Types.Valid.{IsWellFormed}
use stream_pay_contracts.Host.{Env, Host}
use stream_pay_contracts.World.{World, done}
use stream_pay_contracts.Storage.{is_some}
use stream_pay_contracts.Contract.Create.{create_stream}
use stream_pay_contracts.Contract.Create.Effect.{opened, create_stream-done}
use stream_pay_contracts.Contract.TopUp.{top_up}
use stream_pay_contracts.Contract.TopUp.Effect.{top_up-done}
use stream_pay_contracts.Contract.Extend.{extend_stream}
use stream_pay_contracts.Contract.Extend.Effect.{extend_stream-done}
use stream_pay_contracts.Contract.Withdraw.{withdraw, pay_out}
use stream_pay_contracts.Contract.Withdraw.Effect.{withdraw-done}
use stream_pay_contracts.Contract.Cancel.{cancel}
use stream_pay_contracts.Contract.Cancel.Effect.{cancel-done}
use stream_pay_contracts.Invariant.{IsSound, AllStreams, IsValid}
use stream_pay_contracts.Invariant.WellFormed.{
  topped_up-IsWellFormed, extended-IsWellFormed, cancelled-IsWellFormed, paid-IsWellFormed,
  created-IsWellFormed,
}
use stream_pay_contracts.Invariant.Insert.{
  AllStreams-lookup, AllStreams-insert, AllStreams-map, IsSound-later, found_initialized,
}

-- All streams stay sound as time passes and streams are counted.
pub AllStreams-later :
    {now later counter counter' : ℕ} (d : Dict Stream)
    → now ≤ later
    → counter ≤ counter'
    → AllStreams (IsSound now counter) d
    → AllStreams (IsSound later counter') d
AllStreams-later {now} {later} {counter} {counter'} d h k =
    AllStreams-map (IsSound now counter) (IsSound later counter') d (λ id s. IsSound-later id s h k)

not_completed : (status : Status) → status ≡ active → status ≡ completed → ⊥
not_completed status h k = cc

pub set_ne_none : {A : Type 0} (o : Option A) → is_some o ≡ true → o ≡ none → ⊥
set_ne_none none h e = cc
set_ne_none (some a) h e = cc

module _ {T : Type 0} (now : ℕ) (w : World T) (valid : IsValid now w) where
  -- A stream that is found is sound.
  pub found-IsSound :
      (id : ℕ) {s : Stream}
      → lookup id w.streams ≡ some s
      → IsSound now (unwrap_or w.counter 0) id s
  found-IsSound id {s} found =
      AllStreams-lookup (IsSound now (unwrap_or w.counter 0)) id s w.streams valid.sound found

  module _ (later : ℕ) (passed : now ≤ later) where
    -- Writing a changed stream back keeps the state valid, if the stream is still sound.
    write-IsValid :
        (id : ℕ) (old new : Stream) (w' : World T)
        → lookup id w.streams ≡ some old
        → IsWellFormed new
        → (new.status ≡ completed → new.end ≤ later)
        → w'.admin ≡ w.admin
        → w'.counter ≡ w.counter
        → w'.streams ≡ insert id new w.streams
        → IsValid later w'
    write-IsValid id old new w' found well settled same_admin same_counter written =
        rw (same_counter, written)
          (record {
            sound =
                AllStreams-insert (IsSound later (unwrap_or w.counter 0)) id new w.streams
                  (AllStreams-later w.streams passed (omega arith) valid.sound)
                  (record {
                    well_formed = well;
                    settled = settled;
                    numbered = (found-IsSound id found).numbered;
                  });
            counter_fits = valid.counter_fits;
            fresh = λ unset.
                absurd (
                  found_initialized w.admin id w.streams valid.fresh found
                    (sym same_admin ∙ unset));
          })

    -- A top-up keeps the state valid.
    pub top_up-IsValid :
        (host : Host T) (env : Env) (id : ℕ) (sender : Address) (amount : ℤ) {a : ℤ} {w' : World T}
        → env.timestamp ≡ later
        → top_up host env id sender amount w ≡ done a w'
        → IsValid later w'
    top_up-IsValid host env id sender amount {a} {w'} clock h =
        let e = top_up-done host env id sender amount w h in
        let sound = found-IsSound id e.found in
        write-IsValid id e.stream (record (e.stream) { total = a }) w' e.found
          (topped_up-IsWellFormed e.stream amount a sound.well_formed e.still_active e.valid
            e.summed)
          (λ done. absurd (not_completed (e.stream).status e.still_active done))
          (ap (λ v. v.admin) e.left) (ap (λ v. v.counter) e.left) (ap (λ v. v.streams) e.left)

    -- An extension to an end that fits a `u64` keeps the state valid.
    pub extend_stream-IsValid :
        (host : Host T) (env : Env) (id : ℕ) (sender : Address) (new_end : ℕ) {a : ⊤} {w' : World T}
        → new_end ≤ u64_max
        → extend_stream host env id sender new_end w ≡ done a w'
        → IsValid later w'
    extend_stream-IsValid host env id sender new_end {a} {w'} fits h =
        let e = extend_stream-done host env id sender new_end w h in
        let sound = found-IsSound id e.found in
        write-IsValid id e.stream (record (e.stream) { end = new_end }) w' e.found
          (extended-IsWellFormed e.stream new_end sound.well_formed e.later fits)
          (λ done. absurd (not_completed (e.stream).status e.still_active done))
          (ap (λ v. v.admin) e.left) (ap (λ v. v.counter) e.left) (ap (λ v. v.streams) e.left)

    -- A withdrawal keeps the state valid.
    pub withdraw-IsValid :
        (host : Host T) (env : Env) (id : ℕ) (recipient : Address) {a : ℤ} {w' : World T}
        → env.timestamp ≡ later
        → withdraw host env id recipient w ≡ done a w'
        → IsValid later w'
    withdraw-IsValid host env id recipient {a} {w'} clock h =
        let e = withdraw-done host env id recipient w h in
        let sound = found-IsSound id e.found in
        let (well, ended) =
          paid-IsWellFormed e.stream env.timestamp sound.well_formed e.still_active e.due e.positive
            e.summed in
        write-IsValid id e.stream (pay_out e.stream e.withdrawn) w' e.found well
          (λ done. omega (arith, ended done)) (ap (λ v. v.admin) e.left)
          (ap (λ v. v.counter) e.left) (ap (λ v. v.streams) e.left)

    -- A cancellation keeps the state valid.
    pub cancel-IsValid :
        (host : Host T) (env : Env) (id : ℕ) (caller : Address) {a : ⊤} {w' : World T}
        → cancel host env id caller w ≡ done a w'
        → IsValid later w'
    cancel-IsValid host env id caller {a} {w'} h =
        let e = cancel-done host env id caller w h in
        let sound = found-IsSound id e.found in
        write-IsValid id e.stream
          (record (e.stream) { withdrawn = e.now_vested; status = cancelled }) w' e.found
          (cancelled-IsWellFormed e.stream env.timestamp sound.well_formed e.vests) (λ done. cc)
          (ap (λ v. v.admin) e.left) (ap (λ v. v.counter) e.left) (ap (λ v. v.streams) e.left)

    -- A creation keeps the state valid.
    pub create_stream-IsValid :
        (host : Host T) (env : Env) (sender recipient : Address) (amount : ℤ)
        (raw_start end_time : ℕ) {id : ℕ} {w' : World T}
        → amount ≤ℤ i128_max
        → end_time ≤ u64_max
        → create_stream host env sender recipient amount raw_start end_time w ≡ done id w'
        → IsValid later w'
    create_stream-IsValid host env sender recipient amount raw_start end_time {id} {w'} fits
          end_fits h =
        let e = create_stream-done host env sender recipient amount raw_start end_time w h in
        let (next_eq, next_fits) =
          checked_add_u64-some (unwrap_or w.counter 0) 1 e.next e.counted in
        rw e.left (record {
          sound =
              AllStreams-insert (IsSound later e.next) (unwrap_or w.counter 0)
                (opened host env sender recipient amount raw_start end_time w) w.streams
                (AllStreams-later w.streams passed (omega arith) valid.sound)
                (record {
                  well_formed =
                      created-IsWellFormed sender recipient amount
                        (normalize_start_time env.timestamp raw_start) end_time e.valid fits
                        e.window end_fits;
                  settled = λ done. cc;
                  numbered = omega arith;
                });
          counter_fits = next_fits;
          fresh = λ unset. absurd (set_ne_none w.admin e.initialized unset);
        })
