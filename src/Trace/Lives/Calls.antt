-- ===== src/Trace/Lives/Calls.antt =====
-- Calls against the lives of the streams' entries (src/lib.rs, src/storage.rs).
use stream_pay_contracts.Base.{ℕ, ◌+◌, ◌≡◌, refl, ap, List, [], ◌∷◌, unwrap_or}
use stream_pay_contracts.Types.{Address, Stream, StreamRequest}
use stream_pay_contracts.Host.{Env, Host}
use stream_pay_contracts.Base.Dict.{insert}
use stream_pay_contracts.Storage.{bump_stream_live}
use stream_pay_contracts.World.{World, Outcome, done}
use stream_pay_contracts.Contract.Admin
use stream_pay_contracts.Contract.Create
use stream_pay_contracts.Contract.Create.{new_stream}
use stream_pay_contracts.Contract.Batch
use stream_pay_contracts.Contract.TopUp
use stream_pay_contracts.Contract.Extend
use stream_pay_contracts.Contract.Withdraw
use stream_pay_contracts.Contract.Withdraw.{pay_out}
use stream_pay_contracts.Contract.Cancel
use stream_pay_contracts.Contract.Admin.Effect.{
  initialize-done, schedule_admin_transfer-done, execute_admin_transfer-done,
  cancel_admin_transfer-done, set_admin-done, upgrade-done, set_supply_cap-done,
}
use stream_pay_contracts.Contract.Create.Effect.{create_stream-done}
use stream_pay_contracts.Contract.Batch.Effect.{create_stream_batch-done, store_one, store_all}
use stream_pay_contracts.Contract.TopUp.Effect.{top_up-done}
use stream_pay_contracts.Contract.Extend.Effect.{extend_stream-done}
use stream_pay_contracts.Contract.Withdraw.Effect.{withdraw-done}
use stream_pay_contracts.Contract.Cancel.Effect.{cancel-done}
use stream_pay_contracts.Trace.{
  Call, initialize, schedule_admin_transfer, execute_admin_transfer, cancel_admin_transfer,
  set_admin, upgrade, set_supply_cap, create_stream, create_stream_batch, top_up, extend_stream,
  withdraw, cancel, settle, invoke,
}
use stream_pay_contracts.Trace.Valid.{settle-keeps}
use stream_pay_contracts.Trace.Lives.{
  ExtendsLife, IsLasting, untouched, unchanged-IsLasting, written-IsLasting, IsLasting-trans,
}

module _ {T : Type 0} (host : Host T) (laws : ExtendsLife host) (env : Env) (k : ℕ)
    (w : World T) where
  call-IsLasting :
      {A : Type 0} (o : Outcome T A)
      → ((a : A) (w' : World T) → o ≡ done a w' → IsLasting env w w' k)
      → IsLasting env w (settle w o) k
  call-IsLasting o f = settle-keeps (λ v. IsLasting env w v k) w o (untouched refl refl) f

  -- A call that writes the stream under one id.
  writes :
      (id : ℕ) (s : Stream) (w' : World T)
      → w'.streams ≡ insert id s w.streams
      → w'.stream_live ≡ bump_stream_live host env id w.stream_live
      → IsLasting env w w' k
  writes id s w' = written-IsLasting env k host laws id s w w'

  -- The second loop of a batch.
  store_all-IsLasting :
      (sender : Address) (id : ℕ) (requests : List StreamRequest) (v : World T)
      → IsLasting env w v k
      → IsLasting env w (store_all host env sender id requests v) k
  unfolding store_all store_one
  store_all-IsLasting sender id [] v lasting = lasting
  store_all-IsLasting sender id (r ∷ requests) v lasting =
      store_all-IsLasting sender (id + 1) requests (store_one host env sender id r v) (
        IsLasting-trans env k lasting (
          written-IsLasting env k host laws id
            (new_stream sender r.recipient r.total_amount r.start_time r.end_time) v
            (store_one host env sender id r v) refl refl))

  -- On a host that never shortens a life and extends one to the threshold, every call, returned or
  -- not, leaves a stream's entry and its live-until ledger alone, or leaves a live-until ledger
  -- that is not lower and at least the threshold past the current ledger.
  pub invoke-IsLasting : (c : Call) → IsLasting env w (invoke host env c w) k
  unfolding invoke
  invoke-IsLasting (initialize admin token) =
      call-IsLasting (Admin.initialize host env admin token w) λ a w' h.
        let e = initialize-done host env w h in
        unchanged-IsLasting env k w w' (ap (λ v. v.streams) e.left) (ap (λ v. v.stream_live) e.left)
  invoke-IsLasting (schedule_admin_transfer admin new_admin) =
      call-IsLasting (Admin.schedule_admin_transfer host env admin new_admin w) λ a w' h.
        let e = schedule_admin_transfer-done host env w h in
        unchanged-IsLasting env k w w' (ap (λ v. v.streams) e.left) (ap (λ v. v.stream_live) e.left)
  invoke-IsLasting execute_admin_transfer =
      call-IsLasting (Admin.execute_admin_transfer host env w) λ a w' h.
        let e = execute_admin_transfer-done host env w h in
        unchanged-IsLasting env k w w' (ap (λ v. v.streams) e.left) (ap (λ v. v.stream_live) e.left)
  invoke-IsLasting (cancel_admin_transfer admin) =
      call-IsLasting (Admin.cancel_admin_transfer host env admin w) λ a w' h.
        let e = cancel_admin_transfer-done host env w h in
        unchanged-IsLasting env k w w' (ap (λ v. v.streams) e.left) (ap (λ v. v.stream_live) e.left)
  invoke-IsLasting (set_admin new_admin) =
      call-IsLasting (Admin.set_admin host env new_admin w) λ a w' h.
        let e = set_admin-done host env w h in
        unchanged-IsLasting env k w w' (ap (λ v. v.streams) e.left) (ap (λ v. v.stream_live) e.left)
  invoke-IsLasting (upgrade hash) = call-IsLasting (Admin.upgrade host env hash w) λ a w' h.
      let e = upgrade-done host env w h in
      unchanged-IsLasting env k w w' (ap (λ v. v.streams) e.left) (ap (λ v. v.stream_live) e.left)
  invoke-IsLasting (set_supply_cap new_cap) =
      call-IsLasting (Admin.set_supply_cap host env new_cap w) λ a w' h.
        let e = set_supply_cap-done host env w h in
        unchanged-IsLasting env k w w' (ap (λ v. v.streams) e.left) (ap (λ v. v.stream_live) e.left)
  invoke-IsLasting (create_stream s r amount start_time end_time) =
      call-IsLasting (Create.create_stream host env s r amount start_time end_time w) λ a w' h.
        let e = create_stream-done host env s r amount start_time end_time w h in
        writes (unwrap_or w.counter 0) _ w' (ap (λ v. v.streams) e.left)
          (ap (λ v. v.stream_live) e.left)
  invoke-IsLasting (top_up id s amount) =
      call-IsLasting (TopUp.top_up host env id s amount w) λ a w' h.
        let e = top_up-done host env id s amount w h in
        writes id _ w' (ap (λ v. v.streams) e.left) (ap (λ v. v.stream_live) e.left)
  invoke-IsLasting (extend_stream id s new_end) =
      call-IsLasting (Extend.extend_stream host env id s new_end w) λ a w' h.
        let e = extend_stream-done host env id s new_end w h in
        writes id _ w' (ap (λ v. v.streams) e.left) (ap (λ v. v.stream_live) e.left)
  invoke-IsLasting (withdraw id r) = call-IsLasting (Withdraw.withdraw host env id r w) λ a w' h.
      let e = withdraw-done host env id r w h in
      writes id _ w' (ap (λ v. v.streams) e.left) (ap (λ v. v.stream_live) e.left)
  invoke-IsLasting (cancel id caller) =
      call-IsLasting (Cancel.cancel host env id caller w) λ a w' h.
        let e = cancel-done host env id caller w h in
        writes id _ w' (ap (λ v. v.streams) e.left) (ap (λ v. v.stream_live) e.left)
  invoke-IsLasting (create_stream_batch sender requests) =
      call-IsLasting (Batch.create_stream_batch host env sender requests w) λ a w' h.
        let e = create_stream_batch-done host env sender {requests = requests} {w = w} h in
        IsLasting-trans env k
          (store_all-IsLasting sender (unwrap_or w.counter 0) requests
            (record w { tokens = e.tokens }) (untouched refl refl))
          (unchanged-IsLasting env k _ w' (ap (λ v. v.streams) e.left)
            (ap (λ v. v.stream_live) e.left))
