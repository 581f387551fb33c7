-- ===== src/Trace/Step/Calls.antt =====
-- Calls against the steps of a stream's life (src/lib.rs).
use stream_pay_contracts.Base.{
  ℕ, ◌+◌, ◌<◌, ◌≡◌, refl, sym, ap, ◌∙◌, some, List, [], ◌∷◌, arith, unwrap_or,
}
use stream_pay_contracts.Base.Int.{checked_add-some}
use stream_pay_contracts.Base.Dict.{Dict, lookup, insert, lookup-insert}
use stream_pay_contracts.Types.{Stream, StreamRequest, Address}
use stream_pay_contracts.Host.{Env, Host}
use stream_pay_contracts.World.{World}
use stream_pay_contracts.Contract.Admin
use stream_pay_contracts.Contract.Create
use stream_pay_contracts.Contract.Batch
use stream_pay_contracts.Contract.TopUp
use stream_pay_contracts.Contract.Extend
use stream_pay_contracts.Contract.Withdraw
use stream_pay_contracts.Contract.Withdraw.{pay_out}
use stream_pay_contracts.Contract.Cancel
use stream_pay_contracts.Contract.Admin.Effect.{
  initialize-done, schedule_admin_transfer-done, execute_admin_transfer-done,
  cancel_admin_transfer-done, set_admin-done, upgrade-done, set_supply_cap-done,
}
use stream_pay_contracts.Contract.Create.Effect.{create_stream-done}
use stream_pay_contracts.Contract.Batch.Effect.{create_stream_batch-done, store_one, store_all}
use stream_pay_contracts.Contract.TopUp.Effect.{top_up-done}
use stream_pay_contracts.Contract.Extend.Effect.{extend_stream-done}
use stream_pay_contracts.Contract.Withdraw.Effect.{withdraw-done}
use stream_pay_contracts.Contract.Cancel.Effect.{cancel-done}
use stream_pay_contracts.Invariant.{IsValid}
use stream_pay_contracts.Invariant.Insert.{AllStreams-lookup}
use stream_pay_contracts.Trace.{
  Call, initialize, schedule_admin_transfer, execute_admin_transfer, cancel_admin_transfer,
  set_admin, upgrade, set_supply_cap, create_stream, create_stream_batch, top_up, extend_stream,
  withdraw, cancel, invoke,
}
use stream_pay_contracts.Trace.Step.{
  kept, raised, extended, paid, settled, Steps, party_authorized, insert-Steps, write-Steps,
  call-Steps, frame-Steps,
}

other_stream :
    (id k : ℕ) (new : Stream) (d : Dict Stream) → id < k → lookup id (insert k new d) ≡ lookup id d
other_stream id k new d below = ground (arith, lookup-insert id k new d)

-- The second loop of a batch leaves the streams below its first id alone.
store_all-lookup :
    {T : Type 0} (host : Host T) (env : Env) (sender : Address) (id first : ℕ)
    (requests : List StreamRequest) (w : World T)
    → id < first
    → lookup id (store_all host env sender first requests w).streams ≡ lookup id w.streams
unfolding store_all store_one
store_all-lookup host env sender id first [] w below = refl
store_all-lookup host env sender id first (r ∷ requests) w below =
    store_all-lookup host env sender id (first + 1) requests (store_one host env sender first r w)
      (omega arith)
    ∙ other_stream id first _ w.streams below

-- Whatever call is made in a valid state, returned or not, every stored stream stays stored and
-- makes one of the steps of its life: it is kept; raised or extended with the sender's
-- authorization, or paid what is withdrawable with the recipient's, while active; or settled at
-- what has vested with the authorization of a party, unless it is cancelled already.
pub invoke-Steps :
    {T : Type 0} (host : Host T) (env : Env) (c : Call) (now : ℕ) (w : World T) (id : ℕ)
    (s : Stream)
    → IsValid now w
    → lookup id w.streams ≡ some s
    → Steps env id s (invoke host env c w)
unfolding invoke
invoke-Steps host env (initialize admin token) now w id s valid found =
    frame-Steps env id s w found (Admin.initialize host env admin token w)
      λ a w' h. ap (λ v. v.streams) (initialize-done host env w h).left
invoke-Steps host env (schedule_admin_transfer admin new_admin) now w id s valid found =
    frame-Steps env id s w found (Admin.schedule_admin_transfer host env admin new_admin w)
      λ a w' h. ap (λ v. v.streams) (schedule_admin_transfer-done host env w h).left
invoke-Steps host env execute_admin_transfer now w id s valid found =
    frame-Steps env id s w found (Admin.execute_admin_transfer host env w)
      λ a w' h. ap (λ v. v.streams) (execute_admin_transfer-done host env w h).left
invoke-Steps host env (cancel_admin_transfer admin) now w id s valid found =
    frame-Steps env id s w found (Admin.cancel_admin_transfer host env admin w)
      λ a w' h. ap (λ v. v.streams) (cancel_admin_transfer-done host env w h).left
invoke-Steps host env (set_admin new_admin) now w id s valid found =
    frame-Steps env id s w found (Admin.set_admin host env new_admin w)
      λ a w' h. ap (λ v. v.streams) (set_admin-done host env w h).left
invoke-Steps host env (upgrade hash) now w id s valid found =
    frame-Steps env id s w found (Admin.upgrade host env hash w)
      λ a w' h. ap (λ v. v.streams) (upgrade-done host env w h).left
invoke-Steps host env (set_supply_cap new_cap) now w id s valid found =
    frame-Steps env id s w found (Admin.set_supply_cap host env new_cap w)
      λ a w' h. ap (λ v. v.streams) (set_supply_cap-done host env w h).left
invoke-Steps host env (create_stream sender recipient amount start_time end_time) now w id s valid
      found =
    call-Steps env id s w found
      (Create.create_stream host env sender recipient amount start_time end_time w)
      λ a w' h.
        let e = create_stream-done host env sender recipient amount start_time end_time w h in
        let below = (AllStreams-lookup _ id s w.streams valid.sound found).numbered in
        insert-Steps env id s w found w' _ _ (ap (λ v. v.streams) e.left)
          λ same. absurd (omega (arith, below))
invoke-Steps host env (create_stream_batch sender requests) now w id s valid found =
    call-Steps env id s w found (Batch.create_stream_batch host env sender requests w) λ a w' h.
      let e = create_stream_batch-done host env sender {requests = requests} {w = w} h in
      let below = (AllStreams-lookup _ id s w.streams valid.sound found).numbered in
      record {
        after = s;
        found =
            ap (λ v. lookup id v.streams) e.left
            ∙ store_all-lookup host env sender id (unwrap_or w.counter 0) requests
                (record w { tokens = e.tokens }) below
            ∙ found;
        step = kept refl;
      }
invoke-Steps host env (top_up k sender amount) now w id s valid found =
    call-Steps env id s w found (TopUp.top_up host env k sender amount w) λ total w' h.
      let e = top_up-done host env k sender amount w h in
      write-Steps env id s w found w' k e.stream _ (ap (λ v. v.streams) e.left) e.found (
        raised amount (ap env.authorized (sym e.owned) ∙ e.authorized) e.still_active e.valid
          (ap (λ x. record e.stream { total = x }) (checked_add-some _ _ _ e.summed).0))
invoke-Steps host env (extend_stream k sender new_end) now w id s valid found =
    call-Steps env id s w found (Extend.extend_stream host env k sender new_end w) λ a w' h.
      let e = extend_stream-done host env k sender new_end w h in
      write-Steps env id s w found w' k e.stream _ (ap (λ v. v.streams) e.left) e.found (
        extended new_end (ap env.authorized (sym e.owned) ∙ e.authorized) e.still_active e.later
          refl)
invoke-Steps host env (withdraw k recipient) now w id s valid found =
    call-Steps env id s w found (Withdraw.withdraw host env k recipient w) λ a w' h.
      let e = withdraw-done host env k recipient w h in
      write-Steps env id s w found w' k e.stream _ (ap (λ v. v.streams) e.left) e.found (
        paid a (ap env.authorized e.owned ∙ e.authorized) e.still_active e.due e.positive
          (ap (pay_out e.stream) (checked_add-some _ _ _ e.summed).0))
invoke-Steps host env (cancel k caller) now w id s valid found =
    call-Steps env id s w found (Cancel.cancel host env k caller w) λ a w' h.
      let e = cancel-done host env k caller w h in
      write-Steps env id s w found w' k e.stream _ (ap (λ v. v.streams) e.left) e.found (
        settled e.now_vested (party_authorized env caller e.stream e.authorized e.party)
          e.not_cancelled e.vests refl)
