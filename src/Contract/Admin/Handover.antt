-- ===== src/Contract/Admin/Handover.antt =====
-- How scheduled and immediate admin changes play together (src/lib.rs).
use stream_pay_contracts.Base.Int.{ltb_no}
use stream_pay_contracts.Base.{
  ℕ, ⊤, ◌≤◌, ◌<◌, ◌≡◌, refl, ap, ◌∙◌, ltb, true, none, some, arith, ◌++◌, ◌∷◌, [],
}
use stream_pay_contracts.Events.{admin_transfer_executed}
use stream_pay_contracts.Error.{timelock_not_expired}
use stream_pay_contracts.Types.{Address}
use stream_pay_contracts.Host.{Env, Host}
use stream_pay_contracts.World.{World, done, fail}
use stream_pay_contracts.Contract.Admin.{schedule_admin_transfer, execute_admin_transfer, set_admin}
use stream_pay_contracts.Contract.Admin.Effect.{
  extended_life, schedule_admin_transfer-done, set_admin-done,
}

ltb_yes : (a b : ℕ) → a < b → ltb a b ≡ true
ltb_yes a b h = ground arith

module _ {T : Type 0} (host : Host T) where
  -- The world after an execution that makes `pending` the admin.
  pub record IsHandedOver (pending : Address) (env : Env) (w : World T) : Type 0 where
    pub after : World T
    pub runs : execute_admin_transfer host env w ≡ done tt after
    pub admin_set : after.admin ≡ some pending
    pub pending_cleared : after.pending_admin ≡ none
    pub lock_cleared : after.admin_action_execute_after ≡ none

  -- A set-up contract with a transfer whose time has come hands over to its admin.
  pub execute_admin_transfer-hands_over :
      (env : Env) (w : World T) (current pending : Address) {t : ℕ}
      → w.admin ≡ some current
      → w.pending_admin ≡ some pending
      → w.admin_action_execute_after ≡ some t
      → t ≤ env.timestamp
      → IsHandedOver pending env w
  unfolding execute_admin_transfer
  execute_admin_transfer-hands_over env w current pending set was_pending locked expired = record {
    after = record w {
      admin = some pending;
      pending_admin = none;
      admin_action_execute_after = none;
      instance_live = extended_life host env w;
      events = w.events ++ admin_transfer_executed current pending ∷ [];
    };
    runs = rw (set, was_pending, locked, ltb_no _ _ expired) refl;
    admin_set = refl;
    pending_cleared = refl;
    lock_cleared = refl;
  }

  -- A transfer that was scheduled executes from the time that scheduling returned on: the new
  -- administrator is set, and the schedule is cleared.
  pub schedule-execute :
      (env later : Env) (w : World T) (admin new_admin : Address) {t : ℕ} {w' : World T}
      → schedule_admin_transfer host env admin new_admin w ≡ done t w'
      → t ≤ later.timestamp
      → IsHandedOver new_admin later w'
  schedule-execute env later w admin new_admin {t} {w'} h expired =
      let e = schedule_admin_transfer-done host env w h in
      execute_admin_transfer-hands_over later w' admin new_admin
        (ap (λ v. v.admin) e.left ∙ e.is_admin) (ap (λ v. v.pending_admin) e.left)
        (ap (λ v. v.admin_action_execute_after) e.left) expired

  -- Before the time that scheduling returned, the execution fails with `timelock_not_expired` and
  -- leaves the state alone.
  pub schedule-execute_early :
      (env later : Env) (w : World T) (admin new_admin : Address) {t : ℕ} {w' : World T}
      → schedule_admin_transfer host env admin new_admin w ≡ done t w'
      → later.timestamp < t
      → execute_admin_transfer host later w' ≡ fail timelock_not_expired w'
  unfolding execute_admin_transfer
  schedule-execute_early env later w admin new_admin {t} {w'} h early =
      let e = schedule_admin_transfer-done host env w h in
      rw (e.left, e.is_admin, ltb_yes _ _ early) refl

  -- An immediate change of the administrator leaves a scheduled transfer in place, which from its
  -- time on still hands over from the new administrator to the scheduled one.
  pub set_admin-deposed :
      (env later : Env) (w : World T) {new_admin pending : Address} {t : ℕ} {a : ⊤} {w' : World T}
      → w.pending_admin ≡ some pending
      → w.admin_action_execute_after ≡ some t
      → set_admin host env new_admin w ≡ done a w'
      → t ≤ later.timestamp
      → (w'.admin ≡ some new_admin) × IsHandedOver pending later w'
  set_admin-deposed env later w {new_admin} {pending} {t} {a} {w'} was_pending locked h expired =
      let e = set_admin-done host env w h in
      let set = ap (λ v. v.admin) e.left in
      (
        set,
        execute_admin_transfer-hands_over later w' new_admin pending set
            (ap (λ v. v.pending_admin) e.left ∙ was_pending)
            (ap (λ v. v.admin_action_execute_after) e.left ∙ locked) expired,
      )
