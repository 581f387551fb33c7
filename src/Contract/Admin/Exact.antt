-- ===== src/Contract/Admin/Exact.antt =====
-- When the setup and administration calls return (src/lib.rs).
use stream_pay_contracts.Base.{ℕ, ◌≤◌, ◌≡◌, refl, subst}
use stream_pay_contracts.Base.Int.{ℤ, ltb_no, u64_max, checked_add_u64-fits}
use stream_pay_contracts.Types.{Address}
use stream_pay_contracts.Host.{Env, Host}
use stream_pay_contracts.World.{World, done}
use stream_pay_contracts.Contract.Calls.Completion.{met_eq, met_ne, met_positive}
use stream_pay_contracts.Contract.Admin.{
  initialize, schedule_admin_transfer, execute_admin_transfer, cancel_admin_transfer, set_admin,
  upgrade, set_supply_cap,
}
use stream_pay_contracts.Contract.Admin.Effect.{
  IsSetup, IsSchedule, IsExecution, IsRevocation, IsHandover, IsUpgrade, IsCapChange,
}

module _ {T : Type 0} (host : Host T) (env : Env) (w : World T) where
  pub initialize-returns :
      {admin token : Address} {w' : World T}
      → IsSetup host env w admin token w'
      → initialize host env admin token w ≡ done tt w'
  unfolding initialize
  initialize-returns e = rw (e.left, e.unset) refl

  pub schedule_admin_transfer-returns :
      {admin new_admin : Address} {t : ℕ} {w' : World T}
      → IsSchedule host env w admin new_admin t w'
      → schedule_admin_transfer host env admin new_admin w ≡ done t w'
  unfolding schedule_admin_transfer
  schedule_admin_transfer-returns e =
      rw
        (
          e.left,
          e.is_admin,
          e.authorized,
          met_eq _ _ refl,
          met_ne _ _ e.changes,
          e.delayed,
          checked_add_u64-fits _ _ (subst (λ x. x ≤ u64_max) e.delayed e.delay_fits),
        )
        refl

  pub execute_admin_transfer-returns :
      {w' : World T} → IsExecution host env w w' → execute_admin_transfer host env w ≡ done tt w'
  unfolding execute_admin_transfer
  execute_admin_transfer-returns e =
      rw (e.left, e.was_admin, e.was_pending, e.was_locked, ltb_no _ _ e.expired) refl

  pub cancel_admin_transfer-returns :
      {admin : Address} {w' : World T}
      → IsRevocation host env w admin w'
      → cancel_admin_transfer host env admin w ≡ done tt w'
  unfolding cancel_admin_transfer
  cancel_admin_transfer-returns e =
      rw (e.left, e.is_admin, e.authorized, met_eq _ _ refl, e.was_pending) refl

  pub set_admin-returns :
      {new_admin : Address} {w' : World T}
      → IsHandover host env w new_admin w'
      → set_admin host env new_admin w ≡ done tt w'
  unfolding set_admin
  set_admin-returns e = rw (e.left, e.was_admin, e.authorized) refl

  pub upgrade-returns :
      {hash : ℕ} {w' : World T}
      → IsUpgrade host env w hash w'
      → upgrade host env hash w ≡ done tt w'
  unfolding upgrade
  upgrade-returns e = rw (e.left, e.was_admin, e.authorized, e.uploaded) refl

  pub set_supply_cap-returns :
      {new_cap : ℤ} {w' : World T}
      → IsCapChange host env w new_cap w'
      → set_supply_cap host env new_cap w ≡ done tt w'
  unfolding set_supply_cap
  set_supply_cap-returns e = rw (e.left, e.was_admin, e.authorized, met_positive _ e.positive) refl
