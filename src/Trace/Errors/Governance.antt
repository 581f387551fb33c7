-- ===== src/Trace/Errors/Governance.antt =====
-- The setup and the administration calls that return an error (src/lib.rs).
use stream_pay_contracts.Base.{ℕ, ◌≡◌, not, ◌==◌, ltb}
use stream_pay_contracts.Base.Int.{ℤ, pos, leb_ℤ, checked_add_u64}
use stream_pay_contracts.Types.{Address}
use stream_pay_contracts.Host.{Env, Host}
use stream_pay_contracts.World.{World, fail}
use stream_pay_contracts.Contract.Admin
use stream_pay_contracts.Error.{Error}
use stream_pay_contracts.World.Failure.{past_raise_if, past_or_raise, past_unwrap}
use stream_pay_contracts.Contract.Calls.Failure.{past_auth, past_update}
use stream_pay_contracts.Storage.{is_some}
use stream_pay_contracts.Constants.{admin_timelock_delay}

module _ {T : Type 0} (host : Host T) (env : Env) (w : World T) {w' : World T} {x : Error} where
  pub initialize_fails :
      (admin token : Address) → Admin.initialize host env admin token w ≡ fail x w' → w' ≡ w
  unfolding Admin.initialize
  initialize_fails admin token h = past_raise_if (is_some w.admin) _ _ h λ _ h₁. cc

  pub schedule_admin_transfer_fails :
      (admin new_admin : Address)
      → Admin.schedule_admin_transfer host env admin new_admin w ≡ fail x w'
      → w' ≡ w
  unfolding Admin.schedule_admin_transfer
  schedule_admin_transfer_fails admin new_admin h =
      past_raise_if (not (is_some w.admin)) _ _ h λ _ h₁. past_auth env admin _ h₁ λ h₂.
        past_unwrap w.admin _ h₂ λ current h₃. past_raise_if (not (admin == current)) _ _ h₃ λ _ h₄.
          past_raise_if (new_admin == admin) _ _ h₄ λ _ h₅.
            past_or_raise (checked_add_u64 env.timestamp admin_timelock_delay) _ _ h₅
              λ execute_after _ h₆. cc

  pub execute_admin_transfer_fails : Admin.execute_admin_transfer host env w ≡ fail x w' → w' ≡ w
  unfolding Admin.execute_admin_transfer
  execute_admin_transfer_fails h = past_raise_if (not (is_some w.admin)) _ _ h λ _ h₁.
      past_or_raise w.pending_admin _ _ h₁ λ pending _ h₂.
        past_or_raise w.admin_action_execute_after _ _ h₂ λ execute_after _ h₃.
          past_raise_if (ltb env.timestamp execute_after) _ _ h₃
            λ _ h₄. past_unwrap w.admin _ h₄ λ previous h₅. cc

  pub cancel_admin_transfer_fails :
      (admin : Address) → Admin.cancel_admin_transfer host env admin w ≡ fail x w' → w' ≡ w
  unfolding Admin.cancel_admin_transfer
  cancel_admin_transfer_fails admin h = past_raise_if (not (is_some w.admin)) _ _ h λ _ h₁.
      past_auth env admin _ h₁ λ h₂. past_unwrap w.admin _ h₂ λ current h₃.
        past_raise_if (not (admin == current)) _ _ h₃
          λ _ h₄. past_raise_if (not (is_some w.pending_admin)) _ _ h₄ λ _ h₅. cc

  pub set_admin_fails :
      (new_admin : Address) → Admin.set_admin host env new_admin w ≡ fail x w' → w' ≡ w
  unfolding Admin.set_admin
  set_admin_fails new_admin h =
      past_raise_if (not (is_some w.admin)) _ _ h
        λ _ h₁. past_unwrap w.admin _ h₁ λ current h₂. past_auth env current _ h₂ λ h₃. cc

  pub upgrade_fails : (hash : ℕ) → Admin.upgrade host env hash w ≡ fail x w' → w' ≡ w
  unfolding Admin.upgrade
  upgrade_fails hash h = past_raise_if (not (is_some w.admin)) _ _ h λ _ h₁.
      past_unwrap w.admin _ h₁
        λ current h₂. past_auth env current _ h₂ λ h₃. past_update w env hash _ h₃ λ h₄. cc

  pub set_supply_cap_fails :
      (new_cap : ℤ) → Admin.set_supply_cap host env new_cap w ≡ fail x w' → w' ≡ w
  unfolding Admin.set_supply_cap
  set_supply_cap_fails new_cap h = past_raise_if (not (is_some w.admin)) _ _ h λ _ h₁.
      past_unwrap w.admin _ h₁ λ current h₂.
        past_auth env current _ h₂ λ h₃. past_raise_if (leb_ℤ new_cap (pos 0)) _ _ h₃ λ _ h₄. cc
