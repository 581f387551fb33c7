-- ===== src/Trace/Causes/Governance.antt =====
-- Why the setup and administration calls fail (src/lib.rs).
use stream_pay_contracts.Base.{
  ℕ, ◌≡◌, ◌≢◌, sym, ◌∙◌, Option, some, some-injective, not, ltb, ◌==◌, inl, inr,
}
use stream_pay_contracts.Base.Int.{ℤ, pos, leb_ℤ, checked_add_u64}
use stream_pay_contracts.Constants.{admin_timelock_delay}
use stream_pay_contracts.Error.{Error}
use stream_pay_contracts.Types.{Address}
use stream_pay_contracts.Host.{Env, Host}
use stream_pay_contracts.World.{World, fail}
use stream_pay_contracts.World.Failure.{blame_raise_if, blame_or_raise, blame_unwrap}
use stream_pay_contracts.Storage.{is_some}
use stream_pay_contracts.Contract.Calls.Failure.{
  past_auth, past_update, failed_eq, failed_set, failed_unset, failed_before, failed_positive,
  failed_same, failed_count,
}
use stream_pay_contracts.Contract.Admin
use stream_pay_contracts.Trace.{
  initialize, schedule_admin_transfer, execute_admin_transfer, cancel_admin_transfer, set_admin,
  upgrade, set_supply_cap,
}
use stream_pay_contracts.Trace.Causes.{IsCause}

not_the_admin : {o : Option Address} {a b : Address} → o ≡ some b → a ≢ b → o ≢ some a
not_the_admin set other same = other (some-injective (sym same ∙ set))

module _ {T : Type 0} (host : Host T) (env : Env) (w : World T) {w' : World T} {x : Error} where
  pub initialize-IsCause :
      (admin token : Address)
      → Admin.initialize host env admin token w ≡ fail x w'
      → IsCause env w (initialize admin token) x
  unfolding Admin.initialize
  initialize-IsCause admin token h =
      blame_raise_if (IsCause env w (initialize admin token)) (is_some w.admin) _ _ h
        (failed_unset w.admin) λ _ h₁. cc

  pub schedule_admin_transfer-IsCause :
      (admin new_admin : Address)
      → Admin.schedule_admin_transfer host env admin new_admin w ≡ fail x w'
      → IsCause env w (schedule_admin_transfer admin new_admin) x
  unfolding Admin.schedule_admin_transfer
  schedule_admin_transfer-IsCause admin new_admin h =
      let P = IsCause env w (schedule_admin_transfer admin new_admin) in
      blame_raise_if P (not (is_some w.admin)) _ _ h (failed_set w.admin) λ _ h₁.
        past_auth env admin _ h₁ λ h₂. blame_unwrap P w.admin _ h₂ λ current set h₃.
          blame_raise_if P (not (admin == current)) _ _ h₃
            (λ other. not_the_admin set (failed_eq admin current other))
            λ _ h₄.
              blame_raise_if P (new_admin == admin) _ _ h₄ (failed_same new_admin admin) λ _ h₅.
                blame_or_raise P (checked_add_u64 env.timestamp admin_timelock_delay) _ _ h₅
                  (failed_count env.timestamp admin_timelock_delay) λ t _ h₆. cc

  pub execute_admin_transfer-IsCause :
      Admin.execute_admin_transfer host env w ≡ fail x w' → IsCause env w execute_admin_transfer x
  unfolding Admin.execute_admin_transfer
  execute_admin_transfer-IsCause h =
      let P = IsCause env w execute_admin_transfer in
      blame_raise_if P (not (is_some w.admin)) _ _ h (failed_set w.admin) λ _ h₁.
        blame_or_raise P w.pending_admin _ _ h₁ inl λ pending _ h₂.
          blame_or_raise P w.admin_action_execute_after _ _ h₂ inr λ t locked h₃.
            blame_raise_if P (ltb env.timestamp t) _ _ h₃
              (λ early. (t, locked, failed_before env.timestamp t early))
              λ _ h₄. blame_unwrap P w.admin _ h₄ λ previous _ h₅. cc

  pub cancel_admin_transfer-IsCause :
      (admin : Address)
      → Admin.cancel_admin_transfer host env admin w ≡ fail x w'
      → IsCause env w (cancel_admin_transfer admin) x
  unfolding Admin.cancel_admin_transfer
  cancel_admin_transfer-IsCause admin h =
      let P = IsCause env w (cancel_admin_transfer admin) in
      blame_raise_if P (not (is_some w.admin)) _ _ h (failed_set w.admin) λ _ h₁.
        past_auth env admin _ h₁ λ h₂. blame_unwrap P w.admin _ h₂ λ current set h₃.
          blame_raise_if P (not (admin == current)) _ _ h₃
            (λ other. not_the_admin set (failed_eq admin current other))
            λ _ h₄.
              blame_raise_if P (not (is_some w.pending_admin)) _ _ h₄ (failed_set w.pending_admin)
                λ _ h₅. cc

  pub set_admin-IsCause :
      (new_admin : Address)
      → Admin.set_admin host env new_admin w ≡ fail x w'
      → IsCause env w (set_admin new_admin) x
  unfolding Admin.set_admin
  set_admin-IsCause new_admin h =
      let P = IsCause env w (set_admin new_admin) in
      blame_raise_if P (not (is_some w.admin)) _ _ h (failed_set w.admin)
        λ _ h₁. blame_unwrap P w.admin _ h₁ λ current _ h₂. past_auth env current _ h₂ λ h₃. cc

  pub upgrade-IsCause :
      (hash : ℕ) → Admin.upgrade host env hash w ≡ fail x w' → IsCause env w (upgrade hash) x
  unfolding Admin.upgrade
  upgrade-IsCause hash h =
      let P = IsCause env w (upgrade hash) in
      blame_raise_if P (not (is_some w.admin)) _ _ h (failed_set w.admin) λ _ h₁.
        blame_unwrap P w.admin _ h₁
          λ current _ h₂. past_auth env current _ h₂ λ h₃. past_update w env hash _ h₃ λ h₄. cc

  pub set_supply_cap-IsCause :
      (new_cap : ℤ)
      → Admin.set_supply_cap host env new_cap w ≡ fail x w'
      → IsCause env w (set_supply_cap new_cap) x
  unfolding Admin.set_supply_cap
  set_supply_cap-IsCause new_cap h =
      let P = IsCause env w (set_supply_cap new_cap) in
      blame_raise_if P (not (is_some w.admin)) _ _ h (failed_set w.admin) λ _ h₁.
        blame_unwrap P w.admin _ h₁ λ current _ h₂.
          past_auth env current _ h₂ λ h₃.
            blame_raise_if P (leb_ℤ new_cap (pos 0)) _ _ h₃ (failed_positive new_cap) λ _ h₄. cc
