-- ===== src/Contract/Admin.antt =====
-- Setup, administration and the governance timelock (src/lib.rs).
pub mod Effect
pub mod Exact
pub mod Handover
use stream_pay_contracts.Base.{ℕ, ⊤, Option, not, ltb, ◌==◌}
use stream_pay_contracts.Base.Int.{ℤ, pos, leb_ℤ, checked_add_u64}
use stream_pay_contracts.Error.{
  already_initialized, not_initialized, invalid_amount, unauthorized, overflow,
  no_pending_admin_action, timelock_not_expired, invalid_admin_action,
}
use stream_pay_contracts.Constants.{admin_timelock_delay, default_supply_cap}
use stream_pay_contracts.Types.{Address}
use stream_pay_contracts.Events.{
  admin_transfer_scheduled, admin_transfer_executed, admin_transfer_cancelled, supply_cap_updated,
  admin_changed, contract_upgraded,
}
use stream_pay_contracts.Host.{Env, Host}
use stream_pay_contracts.World.{World, Action, pure, gets, raise_if, or_raise, modify, ◌>>=◌, ◌>>◌}
use stream_pay_contracts.Storage.{
  has_admin, read_admin, write_admin, read_pending_admin, read_admin_action_execute_after,
  write_pending_admin_action, clear_pending_admin_action, read_token, write_token, write_counter,
  read_counter, read_total_supply, write_total_supply, read_supply_cap, write_supply_cap,
  extend_instance, is_some,
}
use stream_pay_contracts.Contract.Calls.{require_auth, publish, update_current_contract_wasm}

module _ {T : Type 0} where
  -- `if !storage::has_admin(&env) { return Err(Error::NotInitialized); }`
  abbrev pub require_initialized : Action T ⊤
  require_initialized = do raise_if (not (← has_admin)) not_initialized

  unfoldable pub get_admin : Action T Address
  get_admin = do require_initialized; read_admin

  unfoldable pub get_pending_admin : Action T (Option Address)
  get_pending_admin = do require_initialized; read_pending_admin

  unfoldable pub get_admin_action_execute_after : Action T (Option ℕ)
  get_admin_action_execute_after = do require_initialized; read_admin_action_execute_after

  unfoldable pub get_token : Action T Address
  get_token = do require_initialized; read_token

  unfoldable pub stream_counter : Action T ℕ
  stream_counter = read_counter

  unfoldable pub get_total_supply : Action T ℤ
  get_total_supply = read_total_supply

  unfoldable pub get_supply_cap : Action T ℤ
  get_supply_cap = read_supply_cap

module _ {T : Type 0} (host : Host T) (env : Env) where
  unfoldable pub initialize : Address → Address → Action T ⊤
  initialize admin token = do
    raise_if (← has_admin) already_initialized
    write_admin admin
    write_token token
    write_counter 0
    write_total_supply (pos 0)
    write_supply_cap default_supply_cap
    extend_instance host env

  unfoldable pub schedule_admin_transfer : Address → Address → Action T ℕ
  schedule_admin_transfer admin new_admin = do
    require_initialized
    require_auth env admin
    raise_if (not (admin == (← read_admin))) unauthorized
    raise_if (new_admin == admin) invalid_admin_action
    execute_after ← or_raise (checked_add_u64 env.timestamp admin_timelock_delay) overflow
    write_pending_admin_action new_admin execute_after
    extend_instance host env
    publish (admin_transfer_scheduled admin new_admin execute_after)
    pure execute_after

  unfoldable pub execute_admin_transfer : Action T ⊤
  execute_admin_transfer = do
    require_initialized
    pending_admin ← or_raise (← read_pending_admin) no_pending_admin_action
    execute_after ← or_raise (← read_admin_action_execute_after) no_pending_admin_action
    raise_if (ltb env.timestamp execute_after) timelock_not_expired
    previous_admin ← read_admin
    write_admin pending_admin
    clear_pending_admin_action
    extend_instance host env
    publish (admin_transfer_executed previous_admin pending_admin)

  unfoldable pub cancel_admin_transfer : Address → Action T ⊤
  cancel_admin_transfer admin = do
    require_initialized
    require_auth env admin
    raise_if (not (admin == (← read_admin))) unauthorized
    raise_if (not (is_some (← read_pending_admin))) no_pending_admin_action
    clear_pending_admin_action
    extend_instance host env
    publish (admin_transfer_cancelled admin)

  unfoldable pub set_admin : Address → Action T ⊤
  set_admin new_admin = do
    require_initialized
    current_admin ← read_admin
    require_auth env current_admin
    write_admin new_admin
    extend_instance host env
    publish (admin_changed current_admin new_admin)

  unfoldable pub upgrade : ℕ → Action T ⊤
  upgrade new_wasm_hash = do
    require_initialized
    current_admin ← read_admin
    require_auth env current_admin
    update_current_contract_wasm env new_wasm_hash
    extend_instance host env
    publish (contract_upgraded new_wasm_hash)

  unfoldable pub set_supply_cap : ℤ → Action T ⊤
  set_supply_cap new_cap = do
    require_initialized
    admin ← read_admin
    require_auth env admin
    raise_if (leb_ℤ new_cap (pos 0)) invalid_amount
    old_cap ← read_supply_cap
    write_supply_cap new_cap
    extend_instance host env
    publish (supply_cap_updated admin old_cap new_cap)
