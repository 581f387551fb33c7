-- ===== src/Contract/Calls.antt =====
-- The calls of the host that the entry points of src/lib.rs share.
pub mod Inversion
pub mod Completion
pub mod Failure
use stream_pay_contracts.Base.{ℕ, ⊤, Option, none, some, List, [], ◌∷◌, ◌++◌, Bool, true, false}
use stream_pay_contracts.Base.Int.{ℤ}
use stream_pay_contracts.Types.{Address}
use stream_pay_contracts.Events.{Event}
use stream_pay_contracts.Host.{Env, Host}
use stream_pay_contracts.World.{World, Outcome, done, trap, Action, modify, ◌>>=◌, ◌>>◌}
use stream_pay_contracts.Storage.{read_token}

abbrev pub trap_unless : {T : Type 0} → Bool → Action T ⊤
trap_unless true w = done tt w
trap_unless false w = trap

-- `address.require_auth()`
abbrev pub require_auth : {T : Type 0} → Env → Address → Action T ⊤
require_auth env address = trap_unless (env.authorized address)

-- `env.deployer().update_current_contract_wasm(..)`: the code is replaced, and the rest of the
-- world stays.
abbrev pub update_current_contract_wasm : {T : Type 0} → Env → ℕ → Action T ⊤
update_current_contract_wasm env hash = do
  trap_unless (env.uploaded hash)
  modify λ w. record w { wasm_hash = hash }

-- `env.events().publish(..)`
abbrev pub publish : {T : Type 0} → Event → Action T ⊤
publish event = modify λ w. record w { events = w.events ++ event ∷ [] }

abbrev pub put_tokens : {T : Type 0} → World T → Option T → Outcome T ⊤
put_tokens w none = trap
put_tokens w (some t) = done tt (record w { tokens = t })

-- `token::Client::new(&env, &token).transfer(..)`, on the token that storage names.
abbrev pub transfer : {T : Type 0} → Host T → Address → Address → ℤ → Action T ⊤
transfer host from to amount = do
  token ← read_token
  λ w. put_tokens w (host.transfer w.tokens token from to amount)
