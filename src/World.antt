-- ===== src/World.antt =====
-- The state that an invocation reads and writes, and the monad of contract code.
pub mod Inversion
pub mod Failure
use stream_pay_contracts.Base.{ℕ, ⊤, Bool, Option, none, some, List, true, false}
use stream_pay_contracts.Base.Int.{ℤ}
use stream_pay_contracts.Base.Dict.{Dict}
use stream_pay_contracts.Error.{Error, Result, ok, err}
use stream_pay_contracts.Types.{Address, Stream}
use stream_pay_contracts.Events.{Event}

-- Instance storage has a field for each key of `DataKey`, with `none` for a key that is not set;
-- `streams` is the persistent storage under `DataKey::Stream`. The live-until ledgers, the events
-- so far, the code's hash and the tokens' state complete what a call can change.
pub record World (T : Type 0) : Type 0 where
  pub admin : Option Address
  pub token : Option Address
  pub counter : Option ℕ  -- u64
  pub pending_admin : Option Address
  pub admin_action_execute_after : Option ℕ  -- u64
  pub total_supply : Option ℤ  -- i128
  pub supply_cap : Option ℤ  -- i128
  pub streams : Dict Stream
  pub instance_live : ℕ
  pub stream_live : ℕ → ℕ
  pub events : List Event
  pub wasm_hash : ℕ
  pub tokens : T

-- How contract code ends. `fail` carries what was written before the error was returned.
pub data Outcome (T A : Type 0) : Type 0 where
  done : A → World T → Outcome T A
  fail : Error → World T → Outcome T A
  trap : Outcome T A

abbrev pub Action : Type 0 → Type 0 → Type 0
Action T A = World T → Outcome T A

module _ {T A : Type 0} where
  abbrev pub pure : A → Action T A
  pure a w = done a w

  abbrev pub raise : Error → Action T A
  raise e w = fail e w

  abbrev pub panic : Action T A
  panic w = trap

  abbrev pub gets : (World T → A) → Action T A
  gets f w = done (f w) w

  -- `?` on a `Result`
  abbrev pub try : Result A → Action T A
  try (ok a) = pure a
  try (err e) = raise e

  -- `.ok_or(e)?`
  abbrev pub or_raise : Option A → Error → Action T A
  or_raise none e = raise e
  or_raise (some a) _ = pure a

  -- `.unwrap()`
  abbrev pub unwrap : Option A → Action T A
  unwrap none = panic
  unwrap (some a) = pure a

abbrev pub continue : {T A B : Type 0} → Outcome T A → (A → Action T B) → Outcome T B
continue (done a w) f = f a w
continue (fail e w) f = fail e w
continue trap f = trap

infixl 5 ◌>>=◌ ◌>>◌
abbrev pub ◌>>=◌ : {T A B : Type 0} → Action T A → (A → Action T B) → Action T B
◌>>=◌ m f w = continue (m w) f

abbrev pub ◌>>◌ : {T A B : Type 0} → Action T A → Action T B → Action T B
m >> k = m >>= λ _. k

module _ {T : Type 0} where
  -- `if c { return Err(e); }`
  abbrev pub raise_if : Bool → Error → Action T ⊤
  raise_if true e w = fail e w
  raise_if false e w = done tt w

  abbrev pub modify : (World T → World T) → Action T ⊤
  modify f w = done tt (f w)
