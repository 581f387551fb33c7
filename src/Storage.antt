-- ===== src/Storage.antt =====
-- The storage helpers of src/storage.rs. The TTL of an entry is its live-until ledger, changed
-- only by the host.
use stream_pay_contracts.Base.{
  ℕ, ⊤, Bool, true, false, Option, none, some, ◌==◌, if◌then◌else◌, unwrap_or,
}
use stream_pay_contracts.Base.Int.{ℤ, pos, i128_max}
use stream_pay_contracts.Base.Dict.{lookup, insert}
use stream_pay_contracts.Types.{Address, Stream}
use stream_pay_contracts.Host.{Env, Host}
use stream_pay_contracts.World.{Action, gets, modify, unwrap, ◌>>=◌}

abbrev pub bump_threshold : ℕ
bump_threshold = 100_000

abbrev pub bump_extend : ℕ
bump_extend = 518_400

abbrev pub is_some : {A : Type 0} → Option A → Bool
is_some none = false
is_some (some _) = true

module _ {T : Type 0} where
  abbrev pub has_admin : Action T Bool
  has_admin = gets λ w. is_some w.admin

  abbrev pub read_admin : Action T Address
  read_admin = do unwrap (← gets λ w. w.admin)

  abbrev pub write_admin : Address → Action T ⊤
  write_admin admin = modify λ w. record w { admin = some admin }

  abbrev pub read_pending_admin : Action T (Option Address)
  read_pending_admin = gets λ w. w.pending_admin

  abbrev pub read_admin_action_execute_after : Action T (Option ℕ)
  read_admin_action_execute_after = gets λ w. w.admin_action_execute_after

  abbrev pub write_pending_admin_action : Address → ℕ → Action T ⊤
  write_pending_admin_action admin execute_after =
      modify λ w. record w {
        pending_admin = some admin;
        admin_action_execute_after = some execute_after;
      }

  abbrev pub clear_pending_admin_action : Action T ⊤
  clear_pending_admin_action =
      modify λ w. record w { pending_admin = none; admin_action_execute_after = none }

  abbrev pub read_token : Action T Address
  read_token = do unwrap (← gets λ w. w.token)

  abbrev pub write_token : Address → Action T ⊤
  write_token token = modify λ w. record w { token = some token }

  abbrev pub read_counter : Action T ℕ
  read_counter = gets λ w. unwrap_or w.counter 0

  abbrev pub write_counter : ℕ → Action T ⊤
  write_counter counter = modify λ w. record w { counter = some counter }

  abbrev pub has_stream : ℕ → Action T Bool
  has_stream id = gets λ w. is_some (lookup id w.streams)

  abbrev pub read_stream : ℕ → Action T (Option Stream)
  read_stream id = gets λ w. lookup id w.streams

  abbrev pub read_total_supply : Action T ℤ
  read_total_supply = gets λ w. unwrap_or w.total_supply (pos 0)

  abbrev pub write_total_supply : ℤ → Action T ⊤
  write_total_supply supply = modify λ w. record w { total_supply = some supply }

  abbrev pub read_supply_cap : Action T ℤ
  read_supply_cap = gets λ w. unwrap_or w.supply_cap i128_max

  abbrev pub write_supply_cap : ℤ → Action T ⊤
  write_supply_cap cap = modify λ w. record w { supply_cap = some cap }

module _ {T : Type 0} (host : Host T) (env : Env) where
  -- The live-until ledgers after the stream's entry is set and extended.
  abbrev pub bump_stream_live : ℕ → (ℕ → ℕ) → ℕ → ℕ
  bump_stream_live id live k =
      if k == id
      then host.extend_ttl env.sequence (host.set_live env.sequence (live id)) bump_threshold
          bump_extend
      else live k

  abbrev pub write_stream : ℕ → Stream → Action T ⊤
  write_stream id stream = modify λ w. record w {
    streams = insert id stream w.streams;
    stream_live = bump_stream_live id w.stream_live;
  }

  abbrev pub extend_instance : Action T ⊤
  extend_instance = modify λ w. record w {
    instance_live = host.extend_ttl env.sequence w.instance_live bump_threshold bump_extend;
  }
