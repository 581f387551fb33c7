-- ===== src/Host.antt =====
-- What the contract uses of the Soroban host and of the token contract, which are not part of this
-- repository. The host is a parameter of every definition that calls it.
use stream_pay_contracts.Base.{ℕ, ◌≡◌, Bool, Option, some, ◌==◌, if◌then◌else◌}
use stream_pay_contracts.Base.Int.{ℤ, pos, ◌+ℤ◌, ◌-ℤ◌}
use stream_pay_contracts.Types.{Address}

-- What an invocation is run with: the ledger's clock and sequence number, the contract's own
-- address, the addresses that have authorized the call (`require_auth` traps on any other), and the
-- hashes that the ledger holds Wasm code under (`update_current_contract_wasm` traps on any other).
pub record Env : Type 0 where
  pub timestamp : ℕ  -- u64
  pub sequence : ℕ  -- u32
  pub current_contract : Address
  pub authorized : Address → Bool
  pub uploaded : ℕ → Bool

-- `T` is the state of all token contracts. A transfer that the token refuses traps, here `none`.
-- The live-until ledger of a storage entry is changed by the host as `set_live` and `extend_ttl`
-- say, from the sequence number and the old value.
pub record Host (T : Type 0) : Type 0 where
  pub balance : T → Address → Address → ℤ
  pub transfer : T → Address → Address → Address → ℤ → Option T
  pub set_live : ℕ → ℕ → ℕ
  pub extend_ttl : ℕ → ℕ → ℕ → ℕ → ℕ

-- What the token contract documents: a transfer moves the amount between the two holders and
-- leaves every other holder alone.
pub record MovesTokens {T : Type 0} (host : Host T) : Type 0 where
  pub moves :
      (t t' : T) (token from to : Address) (amount : ℤ)
      → host.transfer t token from to amount ≡ some t'
      → (holder : Address)
      → host.balance t' token holder
        ≡ host.balance t token holder
          +ℤ (if holder == to then amount else pos 0)
          -ℤ (if holder == from then amount else pos 0)
