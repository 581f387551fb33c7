-- ===== src/Contract/Calls/Inversion.antt =====
-- A call that returns, at its authorization, its transfers and its tests (src/lib.rs).
use stream_pay_contracts.Base.{
  ◌<◌, ◌≤◌, ℕ, ◌≡◌, ◌≢◌, refl, not, ltb, leb, ◌==◌, Bool, true, false, Option, none, some, some_of,
  arith,
}
use stream_pay_contracts.Base.Int.{ℤ, pos, ltb_ℤ, leb_ℤ, ◌≤ℤ◌, ◌<ℤ◌}
use stream_pay_contracts.Types.{
  Address, Status, active, is_status_active, is_status_cancelled, is_status_completed,
}
use stream_pay_contracts.Host.{Host, Env}
use stream_pay_contracts.World.{World, done, Action, ◌>>◌}
use stream_pay_contracts.Storage.{is_some}
use stream_pay_contracts.Contract.Calls.{
  trap_unless, require_auth, transfer, update_current_contract_wasm,
}

module _ {ℓ} {C : Type ℓ} {T B : Type 0} {w w' : World T} {b : B} where
  after_trap_unless :
      (c : Bool) (k : Action T B)
      → (trap_unless c >> k) w ≡ done b w'
      → (c ≡ true → k w ≡ done b w' → C)
      → C
  after_trap_unless true k h f = f refl h
  after_trap_unless false k h f = cc

  pub after_auth :
      (env : Env) (address : Address) (k : Action T B)
      → (require_auth env address >> k) w ≡ done b w'
      → (env.authorized address ≡ true → k w ≡ done b w' → C)
      → C
  after_auth env address = after_trap_unless (env.authorized address)

  pub after_transfer :
      (host : Host T) (from to : Address) (amount : ℤ) (k : Action T B)
      → (transfer host from to amount >> k) w ≡ done b w'
      → ((token : Address) (tokens : T)
          → w.token ≡ some token
          → host.transfer w.tokens token from to amount ≡ some tokens
          → k (record w { tokens = tokens }) ≡ done b w'
          → C)
      → C
  after_transfer host from to amount k h f =
      let (token, token_set) = some_of w.token (λ e. ground arith) in
      let (tokens, moved) =
        some_of (host.transfer w.tokens token from to amount) (λ e. ground arith) in
      f token tokens token_set moved (ground arith)

module _ {ℓ} {C : Type ℓ} {T B : Type 0} (w : World T) {w' : World T} {b : B} where
  pub after_update :
      (env : Env) (hash : ℕ) (k : Action T B)
      → (update_current_contract_wasm env hash >> k) w ≡ done b w'
      → (env.uploaded hash ≡ true → k (record w { wasm_hash = hash }) ≡ done b w' → C)
      → C
  after_update env hash k h =
      after_trap_unless {w = w} (env.uploaded hash) (λ v. k (record v { wasm_hash = hash }))
        (ground arith)

-- A transfer that the recorded token makes.
pub transfer_runs :
    {T : Type 0} (host : Host T) (from to : Address) (amount : ℤ) (w : World T) (token : Address)
    (t : T)
    → w.token ≡ some token
    → host.transfer w.tokens token from to amount ≡ some t
    → transfer host from to amount w ≡ done tt (record w { tokens = t })
transfer_runs host from to amount w token t chosen moved = ground arith

-- What the tests of the entry points say of a call that passes them.
pub passed_eq : (a b : ℕ) → not (a == b) ≡ false → a ≡ b
passed_eq a b h = ground arith

pub passed_active : (s : Status) → not (is_status_active s) ≡ false → s ≡ active
passed_active s h = ground arith

pub passed_open :
    (s : Status) → is_status_cancelled s ≡ false → is_status_completed s ≡ false → s ≡ active
passed_open s h k = ground arith

pub passed_not : (b : Bool) → not b ≡ false → b ≡ true
passed_not b h = ground arith

pub passed_le : (a b : ℕ) → leb a b ≡ false → b < a
passed_le a b h = ground arith

pub passed_lt : (a b : ℕ) → ltb a b ≡ false → b ≤ a
passed_lt a b h = ground arith

pub passed_ltb_ℤ : (a b : ℤ) → ltb_ℤ a b ≡ false → b ≤ℤ a
passed_ltb_ℤ a b h = ground arith

pub passed_ne : (a b : ℕ) → (a == b) ≡ false → a ≢ b
passed_ne a b h = ground arith

pub passed_positive : (a : ℤ) → leb_ℤ a (pos 0) ≡ false → pos 0 <ℤ a
passed_positive a h = ground arith

pub passed_set : {A : Type 0} (o : Option A) → not (is_some o) ≡ false → (a : A) × (o ≡ some a)
passed_set none h = cc
passed_set (some a) h = (a, refl)
