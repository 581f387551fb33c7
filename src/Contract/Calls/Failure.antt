-- ===== src/Contract/Calls/Failure.antt =====
-- A call that fails, at its authorization and its transfers: these trap, or go on.
use stream_pay_contracts.Base.{
  ℕ, ◌+◌, ◌<◌, ◌≤◌, ◌≢◌, ◌==◌, ◌&&◌, not, ltb, leb, arith, none_ne_some, ◌≡◌, refl, Bool, true,
  false, Option, none, some,
}
use stream_pay_contracts.Base.Int.{
  ℤ, pos, ◌+ℤ◌, ◌≤ℤ◌, ◌<ℤ◌, ltb_ℤ, leb_ℤ, IsI128, u64_max, checked_add, checked_add-fits,
  checked_add_u64,
}
use stream_pay_contracts.Constants.{is_valid_amount, min_stream_amount}
use stream_pay_contracts.Storage.{is_some}
use stream_pay_contracts.Types.{
  Address, Status, active, cancelled, completed, is_status_active, is_status_cancelled,
  is_status_completed,
}
use stream_pay_contracts.Error.{Error}
use stream_pay_contracts.Host.{Host, Env}
use stream_pay_contracts.World.{World, fail, Action, unwrap, continue, ◌>>◌}
use stream_pay_contracts.Contract.Calls.{
  trap_unless, require_auth, put_tokens, transfer, update_current_contract_wasm,
}

module _ {ℓ} {C : Type ℓ} {T B : Type 0} {w w' : World T} {x : Error} where
  past_trap_unless :
      (c : Bool) (k : Action T B) → (trap_unless c >> k) w ≡ fail x w' → (k w ≡ fail x w' → C) → C
  past_trap_unless true k h f = f h
  past_trap_unless false k h f = cc

  pub past_auth :
      (env : Env) (address : Address) (k : Action T B)
      → (require_auth env address >> k) w ≡ fail x w'
      → (k w ≡ fail x w' → C)
      → C
  past_auth env address = past_trap_unless (env.authorized address)

module _ {ℓ} {C : Type ℓ} {T B : Type 0} (w : World T) {w' : World T} {x : Error} where
  pub past_update :
      (env : Env) (hash : ℕ) (k : Action T B)
      → (update_current_contract_wasm env hash >> k) w ≡ fail x w'
      → (k (record w { wasm_hash = hash }) ≡ fail x w' → C)
      → C
  past_update env hash k h =
      past_trap_unless {w = w} (env.uploaded hash) (λ v. k (record v { wasm_hash = hash }))
        (ground arith)

module _ {ℓ} {C : Type ℓ} {T B : Type 0} (w : World T) {w' : World T} {x : Error} where
  past_put :
      (o : Option T) (k : Action T B)
      → continue (put_tokens w o) (λ _. k) ≡ fail x w'
      → ((t : T) → k (record w { tokens = t }) ≡ fail x w' → C)
      → C
  past_put none k h f = cc
  past_put (some t) k h f = f t h

  pub past_transfer :
      (host : Host T) (from to : Address) (amount : ℤ) (k : Action T B)
      → (transfer host from to amount >> k) w ≡ fail x w'
      → ((t : T) → k (record w { tokens = t }) ≡ fail x w' → C)
      → C
  past_transfer host from to amount k h f = by_token w.token refl h
    where
      by_token :
          (o : Option Address)
          → w.token ≡ o
          → continue
              (continue
                (unwrap o w)
                (λ token v. put_tokens v (host.transfer v.tokens token from to amount)))
              (λ _. k)
            ≡ fail x w'
          → C
      by_token none e h = cc
      by_token (some token) e h = past_put (host.transfer w.tokens token from to amount) k h f

-- What the tests of the entry points say of a call that fails them.
pub failed_eq : (a b : ℕ) → not (a == b) ≡ true → a ≢ b
failed_eq a b h k = ground arith

pub failed_either : (a b c : ℕ) → (not (a == b) && not (a == c)) ≡ true → (a ≢ b) × (a ≢ c)
failed_either a b c h = (λ k. ground arith, λ k. ground arith)

pub failed_set : {A : Type 0} (o : Option A) → not (is_some o) ≡ true → o ≡ none
failed_set none h = refl
failed_set (some a) h = cc

pub failed_unset : {A : Type 0} (o : Option A) → is_some o ≡ true → o ≢ none
failed_unset o h k = ground arith

pub failed_active : (s : Status) → not (is_status_active s) ≡ true → s ≢ active
failed_active s h k = ground arith

pub failed_uncancelled : (s : Status) → is_status_cancelled s ≡ true → s ≡ cancelled
failed_uncancelled s h = ground arith

pub failed_uncompleted : (s : Status) → is_status_completed s ≡ true → s ≡ completed
failed_uncompleted s h = ground arith

pub failed_valid : (a : ℤ) → not (is_valid_amount a) ≡ true → a ≤ℤ pos 0
unfolding is_valid_amount
failed_valid a h = ground arith

-- A valid amount is never below the minimum.
pub failed_least :
    {C : Type 0} (a : ℤ) → not (is_valid_amount a) ≡ false → ltb_ℤ a min_stream_amount ≡ true → C
unfolding is_valid_amount
failed_least a h k = ground arith

pub failed_after : (a b : ℕ) → leb a b ≡ true → a ≤ b
failed_after a b h = ground arith

pub failed_before : (a b : ℕ) → ltb a b ≡ true → a < b
failed_before a b h = ground arith

pub failed_below : (a b : ℤ) → ltb_ℤ a b ≡ true → a <ℤ b
failed_below a b h = ground arith

pub failed_positive : (a : ℤ) → leb_ℤ a (pos 0) ≡ true → a ≤ℤ pos 0
failed_positive a h = ground arith

pub failed_same : (a b : ℕ) → (a == b) ≡ true → a ≡ b
failed_same a b h = ground arith

pub failed_sum : (a b : ℤ) → checked_add a b ≡ none → IsI128 (a +ℤ b) → ⊥
failed_sum a b h fits = none_ne_some h (checked_add-fits a b fits)

pub failed_count : (a b : ℕ) → checked_add_u64 a b ≡ none → u64_max < a + b
unfolding checked_add_u64
failed_count a b h = ground arith
