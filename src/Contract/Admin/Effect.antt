-- ===== src/Contract/Admin/Effect.antt =====
-- What the setup and administration calls that return have checked and written.
use stream_pay_contracts.Host.{Env, Host}
use stream_pay_contracts.World.{World, done}
use stream_pay_contracts.World.Inversion.{after_raise_if, after_or_raise, after_unwrap, done-result}
use stream_pay_contracts.Storage.{bump_threshold, bump_extend, is_some}
use stream_pay_contracts.Contract.Calls.Inversion.{
  after_auth, after_update, passed_eq, passed_ne, passed_set, passed_positive, passed_lt,
}
use stream_pay_contracts.Base.{
  ℕ, ⊤, ◌+◌, ◌≤◌, ◌≡◌, ◌≢◌, refl, sym, ap, ◌∙◌, subst, not, ltb, ◌==◌, true, false, Option, none,
  some, [], ◌∷◌, ◌++◌, unwrap_or,
}
use stream_pay_contracts.Base.Int.{
  ℤ, pos, ◌<ℤ◌, leb_ℤ, checked_add_u64, checked_add_u64-some, i128_max, u64_max,
}
use stream_pay_contracts.Types.{Address}
use stream_pay_contracts.Constants.{admin_timelock_delay, default_supply_cap}
use stream_pay_contracts.Events.{
  admin_transfer_scheduled, admin_transfer_executed, admin_transfer_cancelled, supply_cap_updated,
  admin_changed, contract_upgraded,
}
use stream_pay_contracts.Contract.Admin.{
  initialize, schedule_admin_transfer, execute_admin_transfer, cancel_admin_transfer, set_admin,
  upgrade, set_supply_cap,
}

passed_unset : {A : Type 0} (o : Option A) → is_some o ≡ false → o ≡ none
passed_unset none h = refl
passed_unset (some _) h = cc

module _ {T : Type 0} (host : Host T) (env : Env) (w : World T) where
  -- The live-until ledger of instance storage after `extend_instance`.
  abbrev pub extended_life : ℕ
  extended_life = host.extend_ttl env.sequence w.instance_live bump_threshold bump_extend

  pub record IsSetup (admin token : Address) (w' : World T) : Type 0 where
    pub unset : w.admin ≡ none
    pub left : w' ≡ record w {
      admin = some admin;
      token = some token;
      counter = some 0;
      total_supply = some (pos 0);
      supply_cap = some default_supply_cap;
      instance_live = extended_life;
    }

  pub initialize-done :
      {admin token : Address} {a : ⊤} {w' : World T}
      → initialize host env admin token w ≡ done a w'
      → IsSetup admin token w'
  unfolding initialize
  initialize-done h =
      after_raise_if (is_some w.admin) _ _ h
        λ unset h₁. record { unset = passed_unset w.admin unset; left = (done-result h₁).1 }

  pub record IsSchedule (admin new_admin : Address) (execute_after : ℕ) (w' : World T)
      : Type 0 where
    pub authorized : env.authorized admin ≡ true
    pub is_admin : w.admin ≡ some admin
    pub changes : new_admin ≢ admin
    pub delayed : execute_after ≡ env.timestamp + admin_timelock_delay
    pub delay_fits : execute_after ≤ u64_max
    pub left : w' ≡ record w {
      pending_admin = some new_admin;
      admin_action_execute_after = some execute_after;
      instance_live = extended_life;
      events = w.events ++ admin_transfer_scheduled admin new_admin execute_after ∷ [];
    }

  pub schedule_admin_transfer-done :
      {admin new_admin : Address} {a : ℕ} {w' : World T}
      → schedule_admin_transfer host env admin new_admin w ≡ done a w'
      → IsSchedule admin new_admin a w'
  unfolding schedule_admin_transfer
  schedule_admin_transfer-done {admin} {new_admin} {a} {w'} h =
      after_raise_if (not (is_some w.admin)) _ _ h λ initialized h₁.
        after_auth env admin _ h₁ λ authorized h₂. after_unwrap w.admin _ h₂ λ current set h₃.
          after_raise_if (not (admin == current)) _ _ h₃ λ is_admin h₄.
            after_raise_if (new_admin == admin) _ _ h₄ λ changes h₅.
              after_or_raise (checked_add_u64 env.timestamp admin_timelock_delay) _ _ h₅
                λ execute_after summed h₆.
                  let (same, left) = done-result h₆ in
                  let (delayed, fits) = checked_add_u64-some _ _ _ summed in
                  subst (λ x. IsSchedule admin new_admin x w') same
                    (record {
                      authorized = authorized;
                      is_admin = set ∙ ap some (sym (passed_eq _ _ is_admin));
                      changes = passed_ne _ _ changes;
                      delayed = delayed;
                      delay_fits = fits;
                      left = left;
                    })

  pub record IsExecution (w' : World T) : Type 0 where
    pub pending : Address
    pub previous : Address
    pub execute_after : ℕ
    pub was_admin : w.admin ≡ some previous
    pub was_pending : w.pending_admin ≡ some pending
    pub was_locked : w.admin_action_execute_after ≡ some execute_after
    pub expired : execute_after ≤ env.timestamp
    pub left : w' ≡ record w {
      admin = some pending;
      pending_admin = none;
      admin_action_execute_after = none;
      instance_live = extended_life;
      events = w.events ++ admin_transfer_executed previous pending ∷ [];
    }

  pub execute_admin_transfer-done :
      {a : ⊤} {w' : World T} → execute_admin_transfer host env w ≡ done a w' → IsExecution w'
  unfolding execute_admin_transfer
  execute_admin_transfer-done {a} {w'} h =
      after_raise_if (not (is_some w.admin)) _ _ h λ initialized h₁.
        after_or_raise w.pending_admin _ _ h₁ λ pending was_pending h₂.
          after_or_raise w.admin_action_execute_after _ _ h₂ λ execute_after was_locked h₃.
            after_raise_if (ltb env.timestamp execute_after) _ _ h₃ λ expired h₄.
              after_unwrap w.admin _ h₄ λ previous was_admin h₅. record {
                pending = pending;
                previous = previous;
                execute_after = execute_after;
                was_admin = was_admin;
                was_pending = was_pending;
                was_locked = was_locked;
                expired = passed_lt _ _ expired;
                left = (done-result h₅).1;
              }

  pub record IsRevocation (admin : Address) (w' : World T) : Type 0 where
    pub pending : Address
    pub authorized : env.authorized admin ≡ true
    pub is_admin : w.admin ≡ some admin
    pub was_pending : w.pending_admin ≡ some pending
    pub left : w' ≡ record w {
      pending_admin = none;
      admin_action_execute_after = none;
      instance_live = extended_life;
      events = w.events ++ admin_transfer_cancelled admin ∷ [];
    }

  pub cancel_admin_transfer-done :
      {admin : Address} {a : ⊤} {w' : World T}
      → cancel_admin_transfer host env admin w ≡ done a w'
      → IsRevocation admin w'
  unfolding cancel_admin_transfer
  cancel_admin_transfer-done {admin} {a} {w'} h =
      after_raise_if (not (is_some w.admin)) _ _ h λ initialized h₁.
        after_auth env admin _ h₁ λ authorized h₂. after_unwrap w.admin _ h₂ λ current set h₃.
          after_raise_if (not (admin == current)) _ _ h₃ λ is_admin h₄.
            after_raise_if (not (is_some w.pending_admin)) _ _ h₄ λ scheduled h₅.
              let (pending, was_pending) = passed_set w.pending_admin scheduled in
              record {
                pending = pending;
                authorized = authorized;
                is_admin = set ∙ ap some (sym (passed_eq _ _ is_admin));
                was_pending = was_pending;
                left = (done-result h₅).1;
              }

  pub record IsHandover (new_admin : Address) (w' : World T) : Type 0 where
    pub current : Address
    pub was_admin : w.admin ≡ some current
    pub authorized : env.authorized current ≡ true
    pub left : w' ≡ record w {
      admin = some new_admin;
      instance_live = extended_life;
      events = w.events ++ admin_changed current new_admin ∷ [];
    }

  pub set_admin-done :
      {new_admin : Address} {a : ⊤} {w' : World T}
      → set_admin host env new_admin w ≡ done a w'
      → IsHandover new_admin w'
  unfolding set_admin
  set_admin-done {new_admin} {a} {w'} h =
      after_raise_if (not (is_some w.admin)) _ _ h λ initialized h₁.
        after_unwrap w.admin _ h₁ λ current was_admin h₂.
          after_auth env current _ h₂ λ authorized h₃. record {
            current = current;
            was_admin = was_admin;
            authorized = authorized;
            left = (done-result h₃).1;
          }

  pub record IsUpgrade (hash : ℕ) (w' : World T) : Type 0 where
    pub current : Address
    pub was_admin : w.admin ≡ some current
    pub authorized : env.authorized current ≡ true
    pub uploaded : env.uploaded hash ≡ true
    pub left : w' ≡ record w {
      wasm_hash = hash;
      instance_live = extended_life;
      events = w.events ++ contract_upgraded hash ∷ [];
    }

  pub upgrade-done :
      {hash : ℕ} {a : ⊤} {w' : World T} → upgrade host env hash w ≡ done a w' → IsUpgrade hash w'
  unfolding upgrade
  upgrade-done {hash} {a} {w'} h = after_raise_if (not (is_some w.admin)) _ _ h λ initialized h₁.
      after_unwrap w.admin _ h₁ λ current was_admin h₂. after_auth env current _ h₂ λ authorized h₃.
        after_update w env hash _ h₃ λ uploaded h₄. record {
          current = current;
          was_admin = was_admin;
          authorized = authorized;
          uploaded = uploaded;
          left = (done-result h₄).1;
        }

  pub record IsCapChange (new_cap : ℤ) (w' : World T) : Type 0 where
    pub current : Address
    pub was_admin : w.admin ≡ some current
    pub authorized : env.authorized current ≡ true
    pub positive : pos 0 <ℤ new_cap
    pub left : w' ≡ record w {
      supply_cap = some new_cap;
      instance_live = extended_life;
      events =
          w.events ++ supply_cap_updated current (unwrap_or w.supply_cap i128_max) new_cap ∷ [];
    }

  pub set_supply_cap-done :
      {new_cap : ℤ} {a : ⊤} {w' : World T}
      → set_supply_cap host env new_cap w ≡ done a w'
      → IsCapChange new_cap w'
  unfolding set_supply_cap
  set_supply_cap-done {new_cap} {a} {w'} h =
      after_raise_if (not (is_some w.admin)) _ _ h λ initialized h₁.
        after_unwrap w.admin _ h₁ λ current was_admin h₂.
          after_auth env current _ h₂ λ authorized h₃.
            after_raise_if (leb_ℤ new_cap (pos 0)) _ _ h₃ λ positive h₄. record {
              current = current;
              was_admin = was_admin;
              authorized = authorized;
              positive = passed_positive _ positive;
              left = (done-result h₄).1;
            }
