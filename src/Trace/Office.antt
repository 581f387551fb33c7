-- ===== src/Trace/Office.antt =====
-- What the administrator decides about, as a small state machine: who holds the office, the
-- transfer that waits, the token, the cap and the code.
pub mod Calls
use stream_pay_contracts.Base.{
  none_ne_some, ℕ, ◌+◌, ◌≤◌, ◌<◌, ◌≡◌, ◌≢◌, sym, ap, ◌∙◌, true, false, Option, none, some, arith,
}
use stream_pay_contracts.Base.Int.{ℤ, pos, ◌<ℤ◌}
use stream_pay_contracts.Constants.{admin_timelock_delay, default_supply_cap}
use stream_pay_contracts.Types.{Address}
use stream_pay_contracts.Host.{Env}
use stream_pay_contracts.World.{World}

pub record Office : Type 0 where
  pub admin : Option Address
  pub pending : Option Address
  pub execute_after : Option ℕ
  pub token : Option Address
  pub cap : Option ℤ
  pub code : ℕ

-- The office in a world.
abbrev pub office_of : {T : Type 0} → World T → Office
office_of w = record {
  admin = w.admin;
  pending = w.pending_admin;
  execute_after = w.admin_action_execute_after;
  token = w.token;
  cap = w.supply_cap;
  code = w.wasm_hash;
}

-- The steps of the office. Each but the founding and the handover has the administrator's
-- authorization.
pub data Rules (env : Env) (o o' : Office) : Type 0 where
  rest : o' ≡ o → Rules env o o'
  found :
      (admin token : Address)
      → o.admin ≡ none
      → o' ≡ record o { admin = some admin; token = some token; cap = some default_supply_cap }
      → Rules env o o'
  schedule :
      (admin new_admin : Address)
      → o.admin ≡ some admin
      → env.authorized admin ≡ true
      → new_admin ≢ admin
      → o' ≡ record o {
        pending = some new_admin;
        execute_after = some (env.timestamp + admin_timelock_delay);
      }
      → Rules env o o'
  hand_over :
      (new_admin : Address) (execute_after : ℕ)
      → o.pending ≡ some new_admin
      → o.execute_after ≡ some execute_after
      → execute_after ≤ env.timestamp
      → o' ≡ record o { admin = some new_admin; pending = none; execute_after = none }
      → Rules env o o'
  revoke :
      (admin : Address)
      → o.admin ≡ some admin
      → env.authorized admin ≡ true
      → o' ≡ record o { pending = none; execute_after = none }
      → Rules env o o'
  replace :
      (admin new_admin : Address)
      → o.admin ≡ some admin
      → env.authorized admin ≡ true
      → o' ≡ record o { admin = some new_admin }
      → Rules env o o'
  upgrade :
      (admin : Address) (code : ℕ)
      → o.admin ≡ some admin
      → env.authorized admin ≡ true
      → o' ≡ record o { code = code }
      → Rules env o o'
  set_cap :
      (admin : Address) (cap : ℤ)
      → o.admin ≡ some admin
      → env.authorized admin ≡ true
      → pos 0 <ℤ cap
      → o' ≡ record o { cap = some cap }
      → Rules env o o'

not_both :
    {C : Type 0} {a b : Address} {o : Option Address} (env : Env)
    → o ≡ some a
    → o ≡ some b
    → env.authorized a ≡ true
    → env.authorized b ≡ false
    → C
not_both env h k signed unsigned = cc

too_early : {C : Type 0} {t now : ℕ} → now < t → t ≤ now → C
too_early h k = absurd (omega (arith, h, k))

-- Without the administrator's authorization, and before a waiting transfer is due, the office
-- rests.
pub Rules-unauthorized :
    (env : Env) (admin : Address) {o o' : Office}
    → Rules env o o'
    → o.admin ≡ some admin
    → env.authorized admin ≡ false
    → ((t : ℕ) → o.execute_after ≡ some t → env.timestamp < t)
    → o' ≡ o
Rules-unauthorized env admin (rest e) held unsigned early = e
Rules-unauthorized env admin (found a t unset e) held unsigned early = none_ne_some unset held
Rules-unauthorized env admin (schedule a n is signed ne e) held unsigned early =
    not_both env is held signed unsigned
Rules-unauthorized env admin (hand_over n t waits locked due e) held unsigned early =
    too_early (early t locked) due
Rules-unauthorized env admin (revoke a is signed e) held unsigned early =
    not_both env is held signed unsigned
Rules-unauthorized env admin (replace a n is signed e) held unsigned early =
    not_both env is held signed unsigned
Rules-unauthorized env admin (upgrade a c is signed e) held unsigned early =
    not_both env is held signed unsigned
Rules-unauthorized env admin (set_cap a c is signed positive e) held unsigned early =
    not_both env is held signed unsigned

-- Once founded, the office keeps its token, and somebody holds it.
pub Rules-founded :
    (env : Env) (admin : Address) {o o' : Office}
    → Rules env o o'
    → o.admin ≡ some admin
    → (o'.token ≡ o.token) × ((a : Address) × (o'.admin ≡ some a))
Rules-founded env admin (rest e) held = (ap (λ x. x.token) e, (admin, ap (λ x. x.admin) e ∙ held))
Rules-founded env admin (found a t unset e) held = none_ne_some unset held
Rules-founded env admin (schedule a n is signed ne e) held =
    (ap (λ x. x.token) e, (admin, ap (λ x. x.admin) e ∙ held))
Rules-founded env admin (hand_over n t waits locked due e) held =
    (ap (λ x. x.token) e, (n, ap (λ x. x.admin) e))
Rules-founded env admin (revoke a is signed e) held =
    (ap (λ x. x.token) e, (admin, ap (λ x. x.admin) e ∙ held))
Rules-founded env admin (replace a n is signed e) held =
    (ap (λ x. x.token) e, (n, ap (λ x. x.admin) e))
Rules-founded env admin (upgrade a c is signed e) held =
    (ap (λ x. x.token) e, (admin, ap (λ x. x.admin) e ∙ held))
Rules-founded env admin (set_cap a c is signed positive e) held =
    (ap (λ x. x.token) e, (admin, ap (λ x. x.admin) e ∙ held))

-- Nothing is paid in while nobody holds the office.
pub Rules-unfounded :
    (env : Env) {o o' : Office}
    → Rules env o o'
    → (o.admin ≡ none → o.token ≡ none)
    → o'.admin ≡ none
    → o'.token ≡ none
Rules-unfounded env (rest e) before unset =
    ap (λ x. x.token) e ∙ before (sym (ap (λ x. x.admin) e) ∙ unset)
Rules-unfounded env (found a t _ e) before unset = none_ne_some unset (ap (λ x. x.admin) e)
Rules-unfounded env (schedule a n is signed ne e) before unset =
    none_ne_some unset (ap (λ x. x.admin) e ∙ is)
Rules-unfounded env (hand_over n t waits locked due e) before unset =
    none_ne_some unset (ap (λ x. x.admin) e)
Rules-unfounded env (revoke a is signed e) before unset =
    none_ne_some unset (ap (λ x. x.admin) e ∙ is)
Rules-unfounded env (replace a n is signed e) before unset =
    none_ne_some unset (ap (λ x. x.admin) e)
Rules-unfounded env (upgrade a c is signed e) before unset =
    none_ne_some unset (ap (λ x. x.admin) e ∙ is)
Rules-unfounded env (set_cap a c is signed positive e) before unset =
    none_ne_some unset (ap (λ x. x.admin) e ∙ is)
