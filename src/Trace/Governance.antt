-- ===== src/Trace/Governance.antt =====
-- The administration calls other than the setup, and what they leave alone.
use stream_pay_contracts.Base.{ℕ, ◌≡◌, refl, ap, Option, List}
use stream_pay_contracts.Base.Int.{ℤ}
use stream_pay_contracts.Types.{Address}
use stream_pay_contracts.Events.{Event}
use stream_pay_contracts.Host.{Env, Host}
use stream_pay_contracts.World.{World, Outcome, done}
use stream_pay_contracts.Contract.Admin
use stream_pay_contracts.Contract.Admin.Effect.{
  schedule_admin_transfer-done, execute_admin_transfer-done, cancel_admin_transfer-done,
  set_admin-done, upgrade-done, set_supply_cap-done,
}
use stream_pay_contracts.Trace.{
  Call, initialize, schedule_admin_transfer, execute_admin_transfer, cancel_admin_transfer,
  set_admin, upgrade, set_supply_cap, create_stream, create_stream_batch, top_up, extend_stream,
  withdraw, cancel, settle, invoke,
}
use stream_pay_contracts.Trace.Valid.{settle-keeps}

abbrev pub IsGovernance : Call → Type 0
IsGovernance (schedule_admin_transfer admin new_admin) = Unit
IsGovernance execute_admin_transfer = Unit
IsGovernance (cancel_admin_transfer admin) = Unit
IsGovernance (set_admin new_admin) = Unit
IsGovernance (upgrade hash) = Unit
IsGovernance (set_supply_cap new_cap) = Unit
IsGovernance _ = ⊥

-- The streams, their lives and their number, and the money.
pub record SameFunds {T : Type 0} (w w' : World T) : Type 0 where
  pub streams : w'.streams ≡ w.streams
  pub stream_live : w'.stream_live ≡ w.stream_live
  pub counter : w'.counter ≡ w.counter
  pub token : w'.token ≡ w.token
  pub tokens : w'.tokens ≡ w.tokens
  pub total_supply : w'.total_supply ≡ w.total_supply

module _ {T : Type 0} (w : World T) where
  SameFunds-refl : SameFunds w w
  SameFunds-refl = record {
    streams = refl;
    stream_live = refl;
    counter = refl;
    token = refl;
    tokens = refl;
    total_supply = refl;
  }

  -- The worlds that differ in what these calls write.
  SameFunds-record :
      (admin pending_admin : Option Address) (execute_after : Option ℕ) (cap : Option ℤ) (life : ℕ)
      (events : List Event) (hash : ℕ) (w' : World T)
      → w' ≡ record w {
        admin = admin;
        pending_admin = pending_admin;
        admin_action_execute_after = execute_after;
        supply_cap = cap;
        instance_live = life;
        events = events;
        wasm_hash = hash;
      }
      → SameFunds w w'
  SameFunds-record admin pending_admin execute_after cap life events hash w' e = record {
    streams = ap (λ v. v.streams) e;
    stream_live = ap (λ v. v.stream_live) e;
    counter = ap (λ v. v.counter) e;
    token = ap (λ v. v.token) e;
    tokens = ap (λ v. v.tokens) e;
    total_supply = ap (λ v. v.total_supply) e;
  }

  settle-SameFunds :
      {A : Type 0} (o : Outcome T A)
      → ((a : A) (w' : World T) → o ≡ done a w' → SameFunds w w')
      → SameFunds w (settle w o)
  settle-SameFunds o f = settle-keeps (SameFunds w) w o SameFunds-refl f

-- An administration call leaves them alone, returned or not.
pub governance-SameFunds :
    {T : Type 0} (host : Host T) (env : Env) (c : Call) (w : World T)
    → IsGovernance c
    → SameFunds w (invoke host env c w)
unfolding invoke
governance-SameFunds host env (schedule_admin_transfer admin new_admin) w g =
    settle-SameFunds w (Admin.schedule_admin_transfer host env admin new_admin w)
      λ a w' h. SameFunds-record w _ _ _ _ _ _ _ w' (schedule_admin_transfer-done host env w h).left
governance-SameFunds host env execute_admin_transfer w g =
    settle-SameFunds w (Admin.execute_admin_transfer host env w)
      λ a w' h. SameFunds-record w _ _ _ _ _ _ _ w' (execute_admin_transfer-done host env w h).left
governance-SameFunds host env (cancel_admin_transfer admin) w g =
    settle-SameFunds w (Admin.cancel_admin_transfer host env admin w)
      λ a w' h. SameFunds-record w _ _ _ _ _ _ _ w' (cancel_admin_transfer-done host env w h).left
governance-SameFunds host env (set_admin new_admin) w g =
    settle-SameFunds w (Admin.set_admin host env new_admin w)
      λ a w' h. SameFunds-record w _ _ _ _ _ _ _ w' (set_admin-done host env w h).left
governance-SameFunds host env (upgrade hash) w g =
    settle-SameFunds w (Admin.upgrade host env hash w)
      λ a w' h. SameFunds-record w _ _ _ _ _ _ _ w' (upgrade-done host env w h).left
governance-SameFunds host env (set_supply_cap new_cap) w g =
    settle-SameFunds w (Admin.set_supply_cap host env new_cap w)
      λ a w' h. SameFunds-record w _ _ _ _ _ _ _ w' (set_supply_cap-done host env w h).left
governance-SameFunds host env (initialize admin token) w g = absurd g
governance-SameFunds host env (create_stream s r amount start_time end_time) w g = absurd g
governance-SameFunds host env (create_stream_batch s requests) w g = absurd g
governance-SameFunds host env (top_up id s amount) w g = absurd g
governance-SameFunds host env (extend_stream id s new_end) w g = absurd g
governance-SameFunds host env (withdraw id r) w g = absurd g
governance-SameFunds host env (cancel id c) w g = absurd g
