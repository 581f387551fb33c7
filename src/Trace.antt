-- ===== src/Trace.antt =====
-- The state-changing entry points of src/lib.rs as calls, and sequences of calls. The host keeps
-- the writes of a call that returns and drops those of one that fails or traps.
pub mod Valid
pub mod Tracked
pub mod Timelock
pub mod Governance
pub mod Solvent
pub mod Replay
pub mod Cash
pub mod Draws
pub mod Exact
pub mod Balanced
pub mod Capped
pub mod Ranges
pub mod Office
pub mod Errors
pub mod Causes
pub mod Payout
pub mod Lives
pub mod Step
pub mod Lifecycle
use stream_pay_contracts.Base.{ℕ, ⊤, ◌≤◌, ◌≡◌, none, List, []}
use stream_pay_contracts.Base.Int.{ℤ, pos, ◌≤ℤ◌, IsI128, i128_max, u64_max}
use stream_pay_contracts.Types.{Address, StreamRequest}
use stream_pay_contracts.Host.{Env, Host}
use stream_pay_contracts.World.{World, Outcome, done, fail, trap, Action, pure, ◌>>=◌, ◌>>◌}
use stream_pay_contracts.Contract.Admin
use stream_pay_contracts.Contract.Create
use stream_pay_contracts.Contract.Batch
use stream_pay_contracts.Contract.TopUp
use stream_pay_contracts.Contract.Extend
use stream_pay_contracts.Contract.Withdraw
use stream_pay_contracts.Contract.Cancel
use stream_pay_contracts.Invariant.Batch.{AllTyped}

pub data Call : Type 0 where
  initialize : (admin token : Address) → Call
  schedule_admin_transfer : (admin new_admin : Address) → Call
  execute_admin_transfer : Call
  cancel_admin_transfer : (admin : Address) → Call
  set_admin : (new_admin : Address) → Call
  upgrade : (new_wasm_hash : ℕ) → Call
  set_supply_cap : (new_cap : ℤ) → Call
  create_stream : (sender recipient : Address) (total_amount : ℤ) (start_time end_time : ℕ) → Call
  create_stream_batch : (sender : Address) (requests : List StreamRequest) → Call
  top_up : (id : ℕ) (sender : Address) (amount : ℤ) → Call
  extend_stream : (id : ℕ) (sender : Address) (new_end : ℕ) → Call
  withdraw : (id : ℕ) (recipient : Address) → Call
  cancel : (id : ℕ) (caller : Address) → Call

-- The arguments fit their types.
abbrev pub IsTyped : Call → Type 0
IsTyped (create_stream sender recipient amount start_time end_time) =
    (amount ≤ℤ i128_max) × (end_time ≤ u64_max)
IsTyped (create_stream_batch sender requests) = AllTyped requests
IsTyped (extend_stream id sender new_end) = new_end ≤ u64_max
IsTyped (set_supply_cap new_cap) = IsI128 new_cap
IsTyped _ = Unit

-- A typed call that is no batch.
abbrev pub IsUnbatched : Call → Type 0
IsUnbatched (create_stream_batch sender requests) = ⊥
IsUnbatched (create_stream sender recipient amount start_time end_time) =
    (amount ≤ℤ i128_max) × (end_time ≤ u64_max)
IsUnbatched (extend_stream id sender new_end) = new_end ≤ u64_max
IsUnbatched (set_supply_cap new_cap) = IsI128 new_cap
IsUnbatched _ = Unit

module _ {T : Type 0} where
  -- What the host keeps of an outcome.
  abbrev pub settle : {A : Type 0} → World T → Outcome T A → World T
  settle w (done _ w') = w'
  settle w (fail _ _) = w
  settle w trap = w

  unfoldable pub invoke : Host T → Env → Call → World T → World T
  invoke host env (initialize admin token) w = settle w (Admin.initialize host env admin token w)
  invoke host env (schedule_admin_transfer admin new_admin) w =
      settle w (Admin.schedule_admin_transfer host env admin new_admin w)
  invoke host env execute_admin_transfer w = settle w (Admin.execute_admin_transfer host env w)
  invoke host env (cancel_admin_transfer admin) w =
      settle w (Admin.cancel_admin_transfer host env admin w)
  invoke host env (set_admin new_admin) w = settle w (Admin.set_admin host env new_admin w)
  invoke host env (upgrade hash) w = settle w (Admin.upgrade host env hash w)
  invoke host env (set_supply_cap new_cap) w = settle w (Admin.set_supply_cap host env new_cap w)
  invoke host env (create_stream sender recipient amount start_time end_time) w =
      settle w (Create.create_stream host env sender recipient amount start_time end_time w)
  invoke host env (create_stream_batch sender requests) w =
      settle w (Batch.create_stream_batch host env sender requests w)
  invoke host env (top_up id sender amount) w = settle w (TopUp.top_up host env id sender amount w)
  invoke host env (extend_stream id sender new_end) w =
      settle w (Extend.extend_stream host env id sender new_end w)
  invoke host env (withdraw id recipient) w = settle w (Withdraw.withdraw host env id recipient w)
  invoke host env (cancel id caller) w = settle w (Cancel.cancel host env id caller w)

  -- A world before the contract's first call: no key is set.
  abbrev pub deployed : T → World T
  deployed tokens = record {
    admin = none;
    token = none;
    counter = none;
    pending_admin = none;
    admin_action_execute_after = none;
    total_supply = none;
    supply_cap = none;
    streams = [];
    instance_live = 0;
    stream_live = λ _. 0;
    events = [];
    wasm_hash = 0;
    tokens = tokens;
  }

-- Which calls a run allows in a world: any, those whose arguments fit their types, and of those the
-- ones that are no batch. Which moves of the tokens outside the contract: any.
abbrev pub AnyCall : {T : Type 0} → Env → World T → Call → Type 0
AnyCall env w c = Unit

abbrev pub Typed : {T : Type 0} → Env → World T → Call → Type 0
Typed env w c = IsTyped c

abbrev pub Unbatched : {T : Type 0} → Env → World T → Call → Type 0
Unbatched env w c = IsUnbatched c

abbrev pub AnyMove : {T : Type 0} → T → T → Type 0
AnyMove t t' = Unit

-- The worlds reached from `first` at time `since` by calls that `P` allows, while the clock does not
-- run backwards and the tokens move outside the contract as `Q` allows.
pub data Run {T : Type 0} (host : Host T) (P : Env → World T → Call → Type 0) (Q : T → T → Type 0)
    (since : ℕ) (first : World T) : ℕ → World T → Type 0 where
  start : Run host P Q since first since first
  call :
      {now later : ℕ} {w w' : World T}
      → Run host P Q since first now w
      → (env : Env) (c : Call) → P env w c
      → now ≤ later
      → later ≡ env.timestamp
      → w' ≡ invoke host env c w
      → Run host P Q since first later w'
  outside :
      {now : ℕ} {w w' : World T} (tokens : T)
      → Run host P Q since first now w
      → Q w.tokens tokens
      → w' ≡ record w { tokens = tokens }
      → Run host P Q since first now w'
