-- ===== src/Events.antt =====
-- The events of src/events.rs: a constructor for each publishing helper, with the topics' id and
-- the data that the helper publishes.
use stream_pay_contracts.Base.{ℕ}
use stream_pay_contracts.Base.Int.{ℤ}
use stream_pay_contracts.Types.{Address}

pub data Event : Type 0 where
  admin_transfer_scheduled : (current_admin pending_admin : Address) (execute_after : ℕ) → Event
  admin_transfer_executed : (previous_admin new_admin : Address) → Event
  admin_transfer_cancelled : (admin : Address) → Event
  stream_created : (id : ℕ) (sender recipient : Address) (total : ℤ) → Event
  stream_withdrawn : (id : ℕ) (recipient : Address) (amount : ℤ) → Event
  stream_topped_up : (id : ℕ) (sender : Address) (amount new_total : ℤ) → Event
  stream_extended : (id : ℕ) (sender : Address) (old_end new_end : ℕ) → Event
  stream_cancelled : (id : ℕ) (caller : Address) (sender_refund recipient_paid : ℤ) → Event
  supply_cap_updated : (admin : Address) (old_cap new_cap : ℤ) → Event
  admin_changed : (old_admin new_admin : Address) → Event
  contract_upgraded : (new_wasm_hash : ℕ) → Event
