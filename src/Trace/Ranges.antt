-- ===== src/Trace/Ranges.antt =====
-- The numbers of the state and of the event log against their Rust types, `i128` and `u64`. In the
-- model they are unbounded.
pub mod EntryPoints
pub mod Calls
use stream_pay_contracts.Base.{
  ℕ, ◌≤◌, ◌≡◌, Option, some, none, List, [], ◌∷◌, ◌++◌, arith, unwrap_or, refl,
}
use stream_pay_contracts.Base.Int.{
  ℤ, pos, ◌+ℤ◌, ◌-ℤ◌, ◌≤ℤ◌, int_laws, IsI128, i128_max, u64_max, checked_add, checked_add-some,
  checked_sub, checked_sub-some,
}
use stream_pay_contracts.Types.{Stream}
use stream_pay_contracts.Types.Valid.{IsWellFormed}
use stream_pay_contracts.Events.{
  Event, admin_transfer_scheduled, stream_created, stream_withdrawn, stream_topped_up,
  stream_extended, stream_cancelled, supply_cap_updated,
}
use stream_pay_contracts.World.{World}
use stream_pay_contracts.Invariant.{AllStreams, IsSound, IsValid, supply}
use stream_pay_contracts.Invariant.Insert.{AllStreams-map}

abbrev pub StreamInRange : ℕ → Stream → Type 0
StreamInRange id s =
    (id ≤ u64_max) × IsI128 s.total × IsI128 s.withdrawn × (s.start ≤ u64_max) × (s.end ≤ u64_max)

abbrev pub EventInRange : Event → Type 0
EventInRange (admin_transfer_scheduled current pending execute_after) = execute_after ≤ u64_max
EventInRange (stream_created id sender recipient total) = (id ≤ u64_max) × IsI128 total
EventInRange (stream_withdrawn id recipient amount) = (id ≤ u64_max) × IsI128 amount
EventInRange (stream_topped_up id sender amount new_total) =
    (id ≤ u64_max) × IsI128 amount × IsI128 new_total
EventInRange (stream_extended id sender old_end new_end) =
    (id ≤ u64_max) × (old_end ≤ u64_max) × (new_end ≤ u64_max)
EventInRange (stream_cancelled id caller sender_refund recipient_paid) =
    (id ≤ u64_max) × IsI128 sender_refund × IsI128 recipient_paid
EventInRange (supply_cap_updated admin old_cap new_cap) = IsI128 old_cap × IsI128 new_cap
EventInRange _ = Unit

abbrev pub LogInRange : List Event → Type 0
LogInRange [] = Unit
LogInRange (e ∷ events) = EventInRange e × LogInRange events

abbrev pub cap : {T : Type 0} → World T → ℤ
cap w = unwrap_or w.supply_cap i128_max

-- The numbers outside the streams.
pub record IsInRange {T : Type 0} (w : World T) : Type 0 where
  pub supply_fits : IsI128 (supply w)
  pub cap_fits : IsI128 (cap w)
  pub deadline_fits : unwrap_or w.admin_action_execute_after 0 ≤ u64_max
  pub log_fits : LogInRange w.events

pub LogInRange-append :
    (events : List Event) (e : Event)
    → LogInRange events
    → EventInRange e
    → LogInRange (events ++ e ∷ [])
LogInRange-append [] e all one = (one, tt)
LogInRange-append (f ∷ events) e all one = (all.0, LogInRange-append events e all.1 one)

-- The numbers of a well-formed stream.
pub IsWellFormed-InRange :
    (s : Stream)
    → IsWellFormed s
    → IsI128 s.total × IsI128 s.withdrawn × (s.start ≤ u64_max) × (s.end ≤ u64_max)
IsWellFormed-InRange s h = (
  (omega (arith, h.total_positive), h.total_fits),
  (omega (arith, h.withdrawn_nonneg), omega (arith, h.withdrawn_le_total, h.total_fits)),
  omega (arith, h.window, h.end_fits),
  h.end_fits,
)

-- The streams of a valid state.
pub IsValid-StreamInRange :
    {T : Type 0} (now : ℕ) (w : World T) → IsValid now w → AllStreams StreamInRange w.streams
IsValid-StreamInRange now w valid =
    AllStreams-map (IsSound now (unwrap_or w.counter 0)) StreamInRange w.streams
      (λ id s sound.
        let (total, withdrawn, start, end) = IsWellFormed-InRange s sound.well_formed in
        (omega (arith, sound.numbered, valid.counter_fits), total, withdrawn, start, end))
      valid.sound

-- A checked sum, and a checked difference with its fallback.
pub sum-InRange : (a b c : ℤ) → checked_add a b ≡ some c → IsI128 c
sum-InRange a b c h = let (c_eq, within) = checked_add-some a b c h in rw c_eq within

pub difference-InRange : (a b : ℤ) → IsI128 (unwrap_or (checked_sub a b) (pos 0))
difference-InRange a b = from_checked (checked_sub a b) (checked_sub-some a b)
  where
    from_checked :
        (o : Option ℤ)
        → ((c : ℤ) → o ≡ some c → (c ≡ a -ℤ b) × IsI128 (a -ℤ b))
        → IsI128 (unwrap_or o (pos 0))
    from_checked none f = (omega arith, omega arith)
    from_checked (some c) f = let (c_eq, within) = f c refl in rw c_eq within
