-- ===== src/Trace/Cash.antt =====
-- The event log as a cash book: what a reader of the events of src/events.rs concludes about who
-- was paid how much. The parties of a cancelled stream are those of its creation, so the reader
-- replays the streams beside the payments.
pub mod Booked
pub mod EntryPoints
pub mod Calls
use stream_pay_contracts.Base.{
  ℕ, ◌≡◌, refl, sym, ap, ap₂, ◌∙◌, Option, none, some, true, false, List, [], ◌∷◌, ◌++◌, arith,
  ◌==◌, if◌then◌else◌, Bool-cases, inl, inr,
}
use stream_pay_contracts.Base.Int.{
  ℤ, pos, ◌+ℤ◌, ◌-ℤ◌, ltb_ℤ, int_laws, add_zero, zero_add, +ℤ_assoc,
}
use stream_pay_contracts.Base.Dict.{Dict, lookup}
use stream_pay_contracts.Types.{Address, Stream}
use stream_pay_contracts.Events.{
  Event, stream_created, stream_withdrawn, stream_topped_up, stream_cancelled,
}
use stream_pay_contracts.Host.{Host, MovesTokens}
use stream_pay_contracts.Trace.Replay.{Entry, observe, replay, replay_from, entry_of, catalog}

-- What a payment changes for one holder.
unfoldable pub moved : Address → Address → ℤ → Address → ℤ
moved from to amount holder =
    (if holder == to then amount else pos 0) -ℤ (if holder == from then amount else pos 0)

unfoldable pub moved_if_positive : Address → Address → ℤ → Address → ℤ
moved_if_positive from to amount holder =
    if ltb_ℤ (pos 0) amount then moved from to amount holder else pos 0

-- The payouts of a cancellation, to the parties of the entry.
unfoldable pub settled : Address → Option Entry → ℤ → ℤ → Address → ℤ
settled self none sender_refund recipient_paid holder = pos 0
settled self (some e) sender_refund recipient_paid holder =
    moved_if_positive self e.recipient recipient_paid holder
    +ℤ moved_if_positive self e.sender sender_refund holder

-- What an event says that a holder has gained, after the streams of the log before it.
unfoldable pub flow : Address → Dict Entry → Event → Address → ℤ
flow self d (stream_created id sender recipient total) holder = moved sender self total holder
flow self d (stream_topped_up id sender amount new_total) holder = moved sender self amount holder
flow self d (stream_withdrawn id recipient amount) holder = moved self recipient amount holder
flow self d (stream_cancelled id caller sender_refund recipient_paid) holder =
    settled self (lookup id d) sender_refund recipient_paid holder
flow self d _ holder = pos 0

unfoldable pub cash_from : Address → Dict Entry → List Event → Address → ℤ
cash_from self d [] holder = pos 0
cash_from self d (e ∷ events) holder =
    flow self d e holder +ℤ cash_from self (observe d e) events holder

-- What the log says that a holder has gained since the deployment.
unfoldable pub cash : Address → List Event → Address → ℤ
cash self events holder = cash_from self [] events holder

cash_from-append :
    (self : Address) (d : Dict Entry) (events : List Event) (e : Event) (holder : Address)
    → cash_from self d (events ++ e ∷ []) holder
      ≡ cash_from self d events holder +ℤ flow self (replay_from d events) e holder
unfolding cash_from replay_from
cash_from-append self d [] e holder =
    add_zero (flow self d e holder) ∙ sym (zero_add (flow self d e holder))
cash_from-append self d (f ∷ events) e holder =
    ap (λ x. flow self d f holder +ℤ x) (cash_from-append self (observe d f) events e holder)
    ∙ sym (+ℤ_assoc _ _ _)

pub cash-append :
    (self : Address) (events : List Event) (e : Event) (holder : Address)
    → cash self (events ++ e ∷ []) holder
      ≡ cash self events holder +ℤ flow self (replay events) e holder
unfolding cash replay
cash-append self events e holder = cash_from-append self [] events e holder

-- A stored stream has its entry.
pub lookup-catalog :
    (id : ℕ) {s : Stream} (d : Dict Stream)
    → lookup id d ≡ some s
    → lookup id (catalog d) ≡ some (entry_of s)
unfolding lookup catalog
lookup-catalog id {s} [] found = cc
lookup-catalog id {s} ((j, t) ∷ d) found = elim (Bool-cases (id == j)) [
  | inl same ↦ let t_eq : t ≡ s = ground arith in rw same (ap (λ x. some (entry_of x)) t_eq)
  | inr other ↦ rw other (lookup-catalog id d (rw other at found))
]

-- Two payments between the same holders are one of the sum.
pub moved_add :
    (from to : Address) (a b : ℤ) (holder : Address)
    → moved from to a holder +ℤ moved from to b holder ≡ moved from to (a +ℤ b) holder
unfolding moved
moved_add from to a b holder = elim (Bool-cases (holder == to)) [
  | inl is_to ↦ elim (Bool-cases (holder == from)) [
    | inl is_from ↦ rw (is_to, is_from) (omega int_laws)
    | inr no_from ↦ rw (is_to, no_from) (omega int_laws)
  ]
  | inr no_to ↦ elim (Bool-cases (holder == from)) [
    | inl is_from ↦ rw (no_to, is_from) (omega int_laws)
    | inr no_from ↦ rw (no_to, no_from) (omega int_laws)
  ]
]

pub moved_zero : (from to holder : Address) → moved from to (pos 0) holder ≡ pos 0
unfolding moved ◌-ℤ◌
moved_zero from to holder = ground arith

-- A transfer of the token is such a payment.
pub transfer-moved :
    {T : Type 0} (host : Host T) (laws : MovesTokens host) (t t' : T) (token from to : Address)
    (amount : ℤ)
    → host.transfer t token from to amount ≡ some t'
    → (holder : Address)
    → host.balance t' token holder ≡ host.balance t token holder +ℤ moved from to amount holder
unfolding moved
transfer-moved host laws t t' token from to amount h holder =
    laws.moves t t' token from to amount h holder ∙ regroup _ _ _
  where
    regroup : (a b c : ℤ) → a +ℤ b -ℤ c ≡ a +ℤ (b -ℤ c)
    regroup a b c = omega int_laws
