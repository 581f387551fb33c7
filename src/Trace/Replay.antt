-- ===== src/Trace/Replay.antt =====
-- The event log against the streams. An indexer outside the contract that follows the events of
-- src/events.rs keeps, for each stream, what they tell: its parties, its total, what was withdrawn
-- and whether it was cancelled.
pub mod EntryPoints
pub mod Calls
use stream_pay_contracts.Base.{
  ℕ, ◌≡◌, refl, sym, ap, ap₂, ◌∙◌, Bool, true, false, not, some, List, [], ◌∷◌, ◌++◌, arith, ◌==◌,
  if◌then◌else◌, Bool-cases, inl, inr,
}
use stream_pay_contracts.Base.Int.{ℤ, pos, ◌+ℤ◌}
use stream_pay_contracts.Base.Dict.{Dict, lookup, insert}
use stream_pay_contracts.Types.{Address, Stream, is_status_cancelled}
use stream_pay_contracts.Events.{
  Event, admin_transfer_scheduled, admin_transfer_executed, admin_transfer_cancelled,
  stream_created, stream_withdrawn, stream_topped_up, stream_extended, stream_cancelled,
  supply_cap_updated, admin_changed, contract_upgraded,
}

pub record Entry : Type 0 where
  pub sender : Address
  pub recipient : Address
  pub total : ℤ
  pub withdrawn : ℤ
  pub is_open : Bool

-- A change of the entry that a key has.
unfoldable pub update : ℕ → (Entry → Entry) → Dict Entry → Dict Entry
update k f [] = []
update k f ((j, e) ∷ d) = if k == j then (j, f e) ∷ d else (j, e) ∷ update k f d

-- What an event tells about the streams.
unfoldable pub observe : Dict Entry → Event → Dict Entry
observe d (stream_created id sender recipient total) =
    insert id
      (record {
        sender = sender;
        recipient = recipient;
        total = total;
        withdrawn = pos 0;
        is_open = true;
      })
      d
observe d (stream_withdrawn id recipient amount) =
    update id (λ e. record e { withdrawn = e.withdrawn +ℤ amount }) d
observe d (stream_topped_up id sender amount new_total) =
    update id (λ e. record e { total = new_total }) d
observe d (stream_cancelled id caller sender_refund recipient_paid) =
    update id (λ e. record e { withdrawn = e.withdrawn +ℤ recipient_paid; is_open = false }) d
observe d _ = d

unfoldable pub replay_from : Dict Entry → List Event → Dict Entry
unfolding observe
replay_from d [] = d
replay_from d (e ∷ events) = replay_from (observe d e) events

-- The log from the deployment on.
unfoldable pub replay : List Event → Dict Entry
unfolding replay_from
replay events = replay_from [] events

abbrev pub entry_of : Stream → Entry
entry_of s = record {
  sender = s.sender;
  recipient = s.recipient;
  total = s.total;
  withdrawn = s.withdrawn;
  is_open = not (is_status_cancelled s.status);
}

-- The stored streams as the indexer would have them.
unfoldable pub catalog : Dict Stream → Dict Entry
catalog [] = []
catalog ((id, s) ∷ d) = (id, entry_of s) ∷ catalog d

replay_from-append :
    (d : Dict Entry) (events : List Event) (e : Event)
    → replay_from d (events ++ e ∷ []) ≡ observe (replay_from d events) e
unfolding replay_from
replay_from-append d [] e = refl
replay_from-append d (f ∷ events) e = replay_from-append (observe d f) events e

pub replay-append :
    (events : List Event) (e : Event) → replay (events ++ e ∷ []) ≡ observe (replay events) e
unfolding replay
replay-append events e = replay_from-append [] events e

pub catalog-insert :
    (id : ℕ) (s : Stream) (d : Dict Stream)
    → catalog (insert id s d) ≡ insert id (entry_of s) (catalog d)
unfolding catalog insert
catalog-insert id s [] = refl
catalog-insert id s ((j, t) ∷ d) = elim (Bool-cases (id == j)) [
  | inl same ↦ rw same
  | inr other ↦ rw (other, catalog-insert id s d)
]

-- A change of a stored stream is a change of its entry.
pub catalog-update :
    (id : ℕ) (s new : Stream) (f : Entry → Entry) (d : Dict Stream)
    → lookup id d ≡ some s
    → f (entry_of s) ≡ entry_of new
    → catalog (insert id new d) ≡ update id f (catalog d)
unfolding catalog insert update lookup
catalog-update id s new f [] found change = cc
catalog-update id s new f ((j, t) ∷ d) found change = elim (Bool-cases (id == j)) [
  | inl same ↦
      let t_eq : t ≡ s = ground arith in
      let j_eq : j ≡ id = ground arith in
      rw same
        (ap₂ (λ k e. (k, e) ∷ catalog d) (sym j_eq) (sym (ap (λ x. f (entry_of x)) t_eq ∙ change)))
  | inr other ↦
      rw other
        (ap (λ x. (j, entry_of t) ∷ x) (catalog-update id s new f d (rw other at found) change))
]

-- A change that the entry does not show is none.
pub catalog-unseen :
    (id : ℕ) (s new : Stream) (d : Dict Stream)
    → lookup id d ≡ some s
    → entry_of new ≡ entry_of s
    → catalog (insert id new d) ≡ catalog d
unfolding catalog insert lookup
catalog-unseen id s new [] found same_entry = cc
catalog-unseen id s new ((j, t) ∷ d) found same_entry = elim (Bool-cases (id == j)) [
  | inl same ↦
      let t_eq : t ≡ s = ground arith in
      let j_eq : j ≡ id = ground arith in
      rw same (ap₂ (λ k e. (k, e) ∷ catalog d) (sym j_eq) (same_entry ∙ sym (ap entry_of t_eq)))
  | inr other ↦
      rw other
        (ap (λ x. (j, entry_of t) ∷ x) (catalog-unseen id s new d (rw other at found) same_entry))
]
