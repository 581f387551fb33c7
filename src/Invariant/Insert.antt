-- ===== src/Invariant/Insert.antt =====
-- The invariants and the escrow sum under the write of one stream.
use stream_pay_contracts.Base.{
  ℕ, ◌≤◌, ◌≡◌, ◌≢◌, refl, sym, ap, ◌∙◌, Option, subst₂, Bool-cases, inl, inr, none, some, [], ◌∷◌,
  arith, ◌==◌,
}
use stream_pay_contracts.Base.Int.{pos, ◌+ℤ◌, ◌≤ℤ◌, int_laws, -ℤ_parts}
use stream_pay_contracts.Base.Dict.{Dict, lookup, insert}
use stream_pay_contracts.Types.{Stream}
use stream_pay_contracts.Types.Valid.{IsWellFormed}
use stream_pay_contracts.Invariant.{IsSound, AllStreams, escrow_of, escrow}

module _ (P : ℕ → Stream → Type 0) where
  pub AllStreams-lookup :
      (id : ℕ) (s : Stream) (d : Dict Stream) → AllStreams P d → lookup id d ≡ some s → P id s
  unfolding lookup
  AllStreams-lookup id s [] all e = cc
  AllStreams-lookup id s ((j, t) ∷ d) all e = elim (Bool-cases (id == j)) [
    | inl same ↦
        let t_eq : t ≡ s = ground arith in
        let j_eq : j ≡ id = ground arith in subst₂ P j_eq t_eq all.0
    | inr other ↦ AllStreams-lookup id s d all.1 (ground arith)
  ]

  pub AllStreams-insert :
      (id : ℕ) (s : Stream) (d : Dict Stream)
      → AllStreams P d
      → P id s
      → AllStreams P (insert id s d)
  unfolding insert
  AllStreams-insert id s [] all here = (here, tt)
  AllStreams-insert id s ((j, t) ∷ d) all here = elim (Bool-cases (id == j)) [
    | inl same ↦ rw same (here, all.1)
    | inr other ↦ rw other (all.0, AllStreams-insert id s d all.1 here)
  ]

  pub AllStreams-map :
      (Q : ℕ → Stream → Type 0) (d : Dict Stream)
      → ((id : ℕ) (s : Stream) → P id s → Q id s)
      → AllStreams P d
      → AllStreams Q d
  AllStreams-map Q [] f all = tt
  AllStreams-map Q ((id, s) ∷ d) f all = (f id s all.0, AllStreams-map Q d f all.1)

pub IsSound-later :
    {now later counter counter' : ℕ} (id : ℕ) (s : Stream)
    → now ≤ later
    → counter ≤ counter'
    → IsSound now counter id s
    → IsSound later counter' id s
IsSound-later id s h k sound = record {
  well_formed = sound.well_formed;
  settled = λ c. omega (arith, sound.settled c);
  numbered = omega (arith, sound.numbered);
}

-- Replacing a stream exchanges its escrow in the sum.
pub escrow-insert :
    (id : ℕ) (new old : Stream) (d : Dict Stream)
    → lookup id d ≡ some old
    → escrow (insert id new d) +ℤ escrow_of old ≡ escrow d +ℤ escrow_of new
unfolding escrow lookup insert
escrow-insert id new old [] e = cc
escrow-insert id new old ((j, s) ∷ d) e = grind (int_laws, escrow-insert id new old d)

-- A stream under a new id adds its escrow.
pub escrow-insert_new :
    (id : ℕ) (new : Stream) (d : Dict Stream)
    → lookup id d ≡ none
    → escrow (insert id new d) ≡ escrow d +ℤ escrow_of new
unfolding escrow lookup insert
escrow-insert_new id new [] e = omega int_laws
escrow-insert_new id new ((j, s) ∷ d) e = grind (int_laws, escrow-insert_new id new d)

-- No escrow is negative, so each is a part of the sum.
pub escrow_of_nonneg : (s : Stream) → IsWellFormed s → pos 0 ≤ℤ escrow_of s
unfolding escrow_of
escrow_of_nonneg s h = grind (arith, -ℤ_parts, h.withdrawn_le_total)

pub escrow_nonneg :
    (now counter : ℕ) (d : Dict Stream) → AllStreams (IsSound now counter) d → pos 0 ≤ℤ escrow d
unfolding escrow
escrow_nonneg now counter [] all = omega arith
escrow_nonneg now counter ((id, s) ∷ d) all =
    omega (int_laws, escrow_of_nonneg s all.0.well_formed, escrow_nonneg now counter d all.1)

pub escrow_of-le :
    (now counter id : ℕ) (s : Stream) (d : Dict Stream)
    → AllStreams (IsSound now counter) d
    → lookup id d ≡ some s
    → escrow_of s ≤ℤ escrow d
unfolding escrow lookup
escrow_of-le now counter id s [] all e = cc
escrow_of-le now counter id s ((j, t) ∷ d) all e = elim (Bool-cases (id == j)) [
  | inl same ↦
      let t_eq : t ≡ s = ground arith in
      rw (← t_eq) (omega (int_laws, escrow_nonneg now counter d all.1))
  | inr other ↦ omega (
    int_laws,
    escrow_of_nonneg t all.0.well_formed,
    escrow_of-le now counter id s d all.1 (ground arith),
  )
]

-- The next id is free.
pub lookup-next :
    (now counter : ℕ) (d : Dict Stream)
    → AllStreams (IsSound now counter) d
    → lookup counter d ≡ none
unfolding lookup
lookup-next now counter [] all = refl
lookup-next now counter ((j, t) ∷ d) all =
    ground (arith, all.0.numbered, lookup-next now counter d all.1)

-- A world without an administrator has no stream to be found.
pub found_initialized :
    {A : Type 0} (o : Option A) (id : ℕ) {s : Stream} (d : Dict Stream)
    → (o ≡ none → d ≡ [])
    → lookup id d ≡ some s
    → o ≢ none
unfolding lookup
found_initialized o id d fresh e unset = some≢none (sym (ap (lookup id) (fresh unset)) ∙ e)
  where
    some≢none : {s : Stream} → none ≡ some s → ⊥
    some≢none h = cc
