-- ===== src/Base/Dict.antt =====
-- Persistent storage keyed by stream id: an association list.
use Prim.Native.Nat.{ℕ}
use mathlib.Core.Path.{◌≡◌, ap}
use mathlib.Core.Logic.{inl, inr}
use mathlib.Core.Option.{Option, none, some}
use mathlib.Core.List.{List, [], ◌∷◌}
use native.Mathlib.Omega.{arith}
use stream_pay_contracts.Base.Tests.{Bool-cases, ◌==◌, if◌then◌else◌}

abbrev pub Dict {ℓ} : Type ℓ → Type ℓ
Dict V = List (ℕ × V)

module _ {ℓ} {V : Type ℓ} where
  unfoldable pub lookup : ℕ → Dict V → Option V
  lookup k [] = none
  lookup k ((j, v) ∷ d) = if k == j then some v else lookup k d

  unfoldable pub insert : ℕ → V → Dict V → Dict V
  insert k v [] = (k, v) ∷ []
  insert k v ((j, w) ∷ d) = if k == j then (k, v) ∷ d else (j, w) ∷ insert k v d

  pub lookup-insert :
      (j k : ℕ) (v : V) (d : Dict V)
      → lookup j (insert k v d) ≡ (if j == k then some v else lookup j d)
  unfolding lookup insert
  lookup-insert j k v [] = ground arith
  lookup-insert j k v ((i, w) ∷ d) = ground (arith, lookup-insert j k v d)

  -- A value that was inserted is found.
  pub lookup-insert_same : (k : ℕ) (v : V) (d : Dict V) → lookup k (insert k v d) ≡ some v
  lookup-insert_same k v d = ground (arith, lookup-insert k k v d)

  -- Of two values under one key the later one stays.
  pub insert-insert : (k : ℕ) (u v : V) (d : Dict V) → insert k v (insert k u d) ≡ insert k v d
  unfolding insert
  insert-insert k u v [] = ground arith
  insert-insert k u v ((j, w) ∷ d) = elim (Bool-cases (k == j)) [
    | inl same ↦ rw same (ground arith)
    | inr other ↦ rw (other, other) (ap (λ x. (j, w) ∷ x) (insert-insert k u v d))
  ]
