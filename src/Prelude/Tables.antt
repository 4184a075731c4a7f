-- ===== src/Prelude/Tables.antt =====
-- `HashMap`, and a table with a primary key: an association list with distinct keys. Iteration goes
-- in the order of the list; the standard library leaves it unspecified.
use mathlib.Core.Path.{◌≡◌, refl, ap}
use mathlib.Core.Bool.{Bool}
use mathlib.Core.List.{List, [], ◌∷◌}
use mathlib.Core.Option.{Option, none, some}
use native.Mathlib.Omega.{arith}
use tagsy.Prelude.Tests.{PartialEq, if◌then◌else◌, ◌==◌}

abbrev pub Dict {ℓ κ} : Type ℓ → Type κ → Type (ℓ ⊔ κ)
Dict K V = List (K × V)

module _ {ℓ κ} {K : Type ℓ} {V : Type κ} ⦃e : PartialEq K⦄ where
  unfoldable pub lookup : K → Dict K V → Option V
  lookup k [] = none
  lookup k ((j, v) ∷ d) = if j == k then some v else lookup k d

  -- An existing key keeps its place and takes the new value.
  unfoldable pub insert : K → V → Dict K V → Dict K V
  insert k v [] = (k, v) ∷ []
  insert k v ((j, w) ∷ d) = if j == k then (k, v) ∷ d else (j, w) ∷ insert k v d

  unfoldable pub remove : K → Dict K V → Dict K V
  remove k [] = []
  remove k ((j, v) ∷ d) = let rest = remove k d in if j == k then rest else (j, v) ∷ rest

  pub lookup-insert :
      (k j : K) (v : V) (d : Dict K V)
      → lookup j (insert k v d) ≡ (if k == j then some v else lookup j d)
  unfolding lookup insert
  lookup-insert k j v [] = refl
  lookup-insert k j v ((i, w) ∷ d) =
      ground (arith, e.same_iff k j, e.same_iff i k, e.same_iff i j, lookup-insert k j v d)

  pub lookup-remove :
      (k j : K) (d : Dict K V) → lookup j (remove k d) ≡ (if k == j then none else lookup j d)
  unfolding lookup remove
  lookup-remove k j [] = ground arith
  lookup-remove k j ((i, w) ∷ d) =
      ground (arith, e.same_iff k j, e.same_iff i k, e.same_iff i j, lookup-remove k j d)

  pub lookup-insert_here : (k : K) (v : V) (d : Dict K V) → lookup k (insert k v d) ≡ some v
  lookup-insert_here k v d = ground (arith, e.same_iff k k, lookup-insert k k v d)

  pub lookup-remove_here : (k : K) (d : Dict K V) → lookup k (remove k d) ≡ none
  lookup-remove_here k d = ground (arith, e.same_iff k k, lookup-remove k k d)

  pub insert-insert : (k : K) (v w : V) (d : Dict K V) → insert k v (insert k w d) ≡ insert k v d
  unfolding insert
  insert-insert k v w [] = ground (arith, e.same_iff k k)
  insert-insert k v w ((i, u) ∷ d) =
      ground (arith, e.same_iff k k, e.same_iff i k, insert-insert k v w d)

  -- Writing the value that a key has changes nothing.
  pub insert_same : (k : K) (v : V) (d : Dict K V) → lookup k d ≡ some v → insert k v d ≡ d
  unfolding lookup insert
  insert_same k v [] h = ground arith
  insert_same k v ((i, u) ∷ d) h = ground (arith, e.same_iff i k, insert_same k v d)

  -- DELETE by a condition on the key keeps the rows whose key passes.
  unfoldable pub retain_keys : (K → Bool) → Dict K V → Dict K V
  retain_keys p [] = []
  retain_keys p ((j, v) ∷ d) = let rest = retain_keys p d in if p j then (j, v) ∷ rest else rest

  pub lookup-retain_keys :
      (p : K → Bool) (k : K) (d : Dict K V)
      → lookup k (retain_keys p d) ≡ (if p k then lookup k d else none)
  unfolding lookup retain_keys
  lookup-retain_keys p k [] = ground arith
  lookup-retain_keys p k ((i, u) ∷ d) =
      ground (arith, e.same_iff i k, ap p {x = i} {y = k}, lookup-retain_keys p k d)

  -- A primary key: none comes twice.
  abbrev pub IsKeyed : Dict K V → Type (ℓ ⊔ κ)
  IsKeyed [] = Unit
  IsKeyed ((k, v) ∷ d) = (lookup k d ≡ none) × IsKeyed d
