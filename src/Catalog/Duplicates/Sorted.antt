-- ===== src/Catalog/Duplicates/Sorted.antt =====
-- Sorted lists, and the entries of a table by their lookups.
use tagsy.Prelude.{
  All, Bool, Bool-cases, Dict, List, Option, PartialEq, [], any, ap, arith, false, inl, inr, insert,
  lookup, lookup-insert, ltb, none, one, refl, some, sum_of, sym, ℕ, ◌&&◌, ◌+◌, ◌<◌, ◌==◌, ◌||◌,
  ◌∙◌, ◌∷◌, ◌≡◌, ◌≤◌, nat_eq, string_eq,
}
use tagsy.Store.{entry_key_eq}
use tagsy.Catalog.Duplicates.{sort, sorted_in, copies_eq}

pub All-map :
    {A : Type 0} {P Q : A → Type 0} → ((a : A) → P a → Q a) → (xs : List A) → All P xs → All Q xs
All-map f [] h = tt
All-map f (x ∷ xs) h = (f x h.0, All-map f xs h.1)

module _ {A : Type 0} (before : A → A → Bool) where
  any-sorted_in :
      (p : A → Bool) (x : A) (xs : List A) → any p (sorted_in before x xs) ≡ (p x || any p xs)
  any-sorted_in p x [] = refl
  any-sorted_in p x (y ∷ ys) = ground (arith, any-sorted_in p x ys)

  pub any-sort : (p : A → Bool) (xs : List A) → any p (sort before xs) ≡ any p xs
  unfolding sort
  any-sort p [] = refl
  any-sort p (x ∷ xs) = ground (arith, any-sorted_in p x (sort before xs), any-sort p xs)

  sum_of-sorted_in :
      (f : A → ℕ) (x : A) (xs : List A) → sum_of f (sorted_in before x xs) ≡ f x + sum_of f xs
  sum_of-sorted_in f x [] = refl
  sum_of-sorted_in f x (y ∷ ys) = ground (arith, sum_of-sorted_in f x ys)

  pub sum_of-sort : (f : A → ℕ) (xs : List A) → sum_of f (sort before xs) ≡ sum_of f xs
  unfolding sort
  sum_of-sort f [] = refl
  sum_of-sort f (x ∷ xs) = omega (arith, sum_of-sorted_in f x (sort before xs), sum_of-sort f xs)

  All-sorted_in :
      (P : A → Type 0) (x : A) (xs : List A) → P x → All P xs → All P (sorted_in before x xs)
  All-sorted_in P x [] h k = (h, tt)
  All-sorted_in P x (y ∷ ys) h k = elim (Bool-cases (before y x)) [
    | inl first ↦ rw first (k.0, All-sorted_in P x ys h k.1)
    | inr later ↦ rw later (h, k)
  ]

  pub All-sort : (P : A → Type 0) (xs : List A) → All P xs → All P (sort before xs)
  unfolding sort
  All-sort P [] h = tt
  All-sort P (x ∷ xs) h = All-sorted_in P x (sort before xs) h.0 (All-sort P xs h.1)

-- How often an id stands in a list.
abbrev pub occurrences : ℕ → List ℕ → ℕ
occurrences id ids = sum_of (λ x. one (x == id)) ids

-- What is nowhere below an id and nowhere equal to it is above it.
pub All-above :
    (kept : ℕ) (ids : List ℕ)
    → All (λ id. kept ≤ id) ids
    → occurrences kept ids ≡ 0
    → All (λ id. kept < id) ids
All-above kept [] h none_equal = tt
All-above kept (x ∷ ids) h none_equal =
    (ground (arith, h.0, none_equal), All-above kept ids h.1 (omega (arith, none_equal)))

abbrev pub IsAscending : List ℕ → Type 0
IsAscending [] = Unit
IsAscending (x ∷ xs) = All (λ y. x ≤ y) xs × IsAscending xs

sorted_in-IsAscending : (x : ℕ) (xs : List ℕ) → IsAscending xs → IsAscending (sorted_in ltb x xs)
sorted_in-IsAscending x [] h = (tt, tt)
sorted_in-IsAscending x (y ∷ ys) h = elim (Bool-cases (ltb y x)) [
  | inl below ↦ rw below (
    All-sorted_in ltb (λ z. y ≤ z) x ys (ground (arith, below)) h.0,
    sorted_in-IsAscending x ys h.1,
  )
  | inr above ↦
      let le : x ≤ y = ground (arith, above) in
      rw above ((le, All-map (λ z k. omega (arith, le, k)) ys h.0), h)
]

pub sort-IsAscending : (ids : List ℕ) → IsAscending (sort ltb ids)
unfolding sort
sort-IsAscending [] = tt
sort-IsAscending (x ∷ ids) = sorted_in-IsAscending x (sort ltb ids) (sort-IsAscending ids)

abbrev pub holds : {V : Type 0} → (V → Bool) → Option V → Bool
holds p none = false
holds p (some v) = p v

module _ {K : Type 0} {V : Type 0} ⦃e : PartialEq K⦄ where
  abbrev pub HasOwnKeys : Dict K V → Type 0
  unfolding lookup
  HasOwnKeys [] = Unit
  HasOwnKeys ((k, v) ∷ d) = (lookup k d ≡ none) × HasOwnKeys d

  pub insert-HasOwnKeys : (k : K) (v : V) (d : Dict K V) → HasOwnKeys d → HasOwnKeys (insert k v d)
  unfolding insert lookup
  insert-HasOwnKeys k v [] h = (refl, tt)
  insert-HasOwnKeys k v ((j, w) ∷ d) h = elim (Bool-cases (j == k)) [
    | inl same ↦ rw same (ap (λ x. lookup x d) (sym ((e.same_iff j k).0 same)) ∙ h.0, h.1)
    | inr other ↦ rw other (
      ground (arith, lookup-insert k j v d, e.same_iff j k, e.same_iff k j, h.0),
      insert-HasOwnKeys k v d h.1,
    )
  ]

  -- Every entry is what a lookup of its key gives.
  pub All-lookup :
      (d : Dict K V) → HasOwnKeys d → All (λ (entry : K × V). lookup entry.0 d ≡ some entry.1) d
  unfolding lookup
  All-lookup [] h = tt
  All-lookup ((k, v) ∷ d) h = (
    ground (arith, e.same_iff k k),
    All-map
        (λ (entry : K × V) found.
          ground
            (arith, e.same_iff k entry.0, ap (λ x. lookup x d) {x = k} {y = entry.0}, h.0, found))
        d (All-lookup d h.1),
  )

  pub any-lookup :
      (p : V → Bool) (k : K) (d : Dict K V)
      → HasOwnKeys d
      → any (λ (entry : K × V). entry.0 == k && p entry.1) d ≡ holds p (lookup k d)
  unfolding lookup
  any-lookup p k [] h = refl
  any-lookup p k ((j, v) ∷ d) h =
      ground
        (arith, any-lookup p k d h.1, e.same_iff j k, ap (λ x. lookup x d) {x = j} {y = k}, h.0)
