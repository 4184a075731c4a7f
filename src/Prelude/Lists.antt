-- ===== src/Prelude/Lists.antt =====
-- Lists measured by native numbers and tested by Boolean functions.
use Prim.Native.Nat.{ℕ, zero, suc, ◌+◌, ◌≤◌}
use mathlib.Core.Option
use mathlib.Core.Path.{◌≡◌, refl, ap}
use mathlib.Core.Bool.{Bool, true, false, ◌||◌}
use mathlib.Core.Logic.{inl, inr}
use mathlib.Core.List.{List, [], ◌∷◌, ◌++◌}
use mathlib.Core.Option.{Option, none, some}
use native.Mathlib.Omega.{arith}
use tagsy.Prelude.Tests.{Bool-cases, PartialEq, if◌then◌else◌, ◌==◌}

module _ {ℓ} {A : Type ℓ} where
  abbrev pub length : List A → ℕ
  length [] = 0
  length (x ∷ xs) = suc (length xs)

  -- `iter().filter(..)` and `retain(..)`.
  abbrev pub retain : (A → Bool) → List A → List A
  retain p [] = []
  retain p (x ∷ xs) = let rest = retain p xs in if p x then x ∷ rest else rest

  abbrev pub any : (A → Bool) → List A → Bool
  any p [] = false
  any p (x ∷ xs) = p x || any p xs

  -- `history.last()`.
  abbrev pub last : List A → Option A
  last [] = none
  last (x ∷ []) = some x
  last (x ∷ y ∷ xs) = last (y ∷ xs)

  abbrev pub is_empty : List A → Bool
  is_empty [] = true
  is_empty (x ∷ xs) = false

  abbrev pub All {κ} : (A → Type κ) → List A → Type κ
  All P [] = Unit
  All P (x ∷ xs) = P x × All P xs

  pub length-append : (xs ys : List A) → length (xs ++ ys) ≡ length xs + length ys
  length-append [] ys = omega arith
  length-append (x ∷ xs) ys = omega (arith, length-append xs ys)

  pub retain-append :
      (p : A → Bool) (xs ys : List A) → retain p (xs ++ ys) ≡ retain p xs ++ retain p ys
  retain-append p [] ys = refl
  retain-append p (x ∷ xs) ys = ground (arith, retain-append p xs ys)

  pub any-append : (p : A → Bool) (xs ys : List A) → any p (xs ++ ys) ≡ (any p xs || any p ys)
  any-append p [] ys = refl
  any-append p (x ∷ xs) ys = ground (arith, any-append p xs ys)

  pub last-append : (xs : List A) (a : A) → last (xs ++ a ∷ []) ≡ some a
  last-append [] a = refl
  last-append (x ∷ []) a = refl
  last-append (x ∷ y ∷ xs) a = last-append (y ∷ xs) a

module _ {ℓ} {A : Type ℓ} ⦃e : PartialEq A⦄ where
  -- `contains(..)` of a set or a slice.
  abbrev pub contains : A → List A → Bool
  contains a [] = false
  contains a (x ∷ xs) = (x == a) || contains a xs

  pub contains-append :
      (a : A) (xs ys : List A) → contains a (xs ++ ys) ≡ (contains a xs || contains a ys)
  contains-append a [] ys = refl
  contains-append a (x ∷ xs) ys = ground (arith, contains-append a xs ys)

module _ {ℓ} {A : Type ℓ} where
  abbrev pub take : ℕ → List A → List A
  take zero xs = []
  take (suc n) [] = []
  take (suc n) (x ∷ xs) = x ∷ take n xs

  abbrev pub drop : ℕ → List A → List A
  drop zero xs = xs
  drop (suc n) [] = []
  drop (suc n) (x ∷ xs) = drop n xs

  abbrev pub get_elem? : List A → ℕ → Option A
  get_elem? [] n = none
  get_elem? (x ∷ xs) zero = some x
  get_elem? (x ∷ xs) (suc n) = get_elem? xs n

  -- `Vec::remove`.
  abbrev pub remove_at : ℕ → List A → List A
  remove_at n [] = []
  remove_at zero (x ∷ xs) = xs
  remove_at (suc n) (x ∷ xs) = x ∷ remove_at n xs

  abbrev pub set_at : ℕ → (A → A) → List A → List A
  set_at n f [] = []
  set_at zero f (x ∷ xs) = f x ∷ xs
  set_at (suc n) f (x ∷ xs) = x ∷ set_at n f xs

  -- `position`: the index of the first match.
  abbrev pub position : (A → Bool) → List A → Option ℕ
  position p [] = none
  position p (x ∷ xs) = if p x then some 0 else Option.map suc (position p xs)

  pub take-append-drop : (n : ℕ) (xs : List A) → take n xs ++ drop n xs ≡ xs
  take-append-drop zero xs = refl
  take-append-drop (suc n) [] = refl
  take-append-drop (suc n) (x ∷ xs) = ap (λ (ys : List A). x ∷ ys) (take-append-drop n xs)

  pub length-take-le : (n : ℕ) (xs : List A) → length (take n xs) ≤ n
  length-take-le zero xs = omega arith
  length-take-le (suc n) [] = omega arith
  length-take-le (suc n) (x ∷ xs) = omega (arith, length-take-le n xs)

  pub length-drop-le : (n : ℕ) (xs : List A) → length (drop n xs) ≤ length xs
  length-drop-le zero xs = omega arith
  length-drop-le (suc n) [] = omega arith
  length-drop-le (suc n) (x ∷ xs) = omega (arith, length-drop-le n xs)

module _ {ℓ} {K : Type ℓ} ⦃e : PartialEq K⦄ where
  -- `if !tags.contains(x) { tags.push(x) }`, for each of `ys` in turn.
  unfoldable pub union : List K → List K → List K
  union xs [] = xs
  union xs (y ∷ ys) = union (if contains y xs then xs else xs ++ y ∷ []) ys

  pub contains-union :
      (x : K) (xs ys : List K) → contains x (union xs ys) ≡ (contains x xs || contains x ys)
  unfolding union
  contains-union x xs [] = ground arith
  contains-union x xs (y ∷ ys) = ground (
    arith,
    contains-union x (if contains y xs then xs else xs ++ y ∷ []) ys,
    contains-append x xs (y ∷ []),
    e.same_iff y x,
    e.same_iff x y,
  )

  -- No element comes twice.
  abbrev pub NoRepeat : List K → Type 0
  NoRepeat [] = Unit
  NoRepeat (x ∷ xs) = (contains x xs ≡ false) × NoRepeat xs

  NoRepeat-append :
      (xs : List K) (y : K) → NoRepeat xs → contains y xs ≡ false → NoRepeat (xs ++ y ∷ [])
  NoRepeat-append [] y h k = (refl, tt)
  NoRepeat-append (x ∷ xs) y h k = (
    ground (arith, contains-append x xs (y ∷ []), e.same_iff x y, e.same_iff y x, h.0, k),
    NoRepeat-append xs y h.1 (ground (arith, k)),
  )

  pub union-NoRepeat : (xs ys : List K) → NoRepeat xs → NoRepeat (union xs ys)
  unfolding union
  union-NoRepeat xs [] h = h
  union-NoRepeat xs (y ∷ ys) h =
      union-NoRepeat (if contains y xs then xs else xs ++ y ∷ []) ys
        (elim (Bool-cases (contains y xs)) [
          | inl k ↦ rw k h
          | inr k ↦ rw k (NoRepeat-append xs y h k)
        ])
