-- ===== src/Watch/SelfWrites/Consumed.antt =====
-- The record that an event takes out of a queue.
use mathlib.Core.Option
use tagsy.Prelude.{
  Bool, Bool-cases, List, Option, Option-cases, [], any, ap, arith, false, inl, inr, none, position,
  refl, some, suc, true, ℕ, ◌++◌, ◌∷◌, ◌≡◌, nat_eq, string_eq,
}
use tagsy.Watch.SelfWrites.{WriteRecord, is_some, remove_found}

-- One record goes, the first that matches; or none matches, and all stay.
pub data Consumed (p : WriteRecord → Bool) (live : List WriteRecord) (taken : Bool)
    (left : List WriteRecord) : Type 0 where
  consumes :
      (before : List WriteRecord) (r : WriteRecord) (after : List WriteRecord)
      → live ≡ before ++ r ∷ after
      → any p before ≡ false
      → p r ≡ true
      → taken ≡ true
      → left ≡ before ++ after
      → Consumed p live taken left
  passes : any p live ≡ false → taken ≡ false → left ≡ live → Consumed p live taken left

remove_found-later :
    (i : Option ℕ) (x : WriteRecord) (xs : List WriteRecord)
    → remove_found (Option.map suc i) (x ∷ xs) ≡ x ∷ remove_found i xs
unfolding remove_found
remove_found-later none x xs = refl
remove_found-later (some i) x xs = refl

module _ (p : WriteRecord → Bool) where
  pub position-found : (xs : List WriteRecord) → is_some (position p xs) ≡ any p xs
  unfolding is_some
  position-found [] = refl
  position-found (x ∷ xs) = elim (Bool-cases (p x)) [
    | inl here ↦ rw here refl
    | inr later ↦ elim (Option-cases (position p xs)) [
      | inl gone ↦ ground (arith, position-found xs)
      | inr found ↦ ground (arith, position-found xs)
    ]
  ]

  pub remove_found-Consumed :
      (xs : List WriteRecord) → Consumed p xs (any p xs) (remove_found (position p xs) xs)
  unfolding remove_found
  remove_found-Consumed [] = passes refl refl refl
  remove_found-Consumed (x ∷ xs) = elim (Bool-cases (p x)) [
    | inl here ↦ rw here (consumes [] x xs refl refl here refl refl)
    | inr later ↦
        rw (later, remove_found-later (position p xs) x xs)
          (elim (remove_found-Consumed xs) [
            | consumes before r after split none_before m taken left ↦
                consumes (x ∷ before) r after (ap (λ (ys : List WriteRecord). x ∷ ys) split)
                  (ground (arith, later, none_before)) m taken
                  (ap (λ (ys : List WriteRecord). x ∷ ys) left)
            | passes unmatched taken left ↦
                passes (ground (arith, later, unmatched)) taken
                  (ap (λ (ys : List WriteRecord). x ∷ ys) left)
          ])
  ]
