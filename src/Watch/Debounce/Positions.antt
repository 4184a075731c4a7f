-- ===== src/Watch/Debounce/Positions.antt =====
-- Positions in a list that is given as the joining of two.
use tagsy.Prelude.{
  Bool, List, [], any, ap, arith, false, get_elem?, length, none, refl, remove_at, set_at, some,
  suc, true, ◌++◌, ◌∷◌, ◌≡◌, string_eq, nat_eq,
}
use tagsy.Watch.Debounce.Queue.{rposition}

module _ {A : Type 0} where
  pub append_nil : (xs : List A) → xs ++ [] ≡ xs
  append_nil [] = refl
  append_nil (x ∷ xs) = ap (λ (ys : List A). x ∷ ys) (append_nil xs)

  pub rposition-none : (p : A → Bool) (xs : List A) → any p xs ≡ false → rposition p xs ≡ none
  unfolding rposition
  rposition-none p [] h = refl
  rposition-none p (x ∷ xs) h = ground (arith, rposition-none p xs)

  pub rposition-last :
      (p : A → Bool) (xs : List A) (x : A)
      → p x ≡ true
      → rposition p (xs ++ x ∷ []) ≡ some (length xs)
  unfolding rposition
  rposition-last p [] x h = ground arith
  rposition-last p (y ∷ xs) x h = ground (arith, rposition-last p xs x h)

  pub rposition-before :
      (p : A → Bool) (xs : List A) (x y : A)
      → p x ≡ true
      → p y ≡ false
      → rposition p (xs ++ x ∷ y ∷ []) ≡ some (length xs)
  unfolding rposition
  rposition-before p [] x y h k = ground arith
  rposition-before p (z ∷ xs) x y h k = ground (arith, rposition-before p xs x y h k)

  pub rposition-after :
      (p : A → Bool) (xs : List A) (x y : A)
      → p y ≡ true
      → rposition p (xs ++ x ∷ y ∷ []) ≡ some (suc (length xs))
  unfolding rposition
  rposition-after p [] x y h = ground arith
  rposition-after p (z ∷ xs) x y h = ground (arith, rposition-after p xs x y h)

  pub get_elem?-append : (xs ys : List A) (y : A) → get_elem? (xs ++ y ∷ ys) (length xs) ≡ some y
  get_elem?-append [] ys y = refl
  get_elem?-append (x ∷ xs) ys y = get_elem?-append xs ys y

  pub get_elem?-append_after :
      (xs ys : List A) (x y : A) → get_elem? (xs ++ x ∷ y ∷ ys) (suc (length xs)) ≡ some y
  get_elem?-append_after [] ys x y = refl
  get_elem?-append_after (z ∷ xs) ys x y = get_elem?-append_after xs ys x y

  pub remove_at-append : (xs ys : List A) (y : A) → remove_at (length xs) (xs ++ y ∷ ys) ≡ xs ++ ys
  remove_at-append [] ys y = refl
  remove_at-append (x ∷ xs) ys y = ap (λ (zs : List A). x ∷ zs) (remove_at-append xs ys y)

  pub remove_at-append_after :
      (xs ys : List A) (x y : A) → remove_at (suc (length xs)) (xs ++ x ∷ y ∷ ys) ≡ xs ++ x ∷ ys
  remove_at-append_after [] ys x y = refl
  remove_at-append_after (z ∷ xs) ys x y =
      ap (λ (zs : List A). z ∷ zs) (remove_at-append_after xs ys x y)

  pub set_at-append_after :
      (f : A → A) (xs ys : List A) (x y : A)
      → set_at (suc (length xs)) f (xs ++ x ∷ y ∷ ys) ≡ xs ++ x ∷ f y ∷ ys
  set_at-append_after f [] ys x y = refl
  set_at-append_after f (z ∷ xs) ys x y =
      ap (λ (zs : List A). z ∷ zs) (set_at-append_after f xs ys x y)

pub set_at-append {ℓ} :
    {A : Type ℓ} (f : A → A) (xs ys : List A) (y : A)
    → set_at (length xs) f (xs ++ y ∷ ys) ≡ xs ++ f y ∷ ys
set_at-append f [] ys y = refl
set_at-append f (x ∷ xs) ys y = ap (λ (zs : List _). x ∷ zs) (set_at-append f xs ys y)
