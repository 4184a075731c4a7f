-- ===== src/Prelude/Sums.antt =====
-- A measure added up over a list.
use Prim.Native.Nat.{ℕ, ◌+◌}
use mathlib.Core.Path.{◌≡◌, refl, ap, ◌∙◌}
use mathlib.Core.List.{List, [], ◌∷◌, ◌++◌}
use native.Mathlib.Omega.{arith}

abbrev pub sum_of {ℓ} : {A : Type ℓ} → (A → ℕ) → List A → ℕ
sum_of f [] = 0
sum_of f (x ∷ xs) = f x + sum_of f xs

pub sum_of-split {ℓ} :
    {A : Type ℓ} (f : A → ℕ) (xs before after : List A) (x : A)
    → xs ≡ before ++ x ∷ after
    → sum_of f xs ≡ f x + sum_of f (before ++ after)
sum_of-split f xs before after x e = ap (sum_of f) e ∙ found before
  where
    found : (ys : List _) → sum_of f (ys ++ x ∷ after) ≡ f x + sum_of f (ys ++ after)
    found [] = refl
    found (y ∷ ys) = omega (arith, found ys)
