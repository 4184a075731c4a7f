-- ===== src/Prelude/Folds.antt =====
-- A list of writes applied one after another to a state, and when their order does not matter.
use mathlib.Core.Path.{◌≡◌, refl, ap, ap₂, ◌∙◌}
use mathlib.Core.List.{List, [], ◌∷◌, Permᴰ, Pairwise, mem-cons_self}
use mathlib.Core.List.Permᴰ

abbrev pub run {ℓ κ} : {A : Type ℓ} {S : Type κ} → (A → S → S) → List A → S → S
run step [] s = s
run step (x ∷ xs) s = run step xs (step x s)

-- Writes that commute whenever they are `Apart` settle in the same state in any order.
pub run-perm {ℓ κ} :
    {A : Type ℓ} {S : Type κ} (step : A → S → S) (Apart : A → A → Type 0)
    → ((a b : A) → IsProp (Apart a b))
    → ((a b : A) → Apart a b → Apart b a)
    → ((a b : A) (s : S) → Apart a b → step b (step a s) ≡ step a (step b s))
    → {xs ys : List A} → Permᴰ xs ys
    → Pairwise Apart xs
    → (s : S) → run step xs s ≡ run step ys s
run-perm step Apart prop turn comm Permᴰ.nil h s = refl
run-perm step Apart prop turn comm (Permᴰ.cons {a = a} {b = b} {l₂ = l₂} e d) (Pairwise.cons _ t)
      s =
    run-perm step Apart prop turn comm d t (step a s) ∙ ap (λ x. run step l₂ (step x s)) e
run-perm step Apart prop turn comm (Permᴰ.swap {a = a} {b = b} {l = l} e₁ e₂) (Pairwise.cons h t)
      s =
    ap (run step l) (comm a b s (h b mem-cons_self))
    ∙ ap₂ (λ x y. run step l (step y (step x s))) e₂ e₁
run-perm step Apart prop turn comm (Permᴰ.trans d₁ d₂) h s =
    run-perm step Apart prop turn comm d₁ h s
    ∙ run-perm step Apart prop turn comm d₂ (Permᴰ.pairwise prop turn d₁ h) s
