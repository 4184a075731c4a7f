-- ===== src/Store/Versions/Order.antt =====
-- Version rows in the order of their numbers, and the row with the highest.
use mathlib.Core.Option
use tagsy.Prelude.{
  All, Bool-cases, List, Option, [], ap, arith, if◌then◌else◌, inl, inr, last, leb, map, max, none,
  refl, some, subst, sym, ℕ, ◌+◌, ◌<◌, ◌∙◌, ◌∷◌, ◌≡◌, ◌≢◌, ◌≤◌, string_eq, nat_eq,
}
use tagsy.Store.{FileVersion, entry_key_eq}
use tagsy.Store.Versions.{insert_by_number, max_number, newest, or_zero, order_by_number}

abbrev pub Below : ℕ → List FileVersion → Type 0
Below n = All (λ (v : FileVersion). v.version_number ≤ n)

pub Below-mono : (m n : ℕ) (vs : List FileVersion) → m ≤ n → Below m vs → Below n vs
Below-mono m n [] h b = tt
Below-mono m n (v ∷ vs) h b = (omega arith, Below-mono m n vs h b.1)

pub Below-lt :
    (n : ℕ) (vs : List FileVersion)
    → Below n vs
    → All (λ (v : FileVersion). v.version_number < n + 1) vs
Below-lt n [] b = tt
Below-lt n (v ∷ vs) b = (omega arith, Below-lt n vs b.1)

abbrev max_with : FileVersion → Option ℕ → ℕ
max_with v none = v.version_number
max_with v (some n) = max v.version_number n

max_with-Below :
    (v : FileVersion) (o : Option ℕ) (vs : List FileVersion)
    → Below (or_zero o) vs
    → (v.version_number ≤ max_with v o) × Below (max_with v o) vs
max_with-Below v none vs b = (omega arith, Below-mono 0 _ vs (omega arith) b)
max_with-Below v (some n) vs b = (omega arith, Below-mono n _ vs (omega arith) b)

max_number-cons :
    (v : FileVersion) (vs : List FileVersion)
    → max_number (v ∷ vs) ≡ some (max_with v (max_number vs))
unfolding max_number
max_number-cons v vs = ground arith

pub max_number-Below : (vs : List FileVersion) → Below (or_zero (max_number vs)) vs
max_number-Below [] = tt
max_number-Below (v ∷ vs) =
    subst (λ o. Below (or_zero o) (v ∷ vs)) (sym (max_number-cons v vs))
      (max_with-Below v (max_number vs) vs (max_number-Below vs))

-- The numbers of a sorted list do not fall.
abbrev Sorted : List FileVersion → Type 0
Sorted [] = Unit
Sorted (v ∷ vs) = All (λ (w : FileVersion). v.version_number ≤ w.version_number) vs × Sorted vs

abbrev From : ℕ → List FileVersion → Type 0
From n = All (λ (w : FileVersion). n ≤ w.version_number)

insert-From :
    (n : ℕ) (v : FileVersion) (ws : List FileVersion)
    → n ≤ v.version_number
    → From n ws
    → From n (insert_by_number v ws)
unfolding insert_by_number
insert-From n v [] h f = (h, tt)
insert-From n v (w ∷ ws) h f = ground (arith, insert-From n v ws h f.1)

From-mono : (m n : ℕ) (ws : List FileVersion) → m ≤ n → From n ws → From m ws
From-mono m n [] h f = tt
From-mono m n (w ∷ ws) h f = (omega arith, From-mono m n ws h f.1)

insert-Sorted :
    (v : FileVersion) (ws : List FileVersion) → Sorted ws → Sorted (insert_by_number v ws)
unfolding insert_by_number
insert-Sorted v [] s = (tt, tt)
insert-Sorted v (w ∷ ws) s = ground (
  arith,
  insert-Sorted v ws s.1,
  insert-From w.version_number v ws,
  From-mono v.version_number w.version_number ws,
)

order-Sorted : (vs : List FileVersion) → Sorted (order_by_number vs)
unfolding order_by_number
order-Sorted [] = tt
order-Sorted (v ∷ vs) = insert-Sorted v (order_by_number vs) (order-Sorted vs)

-- The last of the two by number, the second where they tie.
abbrev later : FileVersion → Option FileVersion → Option FileVersion
later v none = some v
later v (some w) = some (if leb v.version_number w.version_number then w else v)

last-cons :
    (w : FileVersion) (ws : List FileVersion)
    → Sorted (w ∷ ws)
    → (x : FileVersion) × (last (w ∷ ws) ≡ some x) × (w.version_number ≤ x.version_number)
last-cons w [] s = (w, refl, omega arith)
last-cons w (y ∷ ys) s = let (x, e, h) = last-cons y ys s.1 in (x, e, omega (arith, s.0.0, h))

insert-ne : (v : FileVersion) (ws : List FileVersion) → insert_by_number v ws ≢ []
unfolding insert_by_number
insert-ne v [] = ground arith
insert-ne v (w ∷ ws) = ground arith

last_past : (w : FileVersion) (ws : List FileVersion) → ws ≢ [] → last (w ∷ ws) ≡ last ws
last_past w [] h = absurd (h refl)
last_past w (x ∷ xs) h = refl

last-insert :
    (v : FileVersion) (ws : List FileVersion)
    → Sorted ws
    → last (insert_by_number v ws) ≡ later v (last ws)
unfolding insert_by_number
last-insert v [] s = refl
last-insert v (w ∷ []) s = ground arith
last-insert v (w ∷ y ∷ ys) s =
    let (x, e, h) = last-cons y ys s.1 in
    let past = last_past w (insert_by_number v (y ∷ ys)) (insert-ne v (y ∷ ys)) in
    let ih = last-insert v (y ∷ ys) s.1 in
    elim (Bool-cases (leb v.version_number w.version_number)) [
      | inl below ↦ rw (below, e) (ground (arith, s.0.0, h))
      | inr above ↦ rw above (past ∙ ih)
    ]

newest-cons : (v : FileVersion) (vs : List FileVersion) → newest (v ∷ vs) ≡ later v (newest vs)
unfolding newest
newest-cons v vs = ground arith

-- DESC LIMIT 1 finds the last row of the ascending order.
pub last-order : (vs : List FileVersion) → last (order_by_number vs) ≡ newest vs
unfolding order_by_number newest
last-order [] = refl
last-order (v ∷ vs) =
    last-insert v (order_by_number vs) (order-Sorted vs)
    ∙ (ap (later v) (last-order vs) ∙ sym (newest-cons v vs))

pub last-map : {A B : Type 0} (f : A → B) (xs : List A) → last (map f xs) ≡ Option.map f (last xs)
last-map f [] = refl
last-map f (x ∷ []) = refl
last-map f (x ∷ y ∷ xs) = last-map f (y ∷ xs)
