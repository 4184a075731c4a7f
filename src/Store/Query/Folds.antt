-- ===== src/Store/Query/Folds.antt =====
-- A test of every term, and the passes that keep some of a set.
use tagsy.Prelude.{
  Bool, List, [], any, ap, arith, contains, false, if◌then◌else◌, not, refl, retain, true, ℕ, ◌&&◌,
  ◌++◌, ◌∷◌, ◌≡◌, string_eq, nat_eq,
}
use tagsy.Store.Query.{QueryTerm, collect_all, every}

pub contains-retain :
    (p : ℕ → Bool) (id : ℕ) (ids : List ℕ) → contains id (retain p ids) ≡ (contains id ids && p id)
contains-retain p id [] = refl
contains-retain p id (x ∷ ids) = ground (arith, contains-retain p id ids, ap p {x = x} {y = id})

pub contains-if_retain :
    (b : Bool) (p : ℕ → Bool) (id : ℕ) (ids : List ℕ)
    → contains id (if b then retain p ids else ids)
      ≡ (contains id ids && (if b then p id else true))
contains-if_retain true p id ids = contains-retain p id ids
contains-if_retain false p id ids = ground arith

pub every-append :
    {A : Type 0} (p : A → Bool) (xs ys : List A) → every p (xs ++ ys) ≡ (every p xs && every p ys)
every-append p [] ys = refl
every-append p (x ∷ xs) ys = ground (arith, every-append p xs ys)

pub every-collect_all :
    {A : Type 0} (p : A → Bool) (f : QueryTerm → List A) (terms : List QueryTerm)
    → every p (collect_all f terms) ≡ every (λ t. every p (f t)) terms
every-collect_all p f [] = refl
every-collect_all p f (t ∷ terms) =
    ground (arith, every-append p (f t) (collect_all f terms), every-collect_all p f terms)

pub every-and :
    (f g : QueryTerm → Bool) (terms : List QueryTerm)
    → every (λ t. f t && g t) terms ≡ (every f terms && every g terms)
every-and f g [] = refl
every-and f g (t ∷ terms) = ground (arith, every-and f g terms)

pub every-same :
    (f g : QueryTerm → Bool)
    → ((t : QueryTerm) → f t ≡ g t)
    → (terms : List QueryTerm) → every f terms ≡ every g terms
every-same f g h [] = refl
every-same f g h (t ∷ terms) = ground (arith, h t, every-same f g h terms)

pub every-not :
    (f : QueryTerm → Bool) (terms : List QueryTerm)
    → every (λ t. not (f t)) terms ≡ not (any f terms)
every-not f [] = refl
every-not f (t ∷ terms) = ground (arith, every-not f terms)
