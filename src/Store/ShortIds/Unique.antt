-- ===== src/Store/ShortIds/Unique.antt =====
-- A short id is no prefix of any other id.
use tagsy.Prelude.{
  All, Bool-cases, List, Option, [], arith, contains, inl, inr, length, none, refl, some, subst,
  sym, true, ◌+◌, ◌<◌, ◌==◌, ◌∷◌, ◌≡◌, ◌≢◌, ◌≤◌, string_eq, nat_eq,
}
use tagsy.Store.ShortIds.{
  Digits, beyond, common_prefix_length, digits_beq_iff, digits_lt, first_of, required_in,
  unique_prefix_length, digits_eq,
}

shared_comm : (a b : Digits) → common_prefix_length a b ≡ common_prefix_length b a
unfolding common_prefix_length
shared_comm [] [] = refl
shared_comm [] (y ∷ ys) = refl
shared_comm (x ∷ xs) [] = refl
shared_comm (x ∷ xs) (y ∷ ys) = ground (arith, shared_comm xs ys)

-- Of three ids in order, the outer two share no more than the inner one shares with either.
shared-between :
    (a b c : Digits)
    → digits_lt a b ≡ true
    → digits_lt b c ≡ true
    → (common_prefix_length a c ≤ common_prefix_length a b)
      × (common_prefix_length a c ≤ common_prefix_length b c)
unfolding common_prefix_length digits_lt
shared-between [] b c h k = (omega arith, omega arith)
shared-between (x ∷ xs) [] c h k = ground (arith, h)
shared-between (x ∷ xs) (y ∷ ys) [] h k = ground (arith, k)
shared-between (x ∷ xs) (y ∷ ys) (z ∷ zs) h k =
    (ground (arith, h, k, shared-between xs ys zs), ground (arith, h, k, shared-between xs ys zs))

-- Different ids of one length share less than all of it.
shared-lt : (a b : Digits) → length a ≡ length b → a ≢ b → common_prefix_length a b < length a
unfolding common_prefix_length
shared-lt [] [] h ne = absurd (ne refl)
shared-lt [] (y ∷ ys) h ne = ground (arith, h)
shared-lt (x ∷ xs) [] h ne = ground (arith, h)
shared-lt (x ∷ xs) (y ∷ ys) h ne = elim (Bool-cases (x == y)) [
  | inl e ↦
      let below = shared-lt xs ys (ground (arith, h)) (λ k. ne (ground (arith, e, k))) in
      ground (arith, e, below)
  | inr d ↦ ground (arith, d)
]

-- Each id is below all that follow it.
abbrev pub IsSorted : List Digits → Type 0
IsSorted [] = Unit
IsSorted (x ∷ xs) = All (λ y. digits_lt x y ≡ true) xs × IsSorted xs

All-at :
    (x id : Digits) (xs : List Digits)
    → All (λ y. digits_lt x y ≡ true) xs
    → contains id xs ≡ true
    → digits_lt x id ≡ true
All-at x id [] h k = ground (arith, k)
All-at x id (y ∷ ys) h k = elim (Bool-cases (y == id)) [
  | inl e ↦ subst (λ z. digits_lt x z ≡ true) ((digits_beq_iff y id).0 e) h.0
  | inr d ↦ All-at x id ys h.1 (ground (arith, k, d))
]

-- What lies before the place of the id.
required-before :
    (id other p : Digits) (ids : List Digits)
    → common_prefix_length id other ≤ common_prefix_length id p
    → All (λ y. digits_lt p y ≡ true) ids
    → IsSorted ids
    → contains id ids ≡ true
    → common_prefix_length id other < required_in (some p) ids id
unfolding required_in beyond
required-before id other p [] h below sorted found = ground (arith, found)
required-before id other p (c ∷ ids) h below sorted found = elim (Bool-cases (c == id)) [
  | inl e ↦ ground (arith, e, h)
  | inr d ↦
      let later : contains id ids ≡ true = ground (arith, found, d) in
      let mid = shared-between p c id below.0 (All-at c id ids sorted.0 later) in
      rw d (
        required-before id other c ids (omega (arith, h, mid.1, shared_comm id p, shared_comm id c))
          sorted.0 sorted.1 later)
]

-- What lies after it is no closer than the next one.
shared-next :
    (id other : Digits) (ids : List Digits)
    → All (λ y. digits_lt id y ≡ true) ids
    → IsSorted ids
    → contains other ids ≡ true
    → common_prefix_length id other < beyond id (first_of ids)
unfolding beyond
shared-next id other [] h sorted found = ground (arith, found)
shared-next id other (c ∷ ids) h sorted found = elim (Bool-cases (c == other)) [
  | inl e ↦
      subst (λ z. common_prefix_length id z < common_prefix_length id c + 1)
        ((digits_beq_iff c other).0 e) (omega arith)
  | inr d ↦
      let later : contains other ids ≡ true = ground (arith, found, d) in
      omega (arith, (shared-between id c other h.0 (All-at c other ids sorted.0 later)).0)
]

required-other :
    (id other : Digits) (before : Option Digits) (ids : List Digits)
    → other ≢ id
    → IsSorted ids
    → contains id ids ≡ true
    → contains other ids ≡ true
    → common_prefix_length id other < required_in before ids id
unfolding required_in
required-other id other before [] ne sorted found k = ground (arith, found)
required-other id other before (c ∷ ids) ne sorted found k = elim (Bool-cases (c == id)) [
  | inl e ↦
      let here : c ≡ id = (digits_beq_iff c id).0 e in
      let later : contains other ids ≡ true = ground (arith, k, digits_beq_iff c other, here, ne) in
      let next =
        shared-next id other ids (subst (λ z. All (λ y. digits_lt z y ≡ true) ids) here sorted.0)
          sorted.1 later in
      rw e (omega (arith, next))
  | inr d ↦
      let later : contains id ids ≡ true = ground (arith, found, d) in
      rw d (elim (Bool-cases (c == other)) [
        | inl e ↦
            subst (λ z. common_prefix_length id z < required_in (some c) ids id)
              ((digits_beq_iff c other).0 e)
              (required-before id c c ids (omega arith) sorted.0 sorted.1 later)
        | inr f ↦ required-other id other (some c) ids ne sorted.1 later (ground (arith, k, f))
      ])
]

-- The short id of an id in a sorted list of ids of its length is at least one digit and at most all
-- of them, and is longer than what the id shares with any other id of the list, so that no other has
-- it as a prefix.
pub unique_prefix_length_lem :
    (ids : List Digits) (id other : Digits)
    → IsSorted ids
    → contains id ids ≡ true
    → contains other ids ≡ true
    → other ≢ id
    → length other ≡ length id
    → (1 ≤ unique_prefix_length ids id)
      × (unique_prefix_length ids id ≤ length id)
      × (common_prefix_length id other < unique_prefix_length ids id)
unfolding unique_prefix_length
unique_prefix_length_lem ids id other sorted found k ne same =
    let shared = shared-lt id other (sym same) (λ e. ne (sym e)) in
    let required = required-other id other none ids ne sorted found k in
    (omega arith, omega (arith, shared), omega (arith, shared, required))
