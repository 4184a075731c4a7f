-- ===== src/Store/ShortIds.antt =====
-- tagsyd/src/store/short_id.rs: the shortest prefix of an id that tells it from all others. An id is
-- the list of its hex digits.
pub mod Unique
use tagsy.Prelude.{
  Bool, List, Option, PartialEq, [], arith, false, if◌then◌else◌, length, ltb, max, min, none, some,
  suc, true, ℕ, ◌&&◌, ◌+◌, ◌==◌, ◌↔◌, ◌∷◌, ◌≡◌, nat_eq, string_eq,
}

abbrev pub Digits : Type 0
Digits = List ℕ

abbrev digits_beq : Digits → Digits → Bool
digits_beq [] [] = true
digits_beq (x ∷ xs) (y ∷ ys) = x == y && digits_beq xs ys
digits_beq _ _ = false

pub digits_beq_iff : (a b : Digits) → (digits_beq a b ≡ true) ↔ (a ≡ b)
digits_beq_iff [] [] = ground arith
digits_beq_iff [] (y ∷ ys) = ground arith
digits_beq_iff (x ∷ xs) [] = ground arith
digits_beq_iff (x ∷ xs) (y ∷ ys) = ground (arith, digits_beq_iff xs ys)

instance abbrev pub digits_eq : PartialEq Digits
digits_eq = record { same = digits_beq; same_iff = digits_beq_iff }

-- The order of the stored strings.
unfoldable pub digits_lt : Digits → Digits → Bool
digits_lt a [] = false
digits_lt [] (y ∷ ys) = true
digits_lt (x ∷ xs) (y ∷ ys) =
    let below = digits_lt xs ys in if ltb x y then true else if x == y then below else false

unfoldable pub common_prefix_length : Digits → Digits → ℕ
common_prefix_length [] b = 0
common_prefix_length (x ∷ xs) [] = 0
common_prefix_length (x ∷ xs) (y ∷ ys) =
    let rest = common_prefix_length xs ys in if x == y then suc rest else 0

-- One more than what is shared with a neighbour, if there is one.
unfoldable pub beyond : Digits → Option Digits → ℕ
unfolding common_prefix_length
beyond id none = 0
beyond id (some neighbour) = common_prefix_length id neighbour + 1

abbrev pub first_of : List Digits → Option Digits
first_of [] = none
first_of (d ∷ ids) = some d

-- The neighbours of `id` in a sorted list, where the binary search finds it; `before` is the
-- neighbour that the search has passed. An absent id, where the source panics, gives 1.
unfoldable pub required_in : Option Digits → List Digits → Digits → ℕ
unfolding beyond
required_in before [] id = 1
required_in before (c ∷ ids) id =
    let rest = required_in (some c) ids id in
    if c == id then max 1 (max (beyond id before) (beyond id (first_of ids))) else rest

unfoldable pub unique_prefix_length : List Digits → Digits → ℕ
unfolding required_in
unique_prefix_length sorted_ids id = max 1 (min (required_in none sorted_ids id) (length id))
