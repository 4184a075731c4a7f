-- ===== src/Watch/Debounce/Merges.antt =====
-- What whole sequences of events merge to.
use text.Mathlib.TextPositions.{eq_refl}
use tagsy.Prelude.{
  List, String, [], any, any-append, arith, false, length, length-append, map, none, refl, some,
  suc, true, ℕ, ◌++◌, ◌+◌, ◌-◌, ◌∷◌, ◌≡◌, nat_eq, string_eq,
}
use tagsy.Watch.Debounce.{
  DebouncedEventKind, DebouncingEvent, create, is_create, is_modify, modify, move, removal,
}
use tagsy.Watch.Debounce.Positions.{
  append_nil, get_elem?-append, get_elem?-append_after, remove_at-append, remove_at-append_after,
  rposition-last,
}
use tagsy.Watch.Debounce.Queue.{
  merge_moves, pair_matches, push, push_all, push_modify, push_next, push_removal, push_removal_in,
  remove_modifies,
}

abbrev pub at : ℕ → DebouncedEventKind → DebouncingEvent
at now kind = record { kind = kind; timestamp = now }

pub remove_modifies-none :
    (p : String) (q : List DebouncingEvent) → any (is_modify p) q ≡ false → remove_modifies p q ≡ q
unfolding remove_modifies
remove_modifies-none p [] h = refl
remove_modifies-none p (e ∷ q) h = ground (arith, remove_modifies-none p q)

remove_modifies-created :
    (p : String) (t : ℕ) (q : List DebouncingEvent)
    → remove_modifies p (q ++ at t (create p) ∷ []) ≡ q ++ at t (create p) ∷ []
unfolding remove_modifies
remove_modifies-created p t [] = ground (arith, eq_refl p)
remove_modifies-created p t (e ∷ q) = ground (
  arith,
  eq_refl p,
  remove_modifies-created p t q,
  any-append (is_create p) q (at t (create p) ∷ []),
)

pub merge_moves-pair :
    (a b : String) (s t : ℕ) (q : List DebouncingEvent)
    → merge_moves a b (q ++ at s (move (some a) none) ∷ at t (move none (some b)) ∷ []) ≡ q
unfolding merge_moves pair_matches
merge_moves-pair a b s t q =
    let f : DebouncingEvent = at s (move (some a) none) in
    let e : DebouncingEvent = at t (move none (some b)) in
    let l : length (q ++ f ∷ e ∷ []) ≡ length q + 2 = length-append q (f ∷ e ∷ []) in
    let i : length (q ++ f ∷ e ∷ []) - 1 ≡ suc (length q) = omega arith in
    let j : length (q ++ f ∷ e ∷ []) - 1 - 1 ≡ length q = omega arith in
    ground (
      arith,
      i,
      j,
      eq_refl a,
      eq_refl b,
      get_elem?-append q (e ∷ []) f,
      get_elem?-append_after q [] f e,
      remove_at-append_after q [] f e,
      remove_at-append q [] f,
      append_nil q,
    )

abbrev pub modifies : String → List ℕ → List (ℕ × DebouncedEventKind)
modifies p times = map (λ (t : ℕ). (t, modify p)) times

pub modifies-swallowed :
    (p : String) (times : List ℕ) (rest : List (ℕ × DebouncedEventKind)) (q : List DebouncingEvent)
    → any (is_create p) q ≡ true
    → push_next (modifies p times ++ rest) (some q) ≡ push_next rest (some q)
unfolding push_next push push_modify
modifies-swallowed p [] rest q h = refl
modifies-swallowed p (t ∷ times) rest q h = ground (arith, modifies-swallowed p times rest q h)

removal-created :
    (p : String) (s t : ℕ) (q : List DebouncingEvent)
    → push_removal t p (q ++ at s (create p) ∷ []) ≡ some q
unfolding push_removal push_removal_in
removal-created p s t q = ground (
  arith,
  remove_modifies-created p s q,
  rposition-last (is_create p) q (at s (create p)) (eq_refl p),
  remove_at-append q [] (at s (create p)),
  append_nil q,
)

pub any_create_last :
    (p : String) (s : ℕ) (q : List DebouncingEvent)
    → any (is_create p) (q ++ at s (create p) ∷ []) ≡ true
any_create_last p s q = ground (arith, any-append (is_create p) q (at s (create p) ∷ []), eq_refl p)

-- A file that is created, written any number of times and removed inside the window leaves the
-- queue as it was.
pub push_all-created_and_removed :
    (p : String) (s t : ℕ) (times : List ℕ) (q : List DebouncingEvent)
    → push_all ((s, create p) ∷ modifies p times ++ (t, removal p) ∷ []) q ≡ some q
unfolding push_all push_next push
push_all-created_and_removed p s t times q = ground (
  arith,
  modifies-swallowed p times ((t, removal p) ∷ []) (q ++ at s (create p) ∷ [])
      (any_create_last p s q),
  removal-created p s t q,
)
