-- ===== src/Watch/Debounce/Renames.antt =====
-- What the ways in which editors save through a rename merge to.
use text.Mathlib.TextPositions.{eq_refl}
use mathlib.Core.List.{append_assoc}
use tagsy.Prelude.{
  List, Option, String, [], any, any-append, ap, arith, false, none, refl, some, ℕ, ◌++◌, ◌==◌, ◌∙◌,
  ◌∷◌, ◌≡◌, string_eq, nat_eq,
}
use tagsy.Watch.Debounce.{
  DebouncedEventKind, DebouncingEvent, create, is_create, is_modify, is_move_from_to, modify, move,
  removal,
}
use tagsy.Watch.Debounce.Positions.{
  get_elem?-append, get_elem?-append_after, remove_at-append, rposition-after, rposition-before,
  rposition-none, set_at-append, set_at-append_after,
}
use tagsy.Watch.Debounce.Queue.{
  append_unless, push, push_all, push_move, push_move_in, push_next, push_removal, push_removal_in,
  rposition, source_of, vim_from, vim_in, vim_rename,
}
use tagsy.Watch.Debounce.Merges.{
  any_create_last, at, merge_moves-pair, modifies, modifies-swallowed, remove_modifies-none,
}

-- The events of a rename: the two halves and the pair that repeats them.
abbrev pub renames : ℕ → String → String → List (ℕ × DebouncedEventKind)
renames now from to =
    (now, move (some from) none)
    ∷ (now, move none (some to))
    ∷ (now, move (some from) (some to))
    ∷ []

push_move-renamed :
    (a b : String) (t : ℕ) (q : List DebouncingEvent)
    → push_move t a b ((q ++ at t (move (some a) none) ∷ []) ++ at t (move none (some b)) ∷ [])
      ≡ push_move_in t a b q (rposition (is_create a) q)
unfolding push_move
push_move-renamed a b t q =
    rw (append_assoc q (at t (move (some a) none) ∷ []) (at t (move none (some b)) ∷ []))
      (rw (merge_moves-pair a b t t q) refl)

-- The halves go; the pair is queued, or renames the last creation of its source.
renamed :
    (a b : String) (t : ℕ) (rest : List (ℕ × DebouncedEventKind)) (q : List DebouncingEvent)
    → push_next (renames t a b ++ rest) (some q)
      ≡ push_next rest (some (push_move_in t a b q (rposition (is_create a) q)))
unfolding push_next push
renamed a b t rest q =
    ap (λ (new : List DebouncingEvent). push_next rest (some new)) (push_move-renamed a b t q)

removal-saved :
    (a b : String) (s u t : ℕ) (q : List DebouncingEvent)
    → any (is_create b) q ≡ false
    → any (is_modify b) q ≡ false
    → (a == b) ≡ false
    → push_removal t b (q ++ at s (move (some a) (some b)) ∷ at u (create a) ∷ [])
      ≡ some (q ++ at u (modify a) ∷ [])
unfolding push_removal push_removal_in append_unless vim_rename vim_from vim_in source_of
removal-saved a b s u t q c m ab =
    let renaming : DebouncingEvent = at s (move (some a) (some b)) in
    let created : DebouncingEvent = at u (create a) in
    let rest : List DebouncingEvent = renaming ∷ created ∷ [] in
    ground (
      arith,
      eq_refl a,
      eq_refl b,
      remove_modifies-none b (q ++ rest),
      any-append (is_modify b) q rest,
      any-append (is_create b) q rest,
      rposition-none (is_create b) (q ++ rest),
      rposition-before (is_move_from_to b) q renaming created (eq_refl b) refl,
      get_elem?-append q (created ∷ []) renaming,
      rposition-after (is_create a) q renaming created (eq_refl a),
      set_at-append_after (λ (event : DebouncingEvent). record event { kind = modify a }) q []
          renaming created,
      remove_at-append q (at u (modify a) ∷ []) renaming,
    )

removal-reordered :
    (a b : String) (s u t : ℕ) (q : List DebouncingEvent)
    → any (is_create b) q ≡ false
    → any (is_modify b) q ≡ false
    → (a == b) ≡ false
    → push_removal t b (q ++ at u (create a) ∷ at s (move (some a) (some b)) ∷ []) ≡ none
unfolding push_removal push_removal_in append_unless vim_rename vim_from vim_in source_of
removal-reordered a b s u t q c m ab =
    let renaming : DebouncingEvent = at s (move (some a) (some b)) in
    let created : DebouncingEvent = at u (create a) in
    let rest : List DebouncingEvent = created ∷ renaming ∷ [] in
    ground (
      arith,
      eq_refl a,
      eq_refl b,
      remove_modifies-none b (q ++ rest),
      any-append (is_modify b) q rest,
      any-append (is_create b) q rest,
      rposition-none (is_create b) (q ++ rest),
      rposition-after (is_move_from_to b) q created renaming (eq_refl b),
      get_elem?-append_after q [] created renaming,
      rposition-before (is_create a) q created renaming (eq_refl a) refl,
    )

-- An editor that moves the file aside, writes it anew and deletes the old copy comes out as one
-- modification of the file, when nothing in the queue creates the file, and nothing in it creates
-- or modifies the copy.
pub push_all-saved_by_rename :
    (a b : String) (s u t : ℕ) (times : List ℕ) (q : List DebouncingEvent)
    → (a == b) ≡ false
    → any (is_create a) q ≡ false
    → any (is_create b) q ≡ false
    → any (is_modify b) q ≡ false
    → push_all (renames s a b ++ (u, create a) ∷ modifies a times ++ (t, removal b) ∷ []) q
      ≡ some (q ++ record { kind = modify a; timestamp = u } ∷ [])
unfolding push_all push_next push push_move_in
push_all-saved_by_rename a b s u t times q ab ca cb mb =
    let renaming : List DebouncingEvent = at s (move (some a) (some b)) ∷ [] in
    let removed : List (ℕ × DebouncedEventKind) = (t, removal b) ∷ [] in
    let rest : List (ℕ × DebouncedEventKind) = (u, create a) ∷ modifies a times ++ removed in
    renamed a b s rest q
    ∙ ap (λ (i : Option ℕ). push_next rest (some (push_move_in s a b q i)))
        (rposition-none (is_create a) q ca)
    ∙ modifies-swallowed a times removed ((q ++ renaming) ++ at u (create a) ∷ [])
        (any_create_last a u (q ++ renaming))
    ∙ ap (λ (new : List DebouncingEvent). push_next [] (push_removal t b new))
        (append_assoc q renaming (at u (create a) ∷ []))
    ∙ ap (push_next []) (removal-saved a b s u t q cb mb ab)

-- An editor that writes a new file, moves the old one aside, moves the new one into its place and
-- deletes the old copy stops the watcher: the creation of the new file is renamed in its place in
-- the queue, ahead of the rename that the assertion expects to come first. It needs three different
-- paths, and a queue that creates none of them and does not modify the copy.
pub push_all-replaced_by_rename :
    (x a b : String) (r s u t : ℕ) (q : List DebouncingEvent)
    → (x == a) ≡ false
    → (a == b) ≡ false
    → any (is_create a) q ≡ false
    → any (is_create b) q ≡ false
    → any (is_modify b) q ≡ false
    → push_all ((r, create x) ∷ renames s a b ++ renames u x a ++ (t, removal b) ∷ []) q ≡ none
unfolding push_all push_next push push_move_in
push_all-replaced_by_rename x a b r s u t q xa ab ca cb mb =
    let created : DebouncingEvent = at r (create x) in
    let renaming : DebouncingEvent = at s (move (some a) (some b)) in
    let removed : List (ℕ × DebouncedEventKind) = (t, removal b) ∷ [] in
    let rest : List (ℕ × DebouncedEventKind) = renames u x a ++ removed in
    let joined : (q ++ created ∷ []) ++ renaming ∷ [] ≡ q ++ created ∷ renaming ∷ [] =
      append_assoc q (created ∷ []) (renaming ∷ []) in
    let reordered : List DebouncingEvent = q ++ created ∷ renaming ∷ [] in
    renamed a b s rest (q ++ created ∷ [])
    ∙ ap (λ (i : Option ℕ). push_next rest (some (push_move_in s a b (q ++ created ∷ []) i)))
        (rposition-none (is_create a) (q ++ created ∷ [])
          (ground (arith, any-append (is_create a) q (created ∷ []))))
    ∙ ap (λ (new : List DebouncingEvent). push_next rest (some new)) joined
    ∙ renamed x a u removed reordered
    ∙ ap (λ (i : Option ℕ). push_next removed (some (push_move_in u x a reordered i)))
        (rposition-before (is_create x) q created renaming (eq_refl x) refl)
    ∙ ap (λ (new : List DebouncingEvent). push_next [] (push_removal t b new))
        (set_at-append (λ (event : DebouncingEvent). record event { kind = create a }) q
          (renaming ∷ []) created)
    ∙ ap (push_next []) (removal-reordered a b s r t q cb mb ab)
