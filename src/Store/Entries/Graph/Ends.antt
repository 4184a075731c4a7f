-- ===== src/Store/Entries/Graph/Ends.antt =====
-- The walks of the tag graph come to an end, whatever cycles it has.
use tagsy.Prelude.{
  All, Bool, Bool-cases, Dict, List, Option, [], ap, arith, contains, false, inl, inr, length, not,
  refl, retain, some, suc, true, zero, ℕ, ◌&&◌, ◌*◌, ◌+◌, ◌<◌, ◌==◌, ◌∙◌, ◌∷◌, ◌≡◌, ◌≤◌, string_eq,
  nat_eq,
}
use tagsy.Store.{CatalogStore, EntryKey, EntryRow, RelationshipKind, entry_key_eq}
use tagsy.Store.Entries.Graph.{
  Neighbours, Walk, collect, enough, file_ids_for_tag, is_tag, mark, parents_of, start,
  subtag_ids_for_tag, subtags_of, tag_ids_for_subtag, tag_not_deleted, targets_of, visit,
  visit_each,
}

-- How many of a list of tags a walk has not seen.
abbrev unseen : List ℕ → Walk → ℕ
unseen all walk = length (retain (λ x. not (contains x walk.lookup_cache)) all)

unseen-mark :
    (all : List ℕ) (tag_id : ℕ) (walk : Walk) → unseen all (mark tag_id walk) ≤ unseen all walk
unseen-mark [] tag_id walk = ground arith
unseen-mark (x ∷ all) tag_id walk = ground (arith, unseen-mark all tag_id walk)

unseen-mark-lt :
    (all : List ℕ) (tag_id : ℕ) (walk : Walk)
    → contains tag_id all ≡ true
    → contains tag_id walk.lookup_cache ≡ false
    → unseen all (mark tag_id walk) < unseen all walk
unseen-mark-lt [] tag_id walk h k = ground (arith, h)
unseen-mark-lt (x ∷ all) tag_id walk h k = ground (
  arith,
  h,
  k,
  ap (λ y. contains y walk.lookup_cache) {x = x} {y = tag_id},
  unseen-mark all tag_id walk,
  unseen-mark-lt all tag_id walk,
)

-- A walk that ends, and has seen no less than where it began.
abbrev pub Ends : List ℕ → Walk → Option Walk → Type 0
Ends all walk found = (after : Walk) × (found ≡ some after) × (unseen all after ≤ unseen all walk)

abbrev Known : List ℕ → List (RelationshipKind × ℕ) → Type 0
Known all rows =
    All (λ (r : RelationshipKind × ℕ). is_tag r.0 ≡ true → contains r.1 all ≡ true) rows

module _ (collects : RelationshipKind → Bool) (subtags : Bool) (all : List ℕ) where
  visit_each-Ends :
      (bound : ℕ) (descend : ℕ → Walk → Option Walk)
      → ((id : ℕ) (walk : Walk)
          → contains id all ≡ true
          → contains id walk.lookup_cache ≡ false
          → unseen all walk < bound
          → Ends all walk (descend id walk))
      → (rows : List (RelationshipKind × ℕ)) (walk : Walk) → Known all rows
      → unseen all walk < bound
      → Ends all walk (visit_each collects subtags descend rows walk)
  unfolding visit_each
  visit_each-Ends bound descend down [] walk known h = (walk, refl, omega arith)
  visit_each-Ends bound descend down ((kind, id) ∷ rows) walk known h =
      let next : Walk = collect (collects kind) id walk in
      elim (Bool-cases (is_tag kind && subtags && not (contains id walk.lookup_cache))) [
        | inl goes ↦
            let deep = down id next (known.0 (ground (arith, goes))) (ground (arith, goes)) h in
            let rest =
              visit_each-Ends bound descend down rows deep.0 known.1 (omega (arith, deep.2, h)) in
            (rest.0, rw (goes, deep.1) rest.1, omega (arith, rest.2, deep.2))
        | inr stays ↦
            let rest = visit_each-Ends bound descend down rows next known.1 h in
            (rest.0, rw stays rest.1, rest.2)
      ]

  visit-Ends :
      (neighbours : Neighbours)
      → ((id : ℕ) → Known all (neighbours id))
      → (fuel tag_id : ℕ) (walk : Walk) → unseen all (mark tag_id walk) < fuel
      → Ends all walk (visit collects subtags neighbours (suc fuel) tag_id walk)
  unfolding visit
  visit-Ends neighbours known zero tag_id walk h = ground (arith, h)
  visit-Ends neighbours known (suc fuel) tag_id walk h =
      let rest =
        visit_each-Ends (suc fuel) (visit collects subtags neighbours (suc fuel))
          (λ id w seen new below.
            visit-Ends neighbours known fuel id w
              (omega (arith, below, unseen-mark-lt all id w seen new)))
          (neighbours tag_id) (mark tag_id walk) (known tag_id) h in
      (rest.0, rest.1, omega (arith, rest.2, unseen-mark all tag_id walk))

-- The tags that the rows name.
abbrev named : Dict EntryKey EntryRow → List ℕ
named [] = []
named ((key, row) ∷ rows) = key.tag_id ∷ key.target_id ∷ named rows

length-named : (rows : Dict EntryKey EntryRow) → length (named rows) ≡ 2 * length rows
length-named [] = omega arith
length-named ((key, row) ∷ rows) = omega (arith, length-named rows)

unseen-le : (all : List ℕ) (walk : Walk) → unseen all walk ≤ length all
unseen-le [] walk = omega arith
unseen-le (x ∷ all) walk = ground (arith, unseen-le all walk)

Known-more :
    (x y : ℕ) (all : List ℕ) (rows : List (RelationshipKind × ℕ))
    → Known all rows
    → Known (x ∷ y ∷ all) rows
Known-more x y all [] h = tt
Known-more x y all (r ∷ rows) h = ((λ k. ground (arith, h.0 k)), Known-more x y all rows h.1)

targets_of-Known :
    (rows : Dict EntryKey EntryRow) (tag_id : ℕ) → Known (named rows) (targets_of rows tag_id)
unfolding targets_of
targets_of-Known [] tag_id = tt
targets_of-Known ((key, row) ∷ rows) tag_id =
    let rest =
      Known-more key.tag_id key.target_id (named rows) (targets_of rows tag_id)
        (targets_of-Known rows tag_id) in
    elim (Bool-cases (key.tag_id == tag_id && not row.deleted)) [
      | inl h ↦ rw h ((λ k. ground arith), rest)
      | inr h ↦ rw h rest
    ]

subtags_of-Known :
    (db : CatalogStore) (rows : Dict EntryKey EntryRow) (tag_id : ℕ)
    → Known (named rows) (subtags_of db rows tag_id)
unfolding subtags_of
subtags_of-Known db [] tag_id = tt
subtags_of-Known db ((key, row) ∷ rows) tag_id =
    let rest =
      Known-more key.tag_id key.target_id (named rows) (subtags_of db rows tag_id)
        (subtags_of-Known db rows tag_id) in
    elim (Bool-cases (
      key.tag_id == tag_id
      && is_tag key.kind
      && not row.deleted
      && tag_not_deleted key.target_id db)) [
        | inl h ↦ rw h ((λ k. ground arith), rest)
        | inr h ↦ rw h rest
      ]

parents_of-Known :
    (db : CatalogStore) (rows : Dict EntryKey EntryRow) (tag_id : ℕ)
    → Known (named rows) (parents_of db rows tag_id)
unfolding parents_of
parents_of-Known db [] tag_id = tt
parents_of-Known db ((key, row) ∷ rows) tag_id =
    let rest =
      Known-more key.tag_id key.target_id (named rows) (parents_of db rows tag_id)
        (parents_of-Known db rows tag_id) in
    elim (Bool-cases (
      key.target_id == tag_id
      && is_tag key.kind
      && not row.deleted
      && tag_not_deleted key.tag_id db)) [
        | inl h ↦ rw h ((λ k. ground arith), rest)
        | inr h ↦ rw h rest
      ]

ends_enough :
    (collects : RelationshipKind → Bool) (subtags : Bool) (neighbours : Neighbours)
    (db : CatalogStore) (tag_id : ℕ) (walk : Walk)
    → ((id : ℕ) → Known (named db.entries) (neighbours id))
    → (after : Walk) × (visit collects subtags neighbours (enough db) tag_id walk ≡ some after)
ends_enough collects subtags neighbours db tag_id walk known =
    let end =
      visit-Ends collects subtags (named db.entries) neighbours known (2 * length db.entries + 1)
        tag_id walk
        (omega (arith, unseen-le (named db.entries) (mark tag_id walk), length-named db.entries)) in
    (
      end.0,
      ap (λ n. visit collects subtags neighbours n tag_id walk) {x = enough db}
            {y = suc (2 * length db.entries + 1)} (omega arith)
          ∙ end.1,
    )

-- The three walks of the tag graph end within their fuel, from any tag, with or without its subtags,
-- and whatever cycles the relationships make.
pub walks_end :
    (tag_id : ℕ) (subtags : Bool) (db : CatalogStore)
    → ((files : Walk) × (file_ids_for_tag tag_id subtags db ≡ some files))
      × ((below : Walk) × (subtag_ids_for_tag tag_id subtags db ≡ some below))
      × ((above : Walk) × (tag_ids_for_subtag tag_id subtags db ≡ some above))
unfolding file_ids_for_tag subtag_ids_for_tag tag_ids_for_subtag
walks_end tag_id subtags db = (
  ends_enough (λ kind. not (is_tag kind)) subtags (targets_of db.entries) db tag_id start
      (targets_of-Known db.entries),
  ends_enough is_tag subtags (subtags_of db db.entries) db tag_id start
      (subtags_of-Known db db.entries),
  ends_enough is_tag subtags (parents_of db db.entries) db tag_id start
      (parents_of-Known db db.entries),
)
