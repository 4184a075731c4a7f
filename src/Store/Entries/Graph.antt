-- ===== src/Store/Entries/Graph.antt =====
-- tagsyd/src/store/entries.rs: the walks of the tag graph. A row of the graph that a statement
-- returns is the kind and the id of the other end; the recursion runs on fuel, and `none` is a walk
-- that ran out of it.
pub mod Ends
use tagsy.Prelude.{
  Bool, Dict, List, Option, [], contains, if◌then◌else◌, length, lookup, none, not, some, suc, true,
  zero, ℕ, ◌&&◌, ◌*◌, ◌+◌, ◌==◌, ◌∷◌, nat_eq, string_eq,
}
use tagsy.Store.{CatalogStore, EntryKey, EntryRow, RelationshipKind, kind_beq, tag, entry_key_eq}

-- `lookup_cache`, and the ids collected so far.
pub record Walk : Type 0 where
  pub lookup_cache : List ℕ
  pub collected : List ℕ

abbrev pub Neighbours : Type 0
Neighbours = ℕ → List (RelationshipKind × ℕ)

abbrev pub set_add : ℕ → List ℕ → List ℕ
set_add x xs = if contains x xs then xs else x ∷ xs

abbrev pub mark : ℕ → Walk → Walk
mark tag_id walk = record walk { lookup_cache = set_add tag_id walk.lookup_cache }

abbrev pub collect : Bool → ℕ → Walk → Walk
collect collects id walk = record walk {
  collected = if collects then set_add id walk.collected else walk.collected;
}

abbrev pub is_tag : RelationshipKind → Bool
is_tag kind = kind_beq kind tag

abbrev pub and_then : Option Walk → (Walk → Option Walk) → Option Walk
and_then none f = none
and_then (some walk) f = f walk

-- The loop of a walk: what is collected, and into which tags it goes. `subtags` is
-- `SubtagRule::Include`.
unfoldable pub visit_each :
    (RelationshipKind → Bool)
    → Bool
    → (ℕ → Walk → Option Walk)
    → List (RelationshipKind × ℕ)
    → Walk
    → Option Walk
visit_each collects subtags descend [] walk = some walk
visit_each collects subtags descend ((kind, id) ∷ rows) walk =
    let next : Walk = collect (collects kind) id walk in
    let onward = visit_each collects subtags descend rows in
    if is_tag kind && subtags && not (contains id walk.lookup_cache)
    then and_then (descend id next) onward
    else onward next

unfoldable pub visit : (RelationshipKind → Bool) → Bool → Neighbours → ℕ → ℕ → Walk → Option Walk
unfolding visit_each
visit collects subtags neighbours zero tag_id walk = none
visit collects subtags neighbours (suc fuel) tag_id walk =
    visit_each collects subtags (visit collects subtags neighbours fuel) (neighbours tag_id)
      (mark tag_id walk)

-- SELECT target_id, type .. WHERE tag_id = ?1 AND deleted = 0.
unfoldable pub targets_of : Dict EntryKey EntryRow → Neighbours
targets_of [] tag_id = []
targets_of ((key, row) ∷ rows) tag_id =
    let rest = targets_of rows tag_id in
    if key.tag_id == tag_id && not row.deleted then (key.kind, key.target_id) ∷ rest else rest

-- (t.deleted = 0 OR t.deleted IS NULL) after the LEFT JOIN with `tags_v2`.
abbrev pub tag_not_deleted : ℕ → CatalogStore → Bool
unfolding lookup
tag_not_deleted tag_id db = elim (lookup tag_id db.tags) [
  | none ↦ true
  | some row ↦ not row.deleted
]

-- .. WHERE e.tag_id = ?1 AND e.type = 1 AND e.deleted = 0, and a tag at the other end that is live.
unfoldable pub subtags_of : CatalogStore → Dict EntryKey EntryRow → Neighbours
subtags_of db [] tag_id = []
subtags_of db ((key, row) ∷ rows) tag_id =
    let rest = subtags_of db rows tag_id in
    if key.tag_id == tag_id
      && is_tag key.kind
      && not row.deleted
      && tag_not_deleted key.target_id db
    then (tag, key.target_id) ∷ rest
    else rest

-- .. WHERE e.target_id = ?1 AND e.type = 1 AND e.deleted = 0, likewise.
unfoldable pub parents_of : CatalogStore → Dict EntryKey EntryRow → Neighbours
parents_of db [] subtag_id = []
parents_of db ((key, row) ∷ rows) subtag_id =
    let rest = parents_of db rows subtag_id in
    if key.target_id == subtag_id
      && is_tag key.kind
      && not row.deleted
      && tag_not_deleted key.tag_id db
    then (tag, key.tag_id) ∷ rest
    else rest

-- The fuel: one more than twice the number of rows, which name at most that many tags.
abbrev pub enough : CatalogStore → ℕ
enough db = 2 * length db.entries + 2

abbrev pub start : Walk
start = record { lookup_cache = []; collected = [] }

unfoldable pub file_ids_for_tag : ℕ → Bool → CatalogStore → Option Walk
unfolding visit targets_of
file_ids_for_tag tag_id subtags db =
    visit (λ kind. not (is_tag kind)) subtags (targets_of db.entries) (enough db) tag_id start

unfoldable pub subtag_ids_for_tag : ℕ → Bool → CatalogStore → Option Walk
unfolding visit subtags_of
subtag_ids_for_tag tag_id subtags db =
    visit is_tag subtags (subtags_of db db.entries) (enough db) tag_id start

unfoldable pub tag_ids_for_subtag : ℕ → Bool → CatalogStore → Option Walk
unfolding visit parents_of
tag_ids_for_subtag subtag_id subtags db =
    visit is_tag subtags (parents_of db db.entries) (enough db) subtag_id start
