-- ===== src/Store/Tags/Order.antt =====
-- The rows of tag definitions after writes, in whatever order they arrive.
use mathlib.Core.List.{Permᴰ, Pairwise}
use text.Mathlib.TextEquality.{eq_iff}
use tagsy.Prelude.{
  Bool-cases, Dict, List, Option, Option-cases, String, [], ap, arith, false, if◌then◌else◌, inl,
  inr, lookup, lookup-insert, lookup-insert_here, ltb, none, refl, run, run-perm, some, sym, ℕ, ◌<◌,
  ◌==◌, ◌∙◌, ◌∷◌, ◌≡◌, ◌≢◌, ◌≤◌, nat_eq, string_eq,
}
use tagsy.Store.{CatalogStore, StyleColumns, TagRow, ok, or_keep, entry_key_eq}
use tagsy.Store.Tags.{
  add_tag, defined_row, remove_tag, removed_row, renamed_row, tag_definition, tag_modified_at,
  update_tag, update_tag_name, upsert_tag,
}
use tagsy.Store.Tags.Styles.{TagStyle, style_columns, style_from_row-style_columns}

lookup-upsert_tag :
    (tag_id id : ℕ) (new : TagRow) (rows : Dict ℕ TagRow) (found : Option TagRow)
    → lookup tag_id rows ≡ found
    → lookup id (upsert_tag tag_id new rows) ≡ (
        if tag_id == id
        then elim found [
          | none ↦ some new
          | some row ↦ if ltb row.modified_at new.modified_at then some new else some row
        ]
        else lookup id rows)
unfolding upsert_tag
lookup-upsert_tag tag_id id new rows none h = ground (arith, h, lookup-insert tag_id id new rows)
lookup-upsert_tag tag_id id new rows (some row) h =
    ground (arith, h, lookup-insert tag_id id new rows)

-- A definition that is added to a catalog where the tag is unknown or older is read back, style and
-- stamp included, as it was given.
pub tag_definition-add_tag :
    (tag_id : ℕ) (name : String) (style : TagStyle) (modified_at : ℕ) (db : CatalogStore)
    {after : CatalogStore}
    → add_tag tag_id name style modified_at db ≡ ok after
    → ((m : ℕ) → tag_modified_at tag_id db ≡ some m → m < modified_at)
    → tag_definition tag_id after ≡ some (name, style, modified_at)
unfolding add_tag tag_definition tag_modified_at
tag_definition-add_tag tag_id name style modified_at db {after} h older =
    elim (Option-cases (lookup tag_id db.tags)) [
      | inl e ↦ ground (
        arith,
        lookup-upsert_tag tag_id tag_id (defined_row name style modified_at) db.tags none e,
        style_from_row-style_columns style,
      )
      | inr (row, e) ↦ ground (
        arith,
        lookup-upsert_tag tag_id tag_id (defined_row name style modified_at) db.tags (some row) e,
        style_from_row-style_columns style,
        older row.modified_at,
      )
    ]

-- A write of a whole definition, or a removal.
pub data TagWrite : Type 0 where
  define : String → TagStyle → ℕ → TagWrite
  retire : ℕ → TagWrite

abbrev pub stamp_of : TagWrite → ℕ
stamp_of (define name style modified_at) = modified_at
stamp_of (retire deleted_at) = deleted_at

-- What the catalog writer does with it; an error is only logged.
abbrev pub write_tag : ℕ → TagWrite → CatalogStore → CatalogStore
write_tag tag_id (define name style modified_at) db =
    or_keep db (add_tag tag_id name style modified_at db)
write_tag tag_id (retire deleted_at) db = (remove_tag tag_id deleted_at db).0

-- What is seen of a tag: its stamp, and its definition unless it is removed.
abbrev pub View : Type 0
View = ℕ × Option (String × StyleColumns)

abbrev pub view : TagRow → View
view row = (row.modified_at, if row.deleted then none else some (row.name, row.style))

abbrev view_of : Option TagRow → Option View
view_of none = none
view_of (some row) = some (view row)

abbrev pub seen : ℕ → CatalogStore → Option View
seen tag_id db = view_of (lookup tag_id db.tags)

abbrev put {ℓ} : {X : Type ℓ} → ℕ → X → ℕ × X → ℕ × X
put modified_at x v = if ltb v.0 modified_at then (modified_at, x) else v

put_comm {ℓ} :
    {X : Type ℓ} (i j : ℕ) (x y : X) (v : ℕ × X) → i ≢ j → put j y (put i x v) ≡ put i x (put j y v)
put_comm i j x y v h = ground arith

-- A write, on what is seen.
abbrev revised : TagWrite → View → View
unfolding style_columns
revised (define name style modified_at) v =
    if name == "" then v else put modified_at (some (name, style_columns style)) v
revised (retire deleted_at) v = put deleted_at none v

seen-some :
    (tag_id : ℕ) (db : CatalogStore) (row : TagRow) {v : View}
    → lookup tag_id db.tags ≡ some row
    → view row ≡ v
    → seen tag_id db ≡ some v
seen-some tag_id db row e k = ap view_of e ∙ ap some k

seen-write_tag :
    (tag_id : ℕ) (w : TagWrite) (db : CatalogStore) (v : View)
    → seen tag_id db ≡ some v
    → seen tag_id (write_tag tag_id w db) ≡ some (revised w v)
unfolding add_tag remove_tag update_tag
seen-write_tag tag_id (define name style modified_at) db v h =
    elim (Option-cases (lookup tag_id db.tags)) [
      | inl e ↦ ground (arith, e)
      | inr (row, e) ↦ ground (
        arith,
        lookup-upsert_tag tag_id tag_id (defined_row name style modified_at) db.tags (some row) e,
      )
    ]
seen-write_tag tag_id (retire deleted_at) db v h = elim (Option-cases (lookup tag_id db.tags)) [
  | inl e ↦ ground (arith, e)
  | inr (row, e) ↦ ground (arith, e, lookup-insert_here tag_id (removed_row deleted_at row) db.tags)
]

-- Two writes that could not be told apart by age.
abbrev pub IsApart : TagWrite → TagWrite → Type 0
IsApart a b = stamp_of a ≢ stamp_of b

revised_comm :
    (a b : TagWrite) (v : View) → IsApart a b → revised b (revised a v) ≡ revised a (revised b v)
unfolding revised
revised_comm (define n s i) (define o t j) v h =
    let swap = put_comm i j (some (n, style_columns s)) (some (o, style_columns t)) v h in
    elim (Bool-cases (n == "")) [
      | inl e ↦ rw e refl
      | inr e ↦ rw e (elim (Bool-cases (o == "")) [ inl k ↦ rw k refl | inr k ↦ rw k swap ])
    ]
revised_comm (define n s i) (retire j) v h =
    let swap = put_comm i j (some (n, style_columns s)) none v h in
    elim (Bool-cases (n == "")) [ inl e ↦ rw e refl | inr e ↦ rw e swap ]
revised_comm (retire i) (define o t j) v h =
    let swap = put_comm i j none (some (o, style_columns t)) v h in
    elim (Bool-cases (o == "")) [ inl k ↦ rw k refl | inr k ↦ rw k swap ]
revised_comm (retire i) (retire j) v h = put_comm i j none none v h

seen-write_all :
    (tag_id : ℕ) (ws : List TagWrite) (db : CatalogStore) (v : View)
    → seen tag_id db ≡ some v
    → seen tag_id (run (write_tag tag_id) ws db) ≡ some (run revised ws v)
seen-write_all tag_id [] db v h = h
seen-write_all tag_id (w ∷ ws) db v h =
    seen-write_all tag_id ws (write_tag tag_id w db) (revised w v) (seen-write_tag tag_id w db v h)

-- Whatever the order in which the same definitions and removals of a known tag arrive, what is seen
-- of the tag in the end is the same, provided that no two of them carry the same stamp.
pub write_all-perm :
    (tag_id : ℕ) (xs ys : List TagWrite) (db : CatalogStore) (v : View)
    → Permᴰ xs ys
    → Pairwise IsApart xs
    → seen tag_id db ≡ some v
    → seen tag_id (run (write_tag tag_id) xs db) ≡ seen tag_id (run (write_tag tag_id) ys db)
write_all-perm tag_id xs ys db v d h known =
    seen-write_all tag_id xs db v known
    ∙ ap some (
        run-perm revised IsApart (λ a b. hlevel) (λ a b n e. n (sym e))
          (λ a b s. revised_comm a b s) d h v)
    ∙ sym (seen-write_all tag_id ys db v known)

lookup-update_tag :
    (tag_id modified_at : ℕ) (f : TagRow → TagRow) (row : TagRow) (db : CatalogStore)
    → lookup tag_id db.tags ≡ some row
    → row.modified_at < modified_at
    → lookup tag_id (update_tag tag_id modified_at f db).0.tags ≡ some (f row)
unfolding update_tag
lookup-update_tag tag_id modified_at f row db known h =
    ground (arith, known, lookup-insert_here tag_id (f row) db.tags)

lookup-update_tag_late :
    (tag_id modified_at : ℕ) (f : TagRow → TagRow) (row : TagRow) (db : CatalogStore)
    → lookup tag_id db.tags ≡ some row
    → modified_at ≤ row.modified_at
    → lookup tag_id (update_tag tag_id modified_at f db).0.tags ≡ some row
unfolding update_tag
lookup-update_tag_late tag_id modified_at f row db known h = ground (arith, known)

-- `TagRenamed`; an error is only logged.
abbrev pub rename_tag : ℕ → String → ℕ → CatalogStore → CatalogStore
rename_tag tag_id name modified_at db = or_keep db (update_tag_name tag_id name modified_at db)

rename_tag-update_tag :
    (tag_id : ℕ) (name : String) (modified_at : ℕ) (db : CatalogStore)
    → name ≢ ""
    → rename_tag tag_id name modified_at db
      ≡ (update_tag tag_id modified_at (renamed_row name modified_at) db).0
unfolding update_tag_name
rename_tag-update_tag tag_id name modified_at db named = ground (arith, eq_iff name "")

-- A rename that is newer than the removal of a live tag does not bring the tag back: the row takes
-- the stamp of the rename and stays removed. The same two changes in the other order leave the tag
-- live under the new name, with the same stamp, so that the stamp does not tell the two rows apart.
pub rename_tag-remove_tag :
    (tag_id : ℕ) (row : TagRow) (name : String) (removed_at renamed_at : ℕ) (db : CatalogStore)
    → lookup tag_id db.tags ≡ some row
    → row.deleted ≡ false
    → row.modified_at < removed_at
    → removed_at < renamed_at
    → name ≢ ""
    → (seen tag_id (rename_tag tag_id name renamed_at (remove_tag tag_id removed_at db).0)
        ≡ some (renamed_at, none))
      × (seen tag_id (remove_tag tag_id removed_at (rename_tag tag_id name renamed_at db)).0
          ≡ some (renamed_at, some (name, row.style)))
unfolding remove_tag
rename_tag-remove_tag tag_id row name removed_at renamed_at db known live h k named =
    let gone : CatalogStore = (update_tag tag_id removed_at (removed_row removed_at) db).0 in
    let other : CatalogStore = (update_tag tag_id renamed_at (renamed_row name renamed_at) db).0 in
    let removed = lookup-update_tag tag_id removed_at (removed_row removed_at) row db known h in
    let last =
      lookup-update_tag tag_id renamed_at (renamed_row name renamed_at) (removed_row removed_at row)
        gone removed k in
    let first =
      lookup-update_tag tag_id renamed_at (renamed_row name renamed_at) row db known
        (omega arith) in
    let stale =
      lookup-update_tag_late tag_id removed_at (removed_row removed_at)
        (renamed_row name renamed_at row) other first (omega arith) in
    (
      ap (seen tag_id) (rename_tag-update_tag tag_id name renamed_at gone named)
          ∙ seen-some tag_id (update_tag tag_id renamed_at (renamed_row name renamed_at) gone).0
              (renamed_row name renamed_at (removed_row removed_at row)) last refl,
      ap (λ x. seen tag_id (update_tag tag_id removed_at (removed_row removed_at) x).0)
            (rename_tag-update_tag tag_id name renamed_at db named)
          ∙ seen-some tag_id (update_tag tag_id removed_at (removed_row removed_at) other).0
              (renamed_row name renamed_at row) stale (rw live refl),
    )
