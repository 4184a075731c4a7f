-- ===== src/Store/Tags.antt =====
-- tagsyd/src/store/tags.rs: the tag definitions and their last-writer-wins clock.
pub mod Styles
pub mod Order
use tagsy.Prelude.{
  Bool, Dict, List, Option, String, false, if◌then◌else◌, insert, lookup, ltb, map, none, some,
  true, ℕ, ◌==◌, nat_eq, string_eq,
}
use tagsy.Store.{CatalogStore, Result, TagRow, err, invalid_tag_name, ok, entry_key_eq}
use tagsy.Store.Tags.Styles.{TagStyle, style_columns, style_from_row}

-- `TagManifestEntry`.
pub record TagManifestEntry : Type 0 where
  pub tag_id : ℕ
  pub modified_at : ℕ
  pub deleted : Bool

unfoldable pub tag_manifest_entries : CatalogStore → List TagManifestEntry
tag_manifest_entries db =
    map
      (λ (row : ℕ × TagRow). record {
        tag_id = row.0;
        modified_at = row.1.modified_at;
        deleted = row.1.deleted;
      })
      db.tags

unfoldable pub tag_modified_at : ℕ → CatalogStore → Option ℕ
unfolding lookup
tag_modified_at tag_id db = elim (lookup tag_id db.tags) [
  | none ↦ none
  | some row ↦ some row.modified_at
]

unfoldable pub tag_definition : ℕ → CatalogStore → Option (String × TagStyle × ℕ)
unfolding lookup style_from_row
tag_definition tag_id db = elim (lookup tag_id db.tags) [
  | none ↦ none
  | some row ↦ some (row.name, style_from_row row.style, row.modified_at)
]

unfoldable pub tag_exists : ℕ → CatalogStore → Bool
unfolding lookup
tag_exists tag_id db = elim (lookup tag_id db.tags) [ none ↦ false | some row ↦ true ]

-- The row that `add_tag` inserts; on a conflict the statement sets the same columns.
unfoldable pub defined_row : String → TagStyle → ℕ → TagRow
unfolding style_columns
defined_row name style modified_at = record {
  name = name;
  modified_at = modified_at;
  deleted = false;
  style = style_columns style;
}

-- ON CONFLICT(id) DO UPDATE .. WHERE excluded.modified_at > tags_v2.modified_at.
unfoldable pub upsert_tag : ℕ → TagRow → Dict ℕ TagRow → Dict ℕ TagRow
unfolding lookup insert
upsert_tag tag_id new rows = elim (lookup tag_id rows) [
  | none ↦ insert tag_id new rows
  | some row ↦ if ltb row.modified_at new.modified_at then insert tag_id new rows else rows
]

unfoldable pub add_tag : ℕ → String → TagStyle → ℕ → CatalogStore → Result CatalogStore
unfolding upsert_tag defined_row
add_tag tag_id name style modified_at db =
    if name == ""
    then err invalid_tag_name
    else ok (record db { tags = upsert_tag tag_id (defined_row name style modified_at) db.tags })

-- UPDATE tags_v2 SET .. WHERE id = ?1 AND ? > modified_at, with whether a row changed.
unfoldable pub update_tag : ℕ → ℕ → (TagRow → TagRow) → CatalogStore → CatalogStore × Bool
unfolding lookup insert
update_tag tag_id modified_at f db = elim (lookup tag_id db.tags) [
  | none ↦ (db, false)
  | some row ↦
      if ltb row.modified_at modified_at
      then (record db { tags = insert tag_id (f row) db.tags }, true)
      else (db, false)
]

abbrev pub renamed_row : String → ℕ → TagRow → TagRow
renamed_row name modified_at row = record row { name = name; modified_at = modified_at }

unfoldable pub restyled_row : TagStyle → ℕ → TagRow → TagRow
unfolding style_columns
restyled_row style modified_at row = record row {
  style = style_columns style;
  modified_at = modified_at;
}

abbrev pub removed_row : ℕ → TagRow → TagRow
removed_row deleted_at row = record row { deleted = true; modified_at = deleted_at }

unfoldable pub update_tag_name : ℕ → String → ℕ → CatalogStore → Result CatalogStore
unfolding update_tag
update_tag_name tag_id name modified_at db =
    if name == ""
    then err invalid_tag_name
    else ok (update_tag tag_id modified_at (renamed_row name modified_at) db).0

unfoldable pub update_tag_style : ℕ → TagStyle → ℕ → CatalogStore → CatalogStore
unfolding update_tag restyled_row
update_tag_style tag_id style modified_at db =
    (update_tag tag_id modified_at (restyled_row style modified_at) db).0

unfoldable pub remove_tag : ℕ → ℕ → CatalogStore → CatalogStore × Bool
unfolding update_tag
remove_tag tag_id deleted_at db = update_tag tag_id deleted_at (removed_row deleted_at) db
