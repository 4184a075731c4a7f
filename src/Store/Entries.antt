-- ===== src/Store/Entries.antt =====
-- tagsyd/src/store/entries.rs: the relationships of the tag graph and their last-writer-wins clocks.
pub mod Newest
pub mod Exchange
pub mod Graph
use tagsy.Prelude.{
  Bool, Dict, List, Option, false, if◌then◌else◌, insert, lookup, ltb, map, none, some, true, ℕ,
  ◌==◌, nat_eq, string_eq,
}
use tagsy.Store.{
  CatalogStore, EntryKey, EntryRow, RelationshipKind, Result, cant_tag_itself, err, file, ok, tag,
  entry_key_eq,
}

-- `RelationshipManifestEntry`, and what each write to a relationship states of it.
pub record RelationshipEntry : Type 0 where
  pub key : EntryKey
  pub modified_at : ℕ
  pub deleted : Bool

-- INSERT .. ON CONFLICT(tag_id, target_id, type) DO UPDATE .. WHERE excluded.modified_at >
-- entries_v1.modified_at.
unfoldable pub upsert : RelationshipEntry → Dict EntryKey EntryRow → Dict EntryKey EntryRow
unfolding lookup insert
upsert entry rows = elim (lookup entry.key rows) [
  | none ↦
      insert entry.key (record { modified_at = entry.modified_at; deleted = entry.deleted }) rows
  | some row ↦
      if ltb row.modified_at entry.modified_at
      then insert entry.key (record { modified_at = entry.modified_at; deleted = entry.deleted })
          rows
      else rows
]

unfoldable pub apply_relationship : RelationshipEntry → CatalogStore → CatalogStore
unfolding upsert
apply_relationship entry db = record db { entries = upsert entry db.entries }

abbrev pub entry : ℕ → ℕ → RelationshipKind → ℕ → Bool → RelationshipEntry
entry tag_id target_id kind modified_at deleted = record {
  key = record { tag_id = tag_id; target_id = target_id; kind = kind };
  modified_at = modified_at;
  deleted = deleted;
}

unfoldable pub upsert_entry : ℕ → ℕ → RelationshipKind → ℕ → CatalogStore → CatalogStore
unfolding apply_relationship
upsert_entry tag_id target_id kind modified_at =
    apply_relationship (entry tag_id target_id kind modified_at false)

unfoldable pub untag_entry : ℕ → ℕ → RelationshipKind → ℕ → CatalogStore → CatalogStore
unfolding apply_relationship
untag_entry tag_id target_id kind modified_at =
    apply_relationship (entry tag_id target_id kind modified_at true)

unfoldable pub tag_file : ℕ → ℕ → ℕ → CatalogStore → CatalogStore
unfolding upsert_entry
tag_file tag_id file_id = upsert_entry tag_id file_id file

unfoldable pub tag_tag : ℕ → ℕ → ℕ → CatalogStore → Result CatalogStore
unfolding upsert_entry
tag_tag tag_id subtag_id modified_at db =
    if tag_id == subtag_id
    then err cant_tag_itself
    else ok (upsert_entry tag_id subtag_id tag modified_at db)

unfoldable pub untag_file : ℕ → ℕ → ℕ → CatalogStore → CatalogStore
unfolding untag_entry
untag_file tag_id file_id = untag_entry tag_id file_id file

unfoldable pub untag_tag : ℕ → ℕ → ℕ → CatalogStore → CatalogStore
unfolding untag_entry
untag_tag tag_id subtag_id = untag_entry tag_id subtag_id tag

unfoldable pub relationship_modified_at : EntryKey → CatalogStore → Option ℕ
unfolding lookup
relationship_modified_at key db = elim (lookup key db.entries) [
  | none ↦ none
  | some row ↦ some row.modified_at
]

unfoldable pub relationship_manifest_entries : CatalogStore → List RelationshipEntry
relationship_manifest_entries db =
    map
      (λ (row : EntryKey × EntryRow). record {
        key = row.0;
        modified_at = row.1.modified_at;
        deleted = row.1.deleted;
      })
      db.entries
