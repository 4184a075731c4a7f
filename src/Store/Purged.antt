-- ===== src/Store/Purged.antt =====
-- tagsyd/src/store/purged.rs: the permanent set of purged ids, and the hard delete of their rows.
pub mod Stripped
use tagsy.Prelude.{
  Bool, List, [], contains, false, if◌then◌else◌, length, not, retain, retain_keys, true, ℕ, ◌&&◌,
  ◌++◌, ◌-◌, ◌==◌, ◌∷◌, string_eq, nat_eq,
}
use tagsy.Store.{
  CatalogStore, EntryKey, FileVersion, PreviewKey, RelationshipKind, file, tag, entry_key_eq,
}

-- INSERT OR IGNORE, with whether a row went in.
unfoldable pub record_purge : ℕ → CatalogStore → CatalogStore × Bool
record_purge file_id db =
    if contains file_id db.purged
    then (db, false)
    else (record db { purged = db.purged ++ file_id ∷ [] }, true)

-- SELECT COUNT(*) .. > 0.
unfoldable pub is_purged : ℕ → CatalogStore → Bool
is_purged file_id db = contains file_id db.purged

unfoldable pub purged_ids : CatalogStore → List ℕ
purged_ids db = db.purged

abbrev is_file_kind : RelationshipKind → Bool
is_file_kind file = true
is_file_kind tag = false

-- A relationship row of a file in a set of ids: `type = 0` and the id in `target_id`.
abbrev pub tags_file_in : (ℕ → Bool) → EntryKey → Bool
tags_file_in ids key = is_file_kind key.kind && ids key.target_id

-- The four DELETE statements, for the ids of a set.
unfoldable pub delete_rows : (ℕ → Bool) → CatalogStore → CatalogStore
delete_rows ids db = record db {
  files = retain_keys (λ id. not (ids id)) db.files;
  versions = retain (λ (v : FileVersion). not (ids v.file_id)) db.versions;
  previews = retain (λ (p : PreviewKey). not (ids p.file_id)) db.previews;
  entries = retain_keys (λ (key : EntryKey). not (tags_file_in ids key)) db.entries;
}

-- WHERE .. = ?1.
unfoldable pub strip_purged_file : ℕ → CatalogStore → CatalogStore
unfolding delete_rows retain_keys
strip_purged_file file_id db = delete_rows (λ id. id == file_id) db

-- WHERE .. IN (SELECT file_id FROM purged_files_v1), with the number of `files_v2` rows removed.
unfoldable pub reconcile_purged_files : CatalogStore → CatalogStore × ℕ
unfolding delete_rows retain_keys
reconcile_purged_files db =
    let after : CatalogStore = delete_rows (λ id. contains id db.purged) db in
    (after, length db.files - length after.files)
