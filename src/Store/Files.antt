-- ===== src/Store/Files.antt =====
-- tagsyd/src/store/files.rs: the rows of `files_v2`, their tombstones and their paths.
pub mod Branches
pub mod Tombstones
pub mod Others
use tagsy.Prelude.{
  Bool, Option, String, [], false, if◌then◌else◌, insert, leb, lookup, ltb, max, none, not, some,
  true, ℕ, ◌&&◌, ◌++◌, ◌∷◌, string_eq, nat_eq,
}
use tagsy.Store.{
  CatalogStore, DeletionState, FileRow, FileVersion, Result, err, ok, sqlite, entry_key_eq,
}
use tagsy.Store.Versions.{delete_previews_for, latest_observed_at, next_number}

-- SELECT COUNT(*) .. > 0.
unfoldable pub file_exists : ℕ → CatalogStore → Bool
unfolding lookup
file_exists file_id db = elim (lookup file_id db.files) [ none ↦ false | some row ↦ true ]

abbrev pub live_row : String → ℕ → FileRow
live_row logical_path modified_at = record {
  logical_path = logical_path;
  logical_path_modified_at = modified_at;
  deletion = record { deleted = false; deleted_at = 0; restored_at = 0 };
}

-- INSERT fails where the primary key is taken.
unfoldable pub add_file : ℕ → String → ℕ → CatalogStore → Result CatalogStore
unfolding file_exists insert
add_file file_id logical_path modified_at db =
    if file_exists file_id db
    then err (sqlite "UNIQUE constraint failed: files_v2.id")
    else ok (record db { files = insert file_id (live_row logical_path modified_at) db.files })

unfoldable pub file_deletion_state : ℕ → CatalogStore → Option DeletionState
unfolding lookup
file_deletion_state file_id db = elim (lookup file_id db.files) [
  | none ↦ none
  | some row ↦ some row.deletion
]

unfoldable pub logical_path_modified_at : ℕ → CatalogStore → Option ℕ
unfolding lookup
logical_path_modified_at file_id db = elim (lookup file_id db.files) [
  | none ↦ none
  | some row ↦ some row.logical_path_modified_at
]

-- UPDATE files_v2 SET .. WHERE id = ?1, with the number of rows changed.
unfoldable pub update_row : ℕ → (FileRow → FileRow) → CatalogStore → CatalogStore × ℕ
unfolding lookup insert
update_row file_id f db = elim (lookup file_id db.files) [
  | none ↦ (db, 0)
  | some row ↦ (record db { files = insert file_id (f row) db.files }, 1)
]

-- SET deleted = 0.
abbrev pub revive : FileRow → FileRow
revive row = record row { deletion = record row.deletion { deleted = false } }

-- SET deleted = 1, deleted_at = ?2.
abbrev pub bury : ℕ → FileRow → FileRow
bury deleted_at row = record row {
  deletion = record row.deletion { deleted = true; deleted_at = deleted_at };
}

-- SET restored_at = ?2.
abbrev pub stamp_restore : ℕ → FileRow → FileRow
stamp_restore restored_at row = record row {
  deletion = record row.deletion { restored_at = restored_at };
}

-- The version goes in `OR IGNORE`; its number is free, so it is never ignored.
unfoldable pub add_tombstoned_file :
    ℕ → String → ℕ → String → ℕ → ℕ → String → ℕ → ℕ → CatalogStore → CatalogStore × Bool
unfolding file_exists insert next_number
add_tombstoned_file file_id logical_path modified_at content_hash size observed_at origin deleted_at
      restored_at db =
    if file_exists file_id db then (db, false) else (
      record db { files = insert file_id row db.files; versions = db.versions ++ version ∷ [] },
      true,
    )
  where
    row : FileRow
    row = record {
      logical_path = logical_path;
      logical_path_modified_at = modified_at;
      deletion = record { deleted = true; deleted_at = deleted_at; restored_at = restored_at };
    }

    version : FileVersion
    version = record {
      file_id = file_id;
      content_hash = content_hash;
      observed_at = observed_at;
      version_number = next_number file_id db;
      origin = origin;
      size = size;
    }

restore_in : ℕ → Option DeletionState → CatalogStore → CatalogStore
restore_in file_id none db = db
restore_in file_id (some state) db =
    if not state.deleted
    then db
    else if leb (latest_observed_at file_id db) state.deleted_at
    then db
    else (update_row file_id revive db).0

unfoldable pub restore_file : ℕ → CatalogStore → CatalogStore
unfolding restore_in file_deletion_state update_row
restore_file file_id db = restore_in file_id (file_deletion_state file_id db) db

apply_restore_in : ℕ → ℕ → Option DeletionState → CatalogStore → CatalogStore × Bool
apply_restore_in file_id restored_at none db = (db, false)
apply_restore_in file_id restored_at (some state) db =
    let stamped : CatalogStore =
      if ltb state.restored_at restored_at
      then (update_row file_id (stamp_restore restored_at) db).0
      else db in
    let effective : ℕ = max state.restored_at restored_at in
    let live : Bool = ltb state.deleted_at (max effective (latest_observed_at file_id stamped)) in
    (if live && state.deleted then (update_row file_id revive stamped).0 else stamped, live)

unfoldable pub apply_restore : ℕ → ℕ → CatalogStore → CatalogStore × Bool
unfolding apply_restore_in file_deletion_state update_row
apply_restore file_id restored_at db =
    apply_restore_in file_id restored_at (file_deletion_state file_id db) db

-- WHERE id = ?1 AND logical_path_modified_at < ?3.
unfoldable pub update_file_logical_path : ℕ → String → ℕ → CatalogStore → CatalogStore × Bool
unfolding lookup insert
update_file_logical_path file_id path modified_at db = elim (lookup file_id db.files) [
  | none ↦ (db, false)
  | some row ↦
      if ltb row.logical_path_modified_at modified_at
      then (
        record db {
          files =
              insert file_id
                (record row { logical_path = path; logical_path_modified_at = modified_at })
                db.files;
        },
        true,
      )
      else (db, false)
]

abbrev restored_of : Option DeletionState → ℕ
restored_of none = 0
restored_of (some state) = state.restored_at

-- `affected > 0` then drops the previews.
after_bury : ℕ → CatalogStore × ℕ → CatalogStore × Bool
after_bury file_id (db, affected) =
    if ltb 0 affected then (delete_previews_for file_id db, true) else (db, false)

unfoldable pub remove_file : ℕ → ℕ → CatalogStore → CatalogStore × Bool
unfolding file_deletion_state update_row after_bury delete_previews_for
remove_file file_id deleted_at db =
    if leb deleted_at
      (max (latest_observed_at file_id db) (restored_of (file_deletion_state file_id db)))
    then (db, false)
    else after_bury file_id (update_row file_id (bury deleted_at) db)
