-- ===== src/Store/Files/Branches.antt =====
-- What each write to `files_v2` does, on every branch.
use tagsy.Prelude.{
  Bool-cases, Dict, arith, false, if◌then◌else◌, inl, inr, insert, insert-insert, insert_same, leb,
  lookup, lookup-insert, ltb, max, none, not, refl, some, true, ℕ, ◌&&◌, ◌≡◌, string_eq, nat_eq,
}
use tagsy.Store.{CatalogStore, FileRow}
use tagsy.Store.Versions.{delete_previews_for, latest_observed_at, latest_version}
use tagsy.Store.Files.{
  apply_restore, apply_restore_in, bury, file_deletion_state, remove_file, restore_file, restore_in,
  restored_of, revive, stamp_restore, update_row,
}

-- The newest of a file's latest edit and its last restore.
abbrev pub alive_at : ℕ → FileRow → CatalogStore → ℕ
alive_at file_id row db = max (latest_observed_at file_id db) row.restored_at

pub latest_observed_at-files :
    (id : ℕ) (files : Dict ℕ FileRow) (db : CatalogStore)
    → latest_observed_at id (record db { files = files }) ≡ latest_observed_at id db
unfolding latest_observed_at latest_version
latest_observed_at-files id files db = refl

module _ (file_id : ℕ) (db : CatalogStore) where
  pub update_row-none :
      (f : FileRow → FileRow) → lookup file_id db.files ≡ none → update_row file_id f db ≡ (db, 0)
  unfolding update_row
  update_row-none f e = rw (e, update_row)

  pub update_row-some :
      (f : FileRow → FileRow) (row : FileRow)
      → lookup file_id db.files ≡ some row
      → update_row file_id f db ≡ (record db { files = insert file_id (f row) db.files }, 1)
  unfolding update_row
  update_row-some f row e = rw (e, update_row)

  pub deletion_state-none : lookup file_id db.files ≡ none → file_deletion_state file_id db ≡ none
  unfolding file_deletion_state
  deletion_state-none e = rw (e, file_deletion_state)

  pub deletion_state-some :
      (row : FileRow)
      → lookup file_id db.files ≡ some row
      → file_deletion_state file_id db ≡ some row.deletion
  unfolding file_deletion_state
  deletion_state-some row e = rw (e, file_deletion_state)

  -- The row as it is buried.
  abbrev pub buried : FileRow → ℕ → CatalogStore
  buried row deleted_at =
      delete_previews_for file_id
        (record db { files = insert file_id (bury deleted_at row) db.files })

  pub remove_file-none :
      (deleted_at : ℕ)
      → lookup file_id db.files ≡ none
      → remove_file file_id deleted_at db ≡ (db, false)
  unfolding remove_file
  remove_file-none deleted_at e =
      elim (Bool-cases (
        leb deleted_at
          (max (latest_observed_at file_id db) (restored_of (file_deletion_state file_id db))))) [
            | inl late ↦ rw (late)
            | inr wins ↦ rw (wins, update_row-none _ e)
          ]

  pub remove_file-some :
      (deleted_at : ℕ) (row : FileRow)
      → lookup file_id db.files ≡ some row
      → remove_file file_id deleted_at db ≡ (
          if ltb (alive_at file_id row db) deleted_at
          then (buried row deleted_at, true)
          else (db, false))
  unfolding remove_file
  remove_file-some deleted_at row e =
      ground (arith, update_row-some (bury deleted_at) row e, deletion_state-some row e)

  -- The row as a restore leaves it: its clock never goes back, and the row is live if its newest
  -- edit or restore beats its delete.
  abbrev pub restored_row : FileRow → ℕ → FileRow
  restored_row row restored_at =
      let clock : ℕ = max row.restored_at restored_at in
      record row {
        deletion = record row.deletion {
          deleted =
              row.deleted && not (ltb row.deleted_at (max clock (latest_observed_at file_id db)));
          restored_at = clock;
        };
      }

  pub restore_file-none : lookup file_id db.files ≡ none → restore_file file_id db ≡ db
  unfolding restore_file
  restore_file-none e = rw (deletion_state-none e, restore_in)

  pub restore_file-some :
      (row : FileRow)
      → lookup file_id db.files ≡ some row
      → restore_file file_id db ≡ (
          if row.deleted && ltb row.deleted_at (latest_observed_at file_id db)
          then record db { files = insert file_id (revive row) db.files }
          else db)
  unfolding restore_file
  restore_file-some row e = ground (arith, update_row-some revive row e, deletion_state-some row e)

  pub apply_restore-none :
      (restored_at : ℕ)
      → lookup file_id db.files ≡ none
      → apply_restore file_id restored_at db ≡ (db, false)
  unfolding apply_restore
  apply_restore-none restored_at e = rw (deletion_state-none e, apply_restore_in)

  -- A restore writes the row at most twice, which comes to one write.
  pub apply_restore-some :
      (restored_at : ℕ) (row : FileRow)
      → lookup file_id db.files ≡ some row
      → apply_restore file_id restored_at db ≡ (
        record db { files = insert file_id (restored_row row restored_at) db.files },
        ltb row.deleted_at (max (max row.restored_at restored_at) (latest_observed_at file_id db)),
      )
  unfolding apply_restore
  apply_restore-some restored_at row e =
      let stamped : FileRow = stamp_restore restored_at row in
      let files = insert file_id stamped db.files in
      ground (
        arith,
        deletion_state-some row e,
        update_row-some (stamp_restore restored_at) row e,
        update_row-some revive row e,
        tagsy.Store.Files.Branches.update_row-some file_id (record db { files = files }) revive
            stamped,
        lookup-insert file_id file_id stamped db.files,
        insert-insert file_id (revive stamped) stamped db.files,
        insert_same file_id row db.files e,
        latest_observed_at-files file_id files db,
      )
