-- ===== src/Store/Files/Tombstones.antt =====
-- The `deleted` flag of a row and the clocks that it caches the comparison of (DeletionState in
-- store/types.rs).
use tagsy.Prelude.{
  Bool, Bool-cases, Option-cases, String, ap, arith, if◌then◌else◌, inl, inr, insert, leb, lookup,
  lookup-insert, ltb, max, some, subst, sym, ℕ, ◌&&◌, ◌==◌, ◌∙◌, ◌≡◌, ◌≢◌, ◌≤◌, nat_eq, string_eq,
}
use tagsy.Store.{CatalogStore, FileRow, ok, entry_key_eq}
use tagsy.Store.Versions.{
  delete_previews_for, latest_observed_at, latest_version, record_version_at,
}
use tagsy.Store.Files.{
  add_file, apply_restore, bury, file_exists, live_row, remove_file, restore_file, revive,
  update_file_logical_path,
}
use tagsy.Store.Versions.History.{
  files-recorded, latest_observed_at-recorded, latest_observed_at-recorded_other, recorded,
}
use tagsy.Store.Files.Branches.{
  alive_at, apply_restore-none, apply_restore-some, latest_observed_at-files, remove_file-none,
  remove_file-some, restore_file-none, restore_file-some, restored_row,
}

-- Whether the clocks of a row, over the latest edit of its file, say that it is deleted: it was
-- deleted, and neither the edit nor the last restore is newer.
abbrev pub is_buried : ℕ → FileRow → Bool
is_buried observed_at row =
    ltb 0 row.deleted_at && leb (max observed_at row.restored_at) row.deleted_at

abbrev pub IsCached : CatalogStore → Type 0
IsCached db =
    (id : ℕ) (row : FileRow)
    → lookup id db.files ≡ some row
    → row.deleted ≡ is_buried (latest_observed_at id db) row

delete_previews-IsCached :
    (file_id : ℕ) (db : CatalogStore) → IsCached db → IsCached (delete_previews_for file_id db)
unfolding latest_observed_at latest_version delete_previews_for
delete_previews-IsCached file_id db c id row h = c id row h

-- The same of every row but that of one file.
abbrev IsCachedBut : ℕ → CatalogStore → Type 0
IsCachedBut file_id db =
    (id : ℕ) (row : FileRow)
    → id ≢ file_id
    → lookup id db.files ≡ some row
    → row.deleted ≡ is_buried (latest_observed_at id db) row

weaken : (file_id : ℕ) (db : CatalogStore) → IsCached db → IsCachedBut file_id db
weaken file_id db c id row _ h = c id row h

-- A row written anew.
put_row-IsCached :
    (file_id : ℕ) (row : FileRow) (db : CatalogStore)
    → row.deleted ≡ is_buried (latest_observed_at file_id db) row
    → IsCachedBut file_id db
    → IsCached (record db { files = insert file_id row db.files })
put_row-IsCached file_id row db h c id found e = ground (
  arith,
  lookup-insert file_id id row db.files,
  latest_observed_at-files id (insert file_id row db.files) db,
  c id found,
)

-- A row left as it is.
keep_row-IsCached :
    (file_id : ℕ) (db : CatalogStore)
    → ((row : FileRow)
        → lookup file_id db.files ≡ some row
        → row.deleted ≡ is_buried (latest_observed_at file_id db) row)
    → IsCachedBut file_id db
    → IsCached db
keep_row-IsCached file_id db h c id found e = elim (Bool-cases (id == file_id)) [
  | inl same ↦ ground (arith, h found, same)
  | inr other ↦ c id found (ground arith) e
]

pub add_file-IsCached :
    (file_id : ℕ) (path : String) (modified_at : ℕ) (db : CatalogStore) {after : CatalogStore}
    → add_file file_id path modified_at db ≡ ok after
    → IsCached db
    → IsCached after
unfolding add_file
add_file-IsCached file_id path modified_at db {after} h c =
    elim (Bool-cases (file_exists file_id db)) [
      | inl taken ↦ ground (arith, taken)
      | inr free ↦ subst IsCached (ground (arith, free)) (
          put_row-IsCached file_id (live_row path modified_at) db (ground arith)
            (weaken file_id db c))
    ]

module _ (file_id : ℕ) (db : CatalogStore) where
  -- A delete, whether it wins or loses, leaves the `deleted` flag of every row what its clocks say:
  -- if it was so before, a row is deleted after exactly when it was ever deleted and neither its
  -- latest edit nor its last restore is newer.
  pub remove_file-IsCached :
      (deleted_at : ℕ) → IsCached db → IsCached (remove_file file_id deleted_at db).0
  remove_file-IsCached deleted_at c = elim (Option-cases (lookup file_id db.files)) [
    | inl e ↦ rw (remove_file-none file_id db deleted_at e) c
    | inr (row, e) ↦
        rw (remove_file-some file_id db deleted_at row e)
          (elim (Bool-cases (ltb (alive_at file_id row db) deleted_at)) [
            | inl wins ↦ rw wins (
                delete_previews-IsCached file_id _ (
                  put_row-IsCached file_id (bury deleted_at row) db (ground arith)
                    (weaken file_id db c)))
            | inr late ↦ rw late c
          ])
  ]

  pub restore_file-IsCached : IsCached db → IsCached (restore_file file_id db)
  restore_file-IsCached c = elim (Option-cases (lookup file_id db.files)) [
    | inl e ↦ rw (restore_file-none file_id db e) c
    | inr (row, e) ↦
        rw (restore_file-some file_id db row e)
          (elim (Bool-cases (row.deleted && ltb row.deleted_at (latest_observed_at file_id db))) [
            | inl wins ↦
                rw wins
                  (put_row-IsCached file_id (revive row) db (ground arith) (weaken file_id db c))
            | inr stands ↦ rw stands c
          ])
  ]

  -- A restore, whether it wins or loses, keeps the `deleted` flag of every row what its clocks say,
  -- if it was so before.
  pub apply_restore-IsCached :
      (restored_at : ℕ) → IsCached db → IsCached (apply_restore file_id restored_at db).0
  apply_restore-IsCached restored_at c = elim (Option-cases (lookup file_id db.files)) [
    | inl e ↦ rw (apply_restore-none file_id db restored_at e) c
    | inr (row, e) ↦ rw (apply_restore-some file_id db restored_at row e) (
        put_row-IsCached file_id (restored_row file_id db row restored_at) db
          (ground (arith, c file_id row e)) (weaken file_id db c))
  ]

  -- A move, adopted or not, keeps the `deleted` flag of every row what its clocks say, if it was so
  -- before.
  pub update_file_logical_path-IsCached :
      (path : String) (modified_at : ℕ)
      → IsCached db
      → IsCached (update_file_logical_path file_id path modified_at db).0
  unfolding update_file_logical_path
  update_file_logical_path-IsCached path modified_at c =
      elim (Option-cases (lookup file_id db.files)) [
        | inl e ↦ rw (e, update_file_logical_path) c
        | inr (row, e) ↦ elim (Bool-cases (ltb row.logical_path_modified_at modified_at)) [
          | inl newer ↦
              rw (e, update_file_logical_path)
                (rw newer (
                  put_row-IsCached file_id
                    (record row { logical_path = path; logical_path_modified_at = modified_at }) db
                    (c file_id row e) (weaken file_id db c)))
          | inr older ↦ rw (e, update_file_logical_path) (rw older c)
        ]
      ]

  -- The outcome of `restore_file` after the latest edit moved forward to `observed_at`.
  revive_or_keep :
      (before : ℕ) (row : FileRow) {observed_at : ℕ}
      → lookup file_id db.files ≡ some row
      → latest_observed_at file_id db ≡ observed_at
      → IsCachedBut file_id db
      → row.deleted ≡ is_buried before row
      → before ≤ observed_at
      → IsCached (
          if row.deleted && ltb row.deleted_at (latest_observed_at file_id db)
          then record db { files = insert file_id (revive row) db.files }
          else db)
  revive_or_keep before row {observed_at} e latest others cached newer =
      elim (Bool-cases (row.deleted && ltb row.deleted_at (latest_observed_at file_id db))) [
        | inl wins ↦ rw wins (put_row-IsCached file_id (revive row) db (ground arith) others)
        | inr stands ↦
            rw stands
              (keep_row-IsCached file_id db (λ found h. ground (arith, e, h, latest)) others)
      ]

module _ (file_id : ℕ) (db : CatalogStore) where
  -- A version that is no older than the latest one, recorded and followed by `restore_file`, keeps
  -- the `deleted` flag of every row what its clocks say, if it was so before.
  pub record_newer-IsCached :
      (content_hash origin : String) (size observed_at : ℕ)
      → latest_observed_at file_id db ≤ observed_at
      → IsCached db
      → IsCached (restore_file file_id (recorded file_id content_hash origin size observed_at db))
  record_newer-IsCached content_hash origin size observed_at newer c =
      let after : CatalogStore = recorded file_id content_hash origin size observed_at db in
      let latest = latest_observed_at-recorded file_id content_hash origin size observed_at db in
      let others : IsCachedBut file_id after = λ id row ne h.
        rw (latest_observed_at-recorded_other file_id content_hash origin size observed_at db id ne)
          (c id row (unfold record_version_at in h)) in
      let files =
        ap (lookup file_id) (files-recorded file_id content_hash origin size observed_at db) in
      elim (Option-cases (lookup file_id db.files)) [
        | inl e ↦
            subst IsCached (sym (restore_file-none file_id after (files ∙ e)))
              (keep_row-IsCached file_id after (λ row h. ground (arith, e, files)) others)
        | inr (row, e) ↦ subst IsCached (sym (restore_file-some file_id after row (files ∙ e))) (
            revive_or_keep file_id after (latest_observed_at file_id db) row (files ∙ e) latest
              others (c file_id row e) newer)
      ]
