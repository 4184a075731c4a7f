-- ===== src/Catalog/Steps/Writes.antt =====
-- What each write does to the rows and the log of a known file.
use tagsy.Prelude.{
  Bool-cases, Option-cases, String, ap, arith, inl, inr, insert, lookup, lookup-insert, ltb, refl,
  subst, true, ℕ, ◌&&◌, ◌==◌, ◌≡◌, ◌≤◌, ◌⊎◌, string_eq, nat_eq,
}
use tagsy.Store.{CatalogStore, FileRow, entry_key_eq}
use tagsy.Store.Versions.{
  delete_previews_for, latest_observed_at, latest_version, newest, observed_of, rows_of,
}
use tagsy.Store.Versions.History.{files-recorded, latest_observed_at-recorded, recorded}
use tagsy.Store.Files.{
  apply_restore, file_exists, remove_file, restore_file, update_file_logical_path,
}
use tagsy.Store.Files.Branches.{
  alive_at, apply_restore-none, apply_restore-some, remove_file-none, remove_file-some,
  restore_file-none, restore_file-some, restored_row,
}
use tagsy.Store.Purged.Stripped.{SameRows}
use tagsy.Catalog.{ChangeOrigin}
use tagsy.Catalog.Files.{adopt}
use tagsy.Catalog.Forward.{version_origin}
use tagsy.Catalog.Steps.Purging.{adopt-Untouched}

-- What every write to the row of a file does: the log stays, and at most that row is put.
abbrev pub Wrote : ℕ → CatalogStore → CatalogStore → Type 0
Wrote file_id db after =
    (after.versions ≡ db.versions)
    × ((after.files ≡ db.files) ⊎ ((row : FileRow) × (after.files ≡ insert file_id row db.files)))

module _ (file_id : ℕ) (db : CatalogStore) where
  pub Wrote-restore_file : Wrote file_id db (restore_file file_id db)
  Wrote-restore_file = elim (Option-cases (lookup file_id db.files)) [
    | inl e ↦ rw (restore_file-none file_id db e) (refl, inl refl)
    | inr (row, e) ↦
        rw (restore_file-some file_id db row e)
          (elim (Bool-cases (row.deleted && ltb row.deleted_at (latest_observed_at file_id db))) [
            | inl wins ↦ rw wins (refl, inr (_, refl))
            | inr stands ↦ rw stands (refl, inl refl)
          ])
  ]

  pub Wrote-apply_restore :
      (restored_at : ℕ) → Wrote file_id db ((apply_restore file_id restored_at db).0)
  Wrote-apply_restore restored_at = elim (Option-cases (lookup file_id db.files)) [
    | inl e ↦ rw (apply_restore-none file_id db restored_at e) (refl, inl refl)
    | inr (row, e) ↦
        rw (apply_restore-some file_id db restored_at row e)
          (refl, inr (restored_row file_id db row restored_at, refl))
  ]

  pub Wrote-remove_file : (deleted_at : ℕ) → Wrote file_id db (remove_file file_id deleted_at db).0
  unfolding delete_previews_for
  Wrote-remove_file deleted_at = elim (Option-cases (lookup file_id db.files)) [
    | inl e ↦ rw (remove_file-none file_id db deleted_at e) (refl, inl refl)
    | inr (row, e) ↦
        rw (remove_file-some file_id db deleted_at row e)
          (elim (Bool-cases (ltb (alive_at file_id row db) deleted_at)) [
            | inl wins ↦ rw wins (refl, inr (_, refl))
            | inr late ↦ rw late (refl, inl refl)
          ])
  ]

  pub Wrote-update_file_logical_path :
      (path : String) (modified_at : ℕ)
      → Wrote file_id db (update_file_logical_path file_id path modified_at db).0
  unfolding update_file_logical_path
  Wrote-update_file_logical_path path modified_at = elim (Option-cases (lookup file_id db.files)) [
    | inl e ↦ rw (e, update_file_logical_path) (refl, inl refl)
    | inr (row, e) ↦ elim (Bool-cases (ltb row.logical_path_modified_at modified_at)) [
      | inl newer ↦ rw (e, update_file_logical_path) (rw newer (refl, inr (_, refl)))
      | inr older ↦ rw (e, update_file_logical_path) (rw older (refl, inl refl))
    ]
  ]

  -- The latest edit depends on the log alone.
  latest-versions :
      (after : CatalogStore)
      → after.versions ≡ db.versions
      → latest_observed_at file_id db ≤ latest_observed_at file_id after
  unfolding latest_observed_at latest_version
  latest-versions after e = omega (arith, ap (λ vs. observed_of (newest (rows_of file_id vs))) e)

  latest-SameRows :
      (after : CatalogStore)
      → SameRows file_id db after
      → latest_observed_at file_id db ≤ latest_observed_at file_id after
  unfolding latest_observed_at latest_version
  latest-SameRows after same = omega (arith, ap (λ vs. observed_of (newest vs)) same.same_versions)

latest-adopt :
    (file_id : ℕ) (origin : ChangeOrigin) (content_hash : String) (size observed_at : ℕ)
    (db : CatalogStore)
    → observed_at
      ≤ latest_observed_at file_id (adopt origin file_id content_hash size observed_at db)
unfolding adopt
latest-adopt file_id origin content_hash size observed_at db =
    let after : CatalogStore =
      recorded file_id content_hash (version_origin origin) size observed_at db in
    omega (
      arith,
      latest_observed_at-recorded file_id content_hash (version_origin origin) size observed_at db,
      latest-versions file_id after (restore_file file_id after)
          (Wrote-restore_file file_id after).0,
    )

-- A file that has a row keeps one, and its latest edit is no older.
abbrev pub Onward : ℕ → CatalogStore → CatalogStore → Type 0
Onward id db after =
    (file_exists id after ≡ true) × (latest_observed_at id db ≤ latest_observed_at id after)

file_exists-files :
    (id : ℕ) (db after : CatalogStore)
    → after.files ≡ db.files
    → file_exists id db ≡ true
    → file_exists id after ≡ true
unfolding file_exists
file_exists-files id db after e known = ground (arith, ap (lookup id) e, known)

pub Wrote-Onward :
    (file_id id : ℕ) (db after : CatalogStore)
    → Wrote file_id db after
    → file_exists id db ≡ true
    → Onward id db after
unfolding file_exists
Wrote-Onward file_id id db after h known = (
  elim (h.1) [
    | inl e ↦ file_exists-files id db after e known
    | inr (row, e) ↦ ground (arith, ap (lookup id) e, lookup-insert file_id id row db.files, known)
  ],
  latest-versions id db after h.0,
)

pub SameRows-Onward :
    (id : ℕ) (db after : CatalogStore)
    → SameRows id db after
    → file_exists id db ≡ true
    → Onward id db after
unfolding file_exists
SameRows-Onward id db after same known =
    (ground (arith, same.same_file, known), latest-SameRows id db after same)

pub adopt-Onward :
    (file_id id : ℕ) (origin : ChangeOrigin) (content_hash : String) (size observed_at : ℕ)
    (db : CatalogStore)
    → latest_observed_at file_id db ≤ observed_at
    → file_exists id db ≡ true
    → Onward id db (adopt origin file_id content_hash size observed_at db)
unfolding adopt
adopt-Onward file_id id origin content_hash size observed_at db newer known =
    let after : CatalogStore =
      recorded file_id content_hash (version_origin origin) size observed_at db in
    let files = files-recorded file_id content_hash (version_origin origin) size observed_at db in
    let kept =
      (Wrote-Onward file_id id after (restore_file file_id after) (Wrote-restore_file file_id after)
        (file_exists-files id db after files known)).0 in
    elim (Bool-cases (id == file_id)) [
      | inl same ↦
          let e : file_id ≡ id = ground (arith, same) in
          (
            kept,
            subst (λ x. latest_observed_at x db ≤ latest_observed_at x (restore_file file_id after))
                e
                (omega
                  (arith, newer, latest-adopt file_id origin content_hash size observed_at db)),
          )
      | inr other ↦ (
        kept,
        latest-SameRows id db (restore_file file_id after) (
            (adopt-Untouched file_id id origin content_hash size observed_at db
              (ground (arith, other))).0),
      )
    ]
