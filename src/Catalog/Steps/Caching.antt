-- ===== src/Catalog/Steps/Caching.antt =====
-- No step of the writer parts the `deleted` flag of a row from its clocks.
use tagsy.Prelude.{
  Bool-cases, List, String, [], ap, arith, false, inl, inr, lookup, lookup-insert_here, none, not,
  refl, some, subst, sym, ℕ, ◌&&◌, ◌+◌, ◌==◌, ◌∙◌, ◌∷◌, ◌≡◌, ◌⊎◌, string_eq, nat_eq,
}
use tagsy.Store.{CatalogStore, FileRow, ok, entry_key_eq}
use tagsy.Store.Versions.{latest_observed_at, latest_version, newest, observed_of, rows_of}
use tagsy.Store.Versions.History.{files-recorded, latest_observed_at-recorded_other, recorded}
use tagsy.Store.Files.{add_file, file_exists, live_row, restore_file}
use tagsy.Store.Files.Branches.{restore_file-some}
use tagsy.Store.Files.Tombstones.{
  IsCached, add_file-IsCached, apply_restore-IsCached, is_buried, record_newer-IsCached,
  remove_file-IsCached, update_file_logical_path-IsCached,
}
use tagsy.Store.Entries.{apply_relationship, tag_file, upsert_entry}
use tagsy.Catalog.{ChangeOrigin}
use tagsy.Catalog.Files.{adopt, tag_all}
use tagsy.Catalog.Forward.{version_origin}
use tagsy.Catalog.Steps.{
  Step, bury_file, define_tags, introduce, move, purge, relate, restore, take_newer,
}
use tagsy.Catalog.Steps.Purging.{record_purge-SameRows}
use tagsy.Peer.Plan.Purge.{apply_purge}
use tagsy.Store.Purged.{record_purge, strip_purged_file}
use tagsy.Store.Purged.Stripped.{SameRows, strip_purged_file_lem}
use tagsy.Store.Files.Others.{SameRows-trans}

-- A write to the tables of tags and relationships.
pub same-IsCached :
    (db after : CatalogStore)
    → after.files ≡ db.files
    → after.versions ≡ db.versions
    → IsCached db
    → IsCached after
unfolding latest_observed_at latest_version
same-IsCached db after files versions c id row h =
    c id row (ap (lookup id) (sym files) ∙ h)
    ∙ ap (λ vs. is_buried (observed_of (newest (rows_of id vs))) row) (sym versions)

pub tag_all-tables :
    (tags : List ℕ) (file_id modified_at : ℕ) (db : CatalogStore)
    → ((tag_all tags file_id modified_at db).files ≡ db.files)
      × ((tag_all tags file_id modified_at db).versions ≡ db.versions)
unfolding tag_all tag_file upsert_entry apply_relationship
tag_all-tables [] file_id modified_at db = (refl, refl)
tag_all-tables (tag_id ∷ tags) file_id modified_at db =
    tag_all-tables tags file_id modified_at (tag_file tag_id file_id modified_at db)

-- The first version of a row that was never deleted, whatever its stamp.
first-IsCached :
    (file_id : ℕ) (origin : ChangeOrigin) (content_hash : String) (size observed_at : ℕ)
    (row : FileRow) (db : CatalogStore)
    → lookup file_id db.files ≡ some row
    → row.deleted_at ≡ 0
    → IsCached db
    → IsCached (adopt origin file_id content_hash size observed_at db)
unfolding adopt
first-IsCached file_id origin content_hash size observed_at row db found never c =
    let after : CatalogStore =
      recorded file_id content_hash (version_origin origin) size observed_at db in
    let files = files-recorded file_id content_hash (version_origin origin) size observed_at db in
    let live : row.deleted ≡ false = ground (arith, c file_id row found, never) in
    let found_after : lookup file_id after.files ≡ some row = ap (lookup file_id) files ∙ found in
    let kept : restore_file file_id after ≡ after =
      restore_file-some file_id after row found_after ∙ rw live refl in
    subst IsCached (sym kept) (λ id r h. elim (Bool-cases (id == file_id)) [
      | inl same ↦
          let e : some row ≡ some r =
            sym found
            ∙ ap (λ x. lookup x db.files) (ground (arith, same))
            ∙ ap (lookup id) (sym files)
            ∙ h in
          ground (arith, e, live, never)
      | inr other ↦
          c id r (ap (lookup id) (sym files) ∙ h)
          ∙ ap (λ n. is_buried n r)
              (sym (
                latest_observed_at-recorded_other file_id content_hash (version_origin origin) size
                  observed_at db id (ground (arith, other))))
    ])

add_file-row :
    (file_id : ℕ) (path : String) (modified_at : ℕ) (db : CatalogStore) {after : CatalogStore}
    → add_file file_id path modified_at db ≡ ok after
    → lookup file_id after.files ≡ some (live_row path modified_at)
unfolding add_file
add_file-row file_id path modified_at db {after} h = elim (Bool-cases (file_exists file_id db)) [
  | inl taken ↦ ground (arith, taken)
  | inr free ↦ ground (arith, free, lookup-insert_here file_id (live_row path modified_at) db.files)
]

introduce-IsCached :
    (file_id : ℕ) (path : String) (modified_at : ℕ) (tags : List ℕ) (origin : ChangeOrigin)
    (content_hash : String) (size observed_at : ℕ) (db : CatalogStore) {added : CatalogStore}
    → add_file file_id path modified_at db ≡ ok added
    → IsCached db
    → IsCached (
        adopt origin file_id content_hash size observed_at (tag_all tags file_id modified_at added))
introduce-IsCached file_id path modified_at tags origin content_hash size observed_at db {added} h
      c =
    let tagged : CatalogStore = tag_all tags file_id modified_at added in
    let tables = tag_all-tables tags file_id modified_at added in
    first-IsCached file_id origin content_hash size observed_at (live_row path modified_at) tagged
      (ap (lookup file_id) tables.0 ∙ add_file-row file_id path modified_at db h) refl
      (same-IsCached added tagged tables.0 tables.1
        (add_file-IsCached file_id path modified_at db h c))

SameRows-IsCached :
    (db after : CatalogStore)
    → ((id : ℕ) → (lookup id after.files ≡ none) ⊎ SameRows id db after)
    → IsCached db
    → IsCached after
unfolding latest_observed_at latest_version
SameRows-IsCached db after same c id row h = elim (same id) [
  | inl gone ↦ ground (arith, gone, h)
  | inr rows ↦
      c id row (sym rows.same_file ∙ h)
      ∙ ap (λ vs. is_buried (observed_of (newest vs)) row) (sym rows.same_versions)
]

-- A purge takes all the rows of its file, and those of no other.
pub apply_purge-rows :
    (file_id id : ℕ) (db : CatalogStore)
    → ((lookup id (apply_purge file_id db).files ≡ none) × (id ≡ file_id))
      ⊎ SameRows id db (apply_purge file_id db)
unfolding apply_purge
apply_purge-rows file_id id db =
    let recorded : CatalogStore = (record_purge file_id db).0 in
    elim (Bool-cases (not (record_purge file_id db).1 && not (file_exists file_id recorded))) [
      | inl clean ↦ rw clean (inr (record_purge-SameRows file_id id db))
      | inr strips ↦ rw strips (elim (Bool-cases (id == file_id)) [
        | inl same ↦
            let e : id ≡ file_id = ground (arith, same) in
            inl (
              ap (λ x. lookup x (strip_purged_file file_id recorded).files) e
                  ∙ (strip_purged_file_lem file_id (file_id + 1) recorded (omega arith)).0.no_file,
              e,
            )
        | inr other ↦ inr (
            SameRows-trans id db recorded (strip_purged_file file_id recorded)
              (record_purge-SameRows file_id id db)
              ((strip_purged_file_lem file_id id recorded (ground (arith, other))).1))
      ])
    ]

pub Step-IsCached : {db after : CatalogStore} → Step db after → IsCached db → IsCached after
unfolding adopt apply_relationship
Step-IsCached {db} {after} (introduce f p m tags o c s t free new h e) cached =
    subst IsCached (sym e) (introduce-IsCached f p m tags o c s t db h cached)
Step-IsCached {db} {after} (take_newer f o c s t free newer e) cached =
    subst IsCached (sym e) (record_newer-IsCached f db c (version_origin o) s t newer cached)
Step-IsCached {db} {after} (move f p t free e) cached =
    subst IsCached (sym e) (update_file_logical_path-IsCached f db p t cached)
Step-IsCached {db} {after} (bury_file f t free e) cached =
    subst IsCached (sym e) (remove_file-IsCached f db t cached)
Step-IsCached {db} {after} (restore f t free e) cached =
    subst IsCached (sym e) (apply_restore-IsCached f db t cached)
Step-IsCached {db} {after} (relate r may e) cached =
    subst IsCached (sym e) (same-IsCached db (apply_relationship r db) refl refl cached)
Step-IsCached {db} {after} (define_tags tags e) cached =
    subst IsCached (sym e) (same-IsCached db (record db { tags = tags }) refl refl cached)
Step-IsCached {db} {after} (purge f e) cached = subst IsCached (sym e) (
    SameRows-IsCached db (apply_purge f db)
      (λ id. elim (apply_purge-rows f id db) [ inl gone ↦ inl (gone.0) | inr rows ↦ inr rows ])
      cached)
