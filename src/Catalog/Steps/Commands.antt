-- ===== src/Catalog/Steps/Commands.antt =====
-- What the commands of the writer do beside the steps: the row of a file that is known deleted, a
-- restore asked for here, which writes to a row only where there is one, and the cleared previews.
use tagsy.Prelude.{
  Bool, Bool-cases, String, ap, arith, false, inl, inr, insert, lookup, lookup-insert,
  lookup-insert_here, refl, some, sym, true, ℕ, ◌<◌, ◌==◌, ◌∙◌, ◌≡◌, ◌≢◌, ◌≤◌, string_eq, nat_eq,
}
use tagsy.Store.{CatalogStore, FileRow, entry_key_eq}
use tagsy.Store.Versions.{latest_observed_at, latest_version, record_version_at}
use tagsy.Store.Versions.History.{
  latest_observed_at-recorded, latest_observed_at-recorded_other, recorded, rows_of-recorded_other,
}
use tagsy.Store.Files.{add_tombstoned_file, apply_restore, file_exists}
use tagsy.Store.Files.Others.{Untouched}
use tagsy.Store.Files.Tombstones.{IsCached, is_buried}
use tagsy.Store.Purged.{is_purged}
use tagsy.Store.Listing.{purge_previews}
use tagsy.Catalog.Steps.{Step, Steps, here, next}
use tagsy.Catalog.Steps.Writes.{Onward, SameRows-Onward}

-- The clocks say that the file is deleted.
abbrev pub SaysDeleted : ℕ → ℕ → ℕ → Type 0
SaysDeleted observed_at deleted_at restored_at =
    (0 < deleted_at) × (observed_at ≤ deleted_at) × (restored_at ≤ deleted_at)

-- Steps, and the three other writes. Where `sound` is true, so are the clocks of every tombstone.
pub data Writes (sound : Bool) (db : CatalogStore) : CatalogStore → Type 0 where
  unwritten : Writes sound db db
  stepped : {b c : CatalogStore} → Writes sound db b → Step b c → Writes sound db c
  entombed :
      {b c : CatalogStore}
      → Writes sound db b
      → (file_id : ℕ) (path : String) (modified_at : ℕ) (content_hash : String)
        (size observed_at : ℕ) (origin : String) (deleted_at restored_at : ℕ)
      → is_purged file_id b ≡ false
      → file_exists file_id b ≡ false
      → (sound ≡ true → SaysDeleted observed_at deleted_at restored_at)
      → c
        ≡ (add_tombstoned_file file_id path modified_at content_hash size observed_at origin
            deleted_at restored_at b).0
      → Writes sound db c
  restores :
      {b c : CatalogStore}
      → Writes sound db b
      → (file_id restored_at : ℕ) → c ≡ (apply_restore file_id restored_at b).0
      → Writes sound db c
  clears : {b c : CatalogStore} → Writes sound db b → c ≡ purge_previews b → Writes sound db c

module _ {sound : Bool} where
  pub Writes-trans : {a b c : CatalogStore} → Writes sound a b → Writes sound b c → Writes sound a c
  Writes-trans h unwritten = h
  Writes-trans h (stepped w s) = stepped (Writes-trans h w) s
  Writes-trans h (entombed w f p m c s o g d r free new says e) =
      entombed (Writes-trans h w) f p m c s o g d r free new says e
  Writes-trans h (restores w f t e) = restores (Writes-trans h w) f t e
  Writes-trans h (clears w e) = clears (Writes-trans h w) e

  pub Steps-Writes : {a b : CatalogStore} → Steps a b → Writes sound a b
  Steps-Writes here = unwritten
  Steps-Writes (next steps step) = stepped (Steps-Writes steps) step

module _ (file_id : ℕ) (path : String) (modified_at : ℕ) (content_hash : String)
    (size observed_at : ℕ) (origin : String) (deleted_at restored_at : ℕ) (db : CatalogStore)
    (new : file_exists file_id db ≡ false) where
  abbrev pub tomb : FileRow
  tomb = record {
    logical_path = path;
    logical_path_modified_at = modified_at;
    deletion = record { deleted = true; deleted_at = deleted_at; restored_at = restored_at };
  }

  abbrev pub tombed : CatalogStore
  tombed = record db {
    files = insert file_id tomb db.files;
    versions = (recorded file_id content_hash origin size observed_at db).versions;
  }

  pub add_tombstoned_file-new :
      (add_tombstoned_file file_id path modified_at content_hash size observed_at origin deleted_at
        restored_at db).0
      ≡ tombed
  unfolding add_tombstoned_file record_version_at
  add_tombstoned_file-new = rw new refl

  pub tombed-Untouched : (other : ℕ) → other ≢ file_id → Untouched other db tombed
  tombed-Untouched other ne = (
    record {
      same_file = ground (arith, lookup-insert file_id other tomb db.files, ne);
      same_versions =
          rows_of-recorded_other file_id content_hash origin size observed_at db other ne;
      same_previews = refl;
      same_entries = λ tag_id. refl;
    },
    refl,
  )

  latest_observed_at-tombed :
      (id : ℕ)
      → latest_observed_at id tombed
        ≡ latest_observed_at id (recorded file_id content_hash origin size observed_at db)
  unfolding latest_observed_at latest_version
  latest_observed_at-tombed id = refl

  pub tombed-IsCached :
      SaysDeleted observed_at deleted_at restored_at → IsCached db → IsCached tombed
  tombed-IsCached says c id row h = elim (Bool-cases (id == file_id)) [
    | inl same ↦
        let e : id ≡ file_id = ground (arith, same) in
        ground (
          arith,
          h,
          ap (λ x. lookup x (insert file_id tomb db.files)) e,
          lookup-insert_here file_id tomb db.files,
          ap (λ x. latest_observed_at x tombed) e,
          latest_observed_at-tombed file_id,
          latest_observed_at-recorded file_id content_hash origin size observed_at db,
          says,
        )
    | inr other ↦
        let ne : id ≢ file_id = ground (arith, other) in
        let found : lookup id db.files ≡ some row =
          ground (arith, h, ne, lookup-insert file_id id tomb db.files) in
        c id row found
        ∙ ap (λ n. is_buried n row)
            (sym (
              latest_observed_at-tombed id
              ∙ latest_observed_at-recorded_other file_id content_hash origin size observed_at db id
                  ne))
  ]

  pub tombed-Onward : (id : ℕ) → file_exists id db ≡ true → Onward id db tombed
  tombed-Onward id known =
      SameRows-Onward id db tombed
        ((tombed-Untouched id (λ e. ground (arith, ap (λ x. file_exists x db) e, new, known))).0)
        known
