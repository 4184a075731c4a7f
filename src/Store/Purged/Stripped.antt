-- ===== src/Store/Purged/Stripped.antt =====
-- What a purge leaves in the catalog.
use tagsy.Prelude.{
  Bool, Bool-cases, Dict, List, PartialEq, [], ap, arith, contains, contains-append, false,
  if◌then◌else◌, inl, inr, length, lookup, lookup-retain_keys, none, not, refl, retain, retain_keys,
  true, ℕ, ◌-◌, ◌==◌, ◌||◌, ◌∙◌, ◌∷◌, ◌≡◌, ◌≢◌, nat_eq, string_eq,
}
use tagsy.Store.{CatalogStore, EntryKey, FileVersion, PreviewKey, file, entry_key_eq}
use tagsy.Store.Versions.{rows_of}
use tagsy.Store.Purged.{
  delete_rows, is_purged, reconcile_purged_files, record_purge, strip_purged_file, tags_file_in,
}

-- No table holds a row of the file.
pub record IsStripped (file_id : ℕ) (db : CatalogStore) : Type 0 where
  pub no_file : lookup file_id db.files ≡ none
  pub no_versions : rows_of file_id db.versions ≡ []
  pub no_previews : retain (λ (p : PreviewKey). p.file_id == file_id) db.previews ≡ []
  pub no_entries :
      (tag_id : ℕ)
      → lookup (record { tag_id = tag_id; target_id = file_id; kind = file }) db.entries ≡ none

-- Two catalogs hold the same rows of a file.
pub record SameRows (file_id : ℕ) (db after : CatalogStore) : Type 0 where
  pub same_file : lookup file_id after.files ≡ lookup file_id db.files
  pub same_versions : rows_of file_id after.versions ≡ rows_of file_id db.versions
  pub same_previews :
      retain (λ (p : PreviewKey). p.file_id == file_id) after.previews
      ≡ retain (λ (p : PreviewKey). p.file_id == file_id) db.previews
  pub same_entries :
      (tag_id : ℕ)
      → lookup (record { tag_id = tag_id; target_id = file_id; kind = file }) after.entries
        ≡ lookup (record { tag_id = tag_id; target_id = file_id; kind = file }) db.entries

module _ {A : Type 0} (key : A → ℕ) (ids : ℕ → Bool) (k : ℕ) where
  -- A scan for `k` after the deletion of the rows of `ids`.
  retain_deleted :
      (xs : List A)
      → retain (λ (x : A). key x == k) (retain (λ (x : A). not (ids (key x))) xs)
        ≡ (if ids k then [] else retain (λ (x : A). key x == k) xs)
  retain_deleted [] = ground arith
  retain_deleted (x ∷ xs) = ground (arith, ap ids {x = key x} {y = k}, retain_deleted xs)

module _ (ids : ℕ → Bool) (file_id : ℕ) (db : CatalogStore) where
  delete_rows-IsStripped : ids file_id ≡ true → IsStripped file_id (delete_rows ids db)
  unfolding delete_rows
  delete_rows-IsStripped h = record {
    no_file = ground (arith, lookup-retain_keys (λ id. not (ids id)) file_id db.files);
    no_versions = retain_deleted (λ (v : FileVersion). v.file_id) ids file_id db.versions ∙ rw h;
    no_previews = retain_deleted (λ (p : PreviewKey). p.file_id) ids file_id db.previews ∙ rw h;
    no_entries = λ tag_id.
        lookup-retain_keys (λ (key : EntryKey). not (tags_file_in ids key)) _ db.entries ∙ rw h;
  }

  delete_rows-SameRows : ids file_id ≡ false → SameRows file_id db (delete_rows ids db)
  unfolding delete_rows
  delete_rows-SameRows h = record {
    same_file = ground (arith, lookup-retain_keys (λ id. not (ids id)) file_id db.files);
    same_versions = retain_deleted (λ (v : FileVersion). v.file_id) ids file_id db.versions ∙ rw h;
    same_previews = retain_deleted (λ (p : PreviewKey). p.file_id) ids file_id db.previews ∙ rw h;
    same_entries = λ tag_id.
        lookup-retain_keys (λ (key : EntryKey). not (tags_file_in ids key)) _ db.entries ∙ rw h;
  }

-- A strip removes every row of its file from the four tables, keeps every row of any other file, and
-- keeps the purge set.
pub strip_purged_file_lem :
    (file_id other : ℕ) (db : CatalogStore)
    → other ≢ file_id
    → IsStripped file_id (strip_purged_file file_id db)
      × SameRows other db (strip_purged_file file_id db)
      × ((strip_purged_file file_id db).purged ≡ db.purged)
unfolding strip_purged_file
strip_purged_file_lem file_id other db ne = (
  delete_rows-IsStripped (λ id. id == file_id) file_id db (ground arith),
  delete_rows-SameRows (λ id. id == file_id) other db (ground arith),
  refl,
)

-- A purge adds its id to the purge set and no other, and says whether it was new.
pub is_purged-record_purge :
    (file_id id : ℕ) (db : CatalogStore)
    → (is_purged id (record_purge file_id db).0 ≡ (file_id == id || is_purged id db))
      × ((record_purge file_id db).1 ≡ not (is_purged file_id db))
unfolding is_purged record_purge
is_purged-record_purge file_id id db = elim (Bool-cases (contains file_id db.purged)) [
  | inl old ↦ (rw old (ground (arith, old)), rw old)
  | inr new ↦ (rw new (ground (arith, contains-append id db.purged (file_id ∷ []))), rw new)
]

retain-retain {ℓ} : {A : Type ℓ} (p : A → Bool) (xs : List A) → retain p (retain p xs) ≡ retain p xs
retain-retain p [] = refl
retain-retain p (x ∷ xs) = ground (arith, retain-retain p xs)

retain_keys-retain_keys :
    {K V : Type 0} ⦃e : PartialEq K⦄ (p : K → Bool) (d : Dict K V)
    → retain_keys p (retain_keys p d) ≡ retain_keys p d
unfolding retain_keys
retain_keys-retain_keys p [] = refl
retain_keys-retain_keys p ((j, v) ∷ d) = ground (arith, retain_keys-retain_keys p d)

delete_rows-delete_rows :
    (ids : ℕ → Bool) (db : CatalogStore) → delete_rows ids (delete_rows ids db) ≡ delete_rows ids db
unfolding delete_rows
delete_rows-delete_rows ids db = λ i. record {
  files = retain_keys-retain_keys (λ id. not (ids id)) db.files i;
  versions = retain-retain (λ (v : FileVersion). not (ids v.file_id)) db.versions i;
  previews = retain-retain (λ (p : PreviewKey). not (ids p.file_id)) db.previews i;
  tags = db.tags;
  entries = retain_keys-retain_keys (λ (key : EntryKey). not (tags_file_in ids key)) db.entries i;
  purged = db.purged;
}

-- The startup repair leaves no row of a purged file in any table, keeps every row of a file that is
-- not purged, keeps the purge set, and finds nothing to do a second time.
pub reconcile_purged_files_lem :
    (purged_id kept_id : ℕ) (db : CatalogStore)
    → is_purged purged_id db ≡ true
    → is_purged kept_id db ≡ false
    → let after = (reconcile_purged_files db).0 in
      IsStripped purged_id after
      × SameRows kept_id db after
      × (after.purged ≡ db.purged)
      × (reconcile_purged_files after ≡ (after, 0))
unfolding reconcile_purged_files is_purged
reconcile_purged_files_lem purged_id kept_id db h k = (
  delete_rows-IsStripped (λ id. contains id db.purged) purged_id db h,
  delete_rows-SameRows (λ id. contains id db.purged) kept_id db k,
  refl,
  repaired,
)
  where
    ids : ℕ → Bool
    ids id = contains id db.purged

    repaired : reconcile_purged_files (delete_rows ids db) ≡ (delete_rows ids db, 0)
    repaired =
        ap
          (λ (after : CatalogStore).
            (after, length (delete_rows ids db).files - length after.files))
          (delete_rows-delete_rows ids db)
        ∙ ap (λ (n : ℕ). (delete_rows ids db, n)) (omega arith)
