-- ===== src/Store/Files/Others.antt =====
-- What the writes to one file leave alone: the rows of every other file, in the four tables.
use tagsy.Prelude.{
  Bool-cases, List, Option-cases, String, [], arith, if◌then◌else◌, inl, inr, insert, lookup,
  lookup-insert, ltb, not, refl, retain, subst, ℕ, ◌&&◌, ◌==◌, ◌∙◌, ◌∷◌, ◌≡◌, ◌≢◌, nat_eq,
  string_eq,
}
use tagsy.Store.{CatalogStore, EntryKey, FileRow, PreviewKey, file, key_beq_iff, ok, entry_key_eq}
use tagsy.Store.Versions.{delete_previews_for, latest_observed_at, record_version_at}
use tagsy.Store.Versions.History.{recorded, rows_of-recorded_other}
use tagsy.Store.Files.{
  add_file, apply_restore, bury, file_exists, live_row, remove_file, restore_file, revive,
  update_file_logical_path,
}
use tagsy.Store.Files.Branches.{
  alive_at, apply_restore-none, apply_restore-some, buried, remove_file-none, remove_file-some,
  restore_file-none, restore_file-some, restored_row,
}
use tagsy.Store.Purged.Stripped.{IsStripped, SameRows}
use tagsy.Store.Entries.{RelationshipEntry, apply_relationship}
use tagsy.Store.Entries.Newest.{lookup-upsert, newer}

pub SameRows-refl : (other : ℕ) (db : CatalogStore) → SameRows other db db
SameRows-refl other db = record {
  same_file = refl;
  same_versions = refl;
  same_previews = refl;
  same_entries = λ tag_id. refl;
}

pub SameRows-trans :
    (other : ℕ) (a b c : CatalogStore)
    → SameRows other a b
    → SameRows other b c
    → SameRows other a c
SameRows-trans other a b c h k = record {
  same_file = k.same_file ∙ h.same_file;
  same_versions = k.same_versions ∙ h.same_versions;
  same_previews = k.same_previews ∙ h.same_previews;
  same_entries = λ tag_id. k.same_entries tag_id ∙ h.same_entries tag_id;
}

else_here {ℓ} : {X : Type ℓ} (x y : X) (a b : EntryKey) → a ≢ b → (if a == b then x else y) ≡ y
else_here x y a b h = ground (arith, key_beq_iff a b, h)

-- A file with no rows has none where the rows are the same.
pub SameRows-IsStripped :
    (other : ℕ) (db after : CatalogStore)
    → SameRows other db after
    → IsStripped other db
    → IsStripped other after
SameRows-IsStripped other db after h s = record {
  no_file = h.same_file ∙ s.no_file;
  no_versions = h.same_versions ∙ s.no_versions;
  no_previews = h.same_previews ∙ s.no_previews;
  no_entries = λ tag_id. h.same_entries tag_id ∙ s.no_entries tag_id;
}

-- The same rows of a file, and the same purge set.
abbrev pub Untouched : ℕ → CatalogStore → CatalogStore → Type 0
Untouched other db after = SameRows other db after × (after.purged ≡ db.purged)

pub Untouched-trans :
    (other : ℕ) (a b c : CatalogStore)
    → Untouched other a b
    → Untouched other b c
    → Untouched other a c
Untouched-trans other a b c h k = (SameRows-trans other a b c h.0 k.0, k.1 ∙ h.1)

module _ (file_id other : ℕ) (ne : other ≢ file_id) where
  put_row-Untouched :
      (row : FileRow) (db : CatalogStore)
      → Untouched other db (record db { files = insert file_id row db.files })
  put_row-Untouched row db = (
    record {
      same_file = ground (arith, lookup-insert file_id other row db.files, ne);
      same_versions = refl;
      same_previews = refl;
      same_entries = λ tag_id. refl;
    },
    refl,
  )

  kept_previews :
      (ps : List PreviewKey)
      → retain
          (λ (p : PreviewKey). p.file_id == other)
          (retain (λ (p : PreviewKey). not (p.file_id == file_id)) ps)
        ≡ retain (λ (p : PreviewKey). p.file_id == other) ps
  kept_previews [] = refl
  kept_previews (p ∷ ps) = ground (arith, kept_previews ps, ne)

  delete_previews-Untouched :
      (db : CatalogStore) → Untouched other db (delete_previews_for file_id db)
  unfolding delete_previews_for
  delete_previews-Untouched db = (
    record {
      same_file = refl;
      same_versions = refl;
      same_previews = kept_previews db.previews;
      same_entries = λ tag_id. refl;
    },
    refl,
  )

  pub add_file-Untouched :
      (path : String) (modified_at : ℕ) (db : CatalogStore) {after : CatalogStore}
      → add_file file_id path modified_at db ≡ ok after
      → Untouched other db after
  unfolding add_file
  add_file-Untouched path modified_at db {after} h = elim (Bool-cases (file_exists file_id db)) [
    | inl taken ↦ ground (arith, taken)
    | inr free ↦
        subst (Untouched other db) (ground (arith, free))
          (put_row-Untouched (live_row path modified_at) db)
  ]

  pub recorded-Untouched :
      (content_hash origin : String) (size observed_at : ℕ) (db : CatalogStore)
      → Untouched other db (recorded file_id content_hash origin size observed_at db)
  unfolding record_version_at
  recorded-Untouched content_hash origin size observed_at db = (
    record {
      same_file = refl;
      same_versions =
          rows_of-recorded_other file_id content_hash origin size observed_at db other ne;
      same_previews = kept_previews db.previews;
      same_entries = λ tag_id. refl;
    },
    refl,
  )

  pub restore_file-Untouched : (db : CatalogStore) → Untouched other db (restore_file file_id db)
  restore_file-Untouched db = elim (Option-cases (lookup file_id db.files)) [
    | inl e ↦ rw (restore_file-none file_id db e) ((SameRows-refl other db, refl))
    | inr (row, e) ↦
        rw (restore_file-some file_id db row e)
          (elim (Bool-cases (row.deleted && ltb row.deleted_at (latest_observed_at file_id db))) [
            | inl wins ↦ rw wins (put_row-Untouched (revive row) db)
            | inr stands ↦ rw stands ((SameRows-refl other db, refl))
          ])
  ]

  pub apply_restore-Untouched :
      (restored_at : ℕ) (db : CatalogStore)
      → Untouched other db (apply_restore file_id restored_at db).0
  apply_restore-Untouched restored_at db = elim (Option-cases (lookup file_id db.files)) [
    | inl e ↦ rw (apply_restore-none file_id db restored_at e) ((SameRows-refl other db, refl))
    | inr (row, e) ↦
        rw (apply_restore-some file_id db restored_at row e)
          (put_row-Untouched (restored_row file_id db row restored_at) db)
  ]

  pub remove_file-Untouched :
      (deleted_at : ℕ) (db : CatalogStore)
      → Untouched other db (remove_file file_id deleted_at db).0
  remove_file-Untouched deleted_at db = elim (Option-cases (lookup file_id db.files)) [
    | inl e ↦ rw (remove_file-none file_id db deleted_at e) ((SameRows-refl other db, refl))
    | inr (row, e) ↦
        rw (remove_file-some file_id db deleted_at row e)
          (elim (Bool-cases (ltb (alive_at file_id row db) deleted_at)) [
            | inl wins ↦ rw wins (
                Untouched-trans other db
                  (record db { files = insert file_id (bury deleted_at row) db.files })
                  (buried file_id db row deleted_at) (put_row-Untouched (bury deleted_at row) db)
                  (delete_previews-Untouched
                    (record db { files = insert file_id (bury deleted_at row) db.files })))
            | inr late ↦ rw late ((SameRows-refl other db, refl))
          ])
  ]

  pub update_file_logical_path-Untouched :
      (path : String) (modified_at : ℕ) (db : CatalogStore)
      → Untouched other db (update_file_logical_path file_id path modified_at db).0
  unfolding update_file_logical_path
  update_file_logical_path-Untouched path modified_at db =
      elim (Option-cases (lookup file_id db.files)) [
        | inl e ↦ rw (e, update_file_logical_path) ((SameRows-refl other db, refl))
        | inr (row, e) ↦ elim (Bool-cases (ltb row.logical_path_modified_at modified_at)) [
          | inl newer ↦
              rw (e, update_file_logical_path)
                (rw newer (
                  put_row-Untouched
                    (record row { logical_path = path; logical_path_modified_at = modified_at })
                    db))
          | inr older ↦ rw (e, update_file_logical_path) (rw older ((SameRows-refl other db, refl)))
        ]
      ]

  -- A relationship whose target is another file, or a tag.
  pub relate-Untouched :
      (e : RelationshipEntry) (db : CatalogStore)
      → ((tag_id : ℕ) → e.key ≢ record { tag_id = tag_id; target_id = other; kind = file })
      → Untouched other db (apply_relationship e db)
  unfolding apply_relationship
  relate-Untouched e db apart = (
    record {
      same_file = refl;
      same_versions = refl;
      same_previews = refl;
      same_entries = λ tag_id.
          lookup-upsert (record { tag_id = tag_id; target_id = other; kind = file }) e db.entries
          ∙ else_here _ _ e.key (record { tag_id = tag_id; target_id = other; kind = file })
              (apart tag_id);
    },
    refl,
  )
