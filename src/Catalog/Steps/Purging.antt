-- ===== src/Catalog/Steps/Purging.antt =====
-- No step of the writer brings back a purged file.
use tagsy.Prelude.{
  Bool-cases, List, String, [], ap, arith, contains, false, inl, inr, not, refl, subst, sym, true,
  ℕ, ◌&&◌, ◌+◌, ◌==◌, ◌∙◌, ◌∷◌, ◌≡◌, ◌≢◌, nat_eq, string_eq,
}
use tagsy.Store.{CatalogStore, EntryKey, file, entry_key_eq}
use tagsy.Store.Files.Others.{
  SameRows-IsStripped, SameRows-refl, SameRows-trans, Untouched, Untouched-trans,
  add_file-Untouched, apply_restore-Untouched, recorded-Untouched, relate-Untouched,
  remove_file-Untouched, restore_file-Untouched, update_file_logical_path-Untouched,
}
use tagsy.Store.Purged.{is_purged, record_purge, strip_purged_file, tags_file_in}
use tagsy.Store.Purged.Stripped.{
  IsStripped, SameRows, is_purged-record_purge, strip_purged_file_lem,
}
use tagsy.Catalog.Files.{adopt, tag_all}
use tagsy.Store.Entries.{RelationshipEntry, apply_relationship, entry, tag_file, upsert_entry}
use tagsy.Peer.Plan.Purge.{apply_purge}
use tagsy.Catalog.Forward.{version_origin}
use tagsy.Store.Versions.History.{recorded}
use tagsy.Store.Files.{
  apply_restore, file_exists, remove_file, restore_file, update_file_logical_path,
}
use tagsy.Catalog.{ChangeOrigin}
use tagsy.Catalog.Steps.{
  MayRelate, Step, bury_file, define_tags, introduce, move, purge, relate, restore, take_newer,
}

-- No table holds a row of a purged file.
abbrev pub IsPurgeSafe : CatalogStore → Type 0
IsPurgeSafe db = (id : ℕ) → is_purged id db ≡ true → IsStripped id db

-- A write to a file that is not purged, of which the other files know nothing.
pub other-IsPurgeSafe :
    (file_id : ℕ) (db after : CatalogStore)
    → is_purged file_id db ≡ false
    → ((other : ℕ) → other ≢ file_id → Untouched other db after)
    → IsPurgeSafe db
    → IsPurgeSafe after
unfolding is_purged
other-IsPurgeSafe file_id db after free same safe id h =
    let kept : after.purged ≡ db.purged = (same (file_id + 1) (omega arith)).1 in
    let held : contains id db.purged ≡ true = ap (contains id) (sym kept) ∙ h in
    SameRows-IsStripped id db after
      ((same id (λ e. ground (arith, ap (λ x. contains x db.purged) e, free, held))).0)
      (safe id held)

pub adopt-Untouched :
    (file_id other : ℕ) (origin : ChangeOrigin) (content_hash : String) (size observed_at : ℕ)
    (db : CatalogStore)
    → other ≢ file_id
    → Untouched other db (adopt origin file_id content_hash size observed_at db)
unfolding adopt
adopt-Untouched file_id other origin content_hash size observed_at db ne =
    let after : CatalogStore =
      recorded file_id content_hash (version_origin origin) size observed_at db in
    Untouched-trans other db after (restore_file file_id after)
      (recorded-Untouched file_id other ne content_hash (version_origin origin) size observed_at db)
      (restore_file-Untouched file_id other ne after)

pub tag_all-Untouched :
    (file_id other modified_at : ℕ)
    → other ≢ file_id
    → (tags : List ℕ) (db : CatalogStore) → Untouched other db (tag_all tags file_id modified_at db)
unfolding tag_all tag_file upsert_entry
tag_all-Untouched file_id other modified_at ne [] db = (SameRows-refl other db, refl)
tag_all-Untouched file_id other modified_at ne (tag_id ∷ tags) db =
    let tagged : CatalogStore = tag_file tag_id file_id modified_at db in
    Untouched-trans other db tagged (tag_all tags file_id modified_at tagged)
      (relate-Untouched file_id other ne (entry tag_id file_id file modified_at false) db
        (λ id e. ne (sym (ap (λ (key : EntryKey). key.target_id) e))))
      (tag_all-Untouched file_id other modified_at ne tags tagged)

relate-IsPurgeSafe :
    (entry : RelationshipEntry) (db : CatalogStore)
    → MayRelate entry db
    → IsPurgeSafe db
    → IsPurgeSafe (apply_relationship entry db)
unfolding is_purged apply_relationship
relate-IsPurgeSafe entry db may safe id h =
    SameRows-IsStripped id db (apply_relationship entry db)
      ((relate-Untouched (id + 1) id (omega arith) entry db
        (λ tag_id e. ground (arith, may id, h, ap (tags_file_in (λ x. x == id)) e))).0)
      (safe id h)

pub record_purge-SameRows :
    (file_id other : ℕ) (db : CatalogStore) → SameRows other db (record_purge file_id db).0
unfolding record_purge
record_purge-SameRows file_id other db = elim (Bool-cases (contains file_id db.purged)) [
  | inl old ↦ rw old (SameRows-refl other db)
  | inr new ↦ rw new (record {
    same_file = refl;
    same_versions = refl;
    same_previews = refl;
    same_entries = λ tag_id. refl;
  })
]

stripped-IsPurgeSafe :
    (file_id : ℕ) (db : CatalogStore)
    → IsPurgeSafe db
    → IsPurgeSafe (strip_purged_file file_id (record_purge file_id db).0)
unfolding is_purged
stripped-IsPurgeSafe file_id db safe id h =
    let recorded : CatalogStore = (record_purge file_id db).0 in
    elim (Bool-cases (id == file_id)) [
      | inl same ↦
          subst (λ x. IsStripped x (strip_purged_file file_id recorded)) {x = file_id} {y = id}
            (ground (arith, same))
            ((strip_purged_file_lem file_id (file_id + 1) recorded (omega arith)).0)
      | inr other ↦
          let ne : id ≢ file_id = ground (arith, other) in
          let stripped = strip_purged_file_lem file_id id recorded ne in
          SameRows-IsStripped id db (strip_purged_file file_id recorded)
            (SameRows-trans id db recorded (strip_purged_file file_id recorded)
              (record_purge-SameRows file_id id db) stripped.1)
            (safe id (
              ground (
                arith,
                (is_purged-record_purge file_id id db).0,
                ap (contains id) stripped.2,
                h,
                ne,
              )))
    ]

purge-IsPurgeSafe :
    (file_id : ℕ) (db : CatalogStore) → IsPurgeSafe db → IsPurgeSafe (apply_purge file_id db)
unfolding apply_purge
purge-IsPurgeSafe file_id db safe =
    let recorded : CatalogStore = (record_purge file_id db).0 in
    elim (Bool-cases (not (record_purge file_id db).1 && not (file_exists file_id recorded))) [
      | inl clean ↦ rw clean (λ id h.
          let known = is_purged-record_purge file_id id db in
          let ours = is_purged-record_purge file_id file_id db in
          SameRows-IsStripped id db recorded (record_purge-SameRows file_id id db) (
            safe id (
              ground (
                arith,
                known.0,
                ours.1,
                clean,
                h,
                ap (λ x. is_purged x db) {x = file_id} {y = id},
              ))))
      | inr strips ↦ rw strips (stripped-IsPurgeSafe file_id db safe)
    ]

pub Step-IsPurgeSafe :
    {db after : CatalogStore} → Step db after → IsPurgeSafe db → IsPurgeSafe after
unfolding is_purged
Step-IsPurgeSafe {db} {after} (introduce f p m tags o c s t {added} free new h e) safe =
    subst IsPurgeSafe (sym e) (
      other-IsPurgeSafe f db (adopt o f c s t (tag_all tags f m added)) free
        (λ other ne.
          Untouched-trans other db added (adopt o f c s t (tag_all tags f m added))
            (add_file-Untouched f other ne p m db h)
            (Untouched-trans other added (tag_all tags f m added)
              (adopt o f c s t (tag_all tags f m added)) (tag_all-Untouched f other m ne tags added)
              (adopt-Untouched f other o c s t (tag_all tags f m added) ne)))
        safe)
Step-IsPurgeSafe {db} {after} (take_newer f o c s t free newer e) safe = subst IsPurgeSafe (sym e) (
    other-IsPurgeSafe f db (adopt o f c s t db) free
      (λ other ne. adopt-Untouched f other o c s t db ne) safe)
Step-IsPurgeSafe {db} {after} (move f p t free e) safe = subst IsPurgeSafe (sym e) (
    other-IsPurgeSafe f db (update_file_logical_path f p t db).0 free
      (λ other ne. update_file_logical_path-Untouched f other ne p t db) safe)
Step-IsPurgeSafe {db} {after} (bury_file f t free e) safe = subst IsPurgeSafe (sym e) (
    other-IsPurgeSafe f db (remove_file f t db).0 free
      (λ other ne. remove_file-Untouched f other ne t db) safe)
Step-IsPurgeSafe {db} {after} (restore f t free e) safe = subst IsPurgeSafe (sym e) (
    other-IsPurgeSafe f db (apply_restore f t db).0 free
      (λ other ne. apply_restore-Untouched f other ne t db) safe)
Step-IsPurgeSafe {db} {after} (relate r may e) safe =
    subst IsPurgeSafe (sym e) (relate-IsPurgeSafe r db may safe)
Step-IsPurgeSafe {db} {after} (define_tags tags e) safe =
    subst IsPurgeSafe (sym e) (λ id h. safe_tags id (safe id h))
  where
    safe_tags : (id : ℕ) → IsStripped id db → IsStripped id (record db { tags = tags })
    safe_tags id s = record {
      no_file = s.no_file;
      no_versions = s.no_versions;
      no_previews = s.no_previews;
      no_entries = s.no_entries;
    }
Step-IsPurgeSafe {db} {after} (purge f e) safe =
    subst IsPurgeSafe (sym e) (purge-IsPurgeSafe f db safe)
