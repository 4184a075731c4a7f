-- ===== src/Catalog/Steps/Latest.antt =====
-- No step of the writer moves the latest edit of a known file back, unless it purges the file.
use tagsy.Prelude.{
  Bool-cases, ap, arith, contains, false, inl, inr, not, refl, subst, sym, true, ℕ, ◌&&◌, ◌+◌, ◌==◌,
  ◌||◌, ◌∙◌, ◌≡◌, ◌≢◌, nat_eq, string_eq,
}
use tagsy.Store.{CatalogStore, entry_key_eq}
use tagsy.Store.Files.{apply_restore, file_exists, remove_file, update_file_logical_path}
use tagsy.Store.Files.Others.{
  Untouched-trans, add_file-Untouched, apply_restore-Untouched, remove_file-Untouched,
  update_file_logical_path-Untouched,
}
use tagsy.Store.Purged.{is_purged, record_purge, strip_purged_file}
use tagsy.Store.Purged.Stripped.{is_purged-record_purge}
use tagsy.Store.Entries.{apply_relationship}
use tagsy.Peer.Plan.Purge.{apply_purge}
use tagsy.Catalog.Files.{adopt, tag_all}
use tagsy.Catalog.Steps.{
  Step, bury_file, define_tags, introduce, move, purge, relate, restore, take_newer,
}
use tagsy.Catalog.Steps.Purging.{adopt-Untouched, tag_all-Untouched}
use tagsy.Catalog.Steps.Caching.{apply_purge-rows}
use tagsy.Catalog.Steps.Writes.{
  Onward, SameRows-Onward, Wrote-Onward, Wrote-apply_restore, Wrote-remove_file,
  Wrote-update_file_logical_path, adopt-Onward,
}

-- A write that leaves the purge set as it was.
pub same-is_purged :
    (id : ℕ) (db after : CatalogStore)
    → after.purged ≡ db.purged
    → is_purged id db ≡ true
    → is_purged id after ≡ true
unfolding is_purged
same-is_purged id db after kept h = ap (contains id) kept ∙ h

apply_purge-is_purged :
    (file_id id : ℕ) (db : CatalogStore)
    → is_purged id (apply_purge file_id db) ≡ (file_id == id || is_purged id db)
unfolding apply_purge strip_purged_file is_purged
apply_purge-is_purged file_id id db =
    let recorded : CatalogStore = (record_purge file_id db).0 in
    elim (Bool-cases (not (record_purge file_id db).1 && not (file_exists file_id recorded))) [
      | inl clean ↦ rw clean ((is_purged-record_purge file_id id db).0)
      | inr strips ↦ rw strips ((is_purged-record_purge file_id id db).0)
    ]

-- What is purged stays purged.
pub Step-is_purged :
    {db after : CatalogStore}
    → Step db after
    → (id : ℕ) → is_purged id db ≡ true
    → is_purged id after ≡ true
unfolding is_purged apply_relationship
Step-is_purged {db} {after} (introduce f p m tags o c s t {added} free new h e) id k =
    same-is_purged id db after
      (ap (λ (x : CatalogStore). x.purged) e
        ∙ (adopt-Untouched f (f + 1) o c s t (tag_all tags f m added) (omega arith)).1
        ∙ (tag_all-Untouched f (f + 1) m (omega arith) tags added).1
        ∙ (add_file-Untouched f (f + 1) (omega arith) p m db h).1)
      k
Step-is_purged {db} {after} (take_newer f o c s t free newer e) id k =
    same-is_purged id db after
      (ap (λ (x : CatalogStore). x.purged) e
        ∙ (adopt-Untouched f (f + 1) o c s t db (omega arith)).1)
      k
Step-is_purged {db} {after} (move f p t free e) id k =
    same-is_purged id db after
      (ap (λ (x : CatalogStore). x.purged) e
        ∙ (update_file_logical_path-Untouched f (f + 1) (omega arith) p t db).1)
      k
Step-is_purged {db} {after} (bury_file f t free e) id k =
    same-is_purged id db after
      (ap (λ (x : CatalogStore). x.purged) e
        ∙ (remove_file-Untouched f (f + 1) (omega arith) t db).1)
      k
Step-is_purged {db} {after} (restore f t free e) id k =
    same-is_purged id db after
      (ap (λ (x : CatalogStore). x.purged) e
        ∙ (apply_restore-Untouched f (f + 1) (omega arith) t db).1)
      k
Step-is_purged {db} {after} (relate r may e) id k =
    same-is_purged id db after (ap (λ (x : CatalogStore). x.purged) e) k
Step-is_purged {db} {after} (define_tags tags e) id k =
    same-is_purged id db after (ap (λ (x : CatalogStore). x.purged) e) k
Step-is_purged {db} {after} (purge f e) id k =
    ground (arith, ap (is_purged id) e, apply_purge-is_purged f id db, k)

pub Step-Onward :
    {db after : CatalogStore}
    → Step db after
    → (id : ℕ) → is_purged id after ≡ false
    → file_exists id db ≡ true
    → Onward id db after
unfolding apply_relationship
Step-Onward {db} {after} (introduce f p m tags o c s t {added} free new h e) id spared known =
    let ne : id ≢ f = λ same. ground (arith, ap (λ x. file_exists x db) same, new, known) in
    subst (Onward id db) (sym e) (
      SameRows-Onward id db (adopt o f c s t (tag_all tags f m added))
        ((Untouched-trans id db added (adopt o f c s t (tag_all tags f m added))
          (add_file-Untouched f id ne p m db h)
          (Untouched-trans id added (tag_all tags f m added)
            (adopt o f c s t (tag_all tags f m added)) (tag_all-Untouched f id m ne tags added)
            (adopt-Untouched f id o c s t (tag_all tags f m added) ne))).0)
        known)
Step-Onward {db} {after} (take_newer f o c s t free newer e) id spared known =
    subst (Onward id db) (sym e) (adopt-Onward f id o c s t db newer known)
Step-Onward {db} {after} (move f p t free e) id spared known = subst (Onward id db) (sym e) (
    Wrote-Onward f id db (update_file_logical_path f p t db).0
      (Wrote-update_file_logical_path f db p t) known)
Step-Onward {db} {after} (bury_file f t free e) id spared known =
    subst (Onward id db) (sym e)
      (Wrote-Onward f id db (remove_file f t db).0 (Wrote-remove_file f db t) known)
Step-Onward {db} {after} (restore f t free e) id spared known =
    subst (Onward id db) (sym e)
      (Wrote-Onward f id db (apply_restore f t db).0 (Wrote-apply_restore f db t) known)
Step-Onward {db} {after} (relate r may e) id spared known =
    subst (Onward id db) (sym e)
      (Wrote-Onward 0 id db (apply_relationship r db) (refl, inl refl) known)
Step-Onward {db} {after} (define_tags tags e) id spared known =
    subst (Onward id db) (sym e)
      (Wrote-Onward 0 id db (record db { tags = tags }) (refl, inl refl) known)
Step-Onward {db} {after} (purge f e) id spared known =
    subst (Onward id db) (sym e) (elim (apply_purge-rows f id db) [
      | inl gone ↦
          absurd
            (ground (arith, gone.1, ap (is_purged id) e, apply_purge-is_purged f id db, spared))
      | inr rows ↦ SameRows-Onward id db (apply_purge f db) rows known
    ])
