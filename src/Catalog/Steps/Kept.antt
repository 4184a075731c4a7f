-- ===== src/Catalog/Steps/Kept.antt =====
-- What every write of the commands keeps.
use tagsy.Prelude.{
  Bool, Bool-cases, ap, arith, contains, false, inl, inr, refl, subst, sym, true, ℕ, ◌+◌, ◌∙◌, ◌≡◌,
  nat_eq, string_eq,
}
use tagsy.Store.{CatalogStore, entry_key_eq}
use tagsy.Store.Files.{apply_restore, file_exists}
use tagsy.Store.Files.Others.{apply_restore-Untouched}
use tagsy.Store.Files.Tombstones.{IsCached, apply_restore-IsCached}
use tagsy.Store.Files.Branches.{apply_restore-none}
use tagsy.Store.Purged.{is_purged}
use tagsy.Store.Listing.{purge_previews}
use tagsy.Catalog.Steps.{Step}
use tagsy.Catalog.Steps.Purging.{IsPurgeSafe, Step-IsPurgeSafe, other-IsPurgeSafe}
use tagsy.Catalog.Steps.Caching.{Step-IsCached, same-IsCached}
use tagsy.Catalog.Steps.Writes.{Onward, Wrote-Onward, Wrote-apply_restore}
use tagsy.Catalog.Steps.Latest.{Step-Onward, Step-is_purged}
use tagsy.Catalog.Steps.Commands.{
  Writes, add_tombstoned_file-new, clears, entombed, restores, stepped, tombed, tombed-IsCached,
  tombed-Onward, tombed-Untouched, unwritten,
}

restores-IsPurgeSafe :
    (file_id restored_at : ℕ) (db : CatalogStore)
    → IsPurgeSafe db
    → IsPurgeSafe (apply_restore file_id restored_at db).0
restores-IsPurgeSafe file_id restored_at db safe = elim (Bool-cases (is_purged file_id db)) [
  | inl gone ↦ rw (apply_restore-none file_id db restored_at ((safe file_id gone).no_file)) safe
  | inr free ↦
      other-IsPurgeSafe file_id db (apply_restore file_id restored_at db).0 free
        (λ other ne. apply_restore-Untouched file_id other ne restored_at db) safe
]

clears-IsPurgeSafe : (db : CatalogStore) → IsPurgeSafe db → IsPurgeSafe (purge_previews db)
unfolding purge_previews is_purged
clears-IsPurgeSafe db safe id h = record {
  no_file = (safe id h).no_file;
  no_versions = (safe id h).no_versions;
  no_previews = refl;
  no_entries = (safe id h).no_entries;
}

pub Writes-IsPurgeSafe :
    {sound : Bool} {db after : CatalogStore}
    → Writes sound db after
    → IsPurgeSafe db
    → IsPurgeSafe after
Writes-IsPurgeSafe unwritten safe = safe
Writes-IsPurgeSafe (stepped w s) safe = Step-IsPurgeSafe s (Writes-IsPurgeSafe w safe)
Writes-IsPurgeSafe (entombed {b} w f p m c s o g d r free new says e) safe =
    subst IsPurgeSafe (sym (e ∙ add_tombstoned_file-new f p m c s o g d r b new)) (
      other-IsPurgeSafe f b (tombed f p m c s o g d r b new) free
        (λ other ne. tombed-Untouched f p m c s o g d r b new other ne) (Writes-IsPurgeSafe w safe))
Writes-IsPurgeSafe (restores {b} w f t e) safe =
    subst IsPurgeSafe (sym e) (restores-IsPurgeSafe f t b (Writes-IsPurgeSafe w safe))
Writes-IsPurgeSafe (clears {b} w e) safe =
    subst IsPurgeSafe (sym e) (clears-IsPurgeSafe b (Writes-IsPurgeSafe w safe))

pub Writes-IsCached :
    {db after : CatalogStore} → Writes true db after → IsCached db → IsCached after
unfolding purge_previews
Writes-IsCached unwritten c = c
Writes-IsCached (stepped w s) c = Step-IsCached s (Writes-IsCached w c)
Writes-IsCached (entombed {b} w f p m h s o g d r free new says e) c =
    subst IsCached (sym (e ∙ add_tombstoned_file-new f p m h s o g d r b new))
      (tombed-IsCached f p m h s o g d r b new (says refl) (Writes-IsCached w c))
Writes-IsCached (restores {b} w f t e) c =
    subst IsCached (sym e) (apply_restore-IsCached f b t (Writes-IsCached w c))
Writes-IsCached (clears {b} w e) c =
    subst IsCached (sym e) (same-IsCached b (purge_previews b) refl refl (Writes-IsCached w c))

Onward-trans : (id : ℕ) (a b c : CatalogStore) → Onward id a b → Onward id b c → Onward id a c
Onward-trans id a b c h k = (k.0, omega (arith, h.1, k.1))

unpurged :
    {b c : CatalogStore} → Step b c → (id : ℕ) → is_purged id c ≡ false → is_purged id b ≡ false
unpurged {b} {c} s id spared = elim (Bool-cases (is_purged id b)) [
  | inl gone ↦ absurd (ground (arith, Step-is_purged s id gone, spared))
  | inr free ↦ free
]

pub Writes-Onward :
    {sound : Bool} {db after : CatalogStore}
    → Writes sound db after
    → (id : ℕ) → is_purged id after ≡ false
    → file_exists id db ≡ true
    → Onward id db after
unfolding is_purged purge_previews
Writes-Onward unwritten id spared known = (known, omega arith)
Writes-Onward {sound} {db} {after} (stepped {b} w s) id spared known =
    let free = unpurged s id spared in
    let before : Onward id db b = Writes-Onward w id free known in
    Onward-trans id db b after before (Step-Onward s id spared before.0)
Writes-Onward {sound} {db} {after} (entombed {b} w f p m c s o g d r free new says e) id spared
      known =
    let same = e ∙ add_tombstoned_file-new f p m c s o g d r b new in
    let before : Onward id db b =
      Writes-Onward w id
        (ap (contains id) (sym (ap (λ (x : CatalogStore). x.purged) same)) ∙ spared) known in
    Onward-trans id db b after before
      (subst (Onward id b) (sym same) (tombed-Onward f p m c s o g d r b new id before.0))
Writes-Onward {sound} {db} {after} (restores {b} w f t e) id spared known =
    let kept = (apply_restore-Untouched f (f + 1) (omega arith) t b).1 in
    let before : Onward id db b =
      Writes-Onward w id
        (ap (contains id) (sym (ap (λ (x : CatalogStore). x.purged) e ∙ kept)) ∙ spared) known in
    Onward-trans id db b after before (
      subst (Onward id b) (sym e)
        (Wrote-Onward f id b (apply_restore f t b).0 (Wrote-apply_restore f b t) before.0))
Writes-Onward {sound} {db} {after} (clears {b} w e) id spared known =
    let before : Onward id db b =
      Writes-Onward w id (ap (contains id) (sym (ap (λ (x : CatalogStore). x.purged) e)) ∙ spared)
        known in
    Onward-trans id db b after before (
      subst (Onward id b) (sym e)
        (Wrote-Onward 0 id b (purge_previews b) (refl, inl refl) before.0))
