-- ===== src/Catalog/Steps/Writer.antt =====
-- What the writer keeps, whatever the commands and their order.
use tagsy.Prelude.{
  All, Bool, Bool-cases, List, Option, String, [], arith, false, if◌then◌else◌, inl, inr, not, refl,
  subst, sym, true, ℕ, ◌∷◌, ◌≡◌, ◌≤◌, nat_eq, string_eq,
}
use tagsy.Store.{CatalogStore, Result, err, ok, entry_key_eq}
use tagsy.Store.Files.{add_file, add_tombstoned_file, file_exists}
use tagsy.Store.Purged.{is_purged}
use tagsy.Peer.Plan.{MaterializePlacement}
use tagsy.Catalog.{Change, ChangeOrigin, Context, outcome}
use tagsy.Catalog.Files.{
  apply_arm, apply_file_change, is_guarded, purge_guard_file_id, supersedes_latest, tag_all,
}
use tagsy.Catalog.Tagging.{apply_tag_change}
use tagsy.Catalog.Reconcile.{catalog_file, catalog_new, catalog_tombstone, catalog_version}
use tagsy.Catalog.Apply.{apply_all, apply_metadata_change, local_origin}
use tagsy.Catalog.Inbox.{
  CatalogCommand, catalog, clear_previews, delete_duplicates, handle_all, handle_command,
  materialized, meta, purge_broken, purge_deleted, reconcile_placement, restore_here, restored,
  tombstone, unless_dry,
}
use tagsy.Catalog.Steps.Commands.{
  SaysDeleted, Steps-Writes, Writes, Writes-trans, clears, entombed, restores, unwritten,
}
use tagsy.Catalog.Steps.Kept.{Writes-IsCached, Writes-IsPurgeSafe, Writes-Onward}
use tagsy.Catalog.Steps.{Steps, Steps-trans, here, introduce, take_newer}
use tagsy.Catalog.Steps.Handlers.{one-Step, superseding-le, taken, taken-Steps}
use tagsy.Store.Files.Tombstones.{IsCached}
use tagsy.Catalog.Steps.Purging.{IsPurgeSafe}
use tagsy.Store.Versions.{latest_observed_at}
use tagsy.Catalog.Forward.{version_origin}

apply_metadata_change-Steps :
    (context : Context) (origin : ChangeOrigin) (announced : Change) (db : CatalogStore)
    → Steps db (apply_metadata_change context origin announced db).0
unfolding apply_metadata_change apply_file_change apply_arm apply_tag_change taken
apply_metadata_change-Steps context origin announced db =
    elim (Bool-cases (is_guarded (purge_guard_file_id announced) db)) [
      | inl purged ↦ rw purged here
      | inr free ↦ rw free (taken-Steps context origin announced db free)
    ]

module _ (context : Context) (file_id : ℕ) (path : String) (modified_at : ℕ) (content_hash : String)
    (size observed_at : ℕ) (origin : ChangeOrigin) (pull : Option MaterializePlacement)
    (db : CatalogStore) (free : is_purged file_id db ≡ false) where
  catalog_new-Steps :
      (found : Result CatalogStore)
      → file_exists file_id db ≡ false
      → add_file file_id path modified_at db ≡ found
      → Steps db
          (catalog_new context file_id path modified_at content_hash size observed_at origin pull db
            found).database
  unfolding catalog_new catalog_version tag_all
  catalog_new-Steps (err e) new added = here
  catalog_new-Steps (ok a) new added = one-Step (
      introduce file_id path modified_at [] origin content_hash size observed_at free new added
        refl)

catalog_file-Steps :
    (context : Context) (file_id : ℕ) (path : String) (modified_at : ℕ) (content_hash : String)
    (size observed_at : ℕ) (origin : ChangeOrigin) (pull : Option MaterializePlacement)
    (db : CatalogStore)
    → Steps db
        (catalog_file context file_id path modified_at content_hash size observed_at origin pull
          db).database
unfolding catalog_file
catalog_file-Steps context f p m c s t o pull db = elim (Bool-cases (is_purged f db)) [
  | inl purged ↦ rw purged here
  | inr free ↦ rw free (elim (Bool-cases (file_exists f db)) [
    | inl known ↦ rw known (elim (Bool-cases (supersedes_latest f t db)) [
      | inl newer ↦
          rw newer (one-Step (take_newer f o c s t free (superseding-le f t db newer) refl))
      | inr older ↦ rw older here
    ])
    | inr new ↦
        subst
          (λ b.
            Steps db
              (if not b
                then catalog_new context f p m c s t o pull db (add_file f p m db)
                else if not (supersedes_latest f t db)
                then outcome db [] false
                else catalog_version context f p m c s t o pull false db).database)
          (sym new)
          (catalog_new-Steps context f p m c s t o pull db free (add_file f p m db) new refl)
  ])
]

apply_all-Steps :
    (context : Context) (changes : List Change) (db : CatalogStore)
    → Steps db (apply_all context changes db).0
unfolding apply_all
apply_all-Steps context [] db = here
apply_all-Steps context (announced ∷ changes) db =
    Steps-trans (apply_metadata_change-Steps context local_origin announced db)
      (apply_all-Steps context changes (apply_metadata_change context local_origin announced db).0)

unless_dry-Steps :
    (dry_run : Bool) (context : Context) (changes : List Change) (db : CatalogStore)
    → Steps db (unless_dry dry_run context changes db).0
unfolding apply_all
unless_dry-Steps true context changes db = here
unless_dry-Steps false context changes db = apply_all-Steps context changes db

-- The clocks of a tombstone that a command carries say that the file is deleted.
abbrev pub IsSound : CatalogCommand → Type 0
IsSound (tombstone f path m h s observed_at deleted_at restored_at o) =
    SaysDeleted observed_at deleted_at restored_at
IsSound _ = Unit

catalog_tombstone-Writes :
    (sound : Bool) (context : Context) (file_id : ℕ) (path : String) (modified_at : ℕ)
    (content_hash : String) (size observed_at deleted_at restored_at : ℕ) (origin : ChangeOrigin)
    (db : CatalogStore)
    → (sound ≡ true → SaysDeleted observed_at deleted_at restored_at)
    → Writes sound db
        (catalog_tombstone context file_id path modified_at content_hash size observed_at deleted_at
          restored_at origin db).database
unfolding catalog_tombstone add_tombstoned_file
catalog_tombstone-Writes sound context f p m c s t d r o db says =
    elim (Bool-cases (is_purged f db)) [
      | inl purged ↦ rw purged unwritten
      | inr free ↦ rw free (elim (Bool-cases (file_exists f db)) [
        | inl known ↦ rw known unwritten
        | inr new ↦
            rw new
              (entombed unwritten f p m c s t (version_origin o) d r free new says (rw new refl))
      ])
    ]

handle_command-Writes :
    (sound : Bool) (context : Context) (c : CatalogCommand) (db : CatalogStore)
    → (sound ≡ true → IsSound c)
    → Writes sound db (handle_command context c db).0
unfolding handle_command restore_here
handle_command-Writes sound context (meta origin announced) db says =
    Steps-Writes (apply_metadata_change-Steps context origin announced db)
handle_command-Writes sound context (catalog f p m c s t o pull) db says =
    Steps-Writes (catalog_file-Steps context f p m c s t o pull db)
handle_command-Writes sound context (tombstone f p m c s t d r o) db says =
    catalog_tombstone-Writes sound context f p m c s t d r o db says
handle_command-Writes sound context (materialized f content c placement) db says = unwritten
handle_command-Writes sound context (reconcile_placement f) db says = unwritten
handle_command-Writes sound context (restored f c s t) db says = restores unwritten f t refl
handle_command-Writes sound context (purge_broken dry_run missing) db says =
    Steps-Writes (unless_dry-Steps dry_run context _ db)
handle_command-Writes sound context (purge_deleted dry_run) db says =
    Steps-Writes (unless_dry-Steps dry_run context _ db)
handle_command-Writes sound context (delete_duplicates dry_run times) db says =
    Steps-Writes (unless_dry-Steps dry_run context _ db)
handle_command-Writes sound context clear_previews db says = clears unwritten refl

handle_all_sound :
    (sound : Bool) (context : Context) (commands : List CatalogCommand) (db : CatalogStore)
    → (sound ≡ true → All IsSound commands)
    → Writes sound db (handle_all context commands db).0
unfolding handle_all
handle_all_sound sound context [] db says = unwritten
handle_all_sound sound context (c ∷ commands) db says =
    Writes-trans (handle_command-Writes sound context c db (λ h. (says h).0))
      (handle_all_sound sound context commands (handle_command context c db).0 (λ h. (says h).1))

-- What any sequence of commands does to the catalog is made of the steps, of rows for files that are
-- known deleted, of restores and of clearing the previews: no other write happens, and each step
-- and each such row comes under its guard.
pub handle_all-Writes :
    (context : Context) (commands : List CatalogCommand) (db : CatalogStore)
    → Writes false db (handle_all context commands db).0
handle_all-Writes context commands db =
    handle_all_sound false context commands db (λ h. absurd (ground (arith, h)))

module _ (context : Context) (commands : List CatalogCommand) (db : CatalogStore) where
  -- Whatever commands arrive and in whatever order, no table holds a row of a purged file after
  -- them, if none did before. Local content, uploads and fresh previews are no such commands.
  pub handle_all-IsPurgeSafe : IsPurgeSafe db → IsPurgeSafe (handle_all context commands db).0
  handle_all-IsPurgeSafe safe = Writes-IsPurgeSafe (handle_all-Writes context commands db) safe

  -- Whatever commands arrive and in whatever order, the `deleted` flag of every row is what its
  -- clocks say after them, if it was before and the clocks of each tombstone that arrives say that
  -- its file is deleted.
  pub handle_all-IsCached :
      All IsSound commands → IsCached db → IsCached (handle_all context commands db).0
  handle_all-IsCached says cached =
      Writes-IsCached (handle_all_sound true context commands db (λ _. says)) cached

  -- Whatever commands arrive and in whatever order, a file that has a row and is not purged after
  -- them keeps its row, and its latest edit is no older than it was.
  pub handle_all-latest :
      (id : ℕ)
      → file_exists id db ≡ true
      → is_purged id (handle_all context commands db).0 ≡ false
      → (file_exists id (handle_all context commands db).0 ≡ true)
        × (latest_observed_at id db ≤ latest_observed_at id (handle_all context commands db).0)
  handle_all-latest id known spared =
      Writes-Onward (handle_all-Writes context commands db) id spared known
