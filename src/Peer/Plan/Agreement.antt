-- ===== src/Peer/Plan/Agreement.antt =====
-- The plan for an entry against what the catalog then does with it.
use tagsy.Prelude.{
  Option, [], ap, arith, false, if◌then◌else◌, insert, lookup, lookup-insert_here, ltb, lt→ltb, max,
  refl, some, sym, true, ℕ, ◌++◌, ◌<◌, ◌∙◌, ◌∷◌, ◌≡◌, string_eq, nat_eq,
}
use tagsy.Store.{CatalogStore, DeletionState, FileRow, entry_key_eq}
use tagsy.Store.Versions.{HistoryItem, latest_observed_at}
use tagsy.Store.Files.{apply_restore, file_deletion_state, remove_file}
use tagsy.Store.Files.Branches.{
  apply_restore-some, deletion_state-some, remove_file-some, restored_row,
}
use tagsy.Peer.Plan.{ManifestEntry, SyncPlan}
use tagsy.Peer.Plan.Entry.{plan_deleted, plan_entry, restore_content}

-- A peer's tombstone of a file that is live here is planned exactly when the catalog will apply it:
-- the plan grows by that one deletion when `remove_file` buries the file, and else by nothing.
pub plan_entry-remove_file :
    (db : CatalogStore) (entry : ManifestEntry) (row : FileRow) (plan : SyncPlan)
    → lookup entry.file_id db.files ≡ some row
    → row.deleted ≡ false
    → entry.deleted ≡ true
    → plan_entry db entry plan ≡ (
        if (remove_file entry.file_id entry.deleted_at db).1
        then record plan {
          deletions =
              plan.deletions
              ++ record { file_id = entry.file_id; deleted_at = entry.deleted_at } ∷ [];
        }
        else plan)
unfolding plan_entry plan_deleted
plan_entry-remove_file db entry row plan e live dead = ground (
  arith,
  remove_file-some entry.file_id db entry.deleted_at row e,
  deletion_state-some entry.file_id db row e,
)

restore_content-newer :
    (entry : ManifestEntry) (state : DeletionState) (latest : Option HistoryItem)
    (item : HistoryItem)
    → restore_content entry (some state) latest ≡ some item
    → (state.deleted ≡ true) × (state.deleted_at < entry.restored_at)
unfolding restore_content
restore_content-newer entry state latest item h = ground arith

-- A restore that is planned takes effect: the catalog reports the file live, and its row is.
pub restore_content-apply_restore :
    (db : CatalogStore) (entry : ManifestEntry) (row : FileRow) (latest : Option HistoryItem)
    (item : HistoryItem)
    → lookup entry.file_id db.files ≡ some row
    → restore_content entry (file_deletion_state entry.file_id db) latest ≡ some item
    → ((apply_restore entry.file_id entry.restored_at db).1 ≡ true)
      × (file_deletion_state entry.file_id (apply_restore entry.file_id entry.restored_at db).0
          ≡ some (record {
            deleted = false;
            deleted_at = row.deleted_at;
            restored_at = max row.restored_at entry.restored_at;
          }))
restore_content-apply_restore db entry row latest item e h =
    let id : ℕ = entry.file_id in
    let planned : restore_content entry (some row.deletion) latest ≡ some item =
      ap (λ (state : Option DeletionState). restore_content entry state latest)
        (sym (deletion_state-some id db row e))
      ∙ h in
    let newer = restore_content-newer entry row.deletion latest item planned in
    let after : FileRow = restored_row id db row entry.restored_at in
    let alive : ltb row.deleted_at
          (max (max row.restored_at entry.restored_at) (latest_observed_at id db))
        ≡ true =
      lt→ltb row.deleted_at _ (omega (arith, newer.1)) in
    rw (apply_restore-some id db entry.restored_at row e) (
      alive,
      deletion_state-some id (record db { files = insert id after db.files }) after
            (lookup-insert_here id after db.files)
          ∙ rw (newer.0, alive) refl,
    )
