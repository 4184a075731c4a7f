-- ===== src/Tests/Plans.antt =====
-- Reconciliation at concrete inputs: a file that is live on one device and deleted on another.
use tagsy.Prelude.{
  All, Bool, [], contains, false, if◌then◌else◌, lookup, max, refl, some, true, ℕ, ◌++◌, ◌||◌, ◌∷◌,
  ◌≡◌, string_eq, nat_eq,
}
use tagsy.Store.{CatalogStore, FileRow, entry_key_eq}
use tagsy.Store.Versions.{
  HistoryItem, latest_observed_at, latest_version, newest, order_by_number, version_history,
}
use tagsy.Store.Files.{apply_restore, file_deletion_state, remove_file}
use tagsy.Peer.Plan.{ManifestEntry, empty_plan}
use tagsy.Peer.Plan.Manifest.{batch_manifest, build_local_manifest}
use tagsy.Peer.Plan.Entry.{plan_entry, plan_file_sync, restore_content}
use tagsy.Peer.Plan.Purge.{apply_purges, plan_purge_sync}
use tagsy.Peer.Plan.Batches.{Fits, batch_manifest_lem, flatten}
use tagsy.Peer.Plan.Purges.{is_settled, plan_purge_sync_lem}
use tagsy.Peer.Plan.Agreement.{plan_entry-remove_file, restore_content-apply_restore}
use tagsy.Peer.Plan.SelfSync.{own_entry, plan_file_sync-build_local_manifest}
use tagsy.Peer.Plan.Ties.{plan_entry-tie}

abbrev row_with : Bool → ℕ → FileRow
row_with deleted deleted_at = record {
  logical_path = "a.txt";
  logical_path_modified_at = 5;
  deletion = record { deleted = deleted; deleted_at = deleted_at; restored_at = 0 };
}

abbrev device : Bool → ℕ → CatalogStore
device deleted deleted_at = record {
  files = (1, row_with deleted deleted_at) ∷ [];
  versions =
      record {
        file_id = 1;
        content_hash = "h1";
        observed_at = 10;
        version_number = 1;
        origin = "here";
        size = 3;
      }
      ∷ [];
  previews = [];
  tags = [];
  entries = [];
  purged = 2 ∷ [];
}

abbrev first_item : HistoryItem
first_item = record { version_number = 1; content_hash = "h1"; size = 3 }

abbrev entry_of : Bool → ℕ → ℕ → ManifestEntry
entry_of deleted deleted_at restored_at = record {
  file_id = 1;
  history = first_item ∷ [];
  latest_observed_at = 10;
  logical_path = "a.txt";
  logical_path_modified_at = 5;
  deleted = deleted;
  deleted_at = deleted_at;
  restored_at = restored_at;
}

plan_entry-remove_file_example : plan_entry (device false 0) (entry_of true 30 0) empty_plan ≡ (
    if (remove_file 1 30 (device false 0)).1
    then record empty_plan { deletions = [] ++ record { file_id = 1; deleted_at = 30 } ∷ [] }
    else empty_plan)
unfolding lookup
plan_entry-remove_file_example =
    plan_entry-remove_file (device false 0) (entry_of true 30 0) (row_with false 0) empty_plan refl
      refl refl

restore_content-apply_restore_example :
    ((apply_restore 1 40 (device true 30)).1 ≡ true)
    × (file_deletion_state 1 (apply_restore 1 40 (device true 30)).0
        ≡ some (record { deleted = false; deleted_at = 30; restored_at = max 0 40 }))
unfolding lookup restore_content file_deletion_state
restore_content-apply_restore_example =
    restore_content-apply_restore (device true 30) (entry_of false 0 40) (row_with true 30)
      (some first_item) first_item refl refl

plan_file_sync-build_local_manifest_example :
    plan_file_sync (build_local_manifest (device true 30)) (device true 30) ≡ empty_plan
unfolding lookup
plan_file_sync-build_local_manifest_example =
    plan_file_sync-build_local_manifest (device true 30) (refl, tt)

plan_entry-tie_example :
    (plan_entry
        (device false 0)
        (own_entry 1 (row_with true 10) first_item [] (device true 10))
        empty_plan
      ≡ empty_plan)
    × (plan_entry
          (device true 10)
          (own_entry 1 (row_with false 0) first_item [] (device false 0))
          empty_plan
        ≡ empty_plan)
unfolding lookup latest_observed_at version_history latest_version newest order_by_number
plan_entry-tie_example =
    plan_entry-tie (device false 0) (device true 10) 1 (row_with false 0) (row_with true 10)
      first_item [] empty_plan refl refl refl refl refl refl refl refl refl

batch_manifest_lem_example :
    (flatten (batch_manifest (entry_of false 0 0 ∷ entry_of true 30 0 ∷ []) 1)
      ≡ entry_of false 0 0 ∷ entry_of true 30 0 ∷ [])
    × All (Fits (max 1 1)) (batch_manifest (entry_of false 0 0 ∷ entry_of true 30 0 ∷ []) 1)
batch_manifest_lem_example = batch_manifest_lem (entry_of false 0 0 ∷ entry_of true 30 0 ∷ []) 1

abbrev purged_after : CatalogStore
purged_after = apply_purges (plan_purge_sync (1 ∷ 2 ∷ []) (device false 0)) (device false 0)

plan_purge_sync_lem_example :
    ((id : ℕ)
      → is_settled id purged_after ≡ (contains id (1 ∷ 2 ∷ []) || is_settled id (device false 0)))
    × (plan_purge_sync (1 ∷ 2 ∷ []) purged_after ≡ [])
plan_purge_sync_lem_example = plan_purge_sync_lem (1 ∷ 2 ∷ []) (device false 0)
