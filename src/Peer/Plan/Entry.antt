-- ===== src/Peer/Plan/Entry.antt =====
-- tagsyd/src/peer/plan.rs: what to do with each entry of a peer's file manifest.
use tagsy.Prelude.{
  Bool, List, Option, [], if◌then◌else◌, last, ltb, max, none, some, ℕ, ◌&&◌, ◌++◌, ◌∷◌, nat_eq,
  string_eq,
}
use tagsy.Store.{CatalogStore, DeletionState, entry_key_eq}
use tagsy.Store.Versions.{HistoryItem, latest_observed_at}
use tagsy.Store.Files.{file_deletion_state, file_exists, logical_path_modified_at}
use tagsy.Peer.Plan.{
  CreateTombstone, ManifestEntry, MaterializePlacement, MissingContent, NewerVersion, PeerMove,
  PeerRestore, SyncPlan, change, create, empty_plan,
}
use tagsy.Peer.Plan.Decide.{
  ReconcileDecision, decide_request, divergent, nothing, record_version, request,
}

-- An advertised tombstone of a file that is not in our catalog.
unfoldable pub plan_unseen_delete : ManifestEntry → Option HistoryItem → SyncPlan → SyncPlan
plan_unseen_delete entry none plan = plan
plan_unseen_delete entry (some item) plan = record plan {
  create_tombstones = plan.create_tombstones ++ tombstone ∷ [];
}
  where
    tombstone : CreateTombstone
    tombstone = record {
      file_id = entry.file_id;
      logical_path = entry.logical_path;
      logical_path_modified_at = entry.logical_path_modified_at;
      content_hash = item.content_hash;
      size = item.size;
      observed_at = entry.latest_observed_at;
      deleted_at = entry.deleted_at;
      restored_at = entry.restored_at;
    }

unfoldable pub plan_deleted :
    CatalogStore → ManifestEntry → Option DeletionState → SyncPlan → SyncPlan
unfolding plan_unseen_delete
plan_deleted db entry none plan = plan_unseen_delete entry (last entry.history) plan
plan_deleted db entry (some ours) plan =
    if ours.deleted
    then plan
    else if ltb (max (latest_observed_at entry.file_id db) ours.restored_at) entry.deleted_at
    then record plan {
      deletions =
          plan.deletions ++ record { file_id = entry.file_id; deleted_at = entry.deleted_at } ∷ [];
    }
    else plan

-- The chain of `if let` conditions under which an advertised restore is adopted, with the content
-- that it names.
unfoldable pub restore_content :
    ManifestEntry → Option DeletionState → Option HistoryItem → Option HistoryItem
restore_content entry none item = none
restore_content entry (some state) item =
    if ltb 0 entry.restored_at && state.deleted && ltb state.deleted_at entry.restored_at
    then item
    else none

unfoldable pub plan_move : ManifestEntry → Option ℕ → SyncPlan → SyncPlan
plan_move entry none plan = plan
plan_move entry (some ours) plan =
    if ltb ours entry.logical_path_modified_at
    then record plan { moves = plan.moves ++ moved ∷ [] }
    else plan
  where
    moved : PeerMove
    moved = record {
      file_id = entry.file_id;
      logical_path = entry.logical_path;
      modified_at = entry.logical_path_modified_at;
    }

unfoldable pub placement_for_request : Bool → ManifestEntry → MaterializePlacement
placement_for_request known entry = if known then change else create entry.logical_path []

unfoldable pub plan_pull : Bool → ManifestEntry → HistoryItem → SyncPlan → SyncPlan
unfolding placement_for_request
plan_pull known entry item plan = record plan { pulls = plan.pulls ++ missing ∷ [] }
  where
    missing : MissingContent
    missing = record {
      file_id = entry.file_id;
      content_hash = item.content_hash;
      size = item.size;
      logical_path_modified_at = entry.logical_path_modified_at;
      observed_at = entry.latest_observed_at;
      placement = placement_for_request known entry;
    }

unfoldable pub plan_version : ManifestEntry → HistoryItem → SyncPlan → SyncPlan
plan_version entry item plan = record plan { versions = plan.versions ++ version ∷ [] }
  where
    version : NewerVersion
    version = record {
      file_id = entry.file_id;
      content_hash = item.content_hash;
      size = item.size;
      observed_at = entry.latest_observed_at;
    }

-- The match on the decision, with the peer's latest item.
unfoldable pub plan_content :
    Bool → ManifestEntry → ReconcileDecision → Option HistoryItem → SyncPlan → SyncPlan
unfolding plan_pull plan_version
plan_content known entry decision none plan = plan
plan_content known entry nothing (some item) plan = plan
plan_content known entry record_version (some item) plan = plan_version entry item plan
plan_content known entry (request reason) (some item) plan = plan_pull known entry item plan
plan_content known entry (divergent ours wins) (some item) plan =
    if wins then plan_pull known entry item plan else plan

unfoldable pub plan_live : CatalogStore → ManifestEntry → Option HistoryItem → SyncPlan → SyncPlan
unfolding plan_move plan_content
plan_live db entry (some item) plan = record plan { restores = plan.restores ++ restore ∷ [] }
  where
    restore : PeerRestore
    restore = record {
      file_id = entry.file_id;
      restored_at = entry.restored_at;
      content_hash = item.content_hash;
      size = item.size;
    }
plan_live db entry none plan =
    let known : Bool = file_exists entry.file_id db in
    let moved : SyncPlan =
      if known then plan_move entry (logical_path_modified_at entry.file_id db) plan else plan in
    plan_content known entry (decide_request db entry) (last entry.history) moved

unfoldable pub plan_entry : CatalogStore → ManifestEntry → SyncPlan → SyncPlan
unfolding plan_deleted restore_content plan_live
plan_entry db entry plan =
    let ours : Option DeletionState = file_deletion_state entry.file_id db in
    if entry.deleted
    then plan_deleted db entry ours plan
    else plan_live db entry (restore_content entry ours (last entry.history)) plan

unfoldable pub plan_entries : CatalogStore → List ManifestEntry → SyncPlan → SyncPlan
plan_entries db [] plan = plan
plan_entries db (entry ∷ entries) plan = plan_entries db entries (plan_entry db entry plan)

unfoldable pub plan_file_sync : List ManifestEntry → CatalogStore → SyncPlan
unfolding plan_entries plan_entry
plan_file_sync entries db = plan_entries db entries empty_plan
