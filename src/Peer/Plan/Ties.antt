-- ===== src/Peer/Plan/Ties.antt =====
-- A delete that ties with the newest edit or restore on another device.
use tagsy.Prelude.{
  List, arith, false, last, lookup, max, none, some, true, ℕ, ◌∙◌, ◌∷◌, ◌≡◌, ◌≤◌, string_eq, nat_eq,
}
use tagsy.Store.{CatalogStore, DeletionState, FileRow, entry_key_eq}
use tagsy.Store.Versions.{HistoryItem, latest_observed_at, version_history}
use tagsy.Store.Files.Branches.{remove_file-some}
use tagsy.Peer.Plan.{ManifestEntry, SyncPlan}
use tagsy.Peer.Plan.Entry.{plan_entry, restore_content}
use tagsy.Peer.Plan.SelfSync.{cons≢nil, own_entry, plan_entry-nothing}
use tagsy.Peer.Plan.Agreement.{plan_entry-remove_file}

restore_content-late :
    (entry : ManifestEntry) (state : DeletionState)
    → entry.restored_at ≤ state.deleted_at
    → restore_content entry (some state) (last entry.history) ≡ none
unfolding restore_content
restore_content-late entry state late = ground arith

-- Two devices, `a` where a file is live and `b` where it is deleted, with the same history, newest
-- edit and path clock, and a delete at the very time of that edit or of the restore on `a`,
-- whichever is later: neither plans anything for the other's entry, so they go on to disagree.
pub plan_entry-tie :
    (a b : CatalogStore) (id : ℕ) (live_row dead_row : FileRow) (item : HistoryItem)
    (items : List HistoryItem) (plan : SyncPlan)
    → lookup id a.files ≡ some live_row
    → lookup id b.files ≡ some dead_row
    → live_row.deleted ≡ false
    → dead_row.deleted ≡ true
    → version_history id a ≡ item ∷ items
    → version_history id b ≡ item ∷ items
    → latest_observed_at id a ≡ latest_observed_at id b
    → live_row.logical_path_modified_at ≡ dead_row.logical_path_modified_at
    → dead_row.deleted_at ≡ max (latest_observed_at id a) live_row.restored_at
    → (plan_entry a (own_entry id dead_row item items b) plan ≡ plan)
      × (plan_entry b (own_entry id live_row item items a) plan ≡ plan)
plan_entry-tie a b id live_row dead_row item items plan ea eb live dead ha hb edits paths tie = (
  plan_entry-remove_file a (own_entry id dead_row item items b) live_row plan ea live dead
      ∙ ground (arith, remove_file-some id a dead_row.deleted_at live_row ea),
  plan_entry-nothing b (own_entry id live_row item items a) dead_row
      (record {
        known_row = eb;
        same_history = hb;
        has_version = cons≢nil item items;
        old_edit = omega arith;
        old_path = omega arith;
      })
      plan live
      (restore_content-late (own_entry id live_row item items a) dead_row.deletion (omega arith)),
)
