-- ===== src/Peer/Plan/Decide.antt =====
-- tagsyd/src/peer/plan.rs: whether to request the content that a manifest entry names. The peer's
-- name only goes to the log. A failed lookup (a fault of the database driver) is not modelled.
use tagsy.Prelude.{
  Bool, List, Option, String, contains, false, if◌then◌else◌, last, ltb, map, none, not, some, ℕ,
  ◌==◌, string_eq, nat_eq,
}
use tagsy.Store.{CatalogStore, DeletionState, entry_key_eq}
use tagsy.Store.Versions.{HistoryItem, latest_observed_at, version_history}
use tagsy.Store.Files.{file_deletion_state}
use tagsy.Peer.Plan.{ManifestEntry}

-- The static reasons of a request.
pub data Reason : Type 0 where
  unknown_file revives_latest newer_in_history we_are_behind : Reason

pub data ReconcileDecision : Type 0 where
  nothing : ReconcileDecision
  request : Reason → ReconcileDecision
  record_version : ReconcileDecision
  divergent : ℕ → Bool → ReconcileDecision

abbrev pub hashes : List HistoryItem → List String
hashes = map (λ (item : HistoryItem). item.content_hash)

abbrev is_tombstoned : Option DeletionState → Bool
is_tombstoned none = false
is_tombstoned (some state) = state.deleted

-- The match on (they_have_our_latest, we_have_their_latest).
unfoldable pub decide_between : Bool → Bool → Bool → ℕ → ReconcileDecision
decide_between they_have we_have their_newer ours_observed_at =
    if we_have
    then (if their_newer then request newer_in_history else nothing)
    else if they_have
    then request we_are_behind
    else divergent ours_observed_at their_newer

unfoldable pub decide_latest :
    CatalogStore → ManifestEntry → List HistoryItem → String → String → ReconcileDecision
unfolding decide_between
decide_latest db entry our_history our_latest their_latest =
    let ours_observed_at : ℕ = latest_observed_at entry.file_id db in
    let their_newer : Bool = ltb ours_observed_at entry.latest_observed_at in
    if our_latest == their_latest
    then (if not their_newer
        then nothing
        else if is_tombstoned (file_deletion_state entry.file_id db)
        then request revives_latest
        else record_version)
    else decide_between (contains our_latest (hashes entry.history))
        (contains their_latest (hashes our_history)) their_newer ours_observed_at

unfoldable pub decide_theirs :
    CatalogStore
    → ManifestEntry
    → List HistoryItem
    → HistoryItem
    → Option HistoryItem
    → ReconcileDecision
unfolding decide_latest
decide_theirs db entry our_history our_latest none = nothing
decide_theirs db entry our_history our_latest (some their_latest) =
    decide_latest db entry our_history our_latest.content_hash their_latest.content_hash

unfoldable pub decide_ours :
    CatalogStore → ManifestEntry → List HistoryItem → Option HistoryItem → ReconcileDecision
unfolding decide_theirs
decide_ours db entry our_history none = request unknown_file
decide_ours db entry our_history (some our_latest) =
    decide_theirs db entry our_history our_latest (last entry.history)

-- An empty history is one with no last item.
unfoldable pub decide_request : CatalogStore → ManifestEntry → ReconcileDecision
unfolding decide_ours
decide_request db entry =
    let our_history : List HistoryItem = version_history entry.file_id db in
    decide_ours db entry our_history (last our_history)
