-- ===== src/Peer/Plan/SelfSync.antt =====
-- Entries that tell a catalog nothing new.
use text.Mathlib.TextPositions.{eq_refl}
use tagsy.Prelude.{
  Bool, Bool-cases, Dict, IsKeyed, List, Option, [], ap, arith, false, inl, inr, last, lookup, none,
  refl, some, true, ℕ, ◌∙◌, ◌∷◌, ◌≡◌, ◌≢◌, ◌≤◌, string_eq, nat_eq,
}
use tagsy.Store.{CatalogStore, DeletionState, FileRow, entry_key_eq}
use tagsy.Store.Versions.{HistoryItem, latest_observed_at, version_history}
use tagsy.Store.Files.{file_exists, logical_path_modified_at}
use tagsy.Store.Files.Branches.{deletion_state-some}
use tagsy.Peer.Plan.Manifest.{build_local_manifest, manifest_entry, manifest_rows, push_entry}
use tagsy.Peer.Plan.{ManifestEntry, SyncPlan, empty_plan}
use tagsy.Peer.Plan.Decide.{decide_latest, decide_ours, decide_request, decide_theirs, nothing}
use tagsy.Peer.Plan.Entry.{
  plan_content, plan_deleted, plan_entries, plan_entry, plan_file_sync, plan_live, plan_move,
  restore_content,
}

last-cons {ℓ} : {A : Type ℓ} (x : A) (xs : List A) → (a : A) × (last (x ∷ xs) ≡ some a)
last-cons x [] = (x, refl)
last-cons x (y ∷ ys) = last-cons y ys

plan_content-nothing :
    (known : Bool) (entry : ManifestEntry) (latest : Option HistoryItem) (plan : SyncPlan)
    → plan_content known entry nothing latest plan ≡ plan
unfolding plan_content
plan_content-nothing known entry none plan = refl
plan_content-nothing known entry (some item) plan = refl

-- The entry of a file whose history we have and whose clocks are not ahead of ours.
pub record IsCurrent (db : CatalogStore) (entry : ManifestEntry) (row : FileRow) : Type 0 where
  pub known_row : lookup entry.file_id db.files ≡ some row
  pub same_history : version_history entry.file_id db ≡ entry.history
  pub has_version : entry.history ≢ []
  pub old_edit : entry.latest_observed_at ≤ latest_observed_at entry.file_id db
  pub old_path : entry.logical_path_modified_at ≤ row.logical_path_modified_at

module _ (db : CatalogStore) (entry : ManifestEntry) (row : FileRow)
    (c : IsCurrent db entry row) where
  decide_ours-same :
      (history : List HistoryItem)
      → entry.history ≡ history
      → decide_ours db entry entry.history (last history) ≡ nothing
  unfolding decide_ours decide_theirs decide_latest
  decide_ours-same [] h = ground (arith, c.has_version h)
  decide_ours-same (x ∷ xs) h =
      let newest = last-cons x xs in
      ground (arith, newest.1, eq_refl newest.0.content_hash, c.old_edit, ap last h)

  decide_request-nothing : decide_request db entry ≡ nothing
  unfolding decide_request
  decide_request-nothing = rw (c.same_history) (decide_ours-same entry.history refl)

  plan_live-nothing : (plan : SyncPlan) → plan_live db entry none plan ≡ plan
  unfolding plan_live plan_move file_exists logical_path_modified_at
  plan_live-nothing plan = ground (
    arith,
    c.known_row,
    c.old_path,
    decide_request-nothing,
    plan_content-nothing true entry (last entry.history) plan,
  )

  -- Nothing is planned for a live entry, unless it restores a file that is deleted here.
  pub plan_entry-nothing :
      (plan : SyncPlan)
      → entry.deleted ≡ false
      → restore_content entry (some row.deletion) (last entry.history) ≡ none
      → plan_entry db entry plan ≡ plan
  unfolding plan_entry
  plan_entry-nothing plan live kept = ground (
    arith,
    live,
    deletion_state-some entry.file_id db row c.known_row,
    kept,
    plan_live-nothing plan,
  )

-- Every row of the first table is found in the second.
abbrev Found : Dict ℕ FileRow → Dict ℕ FileRow → Type 0
Found [] d = Unit
Found ((k, v) ∷ rows) d = (lookup k d ≡ some v) × Found rows d

Found-cons :
    (k : ℕ) (v : FileRow) (rows d : Dict ℕ FileRow)
    → lookup k rows ≡ none
    → Found rows d
    → Found rows ((k, v) ∷ d)
unfolding lookup
Found-cons k v [] d h f = tt
Found-cons k v ((j, w) ∷ rows) d h f =
    (ground (arith, f.0), Found-cons k v rows d (ground arith) f.1)

IsKeyed-Found : (d : Dict ℕ FileRow) → IsKeyed d → Found d d
unfolding lookup
IsKeyed-Found [] h = tt
IsKeyed-Found ((k, v) ∷ d) h = (ground arith, Found-cons k v d d h.0 (IsKeyed-Found d h.1))

-- The entry of a row with a history.
abbrev pub own_entry : ℕ → FileRow → HistoryItem → List HistoryItem → CatalogStore → ManifestEntry
own_entry id row item items db = record {
  file_id = id;
  history = item ∷ items;
  latest_observed_at = latest_observed_at id db;
  logical_path = row.logical_path;
  logical_path_modified_at = row.logical_path_modified_at;
  deleted = row.deleted;
  deleted_at = row.deleted_at;
  restored_at = row.restored_at;
}

-- A tombstone says nothing to a catalog that holds one.
pub plan_entry-buried :
    (db : CatalogStore) (entry : ManifestEntry) (row : FileRow) (plan : SyncPlan)
    → lookup entry.file_id db.files ≡ some row
    → row.deleted ≡ true
    → entry.deleted ≡ true
    → plan_entry db entry plan ≡ plan
unfolding plan_entry plan_deleted
plan_entry-buried db entry row plan e dead told =
    rw (told, deletion_state-some entry.file_id db row e) (ground arith)

pub cons≢nil {ℓ} : {A : Type ℓ} (x : A) (xs : List A) → x ∷ xs ≢ []
cons≢nil x xs h = ground arith

restore_content-live :
    (entry : ManifestEntry) (state : DeletionState)
    → state.deleted ≡ false
    → restore_content entry (some state) (last entry.history) ≡ none
unfolding restore_content
restore_content-live entry state live = ground arith

own_entry-nothing :
    (db : CatalogStore) (id : ℕ) (row : FileRow) (item : HistoryItem) (items : List HistoryItem)
    (plan : SyncPlan)
    → lookup id db.files ≡ some row
    → version_history id db ≡ item ∷ items
    → plan_entry db (own_entry id row item items db) plan ≡ plan
own_entry-nothing db id row item items plan e h =
    let entry = own_entry id row item items db in
    elim (Bool-cases row.deleted) [
      | inl dead ↦ plan_entry-buried db entry row plan e dead dead
      | inr live ↦
          plan_entry-nothing db entry row
            (record {
              known_row = e;
              same_history = h;
              has_version = cons≢nil item items;
              old_edit = omega arith;
              old_path = omega arith;
            })
            plan live (restore_content-live entry row.deletion live)
    ]

push_entry-nothing :
    (db : CatalogStore) (id : ℕ) (row : FileRow) (history : List HistoryItem)
    (entries : List ManifestEntry) (plan : SyncPlan)
    → lookup id db.files ≡ some row
    → version_history id db ≡ history
    → plan_entries db entries plan ≡ plan
    → plan_entries db (push_entry (manifest_entry id row history db) entries) plan ≡ plan
unfolding plan_entries manifest_entry
push_entry-nothing db id row [] entries plan e h rest = rest
push_entry-nothing db id row (item ∷ items) entries plan e h rest =
    ap (plan_entries db entries) (own_entry-nothing db id row item items plan e h) ∙ rest

rows-nothing :
    (db : CatalogStore) (rows : Dict ℕ FileRow) (plan : SyncPlan)
    → Found rows db.files
    → plan_entries db (manifest_rows rows db) plan ≡ plan
unfolding manifest_rows plan_entries
rows-nothing db [] plan f = refl
rows-nothing db ((id, row) ∷ rows) plan f =
    push_entry-nothing db id row (version_history id db) (manifest_rows rows db) plan f.0 refl
      (rows-nothing db rows plan f.1)

-- A catalog whose files have distinct ids plans nothing from its own manifest.
pub plan_file_sync-build_local_manifest :
    (db : CatalogStore)
    → IsKeyed db.files
    → plan_file_sync (build_local_manifest db) db ≡ empty_plan
unfolding plan_file_sync build_local_manifest
plan_file_sync-build_local_manifest db keyed =
    rows-nothing db db.files empty_plan (IsKeyed-Found db.files keyed)
