-- ===== src/Peer/Plan/Manifest.antt =====
-- tagsyd/src/peer/plan.rs and store/files.rs: the manifest of the local catalog, and its batches.
use tagsy.Prelude.{
  Dict, List, Option, [], drop, length, max, none, some, suc, take, zero, ℕ, ◌∷◌, nat_eq, string_eq,
}
use tagsy.Store.{CatalogStore, FileRow, entry_key_eq}
use tagsy.Store.Versions.{HistoryItem, latest_observed_at, version_history}
use tagsy.Peer.Plan.{ManifestEntry}

-- `manifest_entries` of store/files.rs: files without a version are skipped.
unfoldable pub manifest_entry : ℕ → FileRow → List HistoryItem → CatalogStore → Option ManifestEntry
manifest_entry file_id row [] db = none
manifest_entry file_id row (item ∷ items) db = some (record {
  file_id = file_id;
  history = item ∷ items;
  latest_observed_at = latest_observed_at file_id db;
  logical_path = row.logical_path;
  logical_path_modified_at = row.logical_path_modified_at;
  deleted = row.deleted;
  deleted_at = row.deleted_at;
  restored_at = row.restored_at;
})

abbrev pub push_entry : Option ManifestEntry → List ManifestEntry → List ManifestEntry
push_entry none entries = entries
push_entry (some entry) entries = entry ∷ entries

unfoldable pub manifest_rows : Dict ℕ FileRow → CatalogStore → List ManifestEntry
unfolding manifest_entry
manifest_rows [] db = []
manifest_rows ((file_id, row) ∷ rows) db =
    push_entry (manifest_entry file_id row (version_history file_id db) db) (manifest_rows rows db)

unfoldable pub build_local_manifest : CatalogStore → List ManifestEntry
unfolding manifest_rows
build_local_manifest db = manifest_rows db.files db

-- `entries.chunks(batch_size)`: at most `batch_size` entries in each, on fuel for the entries left.
unfoldable pub chunks_in {ℓ} : {A : Type ℓ} → ℕ → ℕ → List A → List (List A)
chunks_in zero n xs = []
chunks_in (suc fuel) n [] = []
chunks_in (suc fuel) n (x ∷ xs) = take n (x ∷ xs) ∷ chunks_in fuel n (drop n (x ∷ xs))

unfoldable pub chunks {ℓ} : {A : Type ℓ} → ℕ → List A → List (List A)
unfolding chunks_in
chunks n xs = chunks_in (length xs) n xs

unfoldable pub batch_manifest : List ManifestEntry → ℕ → List (List ManifestEntry)
unfolding chunks
batch_manifest entries batch_size = chunks (max batch_size 1) entries
