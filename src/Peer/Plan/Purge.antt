-- ===== src/Peer/Plan/Purge.antt =====
-- tagsyd/src/peer/plan_purge.rs: the purge manifest, and what to purge on a peer's word. The peer's
-- name only goes to the log. A failed lookup (a fault of the database driver) is not modelled.
use tagsy.Prelude.{List, [], if◌then◌else◌, max, not, ℕ, ◌&&◌, ◌∷◌, nat_eq, string_eq}
use tagsy.Store.{CatalogStore, entry_key_eq}
use tagsy.Store.Files.{file_exists}
use tagsy.Store.Purged.{is_purged, purged_ids, record_purge, strip_purged_file}
use tagsy.Peer.Plan.Manifest.{chunks}

unfoldable pub build_local_purge_manifest : CatalogStore → List ℕ
build_local_purge_manifest db = purged_ids db

unfoldable pub batch_purge_manifest : List ℕ → ℕ → List (List ℕ)
unfolding chunks
batch_purge_manifest entries batch_size = chunks (max batch_size 1) entries

unfoldable pub plan_purge_sync : List ℕ → CatalogStore → List ℕ
unfolding is_purged file_exists
plan_purge_sync [] db = []
plan_purge_sync (file_id ∷ entries) db =
    let rest = plan_purge_sync entries db in
    if not (is_purged file_id db)
    then file_id ∷ rest
    else if file_exists file_id db
    then file_id ∷ rest
    else rest

-- The catalog's part of `FilePurged` in catalog/files.rs: a purge that is already recorded, of a
-- file with no row, does nothing.
unfoldable pub apply_purge : ℕ → CatalogStore → CatalogStore
unfolding record_purge strip_purged_file file_exists
apply_purge file_id db =
    let recorded = record_purge file_id db in
    if not recorded.1 && not (file_exists file_id recorded.0)
    then recorded.0
    else strip_purged_file file_id recorded.0

unfoldable pub apply_purges : List ℕ → CatalogStore → CatalogStore
unfolding apply_purge
apply_purges [] db = db
apply_purges (file_id ∷ file_ids) db = apply_purges file_ids (apply_purge file_id db)
