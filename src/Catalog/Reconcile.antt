-- ===== src/Catalog/Reconcile.antt =====
-- tagsyd/src/catalog/files.rs: the commands of the writer that are not changes: what reconciliation
-- with a peer decided (CatalogFile, CatalogTombstone), and bytes that arrived (Materialize).
use tagsy.Prelude.{
  Bool, List, Option, String, [], false, if◌then◌else◌, none, not, some, true, ℕ, ◌&&◌, ◌++◌, ◌==◌,
  ◌∷◌, nat_eq, string_eq,
}
use tagsy.Store.{CatalogStore, FileVersion, Result, err, ok, entry_key_eq}
use tagsy.Store.Versions.{latest_observed_at, latest_version}
use tagsy.Store.Files.{add_file, add_tombstoned_file, file_deletion_state, file_exists}
use tagsy.Store.Purged.{is_purged}
use tagsy.Peer.Plan.{MaterializePlacement}
use tagsy.Catalog.{
  Change, ChangeOrigin, Context, FileBytes, Outcome, Sent, event, file_deleted, file_metadata_added,
  file_metadata_changed, get_preview, outcome,
}
use tagsy.Catalog.Forward.{forward_to_peers, version_origin}
use tagsy.Catalog.Placement.{materialize_targets, place_content}
use tagsy.Catalog.Files.{adopt, pull_if_wanted, says_live, supersedes_latest}

abbrev pull_asked : Option MaterializePlacement → (MaterializePlacement → List Sent) → List Sent
pull_asked none f = []
pull_asked (some placement) f = f placement

module _ (context : Context) where
  -- Past the guards, with whether the file was new.
  unfoldable pub catalog_version :
      ℕ
      → String
      → ℕ
      → String
      → ℕ
      → ℕ
      → ChangeOrigin
      → Option MaterializePlacement
      → Bool
      → CatalogStore
      → Outcome
  unfolding adopt pull_if_wanted forward_to_peers
  catalog_version file_id logical_path modified_at content_hash size observed_at origin pull is_new
        db =
      let after : CatalogStore = adopt origin file_id content_hash size observed_at db in
      let announced : Change =
        if is_new
        then file_metadata_added file_id logical_path modified_at content_hash size observed_at []
        else file_metadata_changed file_id content_hash size observed_at in
      outcome after
        (pull_asked pull (pull_if_wanted context after origin file_id content_hash size)
          ++ forward_to_peers context announced origin)
        false

  unfoldable pub catalog_new :
      ℕ
      → String
      → ℕ
      → String
      → ℕ
      → ℕ
      → ChangeOrigin
      → Option MaterializePlacement
      → CatalogStore
      → Result CatalogStore
      → Outcome
  unfolding catalog_version
  catalog_new file_id logical_path modified_at content_hash size observed_at origin pull db
        (err e) =
      outcome db [] false
  catalog_new file_id logical_path modified_at content_hash size observed_at origin pull db
        (ok added) =
      catalog_version file_id logical_path modified_at content_hash size observed_at origin pull
        true added

  unfoldable pub catalog_file :
      ℕ
      → String
      → ℕ
      → String
      → ℕ
      → ℕ
      → ChangeOrigin
      → Option MaterializePlacement
      → CatalogStore
      → Outcome
  unfolding is_purged file_exists supersedes_latest add_file catalog_new catalog_version
  catalog_file file_id logical_path modified_at content_hash size observed_at origin pull db =
      if is_purged file_id db
      then outcome db [] false
      else if not (file_exists file_id db)
      then catalog_new file_id logical_path modified_at content_hash size observed_at origin pull db
          (add_file file_id logical_path modified_at db)
      else if not (supersedes_latest file_id observed_at db)
      then outcome db [] false
      else catalog_version file_id logical_path modified_at content_hash size observed_at origin
          pull false db

  unfoldable pub catalog_tombstone :
      ℕ → String → ℕ → String → ℕ → ℕ → ℕ → ℕ → ChangeOrigin → CatalogStore → Outcome
  unfolding is_purged add_tombstoned_file version_origin forward_to_peers
  catalog_tombstone file_id logical_path modified_at content_hash size observed_at deleted_at
        restored_at origin db =
      let created : CatalogStore × Bool =
        add_tombstoned_file file_id logical_path modified_at content_hash size observed_at
          (version_origin origin) deleted_at restored_at db in
      if is_purged file_id db
      then outcome db [] false
      else if created.1
      then outcome created.0 (forward_to_peers context (file_deleted file_id deleted_at) origin)
          false
      else outcome db [] false

  unfoldable pub maybe_eager_preview : ℕ → List Sent
  maybe_eager_preview file_id =
      if context.configuration.eager_previews then get_preview file_id ∷ [] else []

  abbrev size_of : Option FileVersion → ℕ
  size_of none = 0
  size_of (some v) = v.size

  -- The bytes of a version are placed while the file is live and has no newer version.
  abbrev pub still_wanted : ℕ → String → CatalogStore → Bool
  unfolding file_deletion_state latest_version
  still_wanted file_id content_hash db =
      says_live (file_deletion_state file_id db) && elim (latest_version file_id db) [
        | none ↦ true
        | some latest ↦ latest.content_hash == content_hash
      ]

  unfoldable pub materialize :
      ℕ → FileBytes → String → MaterializePlacement → CatalogStore → List Sent
  unfolding still_wanted place_content materialize_targets maybe_eager_preview latest_version
      latest_observed_at
  materialize file_id content content_hash placement db =
      if still_wanted file_id content_hash db
      then place_content (materialize_targets context db file_id placement) content
        ++ maybe_eager_preview file_id
        ++ event (
            file_metadata_changed file_id content_hash (size_of (latest_version file_id db))
              (latest_observed_at file_id db))
          ∷ []
      else []
