-- ===== src/Catalog/Files.antt =====
-- tagsyd/src/catalog/files.rs: the arms of apply_change for the life of a file, and the purge guard
-- in front of them. A lookup that fails, which is logged, does not occur.
use tagsy.Prelude.{
  Bool, List, Option, String, [], false, if◌then◌else◌, is_empty, ltb, none, not, some, true, ℕ,
  ◌&&◌, ◌++◌, ◌==◌, ◌||◌, ◌∷◌, nat_eq, string_eq,
}
use tagsy.Store.{CatalogStore, DeletionState, FileVersion, Result, err, ok, entry_key_eq}
use tagsy.Store.Versions.{latest_version, record_version_at}
use tagsy.Store.Files.{
  add_file, apply_restore, file_deletion_state, file_exists, remove_file, restore_file,
  update_file_logical_path,
}
use tagsy.Store.Purged.{is_purged, record_purge, strip_purged_file}
use tagsy.Store.Entries.{tag_file}
use tagsy.Peer.Plan.{MaterializePlacement, change, create}
use tagsy.Catalog.{
  Change, ChangeOrigin, Context, Outcome, Sent, SyncDirectory, command, file_deleted,
  file_metadata_added, file_metadata_changed, file_moved, file_purged, file_restored, file_tagged,
  file_untagged, move_file_in, outcome, remove_file_in,
}
use tagsy.Catalog.Forward.{forward_to_peers, request_pull_from_origin, version_origin}
use tagsy.Catalog.Placement.{
  contains_all_tags, is_target, materialize_targets, physical_for, tag_ids_for_file,
}

abbrev pub is_newer_than : Option FileVersion → ℕ → Bool
is_newer_than none observed_at = true
is_newer_than (some v) observed_at = ltb v.observed_at observed_at

unfoldable pub supersedes_latest : ℕ → ℕ → CatalogStore → Bool
unfolding latest_version
supersedes_latest file_id observed_at db = is_newer_than (latest_version file_id db) observed_at

abbrev pub has_hash : Option FileVersion → String → Bool
has_hash none content_hash = false
has_hash (some v) content_hash = v.content_hash == content_hash

abbrev pub says_deleted : Option DeletionState → Bool
says_deleted none = false
says_deleted (some state) = state.deleted

abbrev pub says_live : Option DeletionState → Bool
says_live none = false
says_live (some state) = not state.deleted

unfoldable pub version_needs_transfer : ℕ → String → CatalogStore → Bool
unfolding latest_version file_deletion_state
version_needs_transfer file_id content_hash db =
    not (has_hash (latest_version file_id db) content_hash)
    || says_deleted (file_deletion_state file_id db)

unfoldable pub pull_if_wanted :
    Context → CatalogStore → ChangeOrigin → ℕ → String → ℕ → MaterializePlacement → List Sent
unfolding materialize_targets request_pull_from_origin
pull_if_wanted context db origin file_id content_hash size placement =
    if is_empty (materialize_targets context db file_id placement)
    then []
    else request_pull_from_origin context origin file_id content_hash size placement

-- `record_version_at`, then `restore_file`, as every handler of a version does.
unfoldable pub adopt : ChangeOrigin → ℕ → String → ℕ → ℕ → CatalogStore → CatalogStore
unfolding record_version_at restore_file version_origin
adopt origin file_id content_hash size observed_at db =
    restore_file file_id
      (record_version_at file_id content_hash (version_origin origin) size observed_at db).0

-- The tags that an announcement carries, one relationship each.
unfoldable pub tag_all : List ℕ → ℕ → ℕ → CatalogStore → CatalogStore
unfolding tag_file
tag_all [] file_id modified_at db = db
tag_all (tag_id ∷ tags) file_id modified_at db =
    tag_all tags file_id modified_at (tag_file tag_id file_id modified_at db)

module _ (context : Context) (announced : Change) (origin : ChangeOrigin) where
  -- What `FileMetadataAdded` and `FileMetadataChanged` do with a version that they take.
  unfoldable pub announce_version :
      ℕ → String → ℕ → ℕ → MaterializePlacement → CatalogStore → Outcome
  unfolding version_needs_transfer adopt forward_to_peers pull_if_wanted
  announce_version file_id content_hash size observed_at placement db =
      let transfer : Bool = version_needs_transfer file_id content_hash db in
      let after : CatalogStore = adopt origin file_id content_hash size observed_at db in
      outcome after
        (forward_to_peers context announced origin
          ++ (if transfer
              then pull_if_wanted context after origin file_id content_hash size placement
              else []))
        true

  unfoldable pub added_in :
      ℕ → String → ℕ → String → ℕ → ℕ → List ℕ → CatalogStore → Result CatalogStore → Outcome
  unfolding announce_version tag_all
  added_in file_id logical_path modified_at content_hash size observed_at tags db (err e) =
      outcome db [] false
  added_in file_id logical_path modified_at content_hash size observed_at tags db (ok added) =
      announce_version file_id content_hash size observed_at (create logical_path tags)
        (tag_all tags file_id modified_at added)

  unfoldable pub file_metadata_added_in :
      ℕ → String → ℕ → String → ℕ → ℕ → List ℕ → CatalogStore → Outcome
  unfolding file_exists add_file added_in supersedes_latest forward_to_peers announce_version
  file_metadata_added_in file_id logical_path modified_at content_hash size observed_at tags db =
      if not (file_exists file_id db)
      then added_in file_id logical_path modified_at content_hash size observed_at tags db
          (add_file file_id logical_path modified_at db)
      else if not (supersedes_latest file_id observed_at db)
      then outcome db (forward_to_peers context announced origin) false
      else announce_version file_id content_hash size observed_at (create logical_path tags) db

  unfoldable pub file_metadata_changed_in : ℕ → String → ℕ → ℕ → CatalogStore → Outcome
  unfolding supersedes_latest forward_to_peers announce_version
  file_metadata_changed_in file_id content_hash size observed_at db =
      if not (supersedes_latest file_id observed_at db)
      then outcome db (forward_to_peers context announced origin) true
      else announce_version file_id content_hash size observed_at change db

  unfoldable pub move_commands : List SyncDirectory → ℕ → String → List ℕ → List Sent
  unfolding contains_all_tags physical_for
  move_commands [] file_id logical_path file_tags = []
  move_commands (d ∷ directories) file_id logical_path file_tags =
      let rest = move_commands directories file_id logical_path file_tags in
      if is_target origin file_tags d
      then command
          (move_file_in file_id (physical_for context d.sync_type logical_path file_id) d.path)
        ∷ rest
      else rest

  unfoldable pub file_moved_in : ℕ → String → ℕ → CatalogStore → Outcome
  unfolding tag_ids_for_file update_file_logical_path move_commands forward_to_peers
  file_moved_in file_id logical_path modified_at db =
      let file_tags : List ℕ = tag_ids_for_file file_id db in
      let moved : CatalogStore × Bool =
        update_file_logical_path file_id logical_path modified_at db in
      if moved.1
      then outcome moved.0
          (move_commands context.configuration.sync_directories file_id logical_path file_tags
            ++ forward_to_peers context announced origin)
          true
      else outcome moved.0 [] false

  unfoldable pub remove_commands : List SyncDirectory → ℕ → List ℕ → List Sent
  unfolding contains_all_tags
  remove_commands [] file_id file_tags = []
  remove_commands (d ∷ directories) file_id file_tags =
      let rest = remove_commands directories file_id file_tags in
      if is_target origin file_tags d then command (remove_file_in file_id d.path) ∷ rest else rest

  -- The fan-out of `RemoveFile`, and the forward.
  abbrev pub removal : ℕ → List ℕ → List Sent
  unfolding remove_commands forward_to_peers
  removal file_id file_tags =
      remove_commands context.configuration.sync_directories file_id file_tags
      ++ forward_to_peers context announced origin

  unfoldable pub deleted_in : ℕ → ℕ → Option DeletionState → CatalogStore → Outcome
  unfolding tag_ids_for_file remove_file
  deleted_in file_id deleted_at none db = outcome db [] false
  deleted_in file_id deleted_at (some state) db =
      let removed : CatalogStore × Bool = remove_file file_id deleted_at db in
      if state.deleted
      then outcome db [] false
      else if removed.1
      then outcome removed.0 (removal file_id (tag_ids_for_file file_id db)) true
      else outcome removed.0 [] false

  unfoldable pub file_deleted_in : ℕ → ℕ → CatalogStore → Outcome
  unfolding deleted_in file_deletion_state
  file_deleted_in file_id deleted_at db =
      deleted_in file_id deleted_at (file_deletion_state file_id db) db

  unfoldable pub file_restored_in : ℕ → String → ℕ → ℕ → CatalogStore → Outcome
  unfolding latest_version file_deletion_state forward_to_peers apply_restore pull_if_wanted
  file_restored_in file_id content_hash size restored_at db =
      let restored : CatalogStore × Bool = apply_restore file_id restored_at db in
      if has_hash (latest_version file_id db) content_hash
        && says_live (file_deletion_state file_id db)
      then outcome db (forward_to_peers context announced origin) false
      else outcome restored.0
          (forward_to_peers context announced origin
            ++ (if restored.1
                then pull_if_wanted context restored.0 origin file_id content_hash size change
                else []))
          true

  unfoldable pub file_purged_in : ℕ → CatalogStore → Outcome
  unfolding tag_ids_for_file record_purge file_exists strip_purged_file
  file_purged_in file_id db =
      let file_tags : List ℕ = tag_ids_for_file file_id db in
      let recorded : CatalogStore × Bool = record_purge file_id db in
      if not recorded.1 && not (file_exists file_id recorded.0)
      then outcome recorded.0 [] false
      else outcome (strip_purged_file file_id recorded.0) (removal file_id file_tags) true

unfoldable pub purge_guard_file_id : Change → Option ℕ
purge_guard_file_id (file_metadata_added file_id p t h s o tags) = some file_id
purge_guard_file_id (file_moved file_id p t) = some file_id
purge_guard_file_id (file_metadata_changed file_id h s o) = some file_id
purge_guard_file_id (file_deleted file_id t) = some file_id
purge_guard_file_id (file_restored file_id h s t) = some file_id
purge_guard_file_id (file_tagged file_id tag_id t) = some file_id
purge_guard_file_id (file_untagged file_id tag_id t) = some file_id
purge_guard_file_id _ = none

-- The `match` of `apply_change`; `none` is a change that it does not handle.
unfoldable pub apply_arm : Context → ChangeOrigin → Change → CatalogStore → Option Outcome
unfolding file_metadata_added_in file_metadata_changed_in file_moved_in file_deleted_in
    file_restored_in file_purged_in
apply_arm context origin (file_metadata_added file_id p t h s o tags) db = some (
    file_metadata_added_in context (file_metadata_added file_id p t h s o tags) origin file_id p t h
      s o tags db)
apply_arm context origin (file_metadata_changed file_id h s o) db =
    some (
      file_metadata_changed_in context (file_metadata_changed file_id h s o) origin file_id h s o
        db)
apply_arm context origin (file_moved file_id p t) db =
    some (file_moved_in context (file_moved file_id p t) origin file_id p t db)
apply_arm context origin (file_deleted file_id t) db =
    some (file_deleted_in context (file_deleted file_id t) origin file_id t db)
apply_arm context origin (file_restored file_id h s t) db =
    some (file_restored_in context (file_restored file_id h s t) origin file_id h s t db)
apply_arm context origin (file_purged file_id) db =
    some (file_purged_in context (file_purged file_id) origin file_id db)
apply_arm context origin _ db = none

abbrev pub is_guarded : Option ℕ → CatalogStore → Bool
unfolding is_purged
is_guarded none db = false
is_guarded (some file_id) db = is_purged file_id db

-- `apply_change`: a change to a purged file is dropped first.
unfoldable pub apply_file_change : Context → ChangeOrigin → Change → CatalogStore → Option Outcome
unfolding purge_guard_file_id apply_arm
apply_file_change context origin announced db =
    if is_guarded (purge_guard_file_id announced) db
    then some (outcome db [] false)
    else apply_arm context origin announced db
