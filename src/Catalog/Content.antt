-- ===== src/Catalog/Content.antt =====
-- tagsyd/src/catalog/content.rs: content that appeared or changed in a local sync directory. The tag
-- rules are what they assign to a path; each reading of the clock is an argument, for the loop over
-- the tags a list of them.
use tagsy.Prelude.{
  Bool, List, String, [], false, if◌then◌else◌, not, true, union, ℕ, ◌&&◌, ◌++◌, ◌∷◌, nat_eq,
  string_eq,
}
use tagsy.Store.{CatalogStore, Result, err, ok, entry_key_eq}
use tagsy.Store.Versions.{latest_version, record_version_at}
use tagsy.Store.Files.{add_file, file_exists}
use tagsy.Store.Entries.{tag_file}
use tagsy.Catalog.{
  Change, ChangeOrigin, Context, FileBytes, Outcome, Sent, SyncDirectory, event,
  file_metadata_added, file_metadata_changed, file_tagged, local, outcome, peer, tag_based,
  universal,
}
use tagsy.Catalog.Forward.{forward_to_peers, version_origin}
use tagsy.Catalog.Placement.{
  Placement, contains_all_tags, create_at, is_origin, live_placements, physical_for, place_content,
  takes,
}
use tagsy.Catalog.Files.{adopt, has_hash}
use tagsy.Catalog.Reconcile.{maybe_eager_preview}

module _ (context : Context) (origin : ChangeOrigin) where
  -- The bytes to the directories, the change to the peers and the subscribers.
  unfoldable pub dispatch_and_forward : List Placement → FileBytes → Change → List Sent
  unfolding place_content forward_to_peers
  dispatch_and_forward targets content announced =
      place_content targets content
      ++ forward_to_peers context announced origin
      ++ event announced ∷ []

  -- A directory that is tag based and saw the file itself keeps it; one that is universal gets it
  -- under its id, the origin too.
  abbrev keeps_its_own : SyncDirectory → Bool
  keeps_its_own d = elim d.sync_type [
    | universal keep ↦ false
    | tag_based tags ↦ is_origin origin d
  ]

  unfoldable pub added_targets : List SyncDirectory → ℕ → String → List ℕ → List Placement
  unfolding contains_all_tags physical_for
  added_targets [] file_id logical_path tags = []
  added_targets (d ∷ directories) file_id logical_path tags =
      let rest = added_targets directories file_id logical_path tags in
      if not (keeps_its_own d) && takes d.sync_type tags
      then create_at file_id (physical_for context d.sync_type logical_path file_id) d.path ∷ rest
      else rest

  -- The tags of a file that was added here, each at its own time and announced by itself.
  unfoldable pub tag_locally : List (ℕ × ℕ) → ℕ → CatalogStore → CatalogStore × List Sent
  unfolding tag_file forward_to_peers
  tag_locally [] file_id db = (db, [])
  tag_locally ((tag_id, modified_at) ∷ tags) file_id db =
      let rest : CatalogStore × List Sent =
        tag_locally tags file_id (tag_file tag_id file_id modified_at db) in
      (rest.0, forward_to_peers context (file_tagged file_id tag_id modified_at) origin ++ rest.1)

  -- A version of a known file: recorded without a look at its stamp, which is of the local clock.
  unfoldable pub content_changed : ℕ → FileBytes → String → ℕ → ℕ → CatalogStore → Outcome
  unfolding adopt dispatch_and_forward live_placements maybe_eager_preview
  content_changed file_id content content_hash size observed_at db =
      let after : CatalogStore = adopt origin file_id content_hash size observed_at db in
      outcome after
        (dispatch_and_forward (live_placements context after origin file_id) content
            (file_metadata_changed file_id content_hash size observed_at)
          ++ maybe_eager_preview context file_id)
        false

  abbrev zip_times : List ℕ → List ℕ → List (ℕ × ℕ)
  zip_times [] times = []
  zip_times (tag_id ∷ tags) [] = []
  zip_times (tag_id ∷ tags) (t ∷ times) = (tag_id, t) ∷ zip_times tags times

  abbrev pub is_local : ChangeOrigin → Bool
  is_local (local directory_path) = true
  is_local (peer public_key) = false

  -- `assigned` is what the tag rules give the path, `now` the clock at the insertion and `times` the
  -- clock at each tag.
  unfoldable pub content_added_new :
      ℕ
      → String
      → FileBytes
      → String
      → ℕ
      → ℕ
      → List ℕ
      → List ℕ
      → ℕ
      → List ℕ
      → CatalogStore
      → Result CatalogStore
      → Outcome
  unfolding record_version_at version_origin union tag_locally dispatch_and_forward added_targets
      maybe_eager_preview
  content_added_new file_id logical_path content content_hash size observed_at carried assigned now
        times db (err e) =
      outcome db [] false
  content_added_new file_id logical_path content content_hash size observed_at carried assigned now
        times db (ok added) =
      let recorded : CatalogStore =
        (record_version_at file_id content_hash (version_origin origin) size observed_at added).0 in
      let tags : List ℕ = if is_local origin then union carried assigned else carried in
      let tagged : CatalogStore × List Sent =
        if is_local origin
        then tag_locally (zip_times tags times) file_id recorded
        else (recorded, []) in
      outcome tagged.0
        (tagged.1
          ++ dispatch_and_forward
              (added_targets context.configuration.sync_directories file_id logical_path tags)
              content
              (file_metadata_added file_id logical_path now content_hash size observed_at tags)
          ++ maybe_eager_preview context file_id)
        false

  unfoldable pub content_added :
      ℕ
      → String
      → FileBytes
      → String
      → ℕ
      → ℕ
      → List ℕ
      → List ℕ
      → ℕ
      → List ℕ
      → CatalogStore
      → Outcome
  unfolding file_exists add_file latest_version content_added_new content_changed
  content_added file_id logical_path content content_hash size observed_at carried assigned now
        times db =
      if not (file_exists file_id db)
      then content_added_new file_id logical_path content content_hash size observed_at carried
          assigned now times db (add_file file_id logical_path now db)
      else if has_hash (latest_version file_id db) content_hash
      then outcome db [] false
      else content_changed file_id content content_hash size observed_at db
