-- ===== src/Catalog/Uploads.antt =====
-- tagsyd/src/catalog/files.rs: announce_upload, content that a client of this device uploaded or
-- edited. `assigned` is what the tag rules give the path; `path_at` and `observed_at` are the two
-- readings of the clock.
use tagsy.Prelude.{
  List, Option, String, [], false, none, some, union, ℕ, ◌++◌, ◌∷◌, nat_eq, string_eq,
}
use tagsy.Store.{CatalogStore, Result, err, ok, entry_key_eq}
use tagsy.Store.Files.{add_file}
use tagsy.Peer.Plan.{MaterializePlacement, change, create}
use tagsy.Catalog.{
  Change, Context, Outcome, Sent, event, fetch_and_materialize, file_metadata_added,
  file_metadata_changed, outcome,
}
use tagsy.Catalog.Forward.{forward_to_peers}
use tagsy.Catalog.Placement.{Placement, materialize_targets}
use tagsy.Catalog.Files.{adopt, tag_all}
use tagsy.Catalog.Apply.{local_origin}

abbrev fetched : List Placement → ℕ → MaterializePlacement → String → ℕ → List Sent
fetched [] file_id placement content_hash size = []
fetched (target ∷ targets) file_id placement content_hash size =
    fetch_and_materialize file_id placement content_hash size ∷ []

module _ (context : Context) (file_id : ℕ) (content_hash : String) (size observed_at : ℕ) where
  -- From the recording of the version on, common to a new file and an edit.
  unfoldable pub announce : Change → MaterializePlacement → CatalogStore → Outcome
  unfolding adopt forward_to_peers materialize_targets
  announce announced placement db =
      let after : CatalogStore = adopt local_origin file_id content_hash size observed_at db in
      outcome after
        (forward_to_peers context announced local_origin
          ++ fetched (materialize_targets context after file_id placement) file_id placement
              content_hash size
          ++ event announced ∷ [])
        false

  unfoldable pub announce_new : String → ℕ → List ℕ → CatalogStore → Result CatalogStore → Outcome
  unfolding announce tag_all
  announce_new logical_path path_at tags db (err e) = outcome db [] false
  announce_new logical_path path_at tags db (ok added) =
      announce (file_metadata_added file_id logical_path path_at content_hash size observed_at tags)
        (create logical_path tags) (tag_all tags file_id path_at added)

  unfoldable pub announce_upload : Option String → ℕ → List ℕ → List ℕ → CatalogStore → Outcome
  unfolding announce_new add_file union announce
  announce_upload (some logical_path) path_at tags assigned db =
      announce_new logical_path path_at (union tags assigned) db
        (add_file file_id logical_path path_at db)
  announce_upload none path_at tags assigned db =
      announce (file_metadata_changed file_id content_hash size observed_at) change db
