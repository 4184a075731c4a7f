-- ===== src/Catalog/Inbox.antt =====
-- tagsyd/src/catalog/mod.rs: CatalogWriter::run, the commands that the writer takes from its inbox.
-- The purges, the removal of duplicates and the cache of previews start from a listing of the files.
use tagsy.Prelude.{
  Bool, List, Option, String, [], contains, drop, false, if◌then◌else◌, length, not, retain, true,
  ℕ, ◌++◌, ◌+◌, ◌==◌, ◌∷◌, string_eq, nat_eq,
}
use tagsy.Store.{CatalogStore, entry_key_eq}
use tagsy.Store.Files.{apply_restore}
use tagsy.Store.Listing.{FileInfo, exclude, get_all_files, include, purge_previews}
use tagsy.Peer.Plan.{MaterializePlacement}
use tagsy.Catalog.{
  Change, ChangeOrigin, Context, FileBytes, Outcome, Sent, event, file_deleted, file_purged,
  file_restored, file_tagged,
}
use tagsy.Catalog.Forward.{forward_to_peers}
use tagsy.Catalog.Placement.{plan_placement}
use tagsy.Catalog.Reconcile.{catalog_file, catalog_tombstone, materialize, maybe_eager_preview}
use tagsy.Catalog.Apply.{apply_all, apply_metadata_change, local_origin}
use tagsy.Catalog.Duplicates.{DuplicatePlan, plan_duplicate_deletions, copies_eq}

-- The commands that write, or place, on the word of a peer or a client; content of a local directory,
-- an upload and a preview that was made are handled apart. `missing` is what the sync
-- directories answer to `MissingContent`; `times` are the readings of the clock, one for each change.
pub data CatalogCommand : Type 0 where
  meta : (origin : ChangeOrigin) (announced : Change) → CatalogCommand
  catalog :
      (file_id : ℕ) (logical_path : String) (logical_path_modified_at : ℕ) (content_hash : String)
      (size observed_at : ℕ) (origin : ChangeOrigin) (pull : Option MaterializePlacement)
      → CatalogCommand
  tombstone :
      (file_id : ℕ) (logical_path : String) (logical_path_modified_at : ℕ) (content_hash : String)
      (size observed_at deleted_at restored_at : ℕ) (origin : ChangeOrigin)
      → CatalogCommand
  materialized :
      (file_id : ℕ) (content : FileBytes) (content_hash : String) (placement : MaterializePlacement)
      → CatalogCommand
  reconcile_placement : (file_id : ℕ) → CatalogCommand
  restored : (file_id : ℕ) (content_hash : String) (size restored_at : ℕ) → CatalogCommand
  purge_broken : (dry_run : Bool) (missing : List ℕ) → CatalogCommand
  purge_deleted : (dry_run : Bool) → CatalogCommand
  delete_duplicates : (dry_run : Bool) (times : List ℕ) → CatalogCommand
  clear_previews : CatalogCommand

-- `CatalogCommand::ApplyRestore`.
unfoldable pub restore_here : Context → ℕ → String → ℕ → ℕ → CatalogStore → CatalogStore × List Sent
unfolding apply_restore forward_to_peers plan_placement
restore_here context file_id content_hash size restored_at db =
    let announced : Change = file_restored file_id content_hash size restored_at in
    let written : CatalogStore × Bool = apply_restore file_id restored_at db in
    (
      written.0,
      if written.1
          then forward_to_peers context announced local_origin
            ++ plan_placement written.0 file_id
            ++ event announced ∷ []
          else [],
    )

abbrev pub ids_of : List FileInfo → List ℕ
ids_of [] = []
ids_of (info ∷ files) = info.file_id ∷ ids_of files

-- `missing.filter_map(|file_id| candidates.remove(&file_id))`.
unfoldable pub broken_of : List ℕ → List ℕ → List ℕ
broken_of [] candidates = []
broken_of (file_id ∷ missing) candidates =
    let rest : List ℕ = broken_of missing (retain (λ id. not (id == file_id)) candidates) in
    if contains file_id candidates then file_id ∷ rest else rest

abbrev pub purges : List ℕ → List Change
purges [] = []
purges (file_id ∷ ids) = file_purged file_id ∷ purges ids

-- The deletions of a plan, then the tags for the file that stays; each takes the next time.
abbrev delete_copies : List ℕ → List ℕ → List Change
delete_copies [] times = []
delete_copies (file_id ∷ ids) [] = []
delete_copies (file_id ∷ ids) (t ∷ times) = file_deleted file_id t ∷ delete_copies ids times

abbrev taggings : ℕ → List ℕ → List ℕ → List Change
taggings kept [] times = []
taggings kept (tag_id ∷ tags) [] = []
taggings kept (tag_id ∷ tags) (t ∷ times) = file_tagged kept tag_id t ∷ taggings kept tags times

unfoldable pub duplicate_changes : List DuplicatePlan → List ℕ → List Change
duplicate_changes [] times = []
duplicate_changes (plan ∷ plans) times =
    let dead : ℕ = length plan.deleted in
    delete_copies plan.deleted times
    ++ taggings plan.kept plan.tags_merged (drop dead times)
    ++ duplicate_changes plans (drop (dead + length plan.tags_merged) times)

abbrev pub unless_dry : Bool → Context → List Change → CatalogStore → CatalogStore × List Sent
unfolding apply_all
unless_dry true context changes db = (db, [])
unless_dry false context changes db = apply_all context changes db

abbrev pub warm : Context → List FileInfo → List Sent
unfolding maybe_eager_preview
warm context [] = []
warm context (info ∷ files) = maybe_eager_preview context info.file_id ++ warm context files

abbrev pub left : Outcome → CatalogStore × List Sent
left done = (done.database, done.sent)

unfoldable pub handle_command : Context → CatalogCommand → CatalogStore → CatalogStore × List Sent
unfolding apply_metadata_change catalog_file catalog_tombstone materialize plan_placement
    restore_here get_all_files broken_of plan_duplicate_deletions duplicate_changes purge_previews
handle_command context (meta origin announced) db =
    apply_metadata_change context origin announced db
handle_command context (catalog f path modified_at content_hash size observed_at origin pull) db =
    left (catalog_file context f path modified_at content_hash size observed_at origin pull db)
handle_command context (tombstone f path modified_at content_hash size observed_at dead back origin)
      db =
    left (
      catalog_tombstone context f path modified_at content_hash size observed_at dead back origin
        db)
handle_command context (materialized f content content_hash placement) db =
    (db, materialize context f content content_hash placement db)
handle_command context (reconcile_placement f) db = (db, plan_placement db f)
handle_command context (restored f content_hash size restored_at) db =
    restore_here context f content_hash size restored_at db
handle_command context (purge_broken dry_run missing) db =
    unless_dry dry_run context (purges (broken_of missing (ids_of (get_all_files exclude db)))) db
handle_command context (purge_deleted dry_run) db =
    unless_dry dry_run context
      (purges (ids_of (retain (λ (info : FileInfo). info.deleted) (get_all_files include db)))) db
handle_command context (delete_duplicates dry_run times) db =
    unless_dry dry_run context (duplicate_changes (plan_duplicate_deletions db) times) db
handle_command context clear_previews db =
    let cleared : CatalogStore = purge_previews db in
    (cleared, warm context (get_all_files exclude cleared))

-- The commands that the writer takes from its inbox, in order.
unfoldable pub handle_all : Context → List CatalogCommand → CatalogStore → CatalogStore × List Sent
unfolding handle_command
handle_all context [] db = (db, [])
handle_all context (c ∷ commands) db =
    let applied : CatalogStore × List Sent = handle_command context c db in
    let rest : CatalogStore × List Sent = handle_all context commands applied.0 in
    (rest.0, applied.1 ++ rest.1)
