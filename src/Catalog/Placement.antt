-- ===== src/Catalog/Placement.antt =====
-- tagsyd/src/catalog/placement.rs: which sync directories take a file, and how each gets its bytes.
-- The reads of the catalog it stands on are from store/entries.rs and store/files.rs.
pub mod Directories
use tagsy.Prelude.{
  Bool, Dict, List, Option, String, [], contains, false, if◌then◌else◌, lookup, ltb, none, not,
  some, true, union, ℕ, ◌&&◌, ◌==◌, ◌∷◌, nat_eq, string_eq,
}
use tagsy.Store.{CatalogStore, EntryKey, EntryRow, FileVersion, entry_key_eq}
use tagsy.Store.Versions.{latest_version}
use tagsy.Store.Purged.{tags_file_in}
use tagsy.Store.Entries.Graph.{tag_not_deleted}
use tagsy.Peer.Plan.{MaterializePlacement, change, create}
use tagsy.Catalog.{
  ChangeOrigin, Context, FileBytes, Sent, SyncDirectory, SyncDirectoryCommand, SyncType,
  apply_placement, change_file_in, command, create_file_in, fetch_if_deferred, file_to_copy,
  file_to_move, in_memory, local, peer, tag_based, universal,
}

-- Insertion into a `BTreeSet`.
unfoldable pub set_insert : ℕ → List ℕ → List ℕ
set_insert x [] = x ∷ []
set_insert x (y ∷ ys) =
    let rest = set_insert x ys in
    if ltb x y then x ∷ y ∷ ys else if x == y then y ∷ ys else y ∷ rest

unfoldable pub to_set : List ℕ → List ℕ
unfolding set_insert
to_set [] = []
to_set (x ∷ xs) = set_insert x (to_set xs)

abbrev is_live_tag_of : ℕ → EntryKey → EntryRow → CatalogStore → Bool
is_live_tag_of file_id key row db =
    tags_file_in (λ id. id == file_id) key && not row.deleted && tag_not_deleted key.tag_id db

unfoldable pub live_tags : ℕ → Dict EntryKey EntryRow → CatalogStore → List ℕ
live_tags file_id [] db = []
live_tags file_id ((key, row) ∷ rows) db =
    let rest = live_tags file_id rows db in
    if is_live_tag_of file_id key row db then key.tag_id ∷ rest else rest

-- `tag_ids_for_file` with `SubtagRule::Exclude`.
unfoldable pub tag_ids_for_file : ℕ → CatalogStore → List ℕ
unfolding live_tags to_set
tag_ids_for_file file_id db = to_set (live_tags file_id db.entries db)

-- `logical_path_for_file_id` with `DeletedRule::Exclude`; `none` is `MissingFile`.
unfoldable pub logical_path_for_file_id : ℕ → CatalogStore → Option String
unfolding lookup
logical_path_for_file_id file_id db = elim (lookup file_id db.files) [
  | none ↦ none
  | some row ↦ if row.deleted then none else some row.logical_path
]

unfoldable pub physical_for : Context → SyncType → String → ℕ → String
physical_for context (universal keep) logical_path file_id = context.id_to_string file_id
physical_for context (tag_based tags) logical_path file_id = logical_path

unfoldable pub contains_all_tags : List ℕ → List ℕ → Bool
contains_all_tags [] file_tags = true
contains_all_tags (tag_id ∷ tags) file_tags =
    contains tag_id file_tags && contains_all_tags tags file_tags

unfoldable pub effective_placement_tags : List ℕ → List ℕ → List ℕ
unfolding union
effective_placement_tags carried db_tags = union carried db_tags

-- The guard on a tag based directory.
abbrev pub takes : SyncType → List ℕ → Bool
unfolding contains_all_tags
takes (universal keep) file_tags = true
takes (tag_based tags) file_tags = contains_all_tags tags file_tags

-- `directory_path == &sync_directory.path` of a change that this directory saw.
abbrev pub is_origin : ChangeOrigin → SyncDirectory → Bool
is_origin (local directory_path) directory = directory_path == directory.path
is_origin (peer public_key) directory = false

-- The directories other than the origin whose tags match.
abbrev pub is_target : ChangeOrigin → List ℕ → SyncDirectory → Bool
unfolding contains_all_tags
is_target origin file_tags directory =
    not (is_origin origin directory) && takes directory.sync_type file_tags

pub data Placement : Type 0 where
  create_at : (file_id : ℕ) (physical_path : String) (sync_directory_path : String) → Placement
  change_at : (file_id : ℕ) (logical_path : String) (sync_directory_path : String) → Placement

unfoldable pub into_command : Placement → FileBytes → SyncDirectoryCommand
into_command (create_at file_id physical_path directory) content =
    create_file_in file_id physical_path content directory
into_command (change_at file_id logical_path directory) content =
    change_file_in file_id logical_path content directory

unfoldable pub placements_for :
    List SyncDirectory → ChangeOrigin → ℕ → String → List ℕ → List Placement
unfolding contains_all_tags
placements_for [] origin file_id logical_path file_tags = []
placements_for (d ∷ directories) origin file_id logical_path file_tags =
    let rest = placements_for directories origin file_id logical_path file_tags in
    if is_target origin file_tags d then change_at file_id logical_path d.path ∷ rest else rest

unfoldable pub live_placements : Context → CatalogStore → ChangeOrigin → ℕ → List Placement
unfolding logical_path_for_file_id placements_for tag_ids_for_file
live_placements context db origin file_id = elim (logical_path_for_file_id file_id db) [
  | none ↦ []
  | some logical_path ↦
      placements_for context.configuration.sync_directories origin file_id logical_path
        (tag_ids_for_file file_id db)
]

unfoldable pub create_placements :
    Context → List SyncDirectory → ℕ → String → List ℕ → List Placement
unfolding contains_all_tags physical_for
create_placements context [] file_id logical_path tags = []
create_placements context (d ∷ directories) file_id logical_path tags =
    let rest = create_placements context directories file_id logical_path tags in
    if takes d.sync_type tags
    then create_at file_id (physical_for context d.sync_type logical_path file_id) d.path ∷ rest
    else rest

unfoldable pub materialize_targets :
    Context → CatalogStore → ℕ → MaterializePlacement → List Placement
unfolding create_placements tag_ids_for_file effective_placement_tags live_placements
materialize_targets context db file_id (create logical_path tags) =
    create_placements context context.configuration.sync_directories file_id logical_path
      (effective_placement_tags tags (tag_ids_for_file file_id db))
materialize_targets context db file_id change = live_placements context db (local "") file_id

-- What each of several directories gets: the last one may take the source.
unfoldable pub share : FileBytes → Bool → FileBytes
share (in_memory bytes) is_last = in_memory bytes
share (file_to_copy path) is_last = file_to_copy path
share (file_to_move path) is_last = if is_last then file_to_move path else file_to_copy path

unfoldable pub share_all : List Placement → FileBytes → List Sent
unfolding into_command share
share_all [] content = []
share_all (p ∷ []) content = command (into_command p (share content true)) ∷ []
share_all (p ∷ q ∷ ps) content =
    command (into_command p (share content false)) ∷ share_all (q ∷ ps) content

unfoldable pub place_content : List Placement → FileBytes → List Sent
unfolding share_all into_command
place_content [] content = []
place_content (p ∷ []) content = command (into_command p content) ∷ []
place_content (p ∷ q ∷ ps) content = share_all (p ∷ q ∷ ps) content

abbrev version_of : Option FileVersion → Option (String × ℕ)
version_of none = none
version_of (some v) = some (v.content_hash, v.size)

-- With the task that waits for the reply of the sync directories (`fetch_and_place_deferred`).
unfoldable pub plan_placement : CatalogStore → ℕ → List Sent
unfolding logical_path_for_file_id tag_ids_for_file latest_version
plan_placement db file_id = elim (logical_path_for_file_id file_id db) [
  | none ↦ []
  | some logical_path ↦
      let file_tags : List ℕ = tag_ids_for_file file_id db in
      command (apply_placement file_id logical_path file_tags)
      ∷ fetch_if_deferred file_id (create logical_path file_tags)
          (version_of (latest_version file_id db))
      ∷ []
]
