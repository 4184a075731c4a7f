-- ===== src/Catalog.antt =====
-- The catalog writer, tagsyd/src/catalog: the changes it applies (tagsy-core/src/lib.rs), the part of
-- the configuration that it reads (configuration/mod.rs and runtime.rs), and what it sends. The
-- writer is the only one that changes the catalog, one command at a time; a channel is the list of
-- what went into it. `metadata`, which the store does not keep yet, is left out of the changes.
pub mod Forward
pub mod Placement
pub mod Files
pub mod Reconcile
pub mod Tagging
pub mod Content
pub mod Duplicates
pub mod Apply
pub mod Inbox
pub mod Uploads
pub mod Steps
use tagsy.Prelude.{Bool, Dict, List, Option, String, ℕ, nat_eq, string_eq}
use tagsy.Store.{CatalogStore, entry_key_eq}
use tagsy.Store.Tags.Styles.{TagStyle}
use tagsy.Peer.Plan.{MaterializePlacement}

pub data ChangeOrigin : Type 0 where
  local : (directory_path : String) → ChangeOrigin
  peer : (public_key : String) → ChangeOrigin

pub data Change : Type 0 where
  file_metadata_added :
      (file_id : ℕ) (logical_path : String) (logical_path_modified_at : ℕ) (content_hash : String)
      (size observed_at : ℕ) (tags : List ℕ)
      → Change
  file_moved : (file_id : ℕ) (logical_path : String) (modified_at : ℕ) → Change
  file_metadata_changed : (file_id : ℕ) (content_hash : String) (size observed_at : ℕ) → Change
  file_deleted : (file_id deleted_at : ℕ) → Change
  file_purged : (file_id : ℕ) → Change
  file_restored : (file_id : ℕ) (content_hash : String) (size restored_at : ℕ) → Change
  tag_added : (tag_id : ℕ) (tag_name : String) (style : TagStyle) (modified_at : ℕ) → Change
  tag_renamed : (tag_id : ℕ) (tag_name : String) (modified_at : ℕ) → Change
  tag_restyled : (tag_id : ℕ) (style : TagStyle) (modified_at : ℕ) → Change
  tag_changed tag_removed : (tag_id modified_at : ℕ) → Change
  file_tagged file_tag_changed file_untagged : (file_id tag_id modified_at : ℕ) → Change
  tag_tagged tag_tag_changed tag_untagged : (taggee_id tag_id modified_at : ℕ) → Change

pub data SyncType : Type 0 where
  universal : (keep_deleted_files : Bool) → SyncType
  tag_based : (tags : List ℕ) → SyncType

pub record SyncDirectory : Type 0 where
  pub path : String
  pub sync_type : SyncType
  pub respect_gitignore : Bool
  pub debounce_ms : ℕ

-- `Peer`, without its address.
pub record Peer : Type 0 where
  pub name : String
  pub public_key : String

-- What the writer reads of `Configuration`; `eager_previews` is
-- `preview_generation_policy.is_eager()`.
pub record Configuration : Type 0 where
  pub sync_directories : List SyncDirectory
  pub peers : List Peer
  pub eager_previews : Bool

-- `RuntimePeer`: whether each of its two channels is there.
pub record RuntimePeer : Type 0 where
  pub outbound : Bool
  pub commands : Bool

-- The arguments that every handler takes. `id_to_string` prints an id as the uuid crate does.
pub record Context : Type 0 where
  pub configuration : Configuration
  pub runtime : Dict String RuntimePeer
  pub id_to_string : ℕ → String

-- `FileBytes`: content in memory, at a path to copy from, or at a path to take.
pub data FileBytes : Type 0 where
  in_memory : (bytes : List ℕ) → FileBytes
  file_to_copy file_to_move : (path : String) → FileBytes

-- The commands that the writer sends to the sync directories, without the channels for replies.
pub data SyncDirectoryCommand : Type 0 where
  create_file_in :
      (file_id : ℕ) (physical_path : String) (content : FileBytes) (sync_directory_path : String)
      → SyncDirectoryCommand
  change_file_in :
      (file_id : ℕ) (logical_path : String) (content : FileBytes) (sync_directory_path : String)
      → SyncDirectoryCommand
  move_file_in :
      (file_id : ℕ) (physical_path : String) (sync_directory_path : String) → SyncDirectoryCommand
  remove_file_in : (file_id : ℕ) (sync_directory_path : String) → SyncDirectoryCommand
  apply_placement :
      (file_id : ℕ) (logical_path : String) (file_tags : List ℕ) → SyncDirectoryCommand

-- What goes out of the writer: a command to the sync directories; a change to a connected peer; a
-- pull by the session of a peer (`StartReceive`); a task that is spawned to fetch the bytes of a
-- version, at once or when the sync directories answer that they lack them; a change to the
-- subscribers; a request for a preview.
pub data Sent : Type 0 where
  command : SyncDirectoryCommand → Sent
  frame : (public_key : String) → Change → Sent
  start_receive :
      (public_key : String) (file_id : ℕ) (content_hash : String) (size : ℕ)
      (placement : MaterializePlacement)
      → Sent
  fetch_and_materialize :
      (file_id : ℕ) (placement : MaterializePlacement) (content_hash : String) (size : ℕ) → Sent
  fetch_if_deferred :
      (file_id : ℕ) (placement : MaterializePlacement) (latest_version : Option (String × ℕ)) → Sent
  event : Change → Sent
  get_preview : (file_id : ℕ) → Sent

-- What a handler leaves: the catalog, what it sent, and whether the change is to be published.
pub record Outcome : Type 0 where
  pub database : CatalogStore
  pub sent : List Sent
  pub publish : Bool

abbrev pub outcome : CatalogStore → List Sent → Bool → Outcome
outcome database sent publish = record { database = database; sent = sent; publish = publish }
