-- ===== src/Catalog/Steps.antt =====
-- What the writer may do to the catalog, one step at a time: an abstract view of its handlers, with
-- the guards that the handlers check before each write.
pub mod Handlers
pub mod Purging
pub mod Caching
pub mod Writes
pub mod Latest
pub mod Commands
pub mod Kept
pub mod Writer
pub mod Adopted
pub mod Reordered
pub mod Unguarded
use tagsy.Prelude.{Dict, List, String, false, true, ℕ, ◌==◌, ◌≡◌, ◌≤◌, string_eq, nat_eq}
use tagsy.Store.{CatalogStore, TagRow, ok, entry_key_eq}
use tagsy.Store.Versions.{latest_observed_at}
use tagsy.Store.Files.{add_file, apply_restore, file_exists, remove_file, update_file_logical_path}
use tagsy.Store.Purged.{is_purged, tags_file_in}
use tagsy.Store.Entries.{RelationshipEntry, apply_relationship}
use tagsy.Peer.Plan.Purge.{apply_purge}
use tagsy.Catalog.{ChangeOrigin}
use tagsy.Catalog.Files.{adopt, tag_all}

-- The file that a relationship of kind `file` is about is not purged.
abbrev pub MayRelate : RelationshipEntry → CatalogStore → Type 0
MayRelate e db =
    (file_id : ℕ) → tags_file_in (λ id. id == file_id) e.key ≡ true → is_purged file_id db ≡ false

-- Every write to a file that is not a purge is to one that is not purged. A row is inserted only
-- where there is none, with its tags and its first version; a later version is recorded only if it
-- is no older than the latest one.
pub data Step (db after : CatalogStore) : Type 0 where
  introduce :
      (file_id : ℕ) (path : String) (modified_at : ℕ) (tags : List ℕ) (origin : ChangeOrigin)
      (content_hash : String) (size observed_at : ℕ) {added : CatalogStore}
      → is_purged file_id db ≡ false
      → file_exists file_id db ≡ false
      → add_file file_id path modified_at db ≡ ok added
      → after
        ≡ adopt origin file_id content_hash size observed_at
            (tag_all tags file_id modified_at added)
      → Step db after
  take_newer :
      (file_id : ℕ) (origin : ChangeOrigin) (content_hash : String) (size observed_at : ℕ)
      → is_purged file_id db ≡ false
      → latest_observed_at file_id db ≤ observed_at
      → after ≡ adopt origin file_id content_hash size observed_at db
      → Step db after
  move :
      (file_id : ℕ) (path : String) (modified_at : ℕ)
      → is_purged file_id db ≡ false
      → after ≡ (update_file_logical_path file_id path modified_at db).0
      → Step db after
  bury_file :
      (file_id deleted_at : ℕ)
      → is_purged file_id db ≡ false
      → after ≡ (remove_file file_id deleted_at db).0
      → Step db after
  restore :
      (file_id restored_at : ℕ)
      → is_purged file_id db ≡ false
      → after ≡ (apply_restore file_id restored_at db).0
      → Step db after
  relate :
      (e : RelationshipEntry) → MayRelate e db → after ≡ apply_relationship e db → Step db after
  define_tags : (tags : Dict ℕ TagRow) → after ≡ record db { tags = tags } → Step db after
  purge : (file_id : ℕ) → after ≡ apply_purge file_id db → Step db after

pub data Steps (db : CatalogStore) : CatalogStore → Type 0 where
  here : Steps db db
  next : {b c : CatalogStore} → Steps db b → Step b c → Steps db c

pub Steps-trans : {a b c : CatalogStore} → Steps a b → Steps b c → Steps a c
Steps-trans h here = h
Steps-trans h (next k s) = next (Steps-trans h k) s
