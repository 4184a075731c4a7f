-- ===== src/Store.antt =====
-- The catalog database, tagsyd/src/store: its tables (store/schema.rs) and value types
-- (store/types.rs). An id is the number that its 128 bits spell, and a stamp is unix milliseconds,
-- not negative. A table with a primary key is a list of rows; each SQL statement is a function on
-- these lists, and a transaction is the composition of its statements. A failure of the driver
-- itself (disk full, corrupt file) is not modelled; a violated constraint is.
pub mod Versions
pub mod Files
pub mod Purged
pub mod Entries
pub mod Tags
pub mod ShortIds
pub mod Listing
pub mod Query
use tagsy.Prelude.{
  Bool, Dict, List, PartialEq, String, [], arith, false, true, ℕ, ◌&&◌, ◌*◌, ◌==◌, ◌↔◌, ◌≡◌,
  string_eq, nat_eq,
}

-- `DatabaseError`; `sqlite` carries what the driver said of a violated constraint.
pub data DatabaseError : Type 0 where
  missing_file missing_tag invalid_tag_name cant_tag_itself : DatabaseError
  sqlite : String → DatabaseError

pub data Result {ℓ} (A : Type ℓ) : Type ℓ where
  ok : A → Result A
  err : DatabaseError → Result A

-- The catalog after a statement that may fail; the writer logs the error and goes on.
abbrev pub or_keep {ℓ} : {A : Type ℓ} → A → Result A → A
or_keep db (ok after) = after
or_keep db (err e) = db

-- `DeletionState`.
pub record DeletionState : Type 0 where
  pub deleted : Bool
  pub deleted_at : ℕ
  pub restored_at : ℕ

-- A row of `files_v2`, without its key.
pub record FileRow : Type 0 where
  pub logical_path : String
  pub logical_path_modified_at : ℕ
  pub deletion : DeletionState
  pub open deletion use *

-- A row of `file_versions_v1`.
pub record FileVersion : Type 0 where
  pub file_id : ℕ
  pub content_hash : String
  pub observed_at : ℕ
  pub version_number : ℕ
  pub origin : String
  pub size : ℕ

-- The key of a row of `previews_v1`; what was rendered plays no part here.
pub record PreviewKey : Type 0 where
  pub file_id : ℕ
  pub content_hash : String

pub data RelationshipKind : Type 0 where
  file tag : RelationshipKind

abbrev pub kind_beq : RelationshipKind → RelationshipKind → Bool
kind_beq file file = true
kind_beq tag tag = true
kind_beq _ _ = false

-- UNIQUE (tag_id, target_id, type); `target_id` is the id that the kind says.
pub record EntryKey : Type 0 where
  pub tag_id : ℕ
  pub target_id : ℕ
  pub kind : RelationshipKind

abbrev pub key_beq : EntryKey → EntryKey → Bool
key_beq a b = a.tag_id == b.tag_id && a.target_id == b.target_id && kind_beq a.kind b.kind

pub key_beq_iff : (a b : EntryKey) → (key_beq a b ≡ true) ↔ (a ≡ b)
key_beq_iff a b = ground arith

instance abbrev pub entry_key_eq : PartialEq EntryKey
entry_key_eq = record { same = key_beq; same_iff = key_beq_iff }

-- The rest of a row of `entries_v1`.
pub record EntryRow : Type 0 where
  pub modified_at : ℕ
  pub deleted : Bool

-- The ten style columns of `tags_v2`; `border_width` is a REAL, kept as its bit pattern.
pub record StyleColumns : Type 0 where
  pub dot_color : String
  pub background : String
  pub gradient : String
  pub foreground : String
  pub border : String
  pub border_width : ℕ
  pub border_style : String
  pub shape : String
  pub shadow : ℕ
  pub shadow_color : String

-- A row of `tags_v2`, without its key; the `metadata` column is never written.
pub record TagRow : Type 0 where
  pub name : String
  pub modified_at : ℕ
  pub deleted : Bool
  pub style : StyleColumns

pub record CatalogStore : Type 0 where
  pub files : Dict ℕ FileRow
  pub versions : List FileVersion
  pub previews : List PreviewKey
  pub tags : Dict ℕ TagRow
  pub entries : Dict EntryKey EntryRow
  pub purged : List ℕ

abbrev pub empty : CatalogStore
empty = record { files = []; versions = []; previews = []; tags = []; entries = []; purged = [] }
