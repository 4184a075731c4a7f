-- ===== src/Store/Listing.antt =====
-- tagsyd/src/store/files.rs: get_all_files, the listing that the operator's commands start from, and
-- tagsyd/src/store/previews.rs: the cache of previews, of which the catalog model holds the keys.
use tagsy.Prelude.{
  Bool, Dict, List, String, [], if◌then◌else◌, none, not, retain, some, true, ℕ, ◌&&◌, ◌==◌, ◌∷◌,
  string_eq, nat_eq,
}
use tagsy.Store.{CatalogStore, FileRow, FileVersion, PreviewKey, entry_key_eq}
use tagsy.Store.Versions.{latest_version}

pub data DeletedRule : Type 0 where
  include exclude : DeletedRule

-- Of `FileInfo`, without the length of the short id and the time of the first version.
pub record FileInfo : Type 0 where
  pub file_id : ℕ
  pub logical_path : String
  pub content_hash : String
  pub version_number : ℕ
  pub size : ℕ
  pub deleted : Bool
  pub latest_change_at : ℕ

abbrev pub info_of : ℕ → FileRow → FileVersion → FileInfo
info_of file_id row v = record {
  file_id = file_id;
  logical_path = row.logical_path;
  content_hash = v.content_hash;
  version_number = v.version_number;
  size = v.size;
  deleted = row.deletion.deleted;
  latest_change_at = v.observed_at;
}

abbrev pub shows : DeletedRule → FileRow → Bool
shows include row = true
shows exclude row = not row.deletion.deleted

-- JOIN latest_version: a row without a version is not listed.
abbrev pub listed : DeletedRule → Dict ℕ FileRow → CatalogStore → List FileInfo
unfolding latest_version
listed rule [] db = []
listed rule ((file_id, row) ∷ files) db =
    let rest : List FileInfo = listed rule files db in
    elim (latest_version file_id db) [
      | none ↦ rest
      | some v ↦ if shows rule row then info_of file_id row v ∷ rest else rest
    ]

unfoldable pub get_all_files : DeletedRule → CatalogStore → List FileInfo
get_all_files rule db = listed rule db.files db

-- INSERT OR REPLACE.
unfoldable pub record_preview : ℕ → String → CatalogStore → CatalogStore
record_preview file_id content_hash db = record db {
  previews =
      record { file_id = file_id; content_hash = content_hash }
      ∷ retain (λ (p : PreviewKey). not (p.file_id == file_id && p.content_hash == content_hash))
          db.previews;
}

unfoldable pub purge_previews : CatalogStore → CatalogStore
purge_previews db = record db { previews = [] }
