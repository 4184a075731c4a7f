-- ===== src/Catalog/Steps/Adopted.antt =====
-- A version that the writer adopts for a file with or without a row.
use tagsy.Prelude.{
  List, Option, Option-cases, String, [], ap, arith, contains, false, inl, inr, insert, lookup, map,
  none, some, true, ℕ, ◌++◌, ◌+◌, ◌<◌, ◌∙◌, ◌∷◌, ◌≡◌, nat_eq, string_eq,
}
use tagsy.Store.{CatalogStore, FileVersion, entry_key_eq}
use tagsy.Store.Versions.{
  HistoryItem, item_of, latest_observed_at, latest_version, newest, observed_of, order_by_number,
  rows_of, version_history,
}
use tagsy.Store.Versions.History.{
  files-recorded, latest_version-recorded, new_version, recorded, version_history-recorded,
}
use tagsy.Store.Files.{file_exists, live_row}
use tagsy.Store.Purged.{is_purged}
use tagsy.Catalog.{ChangeOrigin}
use tagsy.Catalog.Forward.{version_origin}
use tagsy.Catalog.Files.{adopt, supersedes_latest, tag_all}
use mathlib.Core.Option
use mathlib.Core.List.{map-append}
use tagsy.Catalog.Steps.Caching.{tag_all-tables}
use tagsy.Catalog.Steps.Purging.{adopt-Untouched, tag_all-Untouched}
use tagsy.Catalog.Steps.Writes.{Wrote-restore_file}
use tagsy.Store.Files.Branches.{restore_file-none}

-- The content hash and the stamp of a file's latest version, and the content_hashes of all of them, the
-- oldest first.
abbrev pub latest_content : ℕ → CatalogStore → Option (String × ℕ)
latest_content file_id db =
    Option.map (λ (v : FileVersion). (v.content_hash, v.observed_at)) (latest_version file_id db)

abbrev pub content_hashes : ℕ → CatalogStore → List String
content_hashes file_id db =
    map (λ (item : HistoryItem). item.content_hash) (version_history file_id db)

-- The version that `adopt` records, whatever was there.
module _ (file_id : ℕ) (origin : ChangeOrigin) (content_hash : String) (size observed_at : ℕ)
    (db : CatalogStore) where
  latest_version-adopt :
      latest_version file_id (adopt origin file_id content_hash size observed_at db)
      ≡ some (new_version file_id content_hash (version_origin origin) size observed_at db)
  unfolding adopt latest_version
  latest_version-adopt =
      let after : CatalogStore =
        recorded file_id content_hash (version_origin origin) size observed_at db in
      ap (λ vs. newest (rows_of file_id vs)) ((Wrote-restore_file file_id after).0)
      ∙ latest_version-recorded file_id content_hash (version_origin origin) size observed_at db

  pub latest_observed_at-adopt :
      latest_observed_at file_id (adopt origin file_id content_hash size observed_at db)
      ≡ observed_at
  unfolding latest_observed_at
  latest_observed_at-adopt = ap observed_of latest_version-adopt

  pub latest_content-adopt :
      latest_content file_id (adopt origin file_id content_hash size observed_at db)
      ≡ some (content_hash, observed_at)
  latest_content-adopt =
      ap (Option.map (λ (v : FileVersion). (v.content_hash, v.observed_at))) latest_version-adopt

  pub content_hashes-adopt :
      content_hashes file_id (adopt origin file_id content_hash size observed_at db)
      ≡ content_hashes file_id db ++ content_hash ∷ []
  unfolding adopt version_history
  content_hashes-adopt =
      let after : CatalogStore =
        recorded file_id content_hash (version_origin origin) size observed_at db in
      let hash : HistoryItem → String = λ (item : HistoryItem). item.content_hash in
      ap (λ vs. map hash (map item_of (order_by_number (rows_of file_id vs))))
        ((Wrote-restore_file file_id after).0)
      ∙ ap (map hash) (
          version_history-recorded file_id content_hash (version_origin origin) size observed_at db)
      ∙ map-append hash (version_history file_id db) _

pub adopt-is_purged :
    (file_id : ℕ) (origin : ChangeOrigin) (content_hash : String) (size observed_at : ℕ)
    (db : CatalogStore)
    → is_purged file_id (adopt origin file_id content_hash size observed_at db)
      ≡ is_purged file_id db
unfolding is_purged
adopt-is_purged file_id origin content_hash size observed_at db = ap (contains file_id) (
    (adopt-Untouched file_id (file_id + 1) origin content_hash size observed_at db (omega arith)).1)

pub seeded-is_purged :
    (file_id : ℕ) (path : String) (modified_at : ℕ) (tags : List ℕ) (db : CatalogStore)
    → is_purged file_id (
        tag_all tags file_id modified_at
          (record db { files = insert file_id (live_row path modified_at) db.files }))
      ≡ is_purged file_id db
unfolding is_purged
seeded-is_purged file_id path modified_at tags db = ap (contains file_id) (
    (tag_all-Untouched file_id (file_id + 1) modified_at (omega arith) tags
      (record db { files = insert file_id (live_row path modified_at) db.files })).1)

pub seeded-content_hashes :
    (file_id : ℕ) (path : String) (modified_at : ℕ) (tags : List ℕ) (db : CatalogStore)
    → content_hashes file_id (
        tag_all tags file_id modified_at
          (record db { files = insert file_id (live_row path modified_at) db.files }))
      ≡ content_hashes file_id db
unfolding version_history
seeded-content_hashes file_id path modified_at tags db =
    ap
      (λ vs.
        map (λ (item : HistoryItem). item.content_hash)
          (map item_of (order_by_number (rows_of file_id vs))))
      ((tag_all-tables tags file_id modified_at
        (record db { files = insert file_id (live_row path modified_at) db.files })).1)

-- A version of a file with no row leaves it without one.
pub adopt-unknown :
    (file_id : ℕ) (origin : ChangeOrigin) (content_hash : String) (size observed_at : ℕ)
    (db : CatalogStore)
    → file_exists file_id db ≡ false
    → file_exists file_id (adopt origin file_id content_hash size observed_at db) ≡ false
unfolding adopt file_exists
adopt-unknown file_id origin content_hash size observed_at db new =
    let after : CatalogStore =
      recorded file_id content_hash (version_origin origin) size observed_at db in
    let files = files-recorded file_id content_hash (version_origin origin) size observed_at db in
    let none_yet : lookup file_id db.files ≡ none = elim (Option-cases (lookup file_id db.files)) [
      | inl e ↦ e
      | inr (row, e) ↦ absurd (ground (arith, e, new))
    ] in
    let same = restore_file-none file_id after (ap (lookup file_id) files ∙ none_yet) in
    ground (
      arith,
      ap (λ (x : CatalogStore). lookup file_id x.files) same,
      ap (lookup file_id) files,
      none_yet,
    )

pub superseding :
    (file_id observed_at : ℕ) (db : CatalogStore)
    → latest_version file_id db ≡ none
    → supersedes_latest file_id observed_at db ≡ true
unfolding supersedes_latest
superseding file_id observed_at db e = ground (arith, e)

pub superseding_newer :
    (file_id observed_at : ℕ) (db : CatalogStore)
    → latest_observed_at file_id db < observed_at
    → supersedes_latest file_id observed_at db ≡ true
unfolding supersedes_latest latest_observed_at
superseding_newer file_id observed_at db h = elim (Option-cases (latest_version file_id db)) [
  | inl e ↦ ground (arith, e)
  | inr (v, e) ↦ ground (arith, e, h)
]
