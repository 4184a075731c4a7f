-- ===== src/Catalog/Steps/Unguarded.antt =====
-- The writes that do not ask whether their file is purged: a local edit, an upload, and a preview that
-- was still being made.
use tagsy.Prelude.{
  List, String, [], ap, arith, contains, none, sym, true, ℕ, ◌+◌, ◌∙◌, ◌≡◌, ◌≢◌, string_eq, nat_eq,
}
use tagsy.Store.{CatalogStore, entry_key_eq}
use tagsy.Store.Versions.{latest_version, newest, record_version_at, rows_of}
use tagsy.Store.Versions.History.{latest_version-recorded, recorded}
use tagsy.Store.Purged.{is_purged}
use tagsy.Store.Purged.Stripped.{IsStripped}
use tagsy.Store.Listing.{record_preview}
use tagsy.Catalog.{ChangeOrigin, Context, FileBytes}
use tagsy.Catalog.Files.{adopt}
use tagsy.Catalog.Forward.{version_origin}
use tagsy.Catalog.Content.{content_changed}
use tagsy.Catalog.Uploads.{announce, announce_upload}
use tagsy.Catalog.Apply.{local_origin}
use tagsy.Catalog.Steps.Purging.{adopt-Untouched}
use tagsy.Catalog.Steps.Writes.{Wrote-restore_file}

-- The file is purged, and a table holds a row of it.
abbrev pub IsLeftOver : ℕ → CatalogStore → Type 0
IsLeftOver file_id db = (is_purged file_id db ≡ true) × (¬ IsStripped file_id db)

module _ (file_id : ℕ) (content_hash : String) (size observed_at : ℕ) (db : CatalogStore)
    (gone : is_purged file_id db ≡ true) where
  has_version :
      (origin : String)
      → rows_of file_id (recorded file_id content_hash origin size observed_at db).versions ≢ []
  unfolding latest_version newest
  has_version origin e =
      ground (
        arith,
        ap newest e,
        latest_version-recorded file_id content_hash origin size observed_at db,
      )

  adopt-IsLeftOver :
      (origin : ChangeOrigin)
      → IsLeftOver file_id (adopt origin file_id content_hash size observed_at db)
  unfolding adopt is_purged record_version_at
  adopt-IsLeftOver origin =
      let after : CatalogStore =
        recorded file_id content_hash (version_origin origin) size observed_at db in
      (
        ap (contains file_id)
              (adopt-Untouched file_id (file_id + 1) origin content_hash size observed_at db
                (omega arith)).1
            ∙ gone,
        λ stripped. has_version (version_origin origin) (
            ap (rows_of file_id) (sym (Wrote-restore_file file_id after).0) ∙ stripped.no_versions),
      )

  -- A local edit, an edit that a client uploads and a preview that was being made, when the file was
  -- purged meanwhile, each leave a row of a purged file in the catalog.
  pub late_writes-IsLeftOver :
      (context : Context) (origin : ChangeOrigin) (content : FileBytes) (path_at : ℕ)
      (tags assigned : List ℕ)
      → IsLeftOver file_id
          (content_changed context origin file_id content content_hash size observed_at db).database
        × IsLeftOver file_id
            (announce_upload context file_id content_hash size observed_at none path_at tags
              assigned db).database
        × IsLeftOver file_id (record_preview file_id content_hash db)
  unfolding content_changed announce_upload announce record_preview is_purged
  late_writes-IsLeftOver context origin content path_at tags assigned = (
    adopt-IsLeftOver origin,
    adopt-IsLeftOver local_origin,
    (gone, λ stripped. ground (arith, stripped.no_previews)),
  )
