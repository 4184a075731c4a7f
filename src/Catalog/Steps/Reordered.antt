-- ===== src/Catalog/Steps/Reordered.antt =====
-- An edit that arrives before the file it edits.
use tagsy.Prelude.{
  List, String, [], ap, arith, false, insert, none, refl, some, true, ℕ, ◌++◌, ◌<◌, ◌∙◌, ◌∷◌, ◌≡◌,
  string_eq, nat_eq,
}
use tagsy.Store.{CatalogStore, entry_key_eq}
use tagsy.Store.Versions.{latest_version}
use tagsy.Store.Files.{add_file, file_exists, live_row}
use tagsy.Store.Purged.{is_purged}
use tagsy.Catalog.{Change, ChangeOrigin, Context, file_metadata_added, file_metadata_changed}
use tagsy.Catalog.Files.{
  added_in, adopt, announce_version, apply_arm, apply_file_change, file_metadata_added_in,
  file_metadata_changed_in, is_guarded, purge_guard_file_id, supersedes_latest, tag_all,
}
use tagsy.Catalog.Apply.{apply_metadata_change}
use mathlib.Core.List.{append_assoc}
use tagsy.Catalog.Tagging.{apply_tag_change}
use tagsy.Catalog.Steps.Handlers.{taken}
use tagsy.Catalog.Steps.Adopted.{
  adopt-is_purged, adopt-unknown, content_hashes, content_hashes-adopt, latest_content,
  latest_content-adopt, latest_observed_at-adopt, seeded-content_hashes, seeded-is_purged,
  superseding, superseding_newer,
}

apply-taken :
    (context : Context) (origin : ChangeOrigin) (announced : Change) (db : CatalogStore)
    → is_guarded (purge_guard_file_id announced) db ≡ false
    → (apply_metadata_change context origin announced db).0 ≡ taken context origin announced db
unfolding apply_metadata_change apply_file_change apply_arm apply_tag_change taken
apply-taken context origin announced db free = rw free refl

module _ (context : Context) (origin : ChangeOrigin) (file_id : ℕ) (content_hash : String)
    (size observed_at : ℕ) (db : CatalogStore) where
  changed_in-adopt :
      (announced : Change)
      → supersedes_latest file_id observed_at db ≡ true
      → (file_metadata_changed_in context announced origin file_id content_hash size observed_at
          db).database
        ≡ adopt origin file_id content_hash size observed_at db
  unfolding file_metadata_changed_in announce_version
  changed_in-adopt announced newer = rw newer refl

  added_in-adopt :
      (announced : Change) (path : String) (modified_at : ℕ) (tags : List ℕ)
      → file_exists file_id db ≡ false
      → (file_metadata_added_in context announced origin file_id path modified_at content_hash size
          observed_at tags db).database
        ≡ adopt origin file_id content_hash size observed_at (
            tag_all tags file_id modified_at
              (record db { files = insert file_id (live_row path modified_at) db.files }))
  unfolding file_metadata_added_in added_in announce_version add_file
  added_in-adopt announced path modified_at tags new = rw new refl

  changed-adopt :
      is_purged file_id db ≡ false
      → supersedes_latest file_id observed_at db ≡ true
      → (apply_metadata_change context origin
          (file_metadata_changed file_id content_hash size observed_at)
          db).0
        ≡ adopt origin file_id content_hash size observed_at db
  unfolding taken apply_arm purge_guard_file_id is_purged
  changed-adopt free newer =
      let announced : Change = file_metadata_changed file_id content_hash size observed_at in
      apply-taken context origin announced db free ∙ changed_in-adopt announced newer

  added-adopt :
      (path : String) (modified_at : ℕ) (tags : List ℕ)
      → is_purged file_id db ≡ false
      → file_exists file_id db ≡ false
      → (apply_metadata_change context origin
          (file_metadata_added file_id path modified_at content_hash size observed_at tags)
          db).0
        ≡ adopt origin file_id content_hash size observed_at (
            tag_all tags file_id modified_at
              (record db { files = insert file_id (live_row path modified_at) db.files }))
  unfolding taken apply_arm purge_guard_file_id is_purged
  added-adopt path modified_at tags free new =
      let announced : Change =
        file_metadata_added file_id path modified_at content_hash size observed_at tags in
      apply-taken context origin announced db free
      ∙ added_in-adopt announced path modified_at tags new

module _ (context : Context) (origin : ChangeOrigin) (file_id : ℕ) (path : String) (modified_at : ℕ)
    (tags : List ℕ) (older_hash newer_hash : String) (older_size newer_size older newer : ℕ)
    (db : CatalogStore) where
  abbrev add : CatalogStore → CatalogStore
  add x =
      (apply_metadata_change context origin
        (file_metadata_added file_id path modified_at older_hash older_size older tags) x).0

  abbrev change : CatalogStore → CatalogStore
  change x =
      (apply_metadata_change context origin
        (file_metadata_changed file_id newer_hash newer_size newer) x).0

  abbrev seed_file : CatalogStore → CatalogStore
  seed_file x =
      tag_all tags file_id modified_at
        (record x { files = insert file_id (live_row path modified_at) x.files })

  abbrev adopt_old : CatalogStore → CatalogStore
  adopt_old x = adopt origin file_id older_hash older_size older x

  abbrev adopt_new : CatalogStore → CatalogStore
  adopt_new x = adopt origin file_id newer_hash newer_size newer x

  change-adopt :
      is_purged file_id db ≡ false → latest_version file_id db ≡ none → change db ≡ adopt_new db
  change-adopt free none_yet =
      changed-adopt context origin file_id newer_hash newer_size newer db free
        (superseding file_id newer db none_yet)

  change-add :
      is_purged file_id db ≡ false
      → file_exists file_id db ≡ false
      → older < newer
      → change (add db) ≡ adopt_new (adopt_old (seed_file db))
  change-add free new later =
      let stamp =
        latest_observed_at-adopt file_id origin older_hash older_size older (seed_file db) in
      let first : CatalogStore = adopt_old (seed_file db) in
      ap change (
        added-adopt context origin file_id older_hash older_size older db path modified_at tags free
          new)
      ∙ changed-adopt context origin file_id newer_hash newer_size newer first
          (adopt-is_purged file_id origin older_hash older_size older (seed_file db)
            ∙ seeded-is_purged file_id path modified_at tags db
            ∙ free)
          (superseding_newer file_id newer first (omega (arith, later, stamp)))

  add-change :
      is_purged file_id db ≡ false
      → file_exists file_id db ≡ false
      → latest_version file_id db ≡ none
      → add (change db) ≡ adopt_old (seed_file (adopt_new db))
  add-change free new none_yet =
      ap add (change-adopt free none_yet)
      ∙ added-adopt context origin file_id older_hash older_size older (adopt_new db) path
          modified_at tags (adopt-is_purged file_id origin newer_hash newer_size newer db ∙ free)
          (adopt-unknown file_id origin newer_hash newer_size newer db new)

-- The announcement of a file and that of a later edit of it, at a device that has neither a row nor
-- a version of the file and has not purged it. In order, the edit is its latest version. The other
-- way round, the edit is recorded and the file has no row; the announcement then records its older
-- content after the edit, and that is the latest version.
pub added-changed-order :
    (context : Context) (origin : ChangeOrigin) (file_id : ℕ) (path : String) (modified_at : ℕ)
    (tags : List ℕ) (older_hash newer_hash : String) (older_size newer_size older newer : ℕ)
    (db : CatalogStore)
    → let add : CatalogStore → CatalogStore = λ x.
      (apply_metadata_change context origin
        (file_metadata_added file_id path modified_at older_hash older_size older tags)
        x).0 in
      let change : CatalogStore → CatalogStore = λ x.
        (apply_metadata_change context origin
          (file_metadata_changed file_id newer_hash newer_size newer)
          x).0 in
      is_purged file_id db ≡ false
      → file_exists file_id db ≡ false
      → latest_version file_id db ≡ none
      → older < newer
      → (latest_content file_id (change (add db)) ≡ some (newer_hash, newer))
        × (file_exists file_id (change db) ≡ false)
        × (latest_content file_id (change db) ≡ some (newer_hash, newer))
        × (latest_content file_id (add (change db)) ≡ some (older_hash, older))
        × (content_hashes file_id (add (change db))
            ≡ content_hashes file_id db ++ newer_hash ∷ older_hash ∷ [])
added-changed-order context origin file_id path modified_at tags older_hash newer_hash older_size
      newer_size older newer db free new none_yet later =
    let edited : CatalogStore = adopt origin file_id newer_hash newer_size newer db in
    let seeded : CatalogStore =
      tag_all tags file_id modified_at
        (record edited { files = insert file_id (live_row path modified_at) edited.files }) in
    let alone =
      change-adopt context origin file_id path modified_at tags older_hash newer_hash older_size
        newer_size older newer db free none_yet in
    let in_order =
      change-add context origin file_id path modified_at tags older_hash newer_hash older_size
        newer_size older newer db free new later in
    let reversed =
      add-change context origin file_id path modified_at tags older_hash newer_hash older_size
        newer_size older newer db free new none_yet in
    (
      ap (latest_content file_id) in_order
          ∙ latest_content-adopt file_id origin newer_hash newer_size newer _,
      ap (file_exists file_id) alone
          ∙ adopt-unknown file_id origin newer_hash newer_size newer db new,
      ap (latest_content file_id) alone
          ∙ latest_content-adopt file_id origin newer_hash newer_size newer db,
      ap (latest_content file_id) reversed
          ∙ latest_content-adopt file_id origin older_hash older_size older seeded,
      ap (content_hashes file_id) reversed
          ∙ content_hashes-adopt file_id origin older_hash older_size older seeded
          ∙ ap (λ hs. hs ++ older_hash ∷ [])
              (seeded-content_hashes file_id path modified_at tags edited
                ∙ content_hashes-adopt file_id origin newer_hash newer_size newer db)
          ∙ append_assoc (content_hashes file_id db) (newer_hash ∷ []) (older_hash ∷ []),
    )
