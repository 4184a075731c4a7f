-- ===== src/Store/Entries/Exchange.antt =====
-- Two catalogs that apply each other's relationship manifests.
use tagsy.Prelude.{
  Dict, Option, [], false, if◌then◌else◌, lookup, ltb, none, some, sym, true, ℕ, ◌∙◌, ◌∷◌, ◌≡◌, ◌≢◌,
  string_eq, nat_eq,
}
use tagsy.Store.{CatalogStore, EntryKey, EntryRow, file, entry_key_eq}
use tagsy.Store.Entries.{
  RelationshipEntry, apply_relationship, entry, relationship_manifest_entries, tag_file,
  untag_entry, untag_file, upsert_entry,
}
use tagsy.Store.Entries.Newest.{held_comm, lookup-upsert_all, upsert_all}

-- What a catalog holds once it has applied the manifest of another.
abbrev pub merged : CatalogStore → CatalogStore → Dict EntryKey EntryRow
merged db other = upsert_all (relationship_manifest_entries other) db.entries

abbrev newer_row : Option EntryRow → Option EntryRow → Option EntryRow
newer_row o none = o
newer_row none (some row) = some row
newer_row (some ours) (some theirs) =
    if ltb ours.modified_at theirs.modified_at then some theirs else some ours

abbrev sent_entry : EntryKey × EntryRow → RelationshipEntry
sent_entry row = record { key = row.0; modified_at = row.1.modified_at; deleted = row.1.deleted }

-- A tag and an untag of one file, at different times, come to the same in either order, for every
-- relationship.
pub tag_file-untag_file :
    (tag_id file_id tagged_at untagged_at : ℕ) (key : EntryKey) (db : CatalogStore)
    → tagged_at ≢ untagged_at
    → lookup key
        (untag_file tag_id file_id untagged_at (tag_file tag_id file_id tagged_at db)).entries
      ≡ lookup key
          (tag_file tag_id file_id tagged_at (untag_file tag_id file_id untagged_at db)).entries
unfolding tag_file untag_file upsert_entry untag_entry apply_relationship
tag_file-untag_file tag_id file_id tagged_at untagged_at key db apart =
    let tagging = entry tag_id file_id file tagged_at false in
    let untagging = entry tag_id file_id file untagged_at true in
    lookup-upsert_all key (tagging ∷ untagging ∷ []) db.entries
    ∙ held_comm key tagging untagging (lookup key db.entries) (λ same. apart)
    ∙ sym (lookup-upsert_all key (untagging ∷ tagging ∷ []) db.entries)
