-- ===== src/Peer/Plan/Tags/Exchanged.antt =====
-- What the exchange of tag manifests comes to.
use tagsy.Prelude.{
  All, Bool, Bool-cases, Dict, List, Option, Option-cases, String, [], ap, arith, false, inl, inr,
  leb, lookup, none, refl, run, some, sym, true, ℕ, ◌&&◌, ◌<◌, ◌==◌, ◌∙◌, ◌∷◌, ◌≡◌, ◌≢◌, nat_eq,
  string_eq,
}
use tagsy.Store.{
  CatalogStore, EntryKey, EntryRow, RelationshipKind, TagRow, file, kind_beq, tag, entry_key_eq,
}
use tagsy.Store.Entries.{
  RelationshipEntry, apply_relationship, entry, relationship_modified_at, tag_file, tag_tag,
  untag_entry, untag_file, untag_tag, upsert, upsert_entry,
}
use tagsy.Store.Entries.Newest.{lookup-upsert, newer, upsert_all}
use tagsy.Peer.Plan.Tags.{
  change_of, is_needed, plan_definitions, plan_relationships, plan_tag_sync, relationship_to_change,
}
use tagsy.Catalog.{Change, tag_removed, tag_renamed}
use tagsy.Catalog.Tagging.{write_tagging}
use tagsy.Store.Tags.{TagManifestEntry, tag_modified_at}
use tagsy.Store.Tags.Order.{View, rename_tag-remove_tag, seen}

-- Not a tag that is related to itself, which the store rejects.
abbrev pub IsProper : RelationshipEntry → Type 0
IsProper e = (kind_beq e.key.kind tag && e.key.tag_id == e.key.target_id) ≡ false

write-change_of :
    (kind : RelationshipKind) (deleted : Bool) (target_id tag_id modified_at : ℕ)
    (db : CatalogStore)
    → (kind_beq kind tag && tag_id == target_id) ≡ false
    → write_tagging (change_of kind deleted target_id tag_id modified_at) db
      ≡ apply_relationship (entry tag_id target_id kind modified_at deleted) db
unfolding write_tagging tag_file untag_file tag_tag untag_tag upsert_entry untag_entry
write-change_of file false target_id tag_id modified_at db h = refl
write-change_of file true target_id tag_id modified_at db h = refl
write-change_of tag false target_id tag_id modified_at db h = rw h refl
write-change_of tag true target_id tag_id modified_at db h = refl

-- The change that stands for an entry writes the entry.
entries-write_tagging :
    (e : RelationshipEntry) (db : CatalogStore)
    → IsProper e
    → write_tagging (relationship_to_change e) db ≡ apply_relationship e db
unfolding relationship_to_change
entries-write_tagging e db h =
    write-change_of e.key.kind e.deleted e.key.target_id e.key.tag_id e.modified_at db h

-- What is held is at least as new as a stamp.
abbrev holds : Option EntryRow → ℕ → Bool
holds none modified_at = false
holds (some row) modified_at = leb modified_at row.modified_at

upsert_old :
    (e : RelationshipEntry) (rows : Dict EntryKey EntryRow)
    → holds (lookup e.key rows) e.modified_at ≡ true
    → upsert e rows ≡ rows
unfolding upsert
upsert_old e rows h = elim (Option-cases (lookup e.key rows)) [
  | inl k ↦ ground (arith, h, k)
  | inr (row, k) ↦ ground (arith, h, k)
]

-- Rows that are nowhere older than those of a catalog.
abbrev Ahead : CatalogStore → Dict EntryKey EntryRow → Type 0
Ahead db rows =
    (key : EntryKey) (modified_at : ℕ)
    → is_needed (relationship_modified_at key db) modified_at ≡ false
    → holds (lookup key rows) modified_at ≡ true

holds-newer :
    (e : RelationshipEntry) (modified_at : ℕ) (o : Option EntryRow)
    → holds o modified_at ≡ true
    → holds (newer o e) modified_at ≡ true
holds-newer e modified_at none h = ground (arith, h)
holds-newer e modified_at (some row) h = ground (arith, h)

Ahead-upsert :
    (db : CatalogStore) (e : RelationshipEntry) (rows : Dict EntryKey EntryRow)
    → Ahead db rows
    → Ahead db (upsert e rows)
Ahead-upsert db e rows ahead key modified_at h =
    ap (λ o. holds o modified_at) (lookup-upsert key e rows)
    ∙ ground (arith, ahead key modified_at h, holds-newer e modified_at (lookup key rows))

Ahead-start : (db : CatalogStore) → Ahead db db.entries
unfolding relationship_modified_at
Ahead-start db key modified_at h = elim (Option-cases (lookup key db.entries)) [
  | inl k ↦ ground (arith, h, k)
  | inr (row, k) ↦ ground (arith, h, k)
]

planned-upsert_all :
    (db : CatalogStore) (es : List RelationshipEntry) (current : CatalogStore)
    → All IsProper es
    → Ahead db current.entries
    → (run write_tagging (plan_relationships es db) current).entries ≡ upsert_all es current.entries
unfolding plan_relationships apply_relationship
planned-upsert_all db [] current h ahead = refl
planned-upsert_all db (e ∷ es) current h ahead =
    elim (Bool-cases (is_needed (relationship_modified_at e.key db) e.modified_at)) [
      | inl needed ↦ rw needed (
          ap (λ (x : CatalogStore). (run write_tagging (plan_relationships es db) x).entries)
            (entries-write_tagging e current h.0)
          ∙ planned-upsert_all db es (apply_relationship e current) h.1
              (Ahead-upsert db e current.entries ahead))
      | inr old ↦ rw old (
          planned-upsert_all db es current h.1 ahead
          ∙ ap (upsert_all es) (sym (upsert_old e current.entries (ahead e.key e.modified_at old))))
    ]

-- Applying only the changes that the plan finds necessary leaves the same relationships as applying
-- every entry of the manifest, if no entry relates a tag to itself.
pub plan_relationships-upsert_all :
    (es : List RelationshipEntry) (db : CatalogStore)
    → All IsProper es
    → (run write_tagging (plan_relationships es db) db).entries ≡ upsert_all es db.entries
plan_relationships-upsert_all es db h = planned-upsert_all db es db h (Ahead-start db)

needs-not :
    (tag_id : ℕ) (db : CatalogStore) (v : View)
    → seen tag_id db ≡ some v
    → is_needed (tag_modified_at tag_id db) v.0 ≡ false
unfolding tag_modified_at
needs-not tag_id db v h = elim (Option-cases (lookup tag_id db.tags)) [
  | inl e ↦ ground (arith, e, h)
  | inr (row, e) ↦ ground (arith, e, h)
]

abbrev pub announces : ℕ → ℕ → Bool → TagManifestEntry
announces tag_id modified_at deleted = record {
  tag_id = tag_id;
  modified_at = modified_at;
  deleted = deleted;
}

plan-same_stamp :
    (tag_id : ℕ) (deleted : Bool) (db : CatalogStore) (v : View)
    → seen tag_id db ≡ some v
    → plan_tag_sync (announces tag_id v.0 deleted ∷ []) [] db
      ≡ record { outbound = []; changes = [] }
unfolding plan_tag_sync plan_definitions plan_relationships
plan-same_stamp tag_id deleted db v h = rw (needs-not tag_id db v h) refl

-- Two devices hold a live tag; one removes it, the other renames it later, and each then hears of
-- the other's change. The first keeps the tag removed, the second has it live under the new name,
-- both with the stamp of the rename, and neither then finds anything to do about the tag in the
-- other's manifest.
pub rename_tag-remove_tag_apart :
    (tag_id : ℕ) (row : TagRow) (name : String) (removed_at renamed_at : ℕ) (db : CatalogStore)
    → let removes : Change = tag_removed tag_id removed_at in
      let renames : Change = tag_renamed tag_id name renamed_at in
      let one_device : CatalogStore = write_tagging renames (write_tagging removes db) in
      let other_device : CatalogStore = write_tagging removes (write_tagging renames db) in
      lookup tag_id db.tags ≡ some row
      → row.deleted ≡ false
      → row.modified_at < removed_at
      → removed_at < renamed_at
      → name ≢ ""
      → (seen tag_id one_device ≡ some (renamed_at, none))
        × (seen tag_id other_device ≡ some (renamed_at, some (name, row.style)))
        × (plan_tag_sync (announces tag_id renamed_at false ∷ []) [] one_device
            ≡ record { outbound = []; changes = [] })
        × (plan_tag_sync (announces tag_id renamed_at true ∷ []) [] other_device
            ≡ record { outbound = []; changes = [] })
unfolding write_tagging
rename_tag-remove_tag_apart tag_id row name removed_at renamed_at db known live h k named =
    let both =
      rename_tag-remove_tag tag_id row name removed_at renamed_at db known live h k named in
    (
      both.0,
      both.1,
      plan-same_stamp tag_id false _ (renamed_at, none) both.0,
      plan-same_stamp tag_id true _ (renamed_at, some (name, row.style)) both.1,
    )
