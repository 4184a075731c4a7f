-- ===== src/Peer/Plan/Tags.antt =====
-- tagsyd/src/peer/plan_tags.rs: what to do about the tags and relationships that a peer announces,
-- and the answer to its request for a definition. The channels are open; ids are numbers, so a
-- target that does not parse does not occur.
pub mod Frames
pub mod Exchanged
use tagsy.Prelude.{
  Bool, List, Option, String, [], false, if◌then◌else◌, ltb, map, max, none, not, some, true, ℕ,
  ◌++◌, ◌∷◌, nat_eq, string_eq,
}
use tagsy.Store.{CatalogStore, RelationshipKind, file, tag, entry_key_eq}
use tagsy.Store.Tags.{TagManifestEntry, tag_definition, tag_manifest_entries, tag_modified_at}
use tagsy.Store.Tags.Styles.{TagStyle}
use tagsy.Store.Entries.{RelationshipEntry, relationship_manifest_entries, relationship_modified_at}
use tagsy.Peer.Plan.Manifest.{chunks}
use tagsy.Catalog.{
  Change, file_tagged, file_untagged, tag_added, tag_removed, tag_tagged, tag_untagged,
}

-- The frames of this exchange.
pub data Frame : Type 0 where
  change_frame : Change → Frame
  tag_request tag_not_found : (tag_id : ℕ) → Frame

-- What is sent: a frame to the peer, or a change to the catalog writer, in the peer's name.
pub record TagPlan : Type 0 where
  pub outbound : List Frame
  pub changes : List Change

unfoldable pub build_local_tag_manifest :
    CatalogStore → List TagManifestEntry × List RelationshipEntry
unfolding tag_manifest_entries relationship_manifest_entries
build_local_tag_manifest db = (tag_manifest_entries db, relationship_manifest_entries db)

-- A frame with definitions for each chunk of them, then one with relationships for each of those.
unfoldable pub batch_tag_manifest :
    List TagManifestEntry
    → List RelationshipEntry
    → ℕ
    → List (List TagManifestEntry × List RelationshipEntry)
unfolding chunks
batch_tag_manifest definitions relationships batch_size =
    map (λ (c : List TagManifestEntry). (c, [])) (chunks (max batch_size 1) definitions)
    ++ map (λ (c : List RelationshipEntry). ([], c)) (chunks (max batch_size 1) relationships)

abbrev pub is_needed : Option ℕ → ℕ → Bool
is_needed none modified_at = true
is_needed (some ours) modified_at = ltb ours modified_at

unfoldable pub plan_definition : TagManifestEntry → TagPlan → TagPlan
plan_definition d rest =
    if d.deleted
    then record rest { changes = tag_removed d.tag_id d.modified_at ∷ rest.changes }
    else record rest { outbound = tag_request d.tag_id ∷ rest.outbound }

unfoldable pub plan_definitions : List TagManifestEntry → CatalogStore → TagPlan → TagPlan
unfolding tag_modified_at plan_definition
plan_definitions [] db after = after
plan_definitions (d ∷ definitions) db after =
    let rest = plan_definitions definitions db after in
    if not (is_needed (tag_modified_at d.tag_id db) d.modified_at)
    then rest
    else plan_definition d rest

abbrev pub change_of : RelationshipKind → Bool → ℕ → ℕ → ℕ → Change
change_of file false target_id tag_id modified_at = file_tagged target_id tag_id modified_at
change_of file true target_id tag_id modified_at = file_untagged target_id tag_id modified_at
change_of tag false target_id tag_id modified_at = tag_tagged target_id tag_id modified_at
change_of tag true target_id tag_id modified_at = tag_untagged target_id tag_id modified_at

unfoldable pub relationship_to_change : RelationshipEntry → Change
relationship_to_change e = change_of e.key.kind e.deleted e.key.target_id e.key.tag_id e.modified_at

unfoldable pub plan_relationships : List RelationshipEntry → CatalogStore → List Change
unfolding relationship_modified_at relationship_to_change
plan_relationships [] db = []
plan_relationships (e ∷ relationships) db =
    let rest = plan_relationships relationships db in
    if is_needed (relationship_modified_at e.key db) e.modified_at
    then relationship_to_change e ∷ rest
    else rest

unfoldable pub plan_tag_sync :
    List TagManifestEntry → List RelationshipEntry → CatalogStore → TagPlan
unfolding plan_definitions plan_relationships
plan_tag_sync definitions relationships db =
    plan_definitions definitions db
      (record { outbound = []; changes = plan_relationships relationships db })

abbrev answer : ℕ → Option (String × TagStyle × ℕ) → Frame
answer tag_id none = tag_not_found tag_id
answer tag_id (some (name, style, modified_at)) =
    change_frame (tag_added tag_id name style modified_at)

unfoldable pub build_tag_request_response : ℕ → CatalogStore → Frame
unfolding tag_definition
build_tag_request_response tag_id db = answer tag_id (tag_definition tag_id db)
