-- ===== src/Catalog/Tagging.antt =====
-- tagsyd/src/catalog/tagging.rs: the arms of apply_change for tags and relationships. An error of the
-- store is logged, and the change goes on to the peers all the same.
use tagsy.Prelude.{
  Bool, List, Option, [], false, if◌then◌else◌, none, some, true, ◌++◌, nat_eq, string_eq,
}
use tagsy.Store.{CatalogStore, or_keep, entry_key_eq}
use tagsy.Store.Entries.{tag_file, tag_tag, untag_file, untag_tag}
use tagsy.Store.Tags.{add_tag, remove_tag, update_tag_name, update_tag_style}
use tagsy.Catalog.{
  Change, ChangeOrigin, Context, Outcome, Sent, file_tag_changed, file_tagged, file_untagged,
  outcome, tag_added, tag_changed, tag_removed, tag_renamed, tag_restyled, tag_tag_changed,
  tag_tagged, tag_untagged,
}
use tagsy.Catalog.Forward.{forward_to_peers}
use tagsy.Catalog.Placement.{plan_placement}

-- What each arm writes.
unfoldable pub write_tagging : Change → CatalogStore → CatalogStore
unfolding add_tag update_tag_name update_tag_style remove_tag tag_file untag_file tag_tag untag_tag
write_tagging (tag_added tag_id name style t) db = or_keep db (add_tag tag_id name style t db)
write_tagging (tag_renamed tag_id name t) db = or_keep db (update_tag_name tag_id name t db)
write_tagging (tag_restyled tag_id style t) db = update_tag_style tag_id style t db
write_tagging (tag_removed tag_id t) db = (remove_tag tag_id t db).0
write_tagging (file_tagged file_id tag_id t) db = tag_file tag_id file_id t db
write_tagging (file_untagged file_id tag_id t) db = untag_file tag_id file_id t db
write_tagging (tag_tagged taggee_id tag_id t) db = or_keep db (tag_tag tag_id taggee_id t db)
write_tagging (tag_untagged taggee_id tag_id t) db = untag_tag tag_id taggee_id t db
write_tagging _ db = db

-- The placement of a file is planned anew when its tags change.
unfoldable pub plan_after : Change → CatalogStore → List Sent
unfolding plan_placement
plan_after (file_tagged file_id tag_id t) db = plan_placement db file_id
plan_after (file_untagged file_id tag_id t) db = plan_placement db file_id
plan_after _ db = []

-- Whether the arm forwards the change: those that wait for metadata to be stored do not; `none` is
-- a change that tagging.rs does not handle.
unfoldable pub forwards : Change → Option Bool
forwards (tag_added tag_id name style t) = some true
forwards (tag_renamed tag_id name t) = some true
forwards (tag_restyled tag_id style t) = some true
forwards (tag_changed tag_id t) = some false
forwards (tag_removed tag_id t) = some true
forwards (file_tagged file_id tag_id t) = some true
forwards (file_tag_changed file_id tag_id t) = some false
forwards (file_untagged file_id tag_id t) = some true
forwards (tag_tagged taggee_id tag_id t) = some true
forwards (tag_tag_changed taggee_id tag_id t) = some false
forwards (tag_untagged taggee_id tag_id t) = some true
forwards _ = none

unfoldable pub apply_tag_change : Context → ChangeOrigin → Change → CatalogStore → Option Outcome
unfolding write_tagging plan_after forwards forward_to_peers
apply_tag_change context origin announced db = elim (forwards announced) [
  | none ↦ none
  | some onward ↦
      let after : CatalogStore = write_tagging announced db in
      some (
        outcome after
          (plan_after announced after
            ++ (if onward then forward_to_peers context announced origin else []))
          true)
]
