-- ===== src/Catalog/Steps/Handlers.antt =====
-- Every handler of the writer is made of its steps.
use tagsy.Prelude.{
  Bool, Bool-cases, List, Option, Option-cases, String, ap, arith, false, if◌then◌else◌, inl, inr,
  insert, lookup, ltb, none, not, refl, some, subst, sym, true, ℕ, ◌&&◌, ◌==◌, ◌≡◌, ◌≤◌, string_eq,
  nat_eq,
}
use tagsy.Store.{CatalogStore, DeletionState, Result, TagRow, err, file, ok, tag, entry_key_eq}
use tagsy.Store.Versions.{latest_observed_at, latest_version}
use tagsy.Store.Files.{
  add_file, file_deletion_state, file_exists, remove_file, update_file_logical_path,
}
use tagsy.Store.Purged.{is_purged, record_purge}
use tagsy.Peer.Plan.{MaterializePlacement, change, create}
use tagsy.Peer.Plan.Purge.{apply_purge}
use tagsy.Catalog.{
  Change, ChangeOrigin, Context, file_deleted, file_metadata_added, file_metadata_changed,
  file_moved, file_purged, file_restored, file_tag_changed, file_tagged, file_untagged, outcome,
  tag_added, tag_changed, tag_removed, tag_renamed, tag_restyled, tag_tag_changed, tag_tagged,
  tag_untagged,
}
use tagsy.Catalog.Files.{
  added_in, announce_version, apply_arm, deleted_in, file_deleted_in, file_metadata_added_in,
  file_metadata_changed_in, file_moved_in, file_purged_in, file_restored_in, has_hash, is_guarded,
  purge_guard_file_id, says_live, supersedes_latest,
}
use tagsy.Catalog.Steps.{
  MayRelate, Step, Steps, bury_file, define_tags, here, introduce, move, next, purge, relate,
  restore, take_newer,
}
use tagsy.Catalog.Apply.{first_of}
use tagsy.Catalog.Tagging.{apply_tag_change, forwards, write_tagging}
use tagsy.Store.Tags.{
  add_tag, remove_tag, removed_row, renamed_row, restyled_row, update_tag, update_tag_name,
  update_tag_style,
}
use tagsy.Store.Entries.{entry, tag_file, tag_tag, untag_entry, untag_file, untag_tag, upsert_entry}
use tagsy.Catalog.Forward.{forward_to_peers}

pub one-Step : {db after : CatalogStore} → Step db after → Steps db after
one-Step s = next here s

pub superseding-le :
    (file_id observed_at : ℕ) (db : CatalogStore)
    → supersedes_latest file_id observed_at db ≡ true
    → latest_observed_at file_id db ≤ observed_at
unfolding supersedes_latest latest_observed_at
superseding-le file_id observed_at db h = elim (Option-cases (latest_version file_id db)) [
  | inl e ↦ ground (arith, e)
  | inr (v, e) ↦ ground (arith, e, h)
]

module _ (context : Context) (announced : Change) (origin : ChangeOrigin) (file_id : ℕ)
    (db : CatalogStore) (free : is_purged file_id db ≡ false) where
  announce-Steps :
      (content_hash : String) (size observed_at : ℕ) (placement : MaterializePlacement)
      → supersedes_latest file_id observed_at db ≡ true
      → Steps db
          (announce_version context announced origin file_id content_hash size observed_at placement
            db).database
  unfolding announce_version
  announce-Steps content_hash size observed_at placement newer = one-Step (
      take_newer file_id origin content_hash size observed_at free
        (superseding-le file_id observed_at db newer) refl)

  added_in-Steps :
      (path : String) (modified_at : ℕ) (content_hash : String) (size observed_at : ℕ)
      (tags : List ℕ) (found : Result CatalogStore)
      → file_exists file_id db ≡ false
      → add_file file_id path modified_at db ≡ found
      → Steps db
          (added_in context announced origin file_id path modified_at content_hash size observed_at
            tags db found).database
  unfolding announce_version added_in
  added_in-Steps path modified_at content_hash size observed_at tags (ok added) new e =
      one-Step (
        introduce file_id path modified_at tags origin content_hash size observed_at free new e
          refl)
  added_in-Steps path modified_at content_hash size observed_at tags (err er) new e = here

  added-Steps :
      (path : String) (modified_at : ℕ) (content_hash : String) (size observed_at : ℕ)
      (tags : List ℕ)
      → Steps db
          (file_metadata_added_in context announced origin file_id path modified_at content_hash
            size observed_at tags db).database
  unfolding file_metadata_added_in
  added-Steps path modified_at content_hash size observed_at tags =
      elim (Bool-cases (file_exists file_id db)) [
        | inl known ↦ rw known (elim (Bool-cases (supersedes_latest file_id observed_at db)) [
          | inl newer ↦
              rw newer (announce-Steps content_hash size observed_at (create path tags) newer)
          | inr older ↦ rw older here
        ])
        | inr new ↦
            subst
              (λ b.
                Steps db
                  (if not b
                    then added_in context announced origin file_id path modified_at content_hash
                        size observed_at tags db (add_file file_id path modified_at db)
                    else if not (supersedes_latest file_id observed_at db)
                    then outcome db (forward_to_peers context announced origin) false
                    else announce_version context announced origin file_id content_hash size
                        observed_at (create path tags) db).database)
              (sym new)
              (added_in-Steps path modified_at content_hash size observed_at tags
                (add_file file_id path modified_at db) new refl)
      ]

  changed-Steps :
      (content_hash : String) (size observed_at : ℕ)
      → Steps db
          (file_metadata_changed_in context announced origin file_id content_hash size observed_at
            db).database
  unfolding file_metadata_changed_in
  changed-Steps content_hash size observed_at =
      elim (Bool-cases (supersedes_latest file_id observed_at db)) [
        | inl newer ↦ rw newer (announce-Steps content_hash size observed_at change newer)
        | inr older ↦ rw older here
      ]

  moved-Steps :
      (path : String) (modified_at : ℕ)
      → Steps db (file_moved_in context announced origin file_id path modified_at db).database
  unfolding file_moved_in
  moved-Steps path modified_at =
      elim (Bool-cases ((update_file_logical_path file_id path modified_at db).1)) [
        | inl h ↦ rw h (one-Step (move file_id path modified_at free refl))
        | inr h ↦ rw h (one-Step (move file_id path modified_at free refl))
      ]

  deleted_in-Steps :
      (deleted_at : ℕ) (found : Option DeletionState)
      → Steps db (deleted_in context announced origin file_id deleted_at found db).database
  unfolding deleted_in
  deleted_in-Steps deleted_at none = here
  deleted_in-Steps deleted_at (some state) = elim (Bool-cases (state.deleted)) [
    | inl old ↦ rw old here
    | inr live ↦ rw live (elim (Bool-cases ((remove_file file_id deleted_at db).1)) [
      | inl h ↦ rw h (one-Step (bury_file file_id deleted_at free refl))
      | inr h ↦ rw h (one-Step (bury_file file_id deleted_at free refl))
    ])
  ]

  deleted-Steps :
      (deleted_at : ℕ)
      → Steps db (file_deleted_in context announced origin file_id deleted_at db).database
  unfolding file_deleted_in
  deleted-Steps deleted_at = deleted_in-Steps deleted_at (file_deletion_state file_id db)

  restored-Steps :
      (content_hash : String) (size restored_at : ℕ)
      → Steps db
          (file_restored_in context announced origin file_id content_hash size restored_at
            db).database
  unfolding file_restored_in
  restored-Steps content_hash size restored_at =
      elim (Bool-cases (
        has_hash (latest_version file_id db) content_hash
        && says_live (file_deletion_state file_id db))) [
          | inl h ↦ rw h here
          | inr h ↦ rw h (one-Step (restore file_id restored_at free refl))
        ]

purged-Steps :
    (context : Context) (announced : Change) (origin : ChangeOrigin) (file_id : ℕ)
    (db : CatalogStore)
    → Steps db (file_purged_in context announced origin file_id db).database
unfolding file_purged_in apply_purge
purged-Steps context announced origin file_id db =
    let recorded = record_purge file_id db in
    one-Step (
      purge file_id (elim (Bool-cases (not recorded.1 && not (file_exists file_id recorded.0))) [
        | inl h ↦ rw h refl
        | inr h ↦ rw h refl
      ]))

update_tag-Steps :
    (tag_id modified_at : ℕ) (f : TagRow → TagRow) (db : CatalogStore)
    → Steps db (update_tag tag_id modified_at f db).0
unfolding update_tag
update_tag-Steps tag_id modified_at f db = elim (Option-cases (lookup tag_id db.tags)) [
  | inl e ↦ rw (e, update_tag) here
  | inr (row, e) ↦ elim (Bool-cases (ltb row.modified_at modified_at)) [
    | inl h ↦
        rw (e, update_tag) (rw h (one-Step (define_tags (insert tag_id (f row) db.tags) refl)))
    | inr h ↦ rw (e, update_tag) (rw h here)
  ]
]

relate_file :
    (tag_id file_id modified_at : ℕ) (deleted : Bool) (db : CatalogStore)
    → is_purged file_id db ≡ false
    → MayRelate (entry tag_id file_id file modified_at deleted) db
relate_file tag_id file_id modified_at deleted db free id h =
    ground (arith, ap (λ x. is_purged x db) {x = file_id} {y = id}, free, h)

relate_tag :
    (tag_id subtag_id modified_at : ℕ) (deleted : Bool) (db : CatalogStore)
    → MayRelate (entry tag_id subtag_id tag modified_at deleted) db
relate_tag tag_id subtag_id modified_at deleted db id h = ground (arith, h)

-- The handlers past the guard, one after the other.
unfoldable pub taken : Context → ChangeOrigin → Change → CatalogStore → CatalogStore
unfolding apply_arm apply_tag_change
taken context origin announced db =
    (first_of db (apply_arm context origin announced db)
      (apply_tag_change context origin announced db)).database

pub taken-Steps :
    (context : Context) (origin : ChangeOrigin) (announced : Change) (db : CatalogStore)
    → is_guarded (purge_guard_file_id announced) db ≡ false
    → Steps db (taken context origin announced db)
unfolding taken apply_arm purge_guard_file_id apply_tag_change forwards write_tagging add_tag
    update_tag_name update_tag_style remove_tag tag_file untag_file tag_tag untag_tag upsert_entry
    untag_entry is_purged
taken-Steps context origin (file_metadata_added f p t h s o tags) db free =
    added-Steps context (file_metadata_added f p t h s o tags) origin f db free p t h s o tags
taken-Steps context origin (file_metadata_changed f h s o) db free =
    changed-Steps context (file_metadata_changed f h s o) origin f db free h s o
taken-Steps context origin (file_moved f p t) db free =
    moved-Steps context (file_moved f p t) origin f db free p t
taken-Steps context origin (file_deleted f t) db free =
    deleted-Steps context (file_deleted f t) origin f db free t
taken-Steps context origin (file_restored f h s t) db free =
    restored-Steps context (file_restored f h s t) origin f db free h s t
taken-Steps context origin (file_purged f) db free =
    purged-Steps context (file_purged f) origin f db
taken-Steps context origin (tag_added tag_id name style t) db free =
    elim (Bool-cases (name == "")) [
      | inl h ↦ rw h here
      | inr h ↦ rw h (one-Step (define_tags _ refl))
    ]
taken-Steps context origin (tag_renamed tag_id name t) db free = elim (Bool-cases (name == "")) [
  | inl h ↦ rw h here
  | inr h ↦ rw h (update_tag-Steps tag_id t (renamed_row name t) db)
]
taken-Steps context origin (tag_restyled tag_id style t) db free =
    update_tag-Steps tag_id t (restyled_row style t) db
taken-Steps context origin (tag_changed tag_id t) db free = here
taken-Steps context origin (tag_removed tag_id t) db free =
    update_tag-Steps tag_id t (removed_row t) db
taken-Steps context origin (file_tagged f tag_id t) db free =
    one-Step (relate (entry tag_id f file t false) (relate_file tag_id f t false db free) refl)
taken-Steps context origin (file_tag_changed f tag_id t) db free = here
taken-Steps context origin (file_untagged f tag_id t) db free =
    one-Step (relate (entry tag_id f file t true) (relate_file tag_id f t true db free) refl)
taken-Steps context origin (tag_tagged taggee tag_id t) db free =
    elim (Bool-cases (tag_id == taggee)) [
      | inl h ↦ rw h here
      | inr h ↦ rw h (
          one-Step
            (relate (entry tag_id taggee tag t false) (relate_tag tag_id taggee t false db) refl))
    ]
taken-Steps context origin (tag_tag_changed taggee tag_id t) db free = here
taken-Steps context origin (tag_untagged taggee tag_id t) db free =
    one-Step (relate (entry tag_id taggee tag t true) (relate_tag tag_id taggee t true db) refl)
