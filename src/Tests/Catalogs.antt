-- ===== src/Tests/Catalogs.antt =====
-- The catalog writer at concrete inputs: a device with one directory for tag 7 and one peer that is
-- connected of two.
use tagsy.Prelude.{
  All, List, [], arith, false, lookup, map, none, refl, retain, some, true, ℕ, ◌++◌, ◌∷◌, ◌≡◌, ◌≤◌,
  nat_eq, string_eq,
}
use tagsy.Store.{CatalogStore, empty, entry_key_eq}
use tagsy.Store.Versions.{
  delete_previews_for, latest_observed_at, latest_version, max_number, newest, next_number,
  record_version_at,
}
use tagsy.Store.Files.{file_deletion_state, file_exists, restore_file, update_row}
use tagsy.Store.Files.Tombstones.{IsCached}
use tagsy.Store.Purged.{is_purged}
use tagsy.Store.Purged.Stripped.{IsStripped}
use tagsy.Peer.Plan.{create}
use tagsy.Catalog.{
  Change, ChangeOrigin, Context, SyncDirectory, file_deleted, file_metadata_added,
  file_metadata_changed, file_tagged, file_to_copy, file_to_move, local, peer, tag_based,
}
use tagsy.Catalog.Forward.{forward_to_peers}
use tagsy.Catalog.Forward.Onward.{forward_to_peers-retain, frame_for, is_reached}
use tagsy.Catalog.Placement.{
  Placement, change_at, create_at, materialize_targets, place_content, tag_ids_for_file,
}
use tagsy.Catalog.Placement.Directories.{
  materialize_targets-create, place_content_lem, place_of, placed, wants,
}
use tagsy.Catalog.Files.{
  adopt, announce_version, apply_arm, apply_file_change, file_metadata_changed_in,
  purge_guard_file_id, supersedes_latest,
}
use tagsy.Catalog.Apply.{apply_metadata_change}
use tagsy.Catalog.Inbox.{
  CatalogCommand, catalog, clear_previews, delete_duplicates, handle_all, handle_command, meta,
  purge_broken, purge_deleted, restored, tombstone,
}
use tagsy.Catalog.Steps.Commands.{Writes}
use tagsy.Catalog.Steps.Purging.{IsPurgeSafe}
use tagsy.Catalog.Steps.Writer.{
  IsSound, handle_all-IsCached, handle_all-IsPurgeSafe, handle_all-Writes, handle_all-latest,
}
use tagsy.Catalog.Steps.Adopted.{content_hashes, latest_content}
use tagsy.Catalog.Steps.Reordered.{added-changed-order}

abbrev device : Context
device = record {
  configuration = record {
    sync_directories =
        record {
          path = "/d";
          sync_type = tag_based (7 ∷ []);
          respect_gitignore = true;
          debounce_ms = 500;
        }
        ∷ [];
    peers =
        record { name = "one"; public_key = "k1" }
        ∷ record { name = "two"; public_key = "k2" }
        ∷ [];
    eager_previews = false;
  };
  runtime = ("k1", record { outbound = true; commands = true }) ∷ [];
  id_to_string = λ n. "id";
}

-- File 2 is purged; nothing is known.
abbrev start : CatalogStore
start = record empty { purged = 2 ∷ [] }

abbrev from_peer : ChangeOrigin
from_peer = peer "k2"

abbrev commands : List CatalogCommand
commands =
    meta from_peer (file_metadata_added 1 "a" 5 "h1" 3 10 (7 ∷ []))
    ∷ meta from_peer (file_metadata_added 2 "b" 5 "h2" 3 10 (7 ∷ []))
    ∷ catalog 2 "b" 5 "h2" 3 10 from_peer none
    ∷ meta from_peer (file_tagged 2 7 11)
    ∷ meta from_peer (file_metadata_changed 1 "h3" 4 20)
    ∷ meta (local "/d") (file_deleted 1 30)
    ∷ tombstone 3 "c" 5 "h4" 3 10 40 0 from_peer
    ∷ tombstone 2 "b" 5 "h2" 3 10 40 0 from_peer
    ∷ restored 3 "h4" 3 50
    ∷ delete_duplicates false (60 ∷ 61 ∷ [])
    ∷ purge_deleted false
    ∷ purge_broken true (3 ∷ [])
    ∷ clear_previews
    ∷ []

nothing-IsStripped : (id : ℕ) → IsStripped id start
unfolding lookup
nothing-IsStripped id = record {
  no_file = refl;
  no_versions = refl;
  no_previews = refl;
  no_entries = λ tag_id. refl;
}

start-IsCached : IsCached start
unfolding lookup
start-IsCached id row h = ground (arith, h)

sound : All IsSound commands
sound = ground arith

handle_all-Writes_example : Writes false start (handle_all device commands start).0
handle_all-Writes_example = handle_all-Writes device commands start

handle_all-IsPurgeSafe_example : IsPurgeSafe (handle_all device commands start).0
handle_all-IsPurgeSafe_example =
    handle_all-IsPurgeSafe device commands start (λ id h. nothing-IsStripped id)

handle_all-IsCached_example : IsCached (handle_all device commands start).0
handle_all-IsCached_example = handle_all-IsCached device commands start sound start-IsCached

abbrev known_file : CatalogStore
known_file = record start {
  files =
      (
        1,
        record {
          logical_path = "a";
          logical_path_modified_at = 5;
          deletion = record { deleted = false; deleted_at = 0; restored_at = 0 };
        },
      )
      ∷ [];
}

abbrev edits : List CatalogCommand
edits =
    meta from_peer (file_metadata_changed 1 "h3" 4 20)
    ∷ meta from_peer (file_metadata_changed 1 "h2" 4 15)
    ∷ []

known : file_exists 1 known_file ≡ true
unfolding file_exists lookup
known = refl

spared : is_purged 1 (handle_all device edits known_file).0 ≡ false
unfolding handle_all handle_command apply_metadata_change apply_file_change purge_guard_file_id
    apply_arm file_metadata_changed_in supersedes_latest latest_version newest is_purged
    announce_version adopt record_version_at next_number max_number delete_previews_for restore_file
    file_deletion_state update_row lookup
spared = refl

handle_all-latest_example :
    (file_exists 1 (handle_all device edits known_file).0 ≡ true)
    × (latest_observed_at 1 known_file
        ≤ latest_observed_at 1 (handle_all device edits known_file).0)
handle_all-latest_example = handle_all-latest device edits known_file 1 known spared

abbrev added : Change
added = file_metadata_added 1 "a" 5 "h1" 3 10 (7 ∷ [])

abbrev changed : Change
changed = file_metadata_changed 1 "h3" 4 20

unknown : file_exists 1 start ≡ false
unfolding file_exists lookup
unknown = refl

unpurged : is_purged 1 start ≡ false
unfolding is_purged
unpurged = refl

unversioned : latest_version 1 start ≡ none
unfolding latest_version newest
unversioned = refl

abbrev add : CatalogStore → CatalogStore
add x = (apply_metadata_change device from_peer added x).0

abbrev change : CatalogStore → CatalogStore
change x = (apply_metadata_change device from_peer changed x).0

added-changed-order_example :
    (latest_content 1 (change (add start)) ≡ some ("h3", 20))
    × (file_exists 1 (change start) ≡ false)
    × (latest_content 1 (change start) ≡ some ("h3", 20))
    × (latest_content 1 (add (change start)) ≡ some ("h1", 10))
    × (content_hashes 1 (add (change start)) ≡ content_hashes 1 start ++ "h3" ∷ "h1" ∷ [])
added-changed-order_example =
    added-changed-order device from_peer 1 "a" 5 (7 ∷ []) "h1" "h3" 3 4 10 20 start unpurged unknown
      unversioned (omega arith)

forward_to_peers-retain_example :
    forward_to_peers device added (local "/d")
    ≡ map
        (frame_for added)
        (retain (is_reached (local "/d") device.runtime) device.configuration.peers)
forward_to_peers-retain_example = forward_to_peers-retain device added (local "/d")

abbrev two_places : List Placement
two_places = create_at 1 "a" "/d" ∷ change_at 1 "a" "/e" ∷ []

place_content_lem_example :
    (place_content (two_places ++ create_at 1 "a" "/f" ∷ []) (file_to_move "tmp")
      ≡ map (placed (file_to_copy "tmp")) two_places
        ++ placed (file_to_move "tmp") (create_at 1 "a" "/f") ∷ [])
    × (place_content [] (file_to_move "tmp") ≡ [])
place_content_lem_example = place_content_lem two_places (create_at 1 "a" "/f") (file_to_move "tmp")

materialize_targets-create_example :
    materialize_targets device known_file 1 (create "a" (7 ∷ []))
    ≡ map (place_of device 1 "a") (
        retain
          (λ (d : SyncDirectory). wants d.sync_type (7 ∷ []) (tag_ids_for_file 1 known_file))
          device.configuration.sync_directories)
materialize_targets-create_example = materialize_targets-create device known_file 1 "a" (7 ∷ [])
