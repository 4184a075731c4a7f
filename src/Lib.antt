-- ===== src/Lib.antt =====
-- A verification library for tagsy, a daemon that keeps tagged files in step between devices.
--
-- A device keeps a catalog (files, versions, tags, relationships, purged ids) in a database that one
-- writer changes, a command at a time. It exchanges manifests with its peers when they connect, plans
-- what to do about each entry, sends changes on over the tree of peers, pulls bytes through a relay,
-- places them in the sync directories whose tags match, and watches these for what the user does. Two
-- registries tell the user interface what is connected and what is running.
--
-- Which file is about which code (paths from the repository's root):
--   Store             tagsyd/src/store/types.rs and schema.rs: the tables and their values
--   Store/Versions    store/versions.rs, previews.rs: record_version_at, latest_version,
--                     version_history
--   Store/Files       store/files.rs: add_file, add_tombstoned_file, remove_file, restore_file,
--                     apply_restore, update_file_logical_path
--   Store/Purged      store/purged.rs: record_purge, strip_purged_file, reconcile_purged_files
--   Store/Entries     store/entries.rs: tag_file, tag_tag, untag_file, untag_tag
--   Store/Entries/Graph  the same: file_ids_for_tag, subtag_ids_for_tag, tag_ids_for_subtag
--   Store/Tags        store/tags.rs, with tagsy-core/src/tag_style.rs: add_tag, update_tag_name,
--                     update_tag_style, remove_tag, tag_definition
--   Store/ShortIds    store/short_id.rs: unique_prefix_length
--   Store/Listing     store/files.rs: get_all_files; store/previews.rs: record_preview, purge_previews
--   Store/Query       store/query.rs: file_ids_for_query
--   Peer/Plan         tagsyd/src/peer/plan.rs and plan_purge.rs: plan_file_sync, decide_request,
--                     plan_purge_sync, the manifests and their batches
--   Peer/Plan/Tags    tagsyd/src/peer/plan_tags.rs: plan_tag_sync, build_tag_request_response
--   Catalog           the data of tagsyd/src/catalog: changes, configuration, what is sent
--   Catalog/Files     catalog/files.rs: apply_change
--   Catalog/Reconcile catalog/files.rs: catalog_file, catalog_tombstone, materialize
--   Catalog/Tagging   catalog/tagging.rs: apply_change
--   Catalog/Content   catalog/content.rs: handle_content_change
--   Catalog/Placement catalog/placement.rs: materialize_targets, place_content, plan_placement
--   Catalog/Forward   catalog/forward.rs: forward_to_peers; peer/fetch.rs: request_pull_from_origin
--   Catalog/Uploads   catalog/files.rs: announce_upload
--   Catalog/Duplicates  catalog/duplicates.rs: find_duplicate_sets, plan_duplicate_deletions
--   Catalog/Apply     catalog/mod.rs: apply_metadata_change
--   Catalog/Inbox     catalog/mod.rs: CatalogWriter::run, its commands and sequences of them
--   Catalog/Steps     the writer as guarded steps on the catalog, and what no step breaks
--   TagRules          tagsyd/src/configuration/tag_rules.rs
--   Peer/Pulls        tagsyd/src/peer/pull_scheduler.rs: the gate on concurrent pulls
--   Peer/Relay        tagsyd/src/peer/relay/mod.rs and chunks.rs: the waiter table
--   Registry          tagsyd/src/connections.rs, operations.rs, with the data of tagsy-api/src
--   Watch/Debounce    tagsyd/src/sync_directories/watch/debounce.rs
--   Watch/SelfWrites  tagsyd/src/sync_directories/self_write.rs
--   Clock             tagsy-core/src/clock.rs: now_millis
--   Prelude           lists, tables, Boolean tests and keys over the native numbers
--   Tests             each theorem at a concrete input
--
-- How the code is read. A table is an association list with the table's key; a SQL statement is the
-- function on it that the statement says, and a failure of the database driver does not occur. An id
-- is a number, a path and a hash a string, a clock a natural number handed in as an argument (the
-- source's `i64` milliseconds, which are not negative). What a call does under a lock is one step, and
-- what it sends after it is another. What goes out on a channel is kept in a list. The operation
-- counter wraps at 2 ^ 64. The batches of a manifest run on fuel, the length of the manifest, of which
-- each batch uses one. The walks of the tag graph run on twice the number of relationships and two
-- more, since they name at most twice their number of tags and each call goes into one that was not
-- seen. The peer directory of the relay is the list of connected peers at each event. The path
-- operations of the standard library, the regex crate and the printing of an id by the uuid crate are
-- parameters, and so are to_lowercase and str::contains. A spawned task is one entry of what is sent.
--
-- Not modelled: the search of tags, the listings of the frontend, the arms of the writer loop that
-- fetch, probe before a restore, make a preview and sweep for missing content (their tasks run off
-- the loop, over the network), sessions, transfer and transport, the file system work of the sync
-- directories, the outbox, the parsing of the configuration, the frontend, previews, the command
-- line, the bridge and the app; and the translation of raw notify events, whose types are not in the
-- repository.
pub mod Prelude
pub mod Registry
pub mod Store
pub mod Peer
pub mod Watch
pub mod Catalog
pub mod TagRules
pub mod Clock
pub mod Tests
