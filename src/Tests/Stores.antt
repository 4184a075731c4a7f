-- ===== src/Tests/Stores.antt =====
-- The catalog at concrete inputs: one file with one version and a preview, one purged id.
use mathlib.Core.List.{Pairwise, Permᴰ, Mem, eq-or-mem_of_mem-cons, not-mem-nil}
use mathlib.Core.Logic.{∥∥₁_elim}
use mathlib.Core.HLevel.{⊥_prop}
use tagsy.Prelude.{
  All, [], ap, arith, false, inl, inr, lookup, refl, some, true, ◌++◌, ◌<◌, ◌∷◌, ◌≡◌, ◌⊎◌,
  string_eq, nat_eq,
}
use tagsy.Store.{CatalogStore, FileRow, FileVersion, file, entry_key_eq}
use tagsy.Store.Versions.{item_of, latest_version, rows_of, version_history}
use tagsy.Store.Versions.History.{new_version, record_version_at_lem, recorded}
use tagsy.Store.Files.Tombstones.{IsCached}
use tagsy.Store.Purged.{is_purged, reconcile_purged_files}
use tagsy.Store.Purged.Stripped.{IsStripped, SameRows, reconcile_purged_files_lem}
use tagsy.Store.Entries.{RelationshipEntry}
use tagsy.Store.Entries.Newest.{Apart, upsert_all, upsert_all-perm}

abbrev one_row : FileRow
one_row = record {
  logical_path = "a.txt";
  logical_path_modified_at = 5;
  deletion = record { deleted = false; deleted_at = 0; restored_at = 0 };
}

abbrev catalog : CatalogStore
catalog = record {
  files = (1, one_row) ∷ [];
  versions =
      record {
        file_id = 1;
        content_hash = "h1";
        observed_at = 10;
        version_number = 1;
        origin = "here";
        size = 3;
      }
      ∷ [];
  previews = record { file_id = 1; content_hash = "h1" } ∷ [];
  tags = [];
  entries = [];
  purged = 2 ∷ [];
}

record_version_at_lem_example :
    (version_history 1 (recorded 1 "h2" "here" 4 20 catalog)
      ≡ version_history 1 catalog ++ item_of (new_version 1 "h2" "here" 4 20 catalog) ∷ [])
    × (latest_version 1 (recorded 1 "h2" "here" 4 20 catalog)
        ≡ some (new_version 1 "h2" "here" 4 20 catalog))
    × All
        (λ (v : FileVersion).
          v.version_number < (new_version 1 "h2" "here" 4 20 catalog).version_number)
        (rows_of 1 catalog.versions)
    × (version_history 2 (recorded 1 "h2" "here" 4 20 catalog) ≡ version_history 2 catalog)
    × (latest_version 2 (recorded 1 "h2" "here" 4 20 catalog) ≡ latest_version 2 catalog)
record_version_at_lem_example = record_version_at_lem 1 "h2" "here" 4 20 catalog 2 (omega arith)

reconcile_purged_files_lem_example :
    IsStripped 2 (reconcile_purged_files catalog).0
    × SameRows 1 catalog (reconcile_purged_files catalog).0
    × ((reconcile_purged_files catalog).0.purged ≡ catalog.purged)
    × (reconcile_purged_files (reconcile_purged_files catalog).0
        ≡ ((reconcile_purged_files catalog).0, 0))
unfolding is_purged
reconcile_purged_files_lem_example = reconcile_purged_files_lem 2 1 catalog refl refl

catalog-IsCached : IsCached catalog
unfolding lookup
catalog-IsCached id row h = ground arith

abbrev tagged : RelationshipEntry
tagged = record {
  key = record { tag_id = 4; target_id = 1; kind = file };
  modified_at = 10;
  deleted = false;
}

abbrev untagged : RelationshipEntry
untagged = record tagged { modified_at = 20; deleted = true }

later_stamp :
    (e : RelationshipEntry) → (e ≡ untagged) ⊎ Mem e [] → tagged.modified_at ≡ e.modified_at → ⊥
later_stamp e (inl same) stamp =
    omega (arith, stamp, ap (λ (r : RelationshipEntry). r.modified_at) same)
later_stamp e (inr none_left) stamp = not-mem-nil none_left

tagged-Apart : (e : RelationshipEntry) → Mem e (untagged ∷ []) → Apart tagged e
tagged-Apart e m key stamp =
    ∥∥₁_elim (eq-or-mem_of_mem-cons m) ⊥_prop (λ found. later_stamp e found stamp)

writes-Apart : Pairwise Apart (tagged ∷ untagged ∷ [])
writes-Apart =
    Pairwise.cons tagged-Apart (Pairwise.cons (λ e m. elim (not-mem-nil m) [ ]) Pairwise.nil)

upsert_all-perm_example :
    lookup tagged.key (upsert_all (tagged ∷ untagged ∷ []) [])
    ≡ lookup tagged.key (upsert_all (untagged ∷ tagged ∷ []) [])
upsert_all-perm_example =
    upsert_all-perm (tagged ∷ untagged ∷ []) (untagged ∷ tagged ∷ []) (Permᴰ.swap refl refl)
      writes-Apart tagged.key []

abbrev tagging_device : CatalogStore
tagging_device = record catalog {
  tags = [];
  entries = (tagged.key, record { modified_at = 10; deleted = false }) ∷ [];
}

abbrev untagging_device : CatalogStore
untagging_device = record catalog {
  tags = [];
  entries = (tagged.key, record { modified_at = 20; deleted = true }) ∷ [];
}
