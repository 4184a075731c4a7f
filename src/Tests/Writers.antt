-- ===== src/Tests/Writers.antt =====
-- The commands of the writer at concrete inputs: what arrives late, and three copies of a file.
use tagsy.Prelude.{
  All, Bool, List, [], any, arith, false, insert, lookup, none, refl, true, ℕ, ◌==◌, ◌∷◌, ◌≡◌, ◌≤◌,
  nat_eq, string_eq,
}
use tagsy.Store.{CatalogStore, empty, entry_key_eq}
use tagsy.Store.Purged.{is_purged}
use tagsy.Store.Listing.{FileInfo, record_preview}
use tagsy.Catalog.{Context, file_to_move, local}
use tagsy.Catalog.Content.{content_changed}
use tagsy.Catalog.Uploads.{announce_upload}
use tagsy.Catalog.Duplicates.{
  Copies, find_duplicate_sets, group_files, plan_duplicate_group, plan_groups, plan_of, push_id,
  sets_of, several, sort, copies_eq,
}
use tagsy.Catalog.Placement.{set_insert, to_set}
use tagsy.Catalog.Duplicates.Sorted.{occurrences}
use tagsy.Catalog.Duplicates.Groups.{members}
use tagsy.Catalog.Duplicates.Survivors.{IsPlanOf, file_ids, find_duplicate_sets_lem, plan_key}
use tagsy.Catalog.Steps.Unguarded.{IsLeftOver, late_writes-IsLeftOver}

abbrev quiet : Context
quiet = record {
  configuration = record { sync_directories = []; peers = []; eager_previews = false };
  runtime = [];
  id_to_string = λ n. "id";
}

abbrev after_purge : CatalogStore
after_purge = record empty { purged = 2 ∷ [] }

gone : is_purged 2 after_purge ≡ true
unfolding is_purged
gone = refl

late_writes-IsLeftOver_example :
    IsLeftOver 2
      (content_changed quiet (local "/d") 2 (file_to_move "tmp") "h2" 3 40 after_purge).database
    × IsLeftOver 2 (announce_upload quiet 2 "h2" 3 40 none 40 [] [] after_purge).database
    × IsLeftOver 2 (record_preview 2 "h2" after_purge)
late_writes-IsLeftOver_example =
    late_writes-IsLeftOver 2 "h2" 3 40 after_purge gone quiet (local "/d") (file_to_move "tmp") 40
      [] []

abbrev copy : ℕ → Bool → FileInfo
copy file_id deleted = record {
  file_id = file_id;
  logical_path = "a.txt";
  content_hash = "h";
  version_number = 1;
  size = 3;
  deleted = deleted;
  latest_change_at = 10;
}

abbrev three : List FileInfo
three = copy 8 false ∷ copy 1 true ∷ copy 5 false ∷ []

distinct_ids : (id : ℕ) → occurrences id (file_ids three) ≤ 1
distinct_ids id = ground arith

find_duplicate_sets_lem_example :
    All (IsPlanOf three) (plan_groups (find_duplicate_sets three) (λ file_id. file_id ∷ []))
    × ((key : Copies)
        → any
            (λ plan. plan_key plan == key)
            (plan_groups (find_duplicate_sets three) (λ file_id. file_id ∷ []))
          ≡ several (members key three))
find_duplicate_sets_lem_example =
    find_duplicate_sets_lem three (λ file_id. file_id ∷ []) distinct_ids

-- The file with id 5 stays and takes over tag 8.
planned :
    plan_groups (find_duplicate_sets three) (λ file_id. file_id ∷ [])
    ≡ record {
      logical_path = "a.txt";
      content_hash = "h";
      kept = 5;
      deleted = 8 ∷ [];
      tags_merged = 8 ∷ [];
    }
      ∷ []
unfolding plan_groups find_duplicate_sets group_files push_id sets_of sort plan_duplicate_group
    plan_of to_set set_insert lookup insert
planned = refl
