-- ===== src/Tests/Tags.antt =====
-- Tags, tag rules and ids at concrete inputs: one tag, and a ring of two.
use mathlib.Core.List.{Pairwise, Permᴰ, Mem, eq-or-mem_of_mem-cons, not-mem-nil}
use mathlib.Core.Logic.{∥∥₁_elim}
use mathlib.Core.HLevel.{⊥_prop}
use text.Mathlib.TextEquality.{eq_iff}
use tagsy.Prelude.{
  All, Bool, List, NoRepeat, String, [], ap, arith, contains, false, if◌then◌else◌, inl, inr,
  lookup, max, none, refl, run, some, true, ◌<◌, ◌==◌, ◌∷◌, ◌≡◌, ◌≢◌, ◌≤◌, ◌⊎◌, string_eq, nat_eq,
}
use tagsy.Store.{CatalogStore, TagRow, empty, file, tag, entry_key_eq}
use tagsy.Store.Tags.{defined_row}
use tagsy.Store.Tags.Styles.{TagStyle, solid, stadium}
use tagsy.Store.Tags.Order.{
  IsApart, TagWrite, define, retire, seen, stamp_of, view, write_all-perm, write_tag,
}
use tagsy.Store.Entries.{RelationshipEntry, entry}
use tagsy.Store.Entries.Newest.{upsert_all}
use tagsy.Store.Entries.Graph.{Walk, file_ids_for_tag, subtag_ids_for_tag, tag_ids_for_subtag}
use tagsy.Store.Entries.Graph.Ends.{walks_end}
use tagsy.Store.ShortIds.{
  Digits, common_prefix_length, digits_beq_iff, digits_lt, unique_prefix_length, digits_eq,
}
use tagsy.Store.ShortIds.Unique.{IsSorted, unique_prefix_length_lem}
use tagsy.Peer.Plan.Batches.{flatten}
use tagsy.Peer.Plan.Tags.{batch_tag_manifest, plan_relationships, plan_tag_sync}
use tagsy.Peer.Plan.Tags.Frames.{IsBatch, batch_tag_manifest_lem, definitions_of, relationships_of}
use tagsy.Peer.Plan.Tags.Exchanged.{
  IsProper, announces, plan_relationships-upsert_all, rename_tag-remove_tag_apart,
}
use tagsy.Catalog.{tag_removed, tag_renamed}
use tagsy.Catalog.Tagging.{write_tagging}
use tagsy.TagRules.{TagRule, compile, contains-tags_for, grants, tags_for}

abbrev plain : TagStyle
plain = record {
  dot_color = "#000000";
  background = "#FFFFFF";
  gradient = "#FFFFFF";
  foreground = "#000000";
  border = "#00000000";
  border_width = 0;
  border_style = solid;
  shape = stadium;
  shadow = false;
  shadow_color = "#80000000";
}

abbrev row : TagRow
row = defined_row "work" plain 10

abbrev tagged_store : CatalogStore
tagged_store = record empty { tags = (7, row) ∷ [] }

held : lookup 7 tagged_store.tags ≡ some row
unfolding lookup
held = refl

live : row.deleted ≡ false
unfolding defined_row
live = refl

not_blank : ◌≢◌ {A = String} "play" ""
not_blank e = ground (arith, (eq_iff "play" "").1 e)

abbrev renamed : TagWrite
renamed = define "play" plain 20

abbrev removed : TagWrite
removed = retire 30

later_write : (w : TagWrite) → (w ≡ removed) ⊎ Mem w [] → stamp_of renamed ≡ stamp_of w → ⊥
later_write w (inl same) stamp = omega (arith, stamp, ap stamp_of same)
later_write w (inr none_left) stamp = not-mem-nil none_left

renamed-IsApart : (w : TagWrite) → Mem w (removed ∷ []) → IsApart renamed w
renamed-IsApart w m stamp =
    ∥∥₁_elim (eq-or-mem_of_mem-cons m) ⊥_prop (λ found. later_write w found stamp)

writes-IsApart : Pairwise IsApart (renamed ∷ removed ∷ [])
writes-IsApart =
    Pairwise.cons renamed-IsApart (Pairwise.cons (λ w m. elim (not-mem-nil m) [ ]) Pairwise.nil)

seen_first : seen 7 tagged_store ≡ some (view row)
unfolding lookup
seen_first = refl

write_all-perm_example :
    seen 7 (run (write_tag 7) (renamed ∷ removed ∷ []) tagged_store)
    ≡ seen 7 (run (write_tag 7) (removed ∷ renamed ∷ []) tagged_store)
write_all-perm_example =
    write_all-perm 7 (renamed ∷ removed ∷ []) (removed ∷ renamed ∷ []) tagged_store (view row)
      (Permᴰ.swap refl refl) writes-IsApart seen_first

abbrev first_device : CatalogStore
first_device =
    write_tagging (tag_renamed 7 "play" 30) (write_tagging (tag_removed 7 20) tagged_store)

abbrev second_device : CatalogStore
second_device =
    write_tagging (tag_removed 7 20) (write_tagging (tag_renamed 7 "play" 30) tagged_store)

rename_tag-remove_tag_apart_example :
    (seen 7 first_device ≡ some (30, none))
    × (seen 7 second_device ≡ some (30, some ("play", row.style)))
    × (plan_tag_sync (announces 7 30 false ∷ []) [] first_device
        ≡ record { outbound = []; changes = [] })
    × (plan_tag_sync (announces 7 30 true ∷ []) [] second_device
        ≡ record { outbound = []; changes = [] })
unfolding defined_row
rename_tag-remove_tag_apart_example =
    rename_tag-remove_tag_apart 7 row "play" 20 30 tagged_store held live (omega arith)
      (omega arith) not_blank

-- Tag 1 has tag 2 and tag 2 has tag 1.
abbrev ring : CatalogStore
ring = record empty {
  entries =
      (
        record { tag_id = 1; target_id = 2; kind = tag },
        record { modified_at = 5; deleted = false },
      )
      ∷ (
        record { tag_id = 2; target_id = 1; kind = tag },
        record { modified_at = 5; deleted = false },
      )
      ∷ [];
}

walks_end_example :
    ((files : Walk) × (file_ids_for_tag 1 true ring ≡ some files))
    × ((below : Walk) × (subtag_ids_for_tag 1 true ring ≡ some below))
    × ((above : Walk) × (tag_ids_for_subtag 1 true ring ≡ some above))
walks_end_example = walks_end 1 true ring

abbrev announced : List RelationshipEntry
announced = entry 1 2 tag 5 true ∷ entry 1 2 tag 6 true ∷ entry 1 9 file 4 false ∷ []

proper : All IsProper announced
proper = (refl, (refl, (refl, tt)))

plan_relationships-upsert_all_example :
    (run write_tagging (plan_relationships announced ring) ring).entries
    ≡ upsert_all announced ring.entries
plan_relationships-upsert_all_example = plan_relationships-upsert_all announced ring proper

batch_tag_manifest_lem_example :
    let frames = batch_tag_manifest (announces 7 10 false ∷ announces 8 10 true ∷ []) announced 2 in
    (flatten (definitions_of frames) ≡ announces 7 10 false ∷ announces 8 10 true ∷ [])
    × (flatten (relationships_of frames) ≡ announced)
    × All (IsBatch (max 2 1)) frames
batch_tag_manifest_lem_example =
    batch_tag_manifest_lem (announces 7 10 false ∷ announces 8 10 true ∷ []) announced 2

-- A pattern is the path that it matches; the empty one does not compile.
abbrev exact : String → String ⊎ String
exact pattern_text = if pattern_text == "" then inr "empty" else inl pattern_text

abbrev same_path : String → String → Bool
same_path regex path = regex == path

abbrev two_rules : List TagRule
two_rules =
    record { pattern = ""; tags = 3 ∷ [] } ∷ record { pattern = "a"; tags = 4 ∷ 4 ∷ [] } ∷ []

contains-tags_for_example :
    (contains 4 (tags_for same_path (compile exact two_rules) "a")
      ≡ grants exact same_path "a" 4 two_rules)
    × NoRepeat (tags_for same_path (compile exact two_rules) "a")
contains-tags_for_example = contains-tags_for exact same_path two_rules "a" 4

abbrev ids : List Digits
ids = (1 ∷ 2 ∷ 3 ∷ []) ∷ (1 ∷ 2 ∷ 4 ∷ []) ∷ (1 ∷ 5 ∷ 0 ∷ []) ∷ []

in_order : IsSorted ids
unfolding digits_lt
in_order = ((refl, (refl, tt)), ((refl, tt), (tt, tt)))

apart : ◌≢◌ {A = Digits} (1 ∷ 5 ∷ 0 ∷ []) (1 ∷ 2 ∷ 4 ∷ [])
apart e = ground (arith, (digits_beq_iff (1 ∷ 5 ∷ 0 ∷ []) (1 ∷ 2 ∷ 4 ∷ [])).1 e)

unique_prefix_length_lem_example :
    (1 ≤ unique_prefix_length ids (1 ∷ 2 ∷ 4 ∷ []))
    × (unique_prefix_length ids (1 ∷ 2 ∷ 4 ∷ []) ≤ 3)
    × (common_prefix_length (1 ∷ 2 ∷ 4 ∷ []) (1 ∷ 5 ∷ 0 ∷ [])
        < unique_prefix_length ids (1 ∷ 2 ∷ 4 ∷ []))
unique_prefix_length_lem_example =
    unique_prefix_length_lem ids (1 ∷ 2 ∷ 4 ∷ []) (1 ∷ 5 ∷ 0 ∷ []) in_order refl refl apart refl
