-- ===== src/Tests/Queries.antt =====
-- A query at a concrete catalog: file 1 carries tag 7 and is live, file 2 is deleted. A pattern is found
-- where it is the whole path.
use tagsy.Prelude.{
  Bool, List, String, [], any, contains, false, lookup, some, true, ℕ, ◌&&◌, ◌==◌, ◌||◌, ◌∷◌, ◌≡◌,
  nat_eq, string_eq,
}
use tagsy.Store.{CatalogStore, FileRow, empty, file, entry_key_eq}
use tagsy.Store.Listing.{exclude}
use tagsy.Store.Query.{
  QueryTerm, all_file_ids, all_file_paths, every, file_ids_for_query, has_tag, not_name_matches,
  substring,
}
use tagsy.Store.Query.Conjunction.{file_ids_for_query_lem, names_tag, satisfies}

abbrev row_of : String → Bool → FileRow
row_of path deleted = record {
  logical_path = path;
  logical_path_modified_at = 5;
  deletion = record { deleted = deleted; deleted_at = 0; restored_at = 0 };
}

abbrev shelf : CatalogStore
shelf = record empty {
  files = (1, row_of "a" false) ∷ (2, row_of "b" true) ∷ [];
  entries =
      (
        record { tag_id = 7; target_id = 1; kind = file },
        record { modified_at = 5; deleted = false },
      )
      ∷ [];
}

abbrev asked_for : List QueryTerm
asked_for = has_tag (7 ∷ []) ∷ not_name_matches (substring "b") ∷ []

abbrev same_text : String → String → Bool
same_text text part = text == part

abbrev searched : ℕ → Bool
searched id =
    contains id
      (file_ids_for_query (λ p. some p) same_text (λ s. s) same_text true shelf exclude asked_for)

file_ids_for_query_lem_example : searched 1 ≡ (
    (any names_tag asked_for || contains 1 (all_file_ids exclude shelf))
    && every
        (satisfies
          (λ p. some p)
          same_text
          (λ s. s)
          same_text
          true
          shelf
          1
          (lookup 1 (all_file_paths exclude shelf)))
        asked_for)
file_ids_for_query_lem_example =
    file_ids_for_query_lem (λ p. some p) same_text (λ s. s) same_text true shelf exclude asked_for 1
