-- ===== src/Store/Query.antt =====
-- tagsyd/src/store/query.rs: file_ids_for_query, the files that match every term of a query. The regex
-- crate, `to_lowercase` and `str::contains` are parameters. Of a `BTreeSet` only the members are read.
pub mod Folds
pub mod Conjunction
use tagsy.Prelude.{
  Bool, Dict, List, Option, String, [], any, contains, false, if◌then◌else◌, lookup, none, not,
  retain, some, true, ℕ, ◌&&◌, ◌++◌, ◌||◌, ◌∷◌, string_eq, nat_eq,
}
use tagsy.Store.{CatalogStore, FileRow, entry_key_eq}
use tagsy.Store.Listing.{DeletedRule, shows}
use tagsy.Store.Entries.Graph.{Walk, file_ids_for_tag}

pub data TextPattern : Type 0 where
  substring : String → TextPattern
  regex : String → TextPattern

pub data QueryTerm : Type 0 where
  has_tag not_tag : (tag_ids : List ℕ) → QueryTerm
  name_matches not_name_matches logical_matches not_logical_matches :
      (pattern_text : TextPattern) → QueryTerm
  file_id_matches not_file_id_matches : (file_ids : List ℕ) → QueryTerm
  any_match not_any_match entity_matches not_entity_matches :
      (pattern_text : TextPattern) (tag_ids file_ids : List ℕ) → QueryTerm

pub data CompiledPattern (Regex : Type 0) : Type 0 where
  needle : String → CompiledPattern Regex
  compiled : Regex → CompiledPattern Regex
  never : CompiledPattern Regex

abbrev pub every {ℓ} : {A : Type ℓ} → (A → Bool) → List A → Bool
every p [] = true
every p (x ∷ xs) = p x && every p xs

-- `SELECT id FROM files_v2`, with `where_deleted_clause`.
abbrev pub visible : DeletedRule → Dict ℕ FileRow → List ℕ
visible rule [] = []
visible rule ((file_id, row) ∷ files) =
    let rest : List ℕ = visible rule files in if shows rule row then file_id ∷ rest else rest

unfoldable pub all_file_ids : DeletedRule → CatalogStore → List ℕ
all_file_ids rule db = visible rule db.files

abbrev pub visible_paths : DeletedRule → Dict ℕ FileRow → Dict ℕ String
visible_paths rule [] = []
visible_paths rule ((file_id, row) ∷ files) =
    let rest : Dict ℕ String = visible_paths rule files in
    if shows rule row then (file_id, row.logical_path) ∷ rest else rest

unfoldable pub all_file_paths : DeletedRule → CatalogStore → Dict ℕ String
all_file_paths rule db = visible_paths rule db.files

abbrev collected_of : Option Walk → List ℕ
collected_of none = []
collected_of (some walk) = walk.collected

unfoldable pub files_for_any_tag : List ℕ → Bool → CatalogStore → List ℕ
unfolding file_ids_for_tag
files_for_any_tag [] subtags db = []
files_for_any_tag (tag_id ∷ tag_ids) subtags db =
    collected_of (file_ids_for_tag tag_id subtags db) ++ files_for_any_tag tag_ids subtags db

abbrev pub positive_of : QueryTerm → List (List ℕ)
positive_of (has_tag tag_ids) = tag_ids ∷ []
positive_of _ = []

abbrev pub is_text : QueryTerm → Bool
is_text (has_tag tag_ids) = false
is_text (not_tag tag_ids) = false
is_text (file_id_matches file_ids) = false
is_text (not_file_id_matches file_ids) = false
is_text _ = true

abbrev pub collect_all : {A : Type 0} → (QueryTerm → List A) → List QueryTerm → List A
collect_all f [] = []
collect_all f (t ∷ terms) = f t ++ collect_all f terms

module _ {Regex : Type 0} (build : String → Option Regex) (is_match : Regex → String → Bool)
    (to_lowercase : String → String) (includes : String → String → Bool) where
  -- A pattern that does not compile matches nothing.
  abbrev pub compile : TextPattern → CompiledPattern Regex
  compile (substring text) = needle (to_lowercase text)
  compile (regex text) = elim (build text) [ none ↦ never | some found ↦ compiled found ]

  abbrev pub pattern_match : CompiledPattern Regex → String → String → Bool
  pattern_match (needle text) original lowercased = includes lowercased text
  pattern_match (compiled found) original lowercased = is_match found original
  pattern_match never original lowercased = false

  module _ (subtags : Bool) (db : CatalogStore) where
    abbrev pub for_any : List ℕ → List ℕ
    unfolding files_for_any_tag
    for_any tag_ids = files_for_any_tag tag_ids subtags db

    -- `set.retain(..)` for each further set.
    unfoldable pub intersect : List ℕ → List (List ℕ) → List ℕ
    unfolding for_any
    intersect set [] = set
    intersect set (tag_ids ∷ rest) =
        intersect (retain (λ id. contains id (for_any tag_ids)) set) rest

    unfoldable pub seed : DeletedRule → List (List ℕ) → List ℕ
    unfolding all_file_ids intersect for_any
    seed rule [] = all_file_ids rule db
    seed rule (tag_ids ∷ rest) = intersect (for_any tag_ids) rest

    -- The pass over the negative tag terms, and that over the id terms.
    abbrev pub keeps_tag : QueryTerm → ℕ → Bool
    unfolding for_any
    keeps_tag (not_tag tag_ids) id = not (contains id (for_any tag_ids))
    keeps_tag _ id = true

    abbrev pub keeps_id : QueryTerm → ℕ → Bool
    keeps_id (file_id_matches file_ids) id = contains id file_ids
    keeps_id (not_file_id_matches file_ids) id = not (contains id file_ids)
    keeps_id _ id = true

    unfoldable pub pass : (QueryTerm → ℕ → Bool) → List QueryTerm → List ℕ → List ℕ
    pass keeps [] candidates = candidates
    pass keeps (t ∷ terms) candidates = pass keeps terms (retain (keeps t) candidates)

    -- What the text pass collects, each with whether it is negated.
    abbrev pub patterns_of : QueryTerm → List (CompiledPattern Regex × Bool)
    patterns_of (name_matches p) = (compile p, false) ∷ []
    patterns_of (logical_matches p) = (compile p, false) ∷ []
    patterns_of (not_name_matches p) = (compile p, true) ∷ []
    patterns_of (not_logical_matches p) = (compile p, true) ∷ []
    patterns_of _ = []

    abbrev pub any_tag_sets_of : QueryTerm → List (CompiledPattern Regex × List ℕ × Bool)
    unfolding for_any
    any_tag_sets_of (any_match p tag_ids file_ids) =
        (compile p, for_any tag_ids ++ file_ids, false) ∷ []
    any_tag_sets_of (not_any_match p tag_ids file_ids) =
        (compile p, for_any tag_ids ++ file_ids, true) ∷ []
    any_tag_sets_of (entity_matches p tag_ids file_ids) = (compile p, file_ids, false) ∷ []
    any_tag_sets_of (not_entity_matches p tag_ids file_ids) = (compile p, file_ids, true) ∷ []
    any_tag_sets_of _ = []

    abbrev pub differs : Bool → Bool → Bool
    differs hit negated = if negated then not hit else hit

    abbrev pub fits : String → CompiledPattern Regex × Bool → Bool
    fits path (p, negated) = differs (pattern_match p path (to_lowercase path)) negated

    abbrev pub fits_set : ℕ → String → CompiledPattern Regex × List ℕ × Bool → Bool
    fits_set id path (p, member_files, negated) =
        differs (pattern_match p path (to_lowercase path) || contains id member_files) negated

    abbrev pub passes_text : List QueryTerm → Option String → ℕ → Bool
    unfolding any_tag_sets_of
    passes_text terms none id = false
    passes_text terms (some path) id =
        every (fits path) (collect_all patterns_of terms)
        && every (fits_set id path) (collect_all any_tag_sets_of terms)

    unfoldable pub file_ids_for_query : DeletedRule → List QueryTerm → List ℕ
    unfolding seed pass all_file_paths lookup
    file_ids_for_query rule terms =
        let candidates : List ℕ =
          pass keeps_id terms (pass keeps_tag terms (seed rule (collect_all positive_of terms))) in
        if any is_text terms
        then retain (λ id. passes_text terms (lookup id (all_file_paths rule db)) id) candidates
        else candidates
