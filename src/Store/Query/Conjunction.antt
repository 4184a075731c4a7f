-- ===== src/Store/Query/Conjunction.antt =====
-- The staged passes of a query, against a test of one file.
use mathlib.Core.Path.{ap₂}
use tagsy.Prelude.{
  Bool, Bool-cases, Dict, List, Option, String, [], any, ap, arith, contains, contains-append,
  false, if◌then◌else◌, inl, inr, is_empty, lookup, none, not, refl, retain, some, sym, true, ℕ,
  ◌&&◌, ◌||◌, ◌∙◌, ◌∷◌, ◌≡◌, string_eq, nat_eq,
}
use tagsy.Store.{CatalogStore, entry_key_eq}
use tagsy.Store.Query.Folds.{
  contains-if_retain, contains-retain, every-and, every-collect_all, every-not, every-same,
}
use tagsy.Store.Query.{
  QueryTerm, TextPattern, all_file_ids, all_file_paths, any_match, any_tag_sets_of, collect_all,
  compile, entity_matches, every, file_id_matches, file_ids_for_query, fits, fits_set, for_any,
  has_tag, intersect, is_text, keeps_id, keeps_tag, logical_matches, name_matches, not_any_match,
  not_entity_matches, not_file_id_matches, not_logical_matches, not_name_matches, not_tag, pass,
  passes_text, pattern_match, patterns_of, positive_of, seed,
}
use tagsy.Store.Listing.{DeletedRule}

-- Whether a query names a tag that a file must carry.
abbrev pub names_tag : QueryTerm → Bool
names_tag (has_tag tag_ids) = true
names_tag _ = false

abbrev on_path : Option String → (String → Bool) → Bool
on_path none test = false
on_path (some path) test = test path

module _ {Regex : Type 0} (build : String → Option Regex) (is_match : Regex → String → Bool)
    (to_lowercase : String → String) (includes : String → String → Bool) (subtags : Bool)
    (db : CatalogStore) where
  abbrev text_on : TextPattern → String → Bool
  text_on p path =
      pattern_match build is_match to_lowercase includes
        (compile build is_match to_lowercase includes p) path (to_lowercase path)

  abbrev carries : List ℕ → ℕ → Bool
  carries tag_ids id = contains id (for_any build is_match to_lowercase includes subtags db tag_ids)

  -- What a term asks of a file with an id and, where it is listed, a path.
  abbrev pub satisfies : ℕ → Option String → QueryTerm → Bool
  satisfies id path (has_tag tag_ids) = carries tag_ids id
  satisfies id path (not_tag tag_ids) = not (carries tag_ids id)
  satisfies id path (name_matches p) = on_path path (text_on p)
  satisfies id path (not_name_matches p) = on_path path (λ s. not (text_on p s))
  satisfies id path (logical_matches p) = on_path path (text_on p)
  satisfies id path (not_logical_matches p) = on_path path (λ s. not (text_on p s))
  satisfies id path (file_id_matches file_ids) = contains id file_ids
  satisfies id path (not_file_id_matches file_ids) = not (contains id file_ids)
  satisfies id path (any_match p tag_ids file_ids) =
      on_path path (λ s. text_on p s || carries tag_ids id || contains id file_ids)
  satisfies id path (not_any_match p tag_ids file_ids) =
      on_path path (λ s. not (text_on p s || carries tag_ids id || contains id file_ids))
  satisfies id path (entity_matches p tag_ids file_ids) =
      on_path path (λ s. text_on p s || contains id file_ids)
  satisfies id path (not_entity_matches p tag_ids file_ids) =
      on_path path (λ s. not (text_on p s || contains id file_ids))

  abbrev text_ok : ℕ → Option String → QueryTerm → Bool
  unfolding any_tag_sets_of
  text_ok id none t = not (is_text t)
  text_ok id (some path) t =
      every (fits build is_match to_lowercase includes subtags db path)
        (patterns_of build is_match to_lowercase includes subtags db t)
      && every (fits_set build is_match to_lowercase includes subtags db id path)
          (any_tag_sets_of build is_match to_lowercase includes subtags db t)

  contains-intersect :
      (id : ℕ) (set : List ℕ) (rest : List (List ℕ))
      → contains id (intersect build is_match to_lowercase includes subtags db set rest)
        ≡ (contains id set && every (λ tag_ids. carries tag_ids id) rest)
  unfolding intersect
  contains-intersect id set [] = ground arith
  contains-intersect id set (tag_ids ∷ rest) = ground (
    arith,
    contains-intersect id (retain (λ x. carries tag_ids x) set) rest,
    contains-retain (λ x. carries tag_ids x) id set,
  )

  contains-seed :
      (id : ℕ) (rule : DeletedRule) (sets : List (List ℕ))
      → contains id (seed build is_match to_lowercase includes subtags db rule sets) ≡ (
          (not (is_empty sets) || contains id (all_file_ids rule db))
          && every (λ tag_ids. carries tag_ids id) sets)
  unfolding seed
  contains-seed id rule [] = ground arith
  contains-seed id rule (tag_ids ∷ rest) =
      contains-intersect id (for_any build is_match to_lowercase includes subtags db tag_ids) rest

  contains-pass :
      (keeps : QueryTerm → ℕ → Bool) (id : ℕ) (terms : List QueryTerm) (candidates : List ℕ)
      → contains id (pass build is_match to_lowercase includes subtags db keeps terms candidates)
        ≡ (contains id candidates && every (λ t. keeps t id) terms)
  unfolding pass
  contains-pass keeps id [] candidates = ground arith
  contains-pass keeps id (t ∷ terms) candidates = ground (
    arith,
    contains-pass keeps id terms (retain (keeps t) candidates),
    contains-retain (keeps t) id candidates,
  )

  positive-names_tag :
      (terms : List QueryTerm)
      → not (is_empty (collect_all positive_of terms)) ≡ any names_tag terms
  positive-names_tag [] = refl
  positive-names_tag (has_tag tag_ids ∷ terms) = refl
  positive-names_tag (not_tag tag_ids ∷ terms) = positive-names_tag terms
  positive-names_tag (name_matches p ∷ terms) = positive-names_tag terms
  positive-names_tag (not_name_matches p ∷ terms) = positive-names_tag terms
  positive-names_tag (logical_matches p ∷ terms) = positive-names_tag terms
  positive-names_tag (not_logical_matches p ∷ terms) = positive-names_tag terms
  positive-names_tag (file_id_matches file_ids ∷ terms) = positive-names_tag terms
  positive-names_tag (not_file_id_matches file_ids ∷ terms) = positive-names_tag terms
  positive-names_tag (any_match p tag_ids file_ids ∷ terms) = positive-names_tag terms
  positive-names_tag (not_any_match p tag_ids file_ids ∷ terms) = positive-names_tag terms
  positive-names_tag (entity_matches p tag_ids file_ids ∷ terms) = positive-names_tag terms
  positive-names_tag (not_entity_matches p tag_ids file_ids ∷ terms) = positive-names_tag terms

  -- The four passes together ask of a file what the term does.
  asked : ℕ → Option String → QueryTerm → Bool
  unfolding keeps_tag
  asked id path t =
      every (λ tag_ids. carries tag_ids id) (positive_of t)
      && (keeps_tag build is_match to_lowercase includes subtags db t id
          && (keeps_id build is_match to_lowercase includes subtags db t id && text_ok id path t))

  satisfies-asked :
      (id : ℕ) (path : Option String) (t : QueryTerm) → satisfies id path t ≡ asked id path t
  unfolding asked text_ok any_tag_sets_of keeps_tag
  satisfies-asked id none (has_tag tag_ids) = ground arith
  satisfies-asked id none (not_tag tag_ids) = ground arith
  satisfies-asked id none (name_matches p) = ground arith
  satisfies-asked id none (not_name_matches p) = ground arith
  satisfies-asked id none (logical_matches p) = ground arith
  satisfies-asked id none (not_logical_matches p) = ground arith
  satisfies-asked id none (file_id_matches file_ids) = ground arith
  satisfies-asked id none (not_file_id_matches file_ids) = ground arith
  satisfies-asked id none (any_match p tag_ids file_ids) = ground arith
  satisfies-asked id none (not_any_match p tag_ids file_ids) = ground arith
  satisfies-asked id none (entity_matches p tag_ids file_ids) = ground arith
  satisfies-asked id none (not_entity_matches p tag_ids file_ids) = ground arith
  satisfies-asked id (some path) (has_tag tag_ids) = ground arith
  satisfies-asked id (some path) (not_tag tag_ids) = ground arith
  satisfies-asked id (some path) (name_matches p) = ground arith
  satisfies-asked id (some path) (not_name_matches p) = ground arith
  satisfies-asked id (some path) (logical_matches p) = ground arith
  satisfies-asked id (some path) (not_logical_matches p) = ground arith
  satisfies-asked id (some path) (file_id_matches file_ids) = ground arith
  satisfies-asked id (some path) (not_file_id_matches file_ids) = ground arith
  satisfies-asked id (some path) (any_match p tag_ids file_ids) = ground (
    arith,
    contains-append id (for_any build is_match to_lowercase includes subtags db tag_ids) file_ids,
  )
  satisfies-asked id (some path) (not_any_match p tag_ids file_ids) = ground (
    arith,
    contains-append id (for_any build is_match to_lowercase includes subtags db tag_ids) file_ids,
  )
  satisfies-asked id (some path) (entity_matches p tag_ids file_ids) = ground arith
  satisfies-asked id (some path) (not_entity_matches p tag_ids file_ids) = ground arith

  -- A term that is about no text asks nothing of the path.
  text_ok-plain :
      (id : ℕ) (path : String) (t : QueryTerm) → is_text t ≡ false → text_ok id (some path) t ≡ true
  unfolding text_ok any_tag_sets_of
  text_ok-plain id path t h =
      elim t as (λ k. is_text k ≡ false → text_ok id (some path) k ≡ true) [
        | has_tag tag_ids ↦ λ _. refl
        | not_tag tag_ids ↦ λ _. refl
        | name_matches p ↦ λ h. absurd (ground (arith, h))
        | not_name_matches p ↦ λ h. absurd (ground (arith, h))
        | logical_matches p ↦ λ h. absurd (ground (arith, h))
        | not_logical_matches p ↦ λ h. absurd (ground (arith, h))
        | file_id_matches file_ids ↦ λ _. refl
        | not_file_id_matches file_ids ↦ λ _. refl
        | any_match p tag_ids file_ids ↦ λ h. absurd (ground (arith, h))
        | not_any_match p tag_ids file_ids ↦ λ h. absurd (ground (arith, h))
        | entity_matches p tag_ids file_ids ↦ λ h. absurd (ground (arith, h))
        | not_entity_matches p tag_ids file_ids ↦ λ h. absurd (ground (arith, h))
      ]
        h

  every-plain :
      (id : ℕ) (path : String) (terms : List QueryTerm)
      → any is_text terms ≡ false
      → every (text_ok id (some path)) terms ≡ true
  every-plain id path [] h = refl
  every-plain id path (t ∷ terms) h =
      ground (arith, text_ok-plain id path t, every-plain id path terms, h)

  passes_text-every :
      (id : ℕ) (path : Option String) (terms : List QueryTerm)
      → (if any is_text terms
          then passes_text build is_match to_lowercase includes subtags db terms path id
          else true)
        ≡ every (text_ok id path) terms
  unfolding passes_text text_ok
  passes_text-every id none terms = ground (arith, every-not is_text terms)
  passes_text-every id (some path) terms = elim (Bool-cases (any is_text terms)) [
    | inl some_text ↦ rw some_text (
        ap₂ ◌&&◌
          (every-collect_all (fits build is_match to_lowercase includes subtags db path)
            (patterns_of build is_match to_lowercase includes subtags db) terms)
          (every-collect_all (fits_set build is_match to_lowercase includes subtags db id path)
            (any_tag_sets_of build is_match to_lowercase includes subtags db) terms)
        ∙ sym (every-and _ _ terms))
    | inr plain ↦ rw plain (sym (every-plain id path terms plain))
  ]

  -- The passes over one file, taken together.
  every-asked :
      (id : ℕ) (path : Option String) (terms : List QueryTerm)
      → every (satisfies id path) terms ≡ (
          every (λ tag_ids. carries tag_ids id) (collect_all positive_of terms)
          && (every (λ t. keeps_tag build is_match to_lowercase includes subtags db t id) terms
              && (every (λ t. keeps_id build is_match to_lowercase includes subtags db t id) terms
                  && every (text_ok id path) terms)))
  unfolding asked
  every-asked id path terms =
      every-same (satisfies id path) (asked id path) (satisfies-asked id path) terms
      ∙ every-and (λ t. every (λ tag_ids. carries tag_ids id) (positive_of t)) _ terms
      ∙ ap₂ ◌&&◌ (sym (every-collect_all (λ tag_ids. carries tag_ids id) positive_of terms)) (
          every-and (λ t. keeps_tag build is_match to_lowercase includes subtags db t id) _ terms
          ∙ ap
              (λ b.
                every (λ t. keeps_tag build is_match to_lowercase includes subtags db t id) terms
                && b)
              (every-and (λ t. keeps_id build is_match to_lowercase includes subtags db t id) _
                terms))

  -- A file is found by a query exactly when it satisfies every term, and, where no term names a tag
  -- to carry, is listed under the rule for deleted files.
  pub file_ids_for_query_lem :
      (rule : DeletedRule) (terms : List QueryTerm) (id : ℕ)
      → contains id (file_ids_for_query build is_match to_lowercase includes subtags db rule terms)
        ≡ ((any names_tag terms || contains id (all_file_ids rule db))
            && every (satisfies id (lookup id (all_file_paths rule db))) terms)
  unfolding file_ids_for_query asked
  file_ids_for_query_lem rule terms id =
      let paths : Dict ℕ String = all_file_paths rule db in
      let sets : List (List ℕ) = collect_all positive_of terms in
      let seeded : List ℕ = seed build is_match to_lowercase includes subtags db rule sets in
      let tags_kept : List ℕ =
        pass build is_match to_lowercase includes subtags db
          (keeps_tag build is_match to_lowercase includes subtags db) terms seeded in
      let kept : List ℕ =
        pass build is_match to_lowercase includes subtags db
          (keeps_id build is_match to_lowercase includes subtags db) terms tags_kept in
      ground (
        arith,
        contains-if_retain (any is_text terms)
            (λ x.
              passes_text build is_match to_lowercase includes subtags db terms (lookup x paths) x)
            id kept,
        contains-pass (keeps_id build is_match to_lowercase includes subtags db) id terms tags_kept,
        contains-pass (keeps_tag build is_match to_lowercase includes subtags db) id terms seeded,
        contains-seed id rule sets,
        positive-names_tag terms,
        passes_text-every id (lookup id paths) terms,
        every-asked id (lookup id paths) terms,
      )
