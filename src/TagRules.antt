-- ===== src/TagRules.antt =====
-- tagsyd/src/configuration/tag_rules.rs: the rules that tag a file at its creation. The regex crate
-- is a parameter: `regex_new` compiles a pattern or says why not, `is_match` searches a path.
use mathlib.Core.Path.{◌≡◌}
use tagsy.Prelude.{
  Bool, Bool-cases, List, NoRepeat, String, [], arith, contains, contains-union, false,
  if◌then◌else◌, inl, inr, is_empty, length, not, refl, true, union, union-NoRepeat, ℕ, ◌&&◌, ◌+◌,
  ◌||◌, ◌∙◌, ◌∷◌, ◌≡◌, ◌⊎◌, nat_eq, string_eq,
}

pub record TagRule : Type 0 where
  pub pattern : String
  pub tags : List ℕ

pub record TagRuleError (Error : Type 0) : Type 0 where
  pub index : ℕ
  pub pattern : String
  pub source : Error

pub record CompiledTagRule (Regex : Type 0) : Type 0 where
  pub pattern : Regex
  pub tags : List ℕ

pub record CompiledTagRules (Regex Error : Type 0) : Type 0 where
  pub matchers : List (CompiledTagRule Regex)
  pub errors : List (TagRuleError Error)

module _ {Regex : Type 0} where
  unfoldable pub tags_from :
      (Regex → String → Bool) → List (CompiledTagRule Regex) → String → List ℕ → List ℕ
  unfolding union
  tags_from is_match [] path tags = tags
  tags_from is_match (m ∷ matchers) path tags =
      tags_from is_match matchers path
        (if not (is_match m.pattern path) then tags else union tags m.tags)

  unfoldable pub referenced_from : List (CompiledTagRule Regex) → List ℕ → List ℕ
  unfolding union
  referenced_from [] tags = tags
  referenced_from (m ∷ matchers) tags = referenced_from matchers (union tags m.tags)

module _ {Regex Error : Type 0} where
  -- One turn of the loop of `compile`, at an index, before those of the later rules.
  abbrev compiled_rule :
      ℕ → TagRule → Regex ⊎ Error → CompiledTagRules Regex Error → CompiledTagRules Regex Error
  compiled_rule index rule (inl regex) rest = record rest {
    matchers = record { pattern = regex; tags = rule.tags } ∷ rest.matchers;
  }
  compiled_rule index rule (inr e) rest = record rest {
    errors = record { index = index; pattern = rule.pattern; source = e } ∷ rest.errors;
  }

  unfoldable pub compile_from :
      (String → Regex ⊎ Error) → ℕ → List TagRule → CompiledTagRules Regex Error
  compile_from regex_new index [] = record { matchers = []; errors = [] }
  compile_from regex_new index (rule ∷ rules) =
      compiled_rule index rule (regex_new rule.pattern) (compile_from regex_new (index + 1) rules)

  unfoldable pub compile : (String → Regex ⊎ Error) → List TagRule → CompiledTagRules Regex Error
  unfolding compile_from
  compile regex_new rules = compile_from regex_new 0 rules

  unfoldable pub tags_for : (Regex → String → Bool) → CompiledTagRules Regex Error → String → List ℕ
  unfolding tags_from
  tags_for is_match rules path = tags_from is_match rules.matchers path []

  unfoldable pub referenced_tags : CompiledTagRules Regex Error → List ℕ
  unfolding referenced_from
  referenced_tags rules = referenced_from rules.matchers []

  unfoldable pub has_no_rule : CompiledTagRules Regex Error → Bool
  has_no_rule rules = is_empty rules.matchers

  unfoldable pub live_rules : CompiledTagRules Regex Error → ℕ
  live_rules rules = length rules.matchers

  -- `apply_tag_rules` of tagsyd/src/catalog/content.rs.
  unfoldable pub apply_tag_rules :
      (Regex → String → Bool) → CompiledTagRules Regex Error → String → List ℕ → List ℕ
  unfolding tags_for has_no_rule union
  apply_tag_rules is_match rules logical_path tags =
      if has_no_rule rules then tags else union tags (tags_for is_match rules logical_path)

  abbrev rule_matches : (Regex → String → Bool) → String → Regex ⊎ Error → Bool
  rule_matches is_match path (inl regex) = is_match regex path
  rule_matches is_match path (inr e) = false

  -- Some rule whose pattern compiles and matches the path names the tag.
  abbrev pub grants :
      (String → Regex ⊎ Error) → (Regex → String → Bool) → String → ℕ → List TagRule → Bool
  grants regex_new is_match path tag_id [] = false
  grants regex_new is_match path tag_id (rule ∷ rules) =
      (rule_matches is_match path (regex_new rule.pattern) && contains tag_id rule.tags)
      || grants regex_new is_match path tag_id rules

granted :
    (tag_id : ℕ) (matched : Bool) (tags more : List ℕ) (rest : Bool)
    → (contains tag_id (if not matched then tags else union tags more) || rest)
      ≡ (contains tag_id tags || ((matched && contains tag_id more) || rest))
granted tag_id true tags more rest = ground (arith, contains-union tag_id tags more)
granted tag_id false tags more rest = refl

module _ {Regex Error : Type 0} (regex_new : String → Regex ⊎ Error)
    (is_match : Regex → String → Bool) (path : String) (tag_id : ℕ) where
  contains-tags_from :
      (index : ℕ) (rules : List TagRule) (tags : List ℕ)
      → contains tag_id (tags_from is_match (compile_from regex_new index rules).matchers path tags)
        ≡ (contains tag_id tags || grants regex_new is_match path tag_id rules)
  unfolding tags_from compile_from
  contains-tags_from index [] tags = ground arith
  contains-tags_from index (rule ∷ rules) tags =
      elim (regex_new rule.pattern)
        as (λ found.
          contains tag_id (
            tags_from is_match
              (compiled_rule index rule found (compile_from regex_new (index + 1) rules)).matchers
              path tags)
          ≡ (contains tag_id tags
              || ((rule_matches is_match path found && contains tag_id rule.tags)
                  || grants regex_new is_match path tag_id rules))) [
                    | inl regex ↦
                        contains-tags_from (index + 1) rules
                          (if not (is_match regex path) then tags else union tags rule.tags)
                        ∙ granted tag_id (is_match regex path) tags rule.tags
                            (grants regex_new is_match path tag_id rules)
                    | inr e ↦ contains-tags_from (index + 1) rules tags
                  ]

tags_from-NoRepeat :
    {Regex : Type 0} (is_match : Regex → String → Bool) (matchers : List (CompiledTagRule Regex))
    (path : String) (tags : List ℕ)
    → NoRepeat tags
    → NoRepeat (tags_from is_match matchers path tags)
unfolding tags_from
tags_from-NoRepeat is_match [] path tags h = h
tags_from-NoRepeat is_match (m ∷ matchers) path tags h =
    tags_from-NoRepeat is_match matchers path
      (if not (is_match m.pattern path) then tags else union tags m.tags)
      (elim (Bool-cases (is_match m.pattern path)) [
        | inl k ↦ rw k (union-NoRepeat tags m.tags h)
        | inr k ↦ rw k h
      ])

-- A path is given a tag exactly when some rule, whose pattern compiles and matches the path, names
-- it, wherever the rule stands and whatever the others are; and no tag is given twice.
pub contains-tags_for :
    {Regex Error : Type 0} (regex_new : String → Regex ⊎ Error) (is_match : Regex → String → Bool)
    (rules : List TagRule) (path : String) (tag_id : ℕ)
    → (contains tag_id (tags_for is_match (compile regex_new rules) path)
        ≡ grants regex_new is_match path tag_id rules)
      × NoRepeat (tags_for is_match (compile regex_new rules) path)
unfolding tags_for compile
contains-tags_for regex_new is_match rules path tag_id = (
  contains-tags_from regex_new is_match path tag_id 0 rules [],
  tags_from-NoRepeat is_match (compile_from regex_new 0 rules).matchers path [] tt,
)
