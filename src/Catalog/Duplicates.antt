-- ===== src/Catalog/Duplicates.antt =====
-- tagsyd/src/catalog/duplicates.rs: which live files share a logical path and a content hash, which
-- of them stays, and which tags it takes over.
pub mod Sorted
pub mod Groups
pub mod Survivors
use Prim.Native.Nat.{Ordering}
use Prim.Native.String.{compare}
use tagsy.Prelude.{
  Bool, Dict, List, Option, PartialEq, String, [], arith, contains, false, if◌then◌else◌, insert,
  lookup, ltb, none, not, retain, some, string_eq, true, ℕ, ◌&&◌, ◌++◌, ◌==◌, ◌↔◌, ◌∷◌, ◌≡◌, nat_eq,
}
use tagsy.Store.{CatalogStore, entry_key_eq}
use tagsy.Store.Listing.{FileInfo, exclude, get_all_files}
use tagsy.Catalog.Placement.{tag_ids_for_file, to_set}

pub record Copies : Type 0 where
  pub path : String
  pub hash : String

abbrev copies_beq : Copies → Copies → Bool
copies_beq a b = a.path == b.path && a.hash == b.hash

pub copies_beq_iff : (a b : Copies) → (copies_beq a b ≡ true) ↔ (a ≡ b)
copies_beq_iff a b =
    ground (arith, string_eq.same_iff a.path b.path, string_eq.same_iff a.hash b.hash)

instance abbrev pub copies_eq : PartialEq Copies
copies_eq = record { same = copies_beq; same_iff = copies_beq_iff }

pub record DuplicateSet : Type 0 where
  pub logical_path : String
  pub content_hash : String
  pub file_ids : List ℕ

pub record DuplicatePlan : Type 0 where
  pub logical_path : String
  pub content_hash : String
  pub kept : ℕ
  pub deleted : List ℕ
  pub tags_merged : List ℕ

module _ {A : Type 0} (before : A → A → Bool) where
  abbrev pub sorted_in : A → List A → List A
  sorted_in x [] = x ∷ []
  sorted_in x (y ∷ ys) = let rest = sorted_in x ys in if before y x then y ∷ rest else x ∷ y ∷ ys

  unfoldable pub sort : List A → List A
  sort [] = []
  sort (x ∷ xs) = sorted_in x (sort xs)

abbrev pub copies_of : FileInfo → Copies
copies_of info = record { path = info.logical_path; hash = info.content_hash }

unfoldable pub push_id : Copies → ℕ → Option (List ℕ) → Dict Copies (List ℕ) → Dict Copies (List ℕ)
unfolding insert
push_id key file_id none groups = insert key (file_id ∷ []) groups
push_id key file_id (some file_ids) groups = insert key (file_ids ++ file_id ∷ []) groups

-- `groups.entry(..).or_default().push(..)`, for each live file in turn.
unfoldable pub group_files : List FileInfo → Dict Copies (List ℕ) → Dict Copies (List ℕ)
unfolding lookup push_id
group_files [] groups = groups
group_files (info ∷ files) groups = group_files files (
    if info.deleted
    then groups
    else push_id (copies_of info) info.file_id (lookup (copies_of info) groups) groups)

abbrev pub several : List ℕ → Bool
several [] = false
several (x ∷ []) = false
several (x ∷ y ∷ ids) = true

unfoldable pub sets_of : Dict Copies (List ℕ) → List DuplicateSet
unfolding sort
sets_of [] = []
sets_of ((key, file_ids) ∷ groups) =
    let rest : List DuplicateSet = sets_of groups in
    if several file_ids
    then record { logical_path = key.path; content_hash = key.hash; file_ids = sort ltb file_ids }
      ∷ rest
    else rest

abbrev is_less : Ordering → Bool → Bool
is_less Ordering.lt rest = true
is_less Ordering.eq rest = rest
is_less Ordering.gt rest = false

-- (left.logical_path, left.content_hash) before (right.logical_path, right.content_hash).
abbrev pub set_before : DuplicateSet → DuplicateSet → Bool
set_before left right =
    is_less (compare left.logical_path right.logical_path)
      (is_less (compare left.content_hash right.content_hash) false)

unfoldable pub find_duplicate_sets : List FileInfo → List DuplicateSet
unfolding group_files sets_of sort
find_duplicate_sets files = sort set_before (sets_of (group_files files []))

abbrev pub all_tags : (ℕ → List ℕ) → List ℕ → List ℕ
all_tags tags [] = []
all_tags tags (file_id ∷ ids) = tags file_id ++ all_tags tags ids

unfoldable pub plan_of : DuplicateSet → (ℕ → List ℕ) → ℕ → List ℕ → DuplicatePlan
unfolding to_set
plan_of set tags kept deleted = record {
  logical_path = set.logical_path;
  content_hash = set.content_hash;
  kept = kept;
  deleted = deleted;
  tags_merged =
      to_set (retain (λ tag_id. not (contains tag_id (tags kept))) (all_tags tags deleted));
}

-- `expect`: a set has at least two members. Where it had none, the program would stop; here there is
-- no plan.
unfoldable pub plan_duplicate_group : DuplicateSet → (ℕ → List ℕ) → Option DuplicatePlan
unfolding plan_of
plan_duplicate_group set tags = elim set.file_ids [
  | [] ↦ none
  | kept ∷ deleted ↦ some (plan_of set tags kept deleted)
]

unfoldable pub plan_groups : List DuplicateSet → (ℕ → List ℕ) → List DuplicatePlan
unfolding plan_duplicate_group
plan_groups [] tags = []
plan_groups (set ∷ sets) tags =
    let rest : List DuplicatePlan = plan_groups sets tags in
    elim (plan_duplicate_group set tags) [ none ↦ rest | some plan ↦ plan ∷ rest ]

unfoldable pub plan_duplicate_deletions : CatalogStore → List DuplicatePlan
unfolding plan_groups find_duplicate_sets get_all_files tag_ids_for_file
plan_duplicate_deletions db =
    plan_groups (find_duplicate_sets (get_all_files exclude db))
      (λ file_id. tag_ids_for_file file_id db)
