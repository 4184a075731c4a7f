-- ===== src/Catalog/Duplicates/Survivors.antt =====
-- Which files the plans delete, and that a copy of each stays.
use mathlib.Core.Path.{ap₂}
use tagsy.Prelude.{
  All, Bool-cases, Dict, List, [], any, ap, arith, inl, inr, lookup, ltb, map, none, one, refl,
  some, subst, sym, true, ℕ, ◌&&◌, ◌<◌, ◌==◌, ◌||◌, ◌∙◌, ◌∷◌, ◌≡◌, ◌≤◌, string_eq, nat_eq,
}
use tagsy.Store.{entry_key_eq}
use tagsy.Store.Listing.{FileInfo}
use tagsy.Catalog.Duplicates.{
  Copies, DuplicatePlan, DuplicateSet, find_duplicate_sets, group_files, plan_duplicate_group,
  plan_groups, plan_of, set_before, sets_of, several, sort, copies_eq,
}
use tagsy.Catalog.Duplicates.Sorted.{
  All-above, All-lookup, All-map, All-sort, IsAscending, any-lookup, any-sort, holds, occurrences,
  sort-IsAscending, sum_of-sort,
}
use tagsy.Catalog.Duplicates.Groups.{group_files-HasOwnKeys, joined, lookup-group_files, members}

abbrev set_key : DuplicateSet → Copies
set_key set = record { path = set.logical_path; hash = set.content_hash }

abbrev pub plan_key : DuplicatePlan → Copies
plan_key plan = record { path = plan.logical_path; hash = plan.content_hash }

-- A set has two members or more, and is all the members of its key, the lowest id first.
record IsSetOf (files : List FileInfo) (set : DuplicateSet) : Type 0 where
  set_ids : set.file_ids ≡ sort ltb (members (set_key set) files)
  set_several : several (members (set_key set) files) ≡ true

-- A plan keeps or deletes each member of its key, once, and no other file, and keeps the one below
-- all those that it deletes.
pub record IsPlanOf (files : List FileInfo) (plan : DuplicatePlan) : Type 0 where
  pub plan_ids :
      (id : ℕ)
      → occurrences id (plan.kept ∷ plan.deleted) ≡ occurrences id (members (plan_key plan) files)
  pub plan_lowest : All (λ id. plan.kept < id) plan.deleted

abbrev pub file_ids : List FileInfo → List ℕ
file_ids files = map (λ (info : FileInfo). info.file_id) files

members_listed :
    (id : ℕ) (key : Copies) (files : List FileInfo)
    → occurrences id (members key files) ≤ occurrences id (file_ids files)
members_listed id key [] = omega arith
members_listed id key (info ∷ files) = ground (arith, members_listed id key files)

several-any : (ids : List ℕ) → several ids ≡ true → any (λ _. true) ids ≡ true
several-any [] h = h
several-any (x ∷ ids) h = refl

members_found : (ms ids : List ℕ) → joined none ms ≡ some ids → ids ≡ ms
members_found [] ids e = absurd (ground (arith, e))
members_found (x ∷ ms) ids e = ground (arith, e)

holds-joined : (ms : List ℕ) → holds several (joined none ms) ≡ several ms
holds-joined [] = refl
holds-joined (x ∷ ms) = refl

module _ (files : List FileInfo) where
  sets_of-IsSetOf :
      (groups : Dict Copies (List ℕ))
      → All (λ (g : Copies × List ℕ). g.1 ≡ members g.0 files) groups
      → All (IsSetOf files) (sets_of groups)
  unfolding sets_of
  sets_of-IsSetOf [] h = tt
  sets_of-IsSetOf ((key, ids) ∷ groups) h = elim (Bool-cases (several ids)) [
    | inl many ↦ rw many (
      record { set_ids = ap (sort ltb) h.0; set_several = ap several (sym h.0) ∙ many },
      sets_of-IsSetOf groups h.1,
    )
    | inr few ↦ rw few (sets_of-IsSetOf groups h.1)
  ]

  any-sets_of :
      (key : Copies) (groups : Dict Copies (List ℕ))
      → any (λ set. set_key set == key) (sets_of groups)
        ≡ any (λ (g : Copies × List ℕ). g.0 == key && several g.1) groups
  unfolding sets_of
  any-sets_of key [] = refl
  any-sets_of key ((k, ids) ∷ groups) = elim (Bool-cases (several ids)) [
    | inl many ↦ rw many (ground (arith, any-sets_of key groups))
    | inr few ↦ rw few (ground (arith, any-sets_of key groups))
  ]

  planned :
      (set : DuplicateSet) (tags : ℕ → List ℕ) (ids : List ℕ)
      → set.file_ids ≡ ids
      → IsSetOf files set
      → ((id : ℕ) → occurrences id (file_ids files) ≤ 1)
      → (plan : DuplicatePlan) × (plan_duplicate_group set tags ≡ some plan)
        × (plan_key plan ≡ set_key set)
        × IsPlanOf files plan
  unfolding plan_duplicate_group plan_of
  planned set tags [] e h distinct =
      let ms : List ℕ = members (set_key set) files in
      absurd (
        ground (
          arith,
          ap (any (λ _. true)) (sym e ∙ h.set_ids),
          any-sort ltb (λ _. true) ms,
          several-any ms h.set_several,
        ))
  planned set tags (kept ∷ deleted) e h distinct =
      let ms : List ℕ = members (set_key set) files in
      let sorted : kept ∷ deleted ≡ sort ltb ms = sym e ∙ h.set_ids in
      let ids : (id : ℕ) → occurrences id (kept ∷ deleted) ≡ occurrences id ms =
        λ id. ap (occurrences id) sorted ∙ sum_of-sort ltb (λ x. one (x == id)) ms in
      (
        plan_of set tags kept deleted,
        rw e refl,
        refl,
        record {
          plan_ids = ids;
          plan_lowest =
              All-above kept deleted (subst IsAscending (sym sorted) (sort-IsAscending ms)).0
                (ground (arith, ids kept, members_listed kept (set_key set) files, distinct kept));
        },
      )

  plan_groups-cons :
      (set : DuplicateSet) (sets : List DuplicateSet) (tags : ℕ → List ℕ) (plan : DuplicatePlan)
      → plan_duplicate_group set tags ≡ some plan
      → plan_groups (set ∷ sets) tags ≡ plan ∷ plan_groups sets tags
  unfolding plan_groups
  plan_groups-cons set sets tags plan e = ground (arith, e)

  plan_groups_lem :
      (sets : List DuplicateSet) (tags : ℕ → List ℕ)
      → All (IsSetOf files) sets
      → ((id : ℕ) → occurrences id (file_ids files) ≤ 1)
      → All (IsPlanOf files) (plan_groups sets tags)
        × ((key : Copies)
            → any (λ plan. plan_key plan == key) (plan_groups sets tags)
              ≡ any (λ set. set_key set == key) sets)
  unfolding plan_groups
  plan_groups_lem [] tags h distinct = (tt, λ key. refl)
  plan_groups_lem (set ∷ sets) tags h distinct =
      let found = planned set tags set.file_ids refl h.0 distinct in
      let rest = plan_groups_lem sets tags h.1 distinct in
      rw (plan_groups-cons set sets tags found.0 found.1)
        ((found.3, rest.0), λ key. ap₂ ◌||◌ (ap (λ k. k == key) found.2) (rest.1 key))

  groups_of-members : All (λ (g : Copies × List ℕ). g.1 ≡ members g.0 files) (group_files files [])
  unfolding lookup
  groups_of-members =
      All-map
        (λ (g : Copies × List ℕ) found.
          members_found (members g.0 files) g.1 (sym (lookup-group_files files [] g.0) ∙ found))
        (group_files files [])
        (All-lookup (group_files files []) (group_files-HasOwnKeys files [] tt))

  -- Where no id is listed twice: every plan keeps or deletes each live file with one path and content
  -- hash, once, and no other file; the one it keeps has the lowest id and is not deleted; and there
  -- is a plan for a path and hash exactly where two files or more have them.
  pub find_duplicate_sets_lem :
      (tags : ℕ → List ℕ)
      → ((id : ℕ) → occurrences id (file_ids files) ≤ 1)
      → All (IsPlanOf files) (plan_groups (find_duplicate_sets files) tags)
        × ((key : Copies)
            → any (λ plan. plan_key plan == key) (plan_groups (find_duplicate_sets files) tags)
              ≡ several (members key files))
  unfolding find_duplicate_sets lookup
  find_duplicate_sets_lem tags distinct =
      let groups : Dict Copies (List ℕ) = group_files files [] in
      let sets : List DuplicateSet = find_duplicate_sets files in
      let done =
        plan_groups_lem sets tags
          (All-sort set_before (IsSetOf files) (sets_of groups)
            (sets_of-IsSetOf groups groups_of-members))
          distinct in
      (
        done.0,
        λ key.
            done.1 key
            ∙ any-sort set_before (λ set. set_key set == key) (sets_of groups)
            ∙ any-sets_of key groups
            ∙ any-lookup several key groups (group_files-HasOwnKeys files [] tt)
            ∙ ap (holds several) (lookup-group_files files [] key)
            ∙ holds-joined (members key files),
      )
