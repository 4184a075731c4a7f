-- ===== src/Catalog/Duplicates/Groups.antt =====
-- The groups of files with one path and content hash.
use mathlib.Core.List.{append-nil, append_assoc}
use tagsy.Prelude.{
  Bool-cases, Dict, List, Option, [], ap, if◌then◌else◌, inl, inr, lookup, lookup-insert, none, not,
  refl, some, sym, ℕ, ◌&&◌, ◌++◌, ◌==◌, ◌∙◌, ◌∷◌, ◌≡◌, nat_eq, string_eq,
}
use tagsy.Store.{entry_key_eq}
use tagsy.Store.Listing.{FileInfo}
use tagsy.Catalog.Duplicates.{Copies, copies_eq, copies_of, group_files, push_id}
use tagsy.Catalog.Duplicates.Sorted.{HasOwnKeys, insert-HasOwnKeys}

-- The live files with a path and a content hash, in the order of the listing.
abbrev pub members : Copies → List FileInfo → List ℕ
members key [] = []
members key (info ∷ files) =
    let rest : List ℕ = members key files in
    if not info.deleted && copies_of info == key then info.file_id ∷ rest else rest

abbrev pub joined : Option (List ℕ) → List ℕ → Option (List ℕ)
joined none [] = none
joined none (x ∷ ids) = some (x ∷ ids)
joined (some old) ids = some (old ++ ids)

joined-joined :
    (old : Option (List ℕ)) (id : ℕ) (ids : List ℕ)
    → joined (joined old (id ∷ [])) ids ≡ joined old (id ∷ ids)
joined-joined none id ids = refl
joined-joined (some old) id ids = ap some (append_assoc old (id ∷ []) ids)

joined-nil : (old : Option (List ℕ)) → joined old [] ≡ old
joined-nil none = refl
joined-nil (some old) = ap some (append-nil old)

lookup-push_id :
    (k key : Copies) (id : ℕ) (found : Option (List ℕ)) (groups : Dict Copies (List ℕ))
    → lookup key (push_id k id found groups)
      ≡ (if k == key then joined found (id ∷ []) else lookup key groups)
unfolding push_id
lookup-push_id k key id none groups = lookup-insert k key (id ∷ []) groups
lookup-push_id k key id (some ids) groups = lookup-insert k key (ids ++ id ∷ []) groups

push_id-HasOwnKeys :
    (k : Copies) (id : ℕ) (found : Option (List ℕ)) (groups : Dict Copies (List ℕ))
    → HasOwnKeys groups
    → HasOwnKeys (push_id k id found groups)
unfolding push_id
push_id-HasOwnKeys k id none groups h = insert-HasOwnKeys k (id ∷ []) groups h
push_id-HasOwnKeys k id (some ids) groups h = insert-HasOwnKeys k (ids ++ id ∷ []) groups h

-- The groups hold, under each key, its members.
pub lookup-group_files :
    (files : List FileInfo) (groups : Dict Copies (List ℕ)) (key : Copies)
    → lookup key (group_files files groups) ≡ joined (lookup key groups) (members key files)
unfolding group_files
lookup-group_files [] groups key = sym (joined-nil (lookup key groups))
lookup-group_files (info ∷ files) groups key = elim (Bool-cases (info.deleted)) [
  | inl dead ↦ rw dead (lookup-group_files files groups key)
  | inr live ↦
      let k : Copies = copies_of info in
      let pushed : Dict Copies (List ℕ) = push_id k info.file_id (lookup k groups) groups in
      let now = lookup-push_id k key info.file_id (lookup k groups) groups in
      elim (Bool-cases (k == key)) [
        | inl same ↦
            let e : k ≡ key = (copies_eq.same_iff k key).0 same in
            rw (live, same)
              (lookup-group_files files pushed key
                ∙ ap (λ o. joined o (members key files))
                    (now ∙ rw same (ap (λ x. joined (lookup x groups) (info.file_id ∷ [])) e))
                ∙ joined-joined (lookup key groups) info.file_id (members key files))
        | inr other ↦
            rw (live, other)
              (lookup-group_files files pushed key
                ∙ ap (λ o. joined o (members key files)) (now ∙ rw other refl))
      ]
]

pub group_files-HasOwnKeys :
    (files : List FileInfo) (groups : Dict Copies (List ℕ))
    → HasOwnKeys groups
    → HasOwnKeys (group_files files groups)
unfolding group_files
group_files-HasOwnKeys [] groups h = h
group_files-HasOwnKeys (info ∷ files) groups h = elim (Bool-cases (info.deleted)) [
  | inl dead ↦ rw dead (group_files-HasOwnKeys files groups h)
  | inr live ↦ rw live (
      group_files-HasOwnKeys files _ (
        push_id-HasOwnKeys (copies_of info) info.file_id (lookup (copies_of info) groups) groups h))
]
