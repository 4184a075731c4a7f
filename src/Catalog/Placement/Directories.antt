-- ===== src/Catalog/Placement/Directories.antt =====
-- Which directories take a file, and what becomes of the source of its bytes.
use tagsy.Prelude.{
  Bool, Bool-cases, List, String, [], ap, arith, contains, contains-union, false, inl, inr, map,
  refl, retain, true, ℕ, ◌&&◌, ◌++◌, ◌||◌, ◌∙◌, ◌∷◌, ◌≡◌, string_eq, nat_eq,
}
use tagsy.Store.{CatalogStore, entry_key_eq}
use tagsy.Catalog.{
  Context, FileBytes, Sent, SyncDirectory, SyncType, command, file_to_copy, file_to_move, in_memory,
  tag_based, universal,
}
use tagsy.Catalog.Placement.{
  Placement, contains_all_tags, create_at, create_placements, effective_placement_tags,
  into_command, materialize_targets, physical_for, place_content, share, share_all,
  tag_ids_for_file, takes,
}
use tagsy.Peer.Plan.{create}

-- The same bytes, with the source left where it is.
abbrev pub copied : FileBytes → FileBytes
copied (in_memory bytes) = in_memory bytes
copied (file_to_copy path) = file_to_copy path
copied (file_to_move path) = file_to_copy path

abbrev pub placed : FileBytes → Placement → Sent
unfolding into_command
placed content p = command (into_command p content)

share-copied : (content : FileBytes) → share content false ≡ copied content
unfolding share
share-copied (in_memory bytes) = refl
share-copied (file_to_copy path) = refl
share-copied (file_to_move path) = refl

share-last : (content : FileBytes) → share content true ≡ content
unfolding share
share-last (in_memory bytes) = refl
share-last (file_to_copy path) = refl
share-last (file_to_move path) = refl

share_all-copied :
    (earlier : List Placement) (p : Placement) (content : FileBytes)
    → share_all (earlier ++ p ∷ []) content
      ≡ map (placed (copied content)) earlier ++ placed content p ∷ []
unfolding share_all placed
share_all-copied [] p content = ap (λ c. command (into_command p c) ∷ []) (share-last content)
share_all-copied (q ∷ []) p content =
    ap (λ c. command (into_command q c) ∷ share_all (p ∷ []) content) (share-copied content)
    ∙ ap (λ (sent : List Sent). placed (copied content) q ∷ sent) (share_all-copied [] p content)
share_all-copied (q ∷ r ∷ earlier) p content =
    ap (λ c. command (into_command q c) ∷ share_all (r ∷ earlier ++ p ∷ []) content)
      (share-copied content)
    ∙ ap (λ (sent : List Sent). placed (copied content) q ∷ sent)
        (share_all-copied (r ∷ earlier) p content)

-- Content goes out in one command for each placement, in their order. The last placement gets the
-- content as it came, with its source if that may be moved, and each earlier one a copy; with no
-- placement nothing goes out.
pub place_content_lem :
    (earlier : List Placement) (p : Placement) (content : FileBytes)
    → (place_content (earlier ++ p ∷ []) content
        ≡ map (placed (copied content)) earlier ++ placed content p ∷ [])
      × (place_content [] content ≡ [])
unfolding place_content placed
place_content_lem [] p content = (refl, refl)
place_content_lem (q ∷ []) p content = (share_all-copied (q ∷ []) p content, refl)
place_content_lem (q ∷ r ∷ earlier) p content = (share_all-copied (q ∷ r ∷ earlier) p content, refl)

-- A directory of the configuration takes a new file: it is universal, or the file has all its tags,
-- carried by the announcement or already in the catalog.
abbrev pub has_all : List ℕ → List ℕ → List ℕ → Bool
has_all [] carried db_tags = true
has_all (tag_id ∷ tags) carried db_tags =
    (contains tag_id carried || contains tag_id db_tags) && has_all tags carried db_tags

abbrev pub wants : SyncType → List ℕ → List ℕ → Bool
wants (universal keep) carried db_tags = true
wants (tag_based tags) carried db_tags = has_all tags carried db_tags

contains_all_tags-effective :
    (tags carried db_tags : List ℕ)
    → contains_all_tags tags (effective_placement_tags carried db_tags)
      ≡ has_all tags carried db_tags
unfolding contains_all_tags effective_placement_tags
contains_all_tags-effective [] carried db_tags = refl
contains_all_tags-effective (tag_id ∷ tags) carried db_tags =
    ground (
      arith,
      contains-union tag_id carried db_tags,
      contains_all_tags-effective tags carried db_tags,
    )

takes-effective :
    (sync_type : SyncType) (carried db_tags : List ℕ)
    → takes sync_type (effective_placement_tags carried db_tags) ≡ wants sync_type carried db_tags
unfolding takes
takes-effective (universal keep) carried db_tags = refl
takes-effective (tag_based tags) carried db_tags = contains_all_tags-effective tags carried db_tags

abbrev pub place_of : Context → ℕ → String → SyncDirectory → Placement
place_of context file_id logical_path d =
    create_at file_id (physical_for context d.sync_type logical_path file_id) d.path

create_placements-retain :
    (context : Context) (file_id : ℕ) (logical_path : String) (carried db_tags : List ℕ)
    (directories : List SyncDirectory)
    → create_placements context directories file_id logical_path
        (effective_placement_tags carried db_tags)
      ≡ map
          (place_of context file_id logical_path)
          (retain (λ (d : SyncDirectory). wants d.sync_type carried db_tags) directories)
unfolding create_placements
create_placements-retain context file_id logical_path carried db_tags [] = refl
create_placements-retain context file_id logical_path carried db_tags (d ∷ directories) =
    let rest = create_placements-retain context file_id logical_path carried db_tags directories in
    let same = takes-effective d.sync_type carried db_tags in
    elim (Bool-cases (wants d.sync_type carried db_tags)) [
      | inl h ↦ rw (h, same ∙ h) (ap (λ ps. place_of context file_id logical_path d ∷ ps) rest)
      | inr h ↦ rw (h, same ∙ h) rest
    ]

-- The bytes of a file that is new here go to the directories of the configuration that want it, in
-- their order, each at the path that its kind gives.
pub materialize_targets-create :
    (context : Context) (db : CatalogStore) (file_id : ℕ) (logical_path : String) (tags : List ℕ)
    → materialize_targets context db file_id (create logical_path tags)
      ≡ map (place_of context file_id logical_path) (
          retain
            (λ (d : SyncDirectory). wants d.sync_type tags (tag_ids_for_file file_id db))
            context.configuration.sync_directories)
unfolding materialize_targets
materialize_targets-create context db file_id logical_path tags =
    create_placements-retain context file_id logical_path tags (tag_ids_for_file file_id db)
      context.configuration.sync_directories
