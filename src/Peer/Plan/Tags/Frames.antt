-- ===== src/Peer/Plan/Tags/Frames.antt =====
-- The frames of a tag manifest.
use mathlib.Core.List.{append-nil, append_assoc}
use tagsy.Prelude.{
  All, List, [], ap, arith, is_empty, length, map, max, refl, sym, true, ℕ, ◌++◌, ◌+◌, ◌<◌, ◌||◌,
  ◌∙◌, ◌∷◌, ◌≡◌, ◌≤◌, string_eq, nat_eq,
}
use tagsy.Store.{entry_key_eq}
use tagsy.Store.Tags.{TagManifestEntry}
use tagsy.Store.Entries.{RelationshipEntry}
use tagsy.Peer.Plan.Manifest.{chunks}
use tagsy.Peer.Plan.Batches.{Fits, chunks_lem, flatten}
use tagsy.Peer.Plan.Tags.{batch_tag_manifest}

-- The two halves of the frames of a manifest.
abbrev pub definitions_of :
    List (List TagManifestEntry × List RelationshipEntry) → List (List TagManifestEntry)
definitions_of [] = []
definitions_of ((ds, rs) ∷ frames) = ds ∷ definitions_of frames

abbrev pub relationships_of :
    List (List TagManifestEntry × List RelationshipEntry) → List (List RelationshipEntry)
relationships_of [] = []
relationships_of ((ds, rs) ∷ frames) = rs ∷ relationships_of frames

-- A frame of one kind, with at least one entry and at most `n`.
abbrev pub IsBatch : ℕ → List TagManifestEntry × List RelationshipEntry → Type 0
IsBatch n (ds, rs) =
    (length ds + length rs ≤ n)
    × (0 < length ds + length rs)
    × ((is_empty ds || is_empty rs) ≡ true)

module _ (n : ℕ) where
  definition_frames :
      (css : List (List TagManifestEntry))
      (rest : List (List TagManifestEntry × List RelationshipEntry))
      → All (Fits n) css
      → All (IsBatch n) rest
      → (flatten (definitions_of (map (λ (c : List TagManifestEntry). (c, [])) css ++ rest))
          ≡ flatten css ++ flatten (definitions_of rest))
        × (flatten (relationships_of (map (λ (c : List TagManifestEntry). (c, [])) css ++ rest))
            ≡ flatten (relationships_of rest))
        × All (IsBatch n) (map (λ (c : List TagManifestEntry). (c, [])) css ++ rest)
  definition_frames [] rest h k = (refl, refl, k)
  definition_frames (c ∷ css) rest h k =
      let below = definition_frames css rest h.1 k in
      (
        ap (λ ds. c ++ ds) below.0
            ∙ sym (append_assoc c (flatten css) (flatten (definitions_of rest))),
        below.1,
        ((omega (arith, h.0.1), omega (arith, h.0.0), ground arith), below.2),
      )

  relationship_frames :
      (css : List (List RelationshipEntry))
      → All (Fits n) css
      → (flatten (definitions_of (map (λ (c : List RelationshipEntry). ([], c)) css)) ≡ [])
        × (flatten (relationships_of (map (λ (c : List RelationshipEntry). ([], c)) css))
            ≡ flatten css)
        × All (IsBatch n) (map (λ (c : List RelationshipEntry). ([], c)) css)
  relationship_frames [] h = (refl, refl, tt)
  relationship_frames (c ∷ css) h =
      let below = relationship_frames css h.1 in
      (
        below.0,
        ap (λ rs. c ++ rs) below.1,
        ((omega (arith, h.0.1), omega (arith, h.0.0), refl), below.2),
      )

-- The frames of a tag manifest, joined in order, give back its definitions and its relationships.
-- Each holds entries of one kind, at least one and at most the batch size, which counts as one when
-- it is zero.
pub batch_tag_manifest_lem :
    (definitions : List TagManifestEntry) (relationships : List RelationshipEntry) (batch_size : ℕ)
    → let frames = batch_tag_manifest definitions relationships batch_size in
      (flatten (definitions_of frames) ≡ definitions)
      × (flatten (relationships_of frames) ≡ relationships)
      × All (IsBatch (max batch_size 1)) frames
unfolding batch_tag_manifest
batch_tag_manifest_lem definitions relationships batch_size =
    let n : ℕ = max batch_size 1 in
    let ds = chunks_lem batch_size definitions in
    let rs = chunks_lem batch_size relationships in
    let last = relationship_frames n (chunks n relationships) rs.1 in
    let all =
      definition_frames n (chunks n definitions)
        (map (λ (c : List RelationshipEntry). ([], c)) (chunks n relationships)) ds.1 last.2 in
    (
      all.0 ∙ ap (λ xs. flatten (chunks n definitions) ++ xs) last.0 ∙ append-nil _ ∙ ds.0,
      all.1 ∙ last.1 ∙ rs.0,
      all.2,
    )
