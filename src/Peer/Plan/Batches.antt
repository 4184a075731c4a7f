-- ===== src/Peer/Plan/Batches.antt =====
-- The batches of a manifest.
use tagsy.Prelude.{
  All, List, [], ap, arith, drop, length, length-drop-le, length-take-le, max, refl, suc, take,
  take-append-drop, zero, ℕ, ◌++◌, ◌<◌, ◌∙◌, ◌∷◌, ◌≡◌, ◌≤◌, nat_eq, string_eq,
}
use tagsy.Peer.Plan.{ManifestEntry}
use tagsy.Peer.Plan.Manifest.{batch_manifest, chunks, chunks_in}

module _ {ℓ} {A : Type ℓ} where
  abbrev pub flatten : List (List A) → List A
  flatten [] = []
  flatten (xs ∷ xss) = xs ++ flatten xss

  -- Between one and `n` entries.
  abbrev pub Fits : ℕ → List A → Type 0
  Fits n xs = (0 < length xs) × (length xs ≤ n)

  length-drop-lt : (n : ℕ) (x : A) (xs : List A) → 0 < n → length (drop n (x ∷ xs)) ≤ length xs
  length-drop-lt zero x xs h = omega arith
  length-drop-lt (suc n) x xs h = length-drop-le n xs

  take-Fits : (n : ℕ) (x : A) (xs : List A) → 0 < n → Fits n (take n (x ∷ xs))
  take-Fits zero x xs h = omega arith
  take-Fits (suc n) x xs h = (omega arith, omega (arith, length-take-le n xs))

  chunks_in_lem :
      (fuel n : ℕ) (xs : List A)
      → 0 < n
      → length xs ≤ fuel
      → (flatten (chunks_in fuel n xs) ≡ xs) × All (Fits n) (chunks_in fuel n xs)
  unfolding chunks_in
  chunks_in_lem zero n [] h k = (refl, tt)
  chunks_in_lem zero n (x ∷ xs) h k = ground arith
  chunks_in_lem (suc fuel) n [] h k = (refl, tt)
  chunks_in_lem (suc fuel) n (x ∷ xs) h k =
      let below : length (drop n (x ∷ xs)) ≤ fuel = omega (arith, length-drop-lt n x xs h) in
      let rest = chunks_in_lem fuel n (drop n (x ∷ xs)) h below in
      (
        ap (λ (ys : List A). take n (x ∷ xs) ++ ys) rest.0 ∙ take-append-drop n (x ∷ xs),
        (take-Fits n x xs h, rest.1),
      )

  pub chunks_lem :
      (n : ℕ) (xs : List A)
      → (flatten (chunks (max n 1) xs) ≡ xs) × All (Fits (max n 1)) (chunks (max n 1) xs)
  unfolding chunks
  chunks_lem n xs = chunks_in_lem (length xs) (max n 1) xs (omega arith) (omega arith)

-- The batches of a manifest, joined in order, are the manifest, and each has at least one entry and
-- at most the batch size, which counts as one when it is zero.
pub batch_manifest_lem :
    (entries : List ManifestEntry) (batch_size : ℕ)
    → (flatten (batch_manifest entries batch_size) ≡ entries)
      × All (Fits (max batch_size 1)) (batch_manifest entries batch_size)
unfolding batch_manifest
batch_manifest_lem entries batch_size = chunks_lem batch_size entries
