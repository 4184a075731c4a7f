-- ===== src/Store/Versions.antt =====
-- tagsyd/src/store/versions.rs: the append-only log of content versions, and
-- `delete_previews_for` of store/previews.rs.
pub mod Order
pub mod History
use tagsy.Prelude.{
  List, Option, String, [], if◌then◌else◌, leb, map, max, none, not, retain, some, ℕ, ◌++◌, ◌+◌,
  ◌==◌, ◌∷◌, string_eq, nat_eq,
}
use tagsy.Store.{CatalogStore, FileVersion, PreviewKey, entry_key_eq}

-- WHERE file_id = ?1
abbrev pub rows_of : ℕ → List FileVersion → List FileVersion
rows_of file_id = retain (λ (v : FileVersion). v.file_id == file_id)

-- SELECT MAX(version_number): NULL when there is no row.
unfoldable pub max_number : List FileVersion → Option ℕ
max_number [] = none
max_number (v ∷ vs) =
    some (elim (max_number vs) [ none ↦ v.version_number | some n ↦ max v.version_number n ])

-- ORDER BY version_number ASC: a stable sort.
unfoldable pub insert_by_number : FileVersion → List FileVersion → List FileVersion
insert_by_number v [] = v ∷ []
insert_by_number v (w ∷ ws) =
    let rest = insert_by_number v ws in
    if leb v.version_number w.version_number then v ∷ w ∷ ws else w ∷ rest

unfoldable pub order_by_number : List FileVersion → List FileVersion
unfolding insert_by_number
order_by_number [] = []
order_by_number (v ∷ vs) = insert_by_number v (order_by_number vs)

-- ORDER BY version_number DESC LIMIT 1.
unfoldable pub newest : List FileVersion → Option FileVersion
newest [] = none
newest (v ∷ vs) = some (elim (newest vs) [
  | none ↦ v
  | some w ↦ if leb v.version_number w.version_number then w else v
])

unfoldable pub delete_previews_for : ℕ → CatalogStore → CatalogStore
delete_previews_for file_id db = record db {
  previews = retain (λ (p : PreviewKey). not (p.file_id == file_id)) db.previews;
}

abbrev pub or_zero : Option ℕ → ℕ
or_zero none = 0
or_zero (some n) = n

-- The number of the next version of a file.
unfoldable pub next_number : ℕ → CatalogStore → ℕ
unfolding max_number
next_number file_id db = or_zero (max_number (rows_of file_id db.versions)) + 1

-- `record_version_at`, with the number of the new version.
unfoldable pub record_version_at : ℕ → String → String → ℕ → ℕ → CatalogStore → CatalogStore × ℕ
unfolding next_number delete_previews_for
record_version_at file_id content_hash origin size observed_at db =
    let number : ℕ = next_number file_id db in
    let version : FileVersion = record {
      file_id = file_id;
      content_hash = content_hash;
      observed_at = observed_at;
      version_number = number;
      origin = origin;
      size = size;
    } in
    (delete_previews_for file_id (record db { versions = db.versions ++ version ∷ [] }), number)

unfoldable pub latest_version : ℕ → CatalogStore → Option FileVersion
unfolding newest
latest_version file_id db = newest (rows_of file_id db.versions)

-- A version as `version_history` and a manifest give it: its number, content hash and size.
pub record HistoryItem : Type 0 where
  pub version_number : ℕ
  pub content_hash : String
  pub size : ℕ

abbrev pub item_of : FileVersion → HistoryItem
item_of v = record {
  version_number = v.version_number;
  content_hash = v.content_hash;
  size = v.size;
}

unfoldable pub version_history : ℕ → CatalogStore → List HistoryItem
unfolding order_by_number
version_history file_id db = map item_of (order_by_number (rows_of file_id db.versions))

abbrev pub observed_of : Option FileVersion → ℕ
observed_of none = 0
observed_of (some v) = v.observed_at

-- `latest_version(..).map(|version| version.observed_at).unwrap_or(0)`, as the callers write it.
unfoldable pub latest_observed_at : ℕ → CatalogStore → ℕ
latest_observed_at file_id db = observed_of (latest_version file_id db)
