-- ===== src/Store/Versions/History.antt =====
-- The version log of a file: numbering, its history and its latest version.
use mathlib.Core.List.{map-append, append-nil}
use mathlib.Core.Option
use tagsy.Prelude.{
  All, List, String, [], ap, arith, if◌then◌else◌, last, last-append, not, refl, retain,
  retain-append, some, sym, ℕ, ◌++◌, ◌<◌, ◌==◌, ◌∙◌, ◌∷◌, ◌≡◌, ◌≢◌, ◌≤◌, string_eq, nat_eq,
}
use tagsy.Store.{CatalogStore, FileVersion, PreviewKey, entry_key_eq}
use tagsy.Store.Versions.{
  insert_by_number, item_of, latest_observed_at, latest_version, next_number, observed_of,
  order_by_number, record_version_at, rows_of, version_history,
}
use tagsy.Store.Versions.Order.{Below, Below-lt, Below-mono, last-map, last-order, max_number-Below}

-- The last item of a file's history is its latest version: what reconciliation reads as
-- `our_history.last()` and as `latest_version(..)` is one row of the log.
pub last-version_history :
    (file_id : ℕ) (db : CatalogStore)
    → last (version_history file_id db) ≡ Option.map item_of (latest_version file_id db)
unfolding version_history latest_version
last-version_history file_id db =
    last-map item_of (order_by_number (rows_of file_id db.versions))
    ∙ ap (Option.map item_of) (last-order (rows_of file_id db.versions))

-- A row with a higher number than all others comes last.
insert-append :
    (v n : FileVersion) (ws : List FileVersion)
    → v.version_number ≤ n.version_number
    → insert_by_number v (ws ++ n ∷ []) ≡ insert_by_number v ws ++ n ∷ []
unfolding insert_by_number
insert-append v n [] h = ground arith
insert-append v n (w ∷ ws) h = ground (arith, insert-append v n ws h)

order-append :
    (vs : List FileVersion) (n : FileVersion)
    → Below n.version_number vs
    → order_by_number (vs ++ n ∷ []) ≡ order_by_number vs ++ n ∷ []
unfolding order_by_number
order-append [] n b = unfold insert_by_number in refl
order-append (v ∷ vs) n b =
    ap (insert_by_number v) (order-append vs n b.1) ∙ insert-append v n (order_by_number vs) b.0

rows_of-append :
    (file_id : ℕ) (vs : List FileVersion) (v : FileVersion)
    → rows_of file_id (vs ++ v ∷ [])
      ≡ rows_of file_id vs ++ (if v.file_id == file_id then v ∷ [] else [])
rows_of-append file_id vs v = retain-append _ vs (v ∷ [])

module _ (file_id : ℕ) (content_hash origin : String) (size observed_at : ℕ)
    (db : CatalogStore) where
  -- The row that `record_version_at` appends.
  abbrev pub new_version : FileVersion
  new_version = record {
    file_id = file_id;
    content_hash = content_hash;
    observed_at = observed_at;
    version_number = next_number file_id db;
    origin = origin;
    size = size;
  }

  abbrev pub recorded : CatalogStore
  recorded = (record_version_at file_id content_hash origin size observed_at db).0

  next_number-Below : Below (next_number file_id db) (rows_of file_id db.versions)
  unfolding next_number
  next_number-Below =
      Below-mono _ _ (rows_of file_id db.versions) (omega arith)
        (max_number-Below (rows_of file_id db.versions))

  next_number_above :
      All
        (λ (v : FileVersion). v.version_number < new_version.version_number)
        (rows_of file_id db.versions)
  unfolding next_number
  next_number_above = Below-lt _ (rows_of file_id db.versions) (max_number-Below _)

  rows_of-recorded :
      rows_of file_id recorded.versions ≡ rows_of file_id db.versions ++ new_version ∷ []
  unfolding record_version_at
  rows_of-recorded = ground (arith, rows_of-append file_id db.versions new_version)

  order-recorded :
      order_by_number (rows_of file_id recorded.versions)
      ≡ order_by_number (rows_of file_id db.versions) ++ new_version ∷ []
  order-recorded =
      ap order_by_number rows_of-recorded
      ∙ order-append (rows_of file_id db.versions) new_version next_number-Below

  -- Recording a version makes it the latest one of its file, whatever its stamp.
  pub latest_version-recorded : latest_version file_id recorded ≡ some new_version
  unfolding latest_version
  latest_version-recorded =
      sym (last-order (rows_of file_id recorded.versions))
      ∙ (ap last order-recorded ∙ last-append (order_by_number (rows_of file_id db.versions)) _)

  pub latest_observed_at-recorded : latest_observed_at file_id recorded ≡ observed_at
  unfolding latest_observed_at
  latest_observed_at-recorded = ap observed_of latest_version-recorded

  pub version_history-recorded :
      version_history file_id recorded ≡ version_history file_id db ++ item_of new_version ∷ []
  unfolding version_history
  version_history-recorded = rw order-recorded (map-append item_of _ _)

  pub rows_of-recorded_other :
      (other : ℕ) → other ≢ file_id → rows_of other recorded.versions ≡ rows_of other db.versions
  unfolding record_version_at
  rows_of-recorded_other other h =
      ground (
        arith,
        rows_of-append other db.versions new_version,
        append-nil (rows_of other db.versions),
      )

  -- The log of every other file stays as it was.
  pub version_history-recorded_other :
      (other : ℕ)
      → other ≢ file_id
      → (version_history other recorded ≡ version_history other db)
        × (latest_version other recorded ≡ latest_version other db)
  unfolding version_history latest_version
  version_history-recorded_other other h =
      let same = rows_of-recorded_other other h in (rw same, rw same)

  pub latest_observed_at-recorded_other :
      (other : ℕ)
      → other ≢ file_id
      → latest_observed_at other recorded ≡ latest_observed_at other db
  unfolding latest_observed_at
  latest_observed_at-recorded_other other h = rw ((version_history-recorded_other other h).1)

  -- What it leaves alone.
  pub files-recorded : recorded.files ≡ db.files
  unfolding record_version_at
  files-recorded = refl

  -- No cached preview of the file survives its new version, and the others do.
  pub previews-recorded :
      recorded.previews ≡ retain (λ (p : PreviewKey). not (p.file_id == file_id)) db.previews
  unfolding record_version_at
  previews-recorded = refl

  -- Appending a version extends the history of its file by one item, with a number above all others,
  -- and makes it the latest; the history and the latest version of any other file stay.
  pub record_version_at_lem :
      (other : ℕ)
      → other ≢ file_id
      → (version_history file_id recorded ≡ version_history file_id db ++ item_of new_version ∷ [])
        × (latest_version file_id recorded ≡ some new_version)
        × All
            (λ (v : FileVersion). v.version_number < new_version.version_number)
            (rows_of file_id db.versions)
        × (version_history other recorded ≡ version_history other db)
        × (latest_version other recorded ≡ latest_version other db)
  record_version_at_lem other ne =
      let kept = version_history-recorded_other other ne in
      (version_history-recorded, latest_version-recorded, next_number_above, kept.0, kept.1)
