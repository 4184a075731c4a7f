-- ===== src/Peer/Plan/Purges.antt =====
-- What the reconciliation of the purge sets comes to.
use tagsy.Prelude.{
  Bool, Bool-cases, List, [], ap, arith, contains, contains-append, inl, inr, lookup-retain_keys,
  not, refl, true, ℕ, ◌&&◌, ◌==◌, ◌||◌, ◌∷◌, ◌≡◌, string_eq, nat_eq,
}
use tagsy.Store.{CatalogStore, entry_key_eq}
use tagsy.Store.Files.{file_exists}
use tagsy.Store.Purged.{delete_rows, is_purged, record_purge, strip_purged_file}
use tagsy.Peer.Plan.Purge.{apply_purge, apply_purges, plan_purge_sync}

-- Purged, and with no row.
abbrev pub is_settled : ℕ → CatalogStore → Bool
is_settled file_id db = is_purged file_id db && not (file_exists file_id db)

-- Only the row of the stripped file goes.
file_exists-strip :
    (file_id id : ℕ) (db : CatalogStore)
    → file_exists id (strip_purged_file file_id db) ≡ (not (file_id == id) && file_exists id db)
unfolding strip_purged_file delete_rows file_exists
file_exists-strip file_id id db =
    ground (arith, lookup-retain_keys (λ (j : ℕ). not (j == file_id)) id db.files)

apply_purge-settled :
    (file_id id : ℕ) (db : CatalogStore)
    → is_settled id (apply_purge file_id db) ≡ (file_id == id || is_settled id db)
unfolding apply_purge file_exists record_purge is_purged strip_purged_file delete_rows
apply_purge-settled file_id id db =
    let recorded = (record_purge file_id db).0 in
    elim (Bool-cases (contains file_id db.purged)) [
      | inl old ↦ ground (arith, old, file_exists-strip file_id id db)
      | inr new ↦ ground (
        arith,
        new,
        file_exists-strip file_id id recorded,
        contains-append id db.purged (file_id ∷ []),
      )
    ]

apply_purges-settled :
    (ids : List ℕ) (id : ℕ) (db : CatalogStore)
    → is_settled id (apply_purges ids db) ≡ (contains id ids || is_settled id db)
unfolding apply_purges
apply_purges-settled [] id db = refl
apply_purges-settled (j ∷ ids) id db =
    ground (arith, apply_purges-settled ids id (apply_purge j db), apply_purge-settled j id db)

contains-plan :
    (entries : List ℕ) (id : ℕ) (db : CatalogStore)
    → contains id (plan_purge_sync entries db) ≡ (contains id entries && not (is_settled id db))
unfolding plan_purge_sync
contains-plan [] id db = refl
contains-plan (j ∷ entries) id db = elim (Bool-cases (j == id)) [
  | inl same ↦
      ground
        (arith, contains-plan entries id db, same, ap (λ (k : ℕ). is_settled k db) {x = j} {y = id})
  | inr other ↦ ground (arith, contains-plan entries id db, other)
]

plan-nothing :
    (entries : List ℕ) (db : CatalogStore)
    → ((id : ℕ) → contains id entries ≡ true → is_settled id db ≡ true)
    → plan_purge_sync entries db ≡ []
unfolding plan_purge_sync
plan-nothing [] db h = refl
plan-nothing (j ∷ entries) db h =
    ground (arith, h j, plan-nothing entries db (λ id k. h id (ground (arith, k))))

-- Applying what is planned for a peer's purge manifest ends with a catalog in which exactly the ids
-- of the manifest are settled (purged, with no row) besides those that were settled before, and for
-- which nothing more is planned.
pub plan_purge_sync_lem :
    (entries : List ℕ) (db : CatalogStore)
    → let after = apply_purges (plan_purge_sync entries db) db in
      ((id : ℕ) → is_settled id after ≡ (contains id entries || is_settled id db))
      × (plan_purge_sync entries after ≡ [])
plan_purge_sync_lem entries db = (settles, plan-nothing entries after done)
  where
    after : CatalogStore
    after = apply_purges (plan_purge_sync entries db) db

    settles : (id : ℕ) → is_settled id after ≡ (contains id entries || is_settled id db)
    settles id = ground (
      arith,
      apply_purges-settled (plan_purge_sync entries db) id db,
      contains-plan entries id db,
    )

    done : (id : ℕ) → contains id entries ≡ true → is_settled id after ≡ true
    done id h = ground (arith, settles id)
