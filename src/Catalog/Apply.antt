-- ===== src/Catalog/Apply.antt =====
-- tagsyd/src/catalog/mod.rs: apply_metadata_change, the path of every change that carries no bytes.
use tagsy.Prelude.{List, Option, [], if◌then◌else◌, none, some, true, ◌++◌, ◌∷◌, nat_eq, string_eq}
use tagsy.Store.{CatalogStore, entry_key_eq}
use tagsy.Catalog.{Change, ChangeOrigin, Context, Outcome, Sent, event, local, outcome}
use tagsy.Catalog.Files.{apply_file_change}
use tagsy.Catalog.Tagging.{apply_tag_change}

-- The first handler that takes the change.
abbrev pub first_of : CatalogStore → Option Outcome → Option Outcome → Outcome
first_of db (some done) rest = done
first_of db none (some done) = done
first_of db none none = outcome db [] true

abbrev published : Change → Outcome → CatalogStore × List Sent
published announced done =
    (done.database, done.sent ++ (if done.publish then event announced ∷ [] else []))

unfoldable pub apply_metadata_change :
    Context → ChangeOrigin → Change → CatalogStore → CatalogStore × List Sent
unfolding apply_file_change apply_tag_change
apply_metadata_change context origin announced db = published announced (
    first_of db (apply_file_change context origin announced db)
      (apply_tag_change context origin announced db))

-- A change made on this device through the API: the empty path is that of no directory.
abbrev pub local_origin : ChangeOrigin
local_origin = local ""

-- Changes that a handler of the writer applies by itself, one after the other.
unfoldable pub apply_all : Context → List Change → CatalogStore → CatalogStore × List Sent
unfolding apply_metadata_change
apply_all context [] db = (db, [])
apply_all context (announced ∷ changes) db =
    let applied : CatalogStore × List Sent =
      apply_metadata_change context local_origin announced db in
    let rest : CatalogStore × List Sent = apply_all context changes applied.0 in
    (rest.0, applied.1 ++ rest.1)
