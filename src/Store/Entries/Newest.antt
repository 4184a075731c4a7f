-- ===== src/Store/Entries/Newest.antt =====
-- What a relationship holds after many writes.
use mathlib.Core.List.{Permᴰ, Pairwise}
use tagsy.Prelude.{
  Dict, List, Option, Option-cases, [], ap, arith, if◌then◌else◌, inl, inr, lookup, lookup-insert,
  ltb, none, refl, run, run-perm, some, sym, ◌==◌, ◌∙◌, ◌∷◌, ◌≡◌, ◌≢◌, string_eq, nat_eq,
}
use tagsy.Store.{EntryKey, EntryRow, key_beq_iff, entry_key_eq}
use tagsy.Store.Entries.{RelationshipEntry, upsert}

-- The newer of what a key holds and a write to it; what is held stays on a tie.
abbrev pub newer : Option EntryRow → RelationshipEntry → Option EntryRow
newer none e = some (record { modified_at = e.modified_at; deleted = e.deleted })
newer (some row) e =
    if ltb row.modified_at e.modified_at
    then some (record { modified_at = e.modified_at; deleted = e.deleted })
    else some row

pub lookup-upsert :
    (key : EntryKey) (e : RelationshipEntry) (rows : Dict EntryKey EntryRow)
    → lookup key (upsert e rows)
      ≡ (if e.key == key then newer (lookup key rows) e else lookup key rows)
unfolding upsert
lookup-upsert key e rows = elim (Option-cases (lookup e.key rows)) [
  | inl h ↦
      rw (h, upsert)
        (ground (
          arith,
          lookup-insert e.key key (record { modified_at = e.modified_at; deleted = e.deleted })
              rows,
          key_beq_iff e.key key,
          h,
        ))
  | inr (row, h) ↦
      rw (h, upsert)
        (ground (
          arith,
          lookup-insert e.key key (record { modified_at = e.modified_at; deleted = e.deleted })
              rows,
          key_beq_iff e.key key,
          h,
        ))
]

abbrev pub upsert_all : List RelationshipEntry → Dict EntryKey EntryRow → Dict EntryKey EntryRow
upsert_all [] rows = rows
upsert_all (e ∷ es) rows = upsert_all es (upsert e rows)

-- Two writes that could not be told apart by age.
abbrev pub Apart : RelationshipEntry → RelationshipEntry → Type 0
Apart a b = a.key ≡ b.key → a.modified_at ≢ b.modified_at

-- What a key holds after one write, and after a list of them, oldest first.
abbrev pub held : EntryKey → RelationshipEntry → Option EntryRow → Option EntryRow
held key e o = if e.key == key then newer o e else o

abbrev pub settled : EntryKey → List RelationshipEntry → Option EntryRow → Option EntryRow
settled key = run (held key)

pub lookup-upsert_all :
    (key : EntryKey) (es : List RelationshipEntry) (rows : Dict EntryKey EntryRow)
    → lookup key (upsert_all es rows) ≡ settled key es (lookup key rows)
lookup-upsert_all key [] rows = refl
lookup-upsert_all key (e ∷ es) rows =
    lookup-upsert_all key es (upsert e rows) ∙ ap (settled key es) (lookup-upsert key e rows)

pub held_comm :
    (key : EntryKey) (a b : RelationshipEntry) (o : Option EntryRow)
    → Apart a b
    → held key b (held key a o) ≡ held key a (held key b o)
held_comm key a b none apart = ground (arith, apart, key_beq_iff a.key key, key_beq_iff b.key key)
held_comm key a b (some row) apart =
    ground (arith, apart, key_beq_iff a.key key, key_beq_iff b.key key)

Apart-prop : (a b : RelationshipEntry) → IsProp (Apart a b)
Apart-prop a b = hlevel

Apart-sym : (a b : RelationshipEntry) → Apart a b → Apart b a
Apart-sym a b h same e = h (sym same) (sym e)

-- Whatever the order in which the same tag and untag writes arrive, at any device, every
-- relationship ends in the same state, provided that no two writes to one relationship carry the
-- same stamp.
pub upsert_all-perm :
    (xs ys : List RelationshipEntry)
    → Permᴰ xs ys
    → Pairwise Apart xs
    → (key : EntryKey) (rows : Dict EntryKey EntryRow)
    → lookup key (upsert_all xs rows) ≡ lookup key (upsert_all ys rows)
upsert_all-perm xs ys d h key rows =
    lookup-upsert_all key xs rows
    ∙ (run-perm (held key) Apart Apart-prop Apart-sym (λ a b o. held_comm key a b o) d h
          (lookup key rows)
        ∙ sym (lookup-upsert_all key ys rows))
