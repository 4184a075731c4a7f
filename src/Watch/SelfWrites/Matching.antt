-- ===== src/Watch/SelfWrites/Matching.antt =====
-- Which records an event consumes.
use text.Mathlib.TextEquality.{eq_iff}
use tagsy.Prelude.{
  Bool, Bool-cases, Dict, List, Option, String, [], any, any-append, ap, arith, if◌then◌else◌, inl,
  inr, insert, is_empty, lookup, lookup-insert, lookup-insert_here, lookup-remove,
  lookup-remove_here, none, position, refl, remove, retain, retain-append, some, string_eq, sym,
  true, ℕ, ◌++◌, ◌+◌, ◌<◌, ◌==◌, ◌∙◌, ◌∷◌, ◌≡◌, ◌≢◌, nat_eq,
}
use tagsy.Watch.SelfWrites.{
  Expected, Observed, WriteRecord, is_live, is_some, matches, queue_at, queue_of, record_at,
  remove_found, self_write_ttl, take_at, take_in,
}
use tagsy.Watch.SelfWrites.Consumed.{Consumed, position-found, remove_found-Consumed}

-- The live records of a path.
abbrev pub live_at : String → ℕ → Dict String (List WriteRecord) → List WriteRecord
live_at path now records = retain (is_live now) (queue_at path records)

-- What `take_in` makes of the queue that is left.
stored :
    String
    → Dict String (List WriteRecord)
    → Bool
    → List WriteRecord
    → Bool × Dict String (List WriteRecord)
stored path records taken left =
    if is_empty left then (taken, remove path records) else (taken, insert path left records)

stored_lem :
    (path : String) (records : Dict String (List WriteRecord)) (taken : Bool)
    (left : List WriteRecord)
    → ((stored path records taken left).0 ≡ taken)
      × (queue_at path (stored path records taken left).1 ≡ left)
unfolding stored
stored_lem path records taken [] = (refl, ap queue_of (lookup-remove_here path records))
stored_lem path records taken (x ∷ xs) =
    (refl, ap queue_of (lookup-insert_here path (x ∷ xs) records))

taken-queue :
    (path : String) (observed : Observed) (now : ℕ) (records : Dict String (List WriteRecord))
    (found : Option (List WriteRecord))
    → lookup path records ≡ found
    → ((take_in path observed now records found).0
        ≡ any (matches observed) (live_at path now records))
      × (queue_at path (take_in path observed now records found).1
          ≡ remove_found
              (position (matches observed) (live_at path now records))
              (live_at path now records))
unfolding take_in remove_found stored
taken-queue path observed now records none h =
    let same : [] ≡ queue_at path records = sym (ap queue_of h) in
    let live : List WriteRecord → List WriteRecord = retain (is_live now) in
    (
      ap (λ (q : List WriteRecord). any (matches observed) (live q)) same,
      sym same
          ∙ ap
              (λ (q : List WriteRecord).
                remove_found (position (matches observed) (live q)) (live q))
              same,
    )
taken-queue path observed now records (some queue) h =
    let same : queue ≡ queue_at path records = sym (ap queue_of h) in
    let live : List WriteRecord → List WriteRecord = retain (is_live now) in
    let found = position (matches observed) (live queue) in
    let kept = stored_lem path records (is_some found) (remove_found found (live queue)) in
    (
      kept.0
          ∙ position-found (matches observed) (live queue)
          ∙ ap (λ (q : List WriteRecord). any (matches observed) (live q)) same,
      kept.1
          ∙ ap
              (λ (q : List WriteRecord).
                remove_found (position (matches observed) (live q)) (live q))
              same,
    )

stored-other :
    (path other : String) (records : Dict String (List WriteRecord)) (taken : Bool)
    (left : List WriteRecord)
    → other ≢ path
    → queue_at other (stored path records taken left).1 ≡ queue_at other records
unfolding stored
stored-other path other records taken [] ne =
    let e : lookup other (remove path records) ≡ lookup other records =
      ground (arith, lookup-remove path other records, eq_iff path other, ne) in
    ap queue_of e
stored-other path other records taken (x ∷ xs) ne =
    let e : lookup other (insert path (x ∷ xs) records) ≡ lookup other records =
      ground (arith, lookup-insert path other (x ∷ xs) records, eq_iff path other, ne) in
    ap queue_of e

taken-other :
    (path other : String) (observed : Observed) (now : ℕ) (records : Dict String (List WriteRecord))
    (found : Option (List WriteRecord))
    → other ≢ path
    → queue_at other (take_in path observed now records found).1 ≡ queue_at other records
unfolding take_in stored
taken-other path other observed now records none ne = refl
taken-other path other observed now records (some queue) ne =
    let live = retain (is_live now) queue in
    let found = position (matches observed) live in
    stored-other path other records (is_some found) (remove_found found live) ne

-- An event consumes the oldest live record of its path that matches it, and is then taken for the
-- daemon's own; if none matches, it is not, and all the live ones stay. The others keep their order,
-- those that have expired go, and no other path is touched.
pub take_at_lem :
    (path other : String) (observed : Observed) (now : ℕ) (records : Dict String (List WriteRecord))
    → other ≢ path
    → Consumed
        (matches observed)
        (retain (is_live now) (queue_at path records))
        (take_at path observed now records).0
        (queue_at path (take_at path observed now records).1)
      × (queue_at other (take_at path observed now records).1 ≡ queue_at other records)
unfolding take_at
take_at_lem path other observed now records ne =
    let live = live_at path now records in
    let taken = taken-queue path observed now records (lookup path records) refl in
    (
      rw (taken.0, taken.1) (remove_found-Consumed (matches observed) live),
      taken-other path other observed now records (lookup path records) ne,
    )

-- A write that is recorded: its path, what is expected there, and when.
pub record Write : Type 0 where
  pub path : String
  pub expected : Expected
  pub at : ℕ

-- Writes recorded one after another.
abbrev pub record_all : List Write → Dict String (List WriteRecord) → Dict String (List WriteRecord)
unfolding record_at
record_all [] records = records
record_all (w ∷ writes) records = record_all writes (record_at w.path w.expected w.at records)

record_at-any :
    (p : WriteRecord → Bool) (path other : String) (expected : Expected) (recorded now : ℕ)
    (records : Dict String (List WriteRecord))
    → any p (live_at path now records) ≡ true
    → any p (live_at path now (record_at other expected recorded records)) ≡ true
unfolding record_at
record_at-any p path other expected recorded now records h =
    let new : WriteRecord = record { expected = expected; recorded_at = recorded } in
    let queue = queue_at other records in
    let found = lookup-insert other path (queue ++ new ∷ []) records in
    let live : List WriteRecord → List WriteRecord = retain (is_live now) in
    elim (Bool-cases (other == path)) [
      | inl same ↦
          let here : queue_at path records ≡ queue =
            ap (λ x. queue_at x records) (sym ((string_eq.same_iff other path).0 same)) in
          let e : lookup path (insert other (queue ++ new ∷ []) records)
              ≡ some (queue ++ new ∷ []) =
            ground (arith, found, same) in
          ap (λ o. any p (live (queue_of o))) e
          ∙ ap (any p) (retain-append (is_live now) queue (new ∷ []))
          ∙ any-append p (live queue) (live (new ∷ []))
          ∙ ground (arith, sym (ap (λ (q : List WriteRecord). any p (live q)) here) ∙ h)
      | inr apart ↦
          let e : lookup path (insert other (queue ++ new ∷ []) records) ≡ lookup path records =
            ground (arith, found, apart) in
          ap (λ o. any p (live (queue_of o))) e ∙ h
    ]

record_all-any :
    (p : WriteRecord → Bool) (path : String) (now : ℕ) (writes : List Write)
    (records : Dict String (List WriteRecord))
    → any p (live_at path now records) ≡ true
    → any p (live_at path now (record_all writes records)) ≡ true
unfolding record_all
record_all-any p path now [] records h = h
record_all-any p path now (w ∷ writes) records h =
    record_all-any p path now writes (record_at w.path w.expected w.at records)
      (record_at-any p path w.path w.expected w.at now records h)

record_at-found :
    (p : WriteRecord → Bool) (path : String) (expected : Expected) (recorded now : ℕ)
    (records : Dict String (List WriteRecord))
    → now < recorded + self_write_ttl
    → p (record { expected = expected; recorded_at = recorded }) ≡ true
    → any p (live_at path now (record_at path expected recorded records)) ≡ true
unfolding record_at is_live
record_at-found p path expected recorded now records early m =
    let new : WriteRecord = record { expected = expected; recorded_at = recorded } in
    let queue = queue_at path records in
    let live : List WriteRecord → List WriteRecord = retain (is_live now) in
    ap (λ o. any p (live (queue_of o))) (lookup-insert_here path (queue ++ new ∷ []) records)
    ∙ ap (any p) (retain-append (is_live now) queue (new ∷ []))
    ∙ any-append p (live queue) (live (new ∷ []))
    ∙ ground (arith, m)

-- A recorded write is recognised by any event that matches it and comes before it expires, whatever
-- was recorded before it, and whatever writes, to its path and to others, are recorded after it.
pub take_at-record_at :
    (path : String) (expected : Expected) (observed : Observed) (recorded now : ℕ)
    (records : Dict String (List WriteRecord)) (later : List Write)
    → now < recorded + self_write_ttl
    → matches observed (record { expected = expected; recorded_at = recorded }) ≡ true
    → (take_at path observed now (record_all later (record_at path expected recorded records))).0
      ≡ true
unfolding take_at
take_at-record_at path expected observed recorded now records later early m =
    let written = record_all later (record_at path expected recorded records) in
    (taken-queue path observed now written (lookup path written) refl).0
    ∙ record_all-any (matches observed) path now later (record_at path expected recorded records)
        (record_at-found (matches observed) path expected recorded now records early m)
