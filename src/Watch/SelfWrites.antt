-- ===== src/Watch/SelfWrites.antt =====
-- tagsyd/src/sync_directories/self_write.rs: the daemon's own writes, queued for each path until
-- the watcher reports them. Time is a number of seconds, handed in; `duration_since` stops at 0.
pub mod Consumed
pub mod Matching
use tagsy.Prelude.{
  Bool, Dict, List, Option, String, [], false, if◌then◌else◌, insert, is_empty, lookup, ltb, none,
  position, remove, remove_at, retain, some, true, ℕ, ◌++◌, ◌-◌, ◌==◌, ◌∷◌, nat_eq, string_eq,
}

pub data Expected : Type 0 where
  removal_expected : Expected
  content : Option String → Expected

pub data Observed : Type 0 where
  removal_seen arrival : Observed
  modification : String → Observed

-- `Record`.
pub record WriteRecord : Type 0 where
  pub expected : Expected
  pub recorded_at : ℕ

abbrev pub self_write_ttl : ℕ
self_write_ttl = 600

unfoldable pub matches : Observed → WriteRecord → Bool
matches observed write_record = elim write_record.expected [
  | removal_expected ↦ elim observed [ removal_seen ↦ true | _ ↦ false ]
  | content none ↦ elim observed [ removal_seen ↦ false | _ ↦ true ]
  | content (some recorded) ↦ elim observed [
    | removal_seen ↦ false
    | arrival ↦ true
    | modification seen ↦ recorded == seen
  ]
]

-- `records.entry(path).or_default()`.
abbrev pub queue_of : Option (List WriteRecord) → List WriteRecord
queue_of none = []
queue_of (some queue) = queue

abbrev pub queue_at : String → Dict String (List WriteRecord) → List WriteRecord
queue_at path records = queue_of (lookup path records)

unfoldable pub record_at :
    String → Expected → ℕ → Dict String (List WriteRecord) → Dict String (List WriteRecord)
record_at path expected now records =
    insert path (queue_at path records ++ record { expected = expected; recorded_at = now } ∷ [])
      records

unfoldable pub is_live : ℕ → WriteRecord → Bool
is_live now write_record = ltb (now - write_record.recorded_at) self_write_ttl

unfoldable pub remove_found : Option ℕ → List WriteRecord → List WriteRecord
remove_found none queue = queue
remove_found (some index) queue = remove_at index queue

unfoldable pub is_some : Option ℕ → Bool
is_some none = false
is_some (some index) = true

unfoldable pub take_in :
    String
    → Observed
    → ℕ
    → Dict String (List WriteRecord)
    → Option (List WriteRecord)
    → Bool × Dict String (List WriteRecord)
unfolding matches is_live remove_found is_some
take_in path observed now records none = (false, records)
take_in path observed now records (some queue) =
    let live = retain (is_live now) queue in
    let found = position (matches observed) live in
    let left = remove_found found live in
    if is_empty left
    then (is_some found, remove path records)
    else (is_some found, insert path left records)

-- Whether the event is one of our own writes, and the records without the one it consumes.
unfoldable pub take_at :
    String → Observed → ℕ → Dict String (List WriteRecord) → Bool × Dict String (List WriteRecord)
unfolding take_in
take_at path observed now records = take_in path observed now records (lookup path records)
