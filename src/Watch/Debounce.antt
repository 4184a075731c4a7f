-- ===== src/Watch/Debounce.antt =====
-- tagsyd/src/sync_directories/watch/debounce.rs: the queue of events that wait to settle. A path is
-- a string, compared whole; time is a number of milliseconds, handed in. A failed `assert!`, which
-- stops the watcher, is `none`.
pub mod Queue
pub mod Positions
pub mod Merges
pub mod Renames
pub mod Settling
use tagsy.Prelude.{Bool, Option, String, false, none, some, ℕ, ◌==◌, string_eq, nat_eq}

pub data DebouncedEventKind : Type 0 where
  create modify removal dir_create dir_removal : String → DebouncedEventKind
  move : Option String → Option String → DebouncedEventKind

pub record DebouncingEvent : Type 0 where
  pub kind : DebouncedEventKind
  pub timestamp : ℕ

abbrev pub is_create : String → DebouncingEvent → Bool
is_create path event = elim event.kind [ create file_name ↦ file_name == path | _ ↦ false ]

abbrev pub is_modify : String → DebouncingEvent → Bool
is_modify path event = elim event.kind [ modify file_name ↦ file_name == path | _ ↦ false ]

abbrev pub is_move_from_to : String → DebouncingEvent → Bool
is_move_from_to path event = elim event.kind [ move (some from) (some to) ↦ to == path | _ ↦ false ]

abbrev pub is_move_from : String → DebouncingEvent → Bool
is_move_from path event = elim event.kind [ move (some from) none ↦ from == path | _ ↦ false ]

abbrev pub is_move_to : String → DebouncingEvent → Bool
is_move_to path event = elim event.kind [ move none (some to) ↦ to == path | _ ↦ false ]
