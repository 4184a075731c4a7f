-- ===== src/Watch/Debounce/Queue.antt =====
-- tagsyd/src/sync_directories/watch/debounce.rs: `push`, which merges a new event with the queue,
-- oldest event first. The rules for one kind of event stand in one function, in the source's order.
use tagsy.Prelude.{
  Bool, List, Option, String, [], any, false, get_elem?, if◌then◌else◌, length, ltb, none, not,
  remove_at, set_at, some, suc, true, ℕ, ◌&&◌, ◌++◌, ◌-◌, ◌||◌, ◌∷◌, nat_eq, string_eq,
}
use tagsy.Watch.Debounce.{
  DebouncedEventKind, DebouncingEvent, create, is_create, is_modify, is_move_from, is_move_from_to,
  is_move_to, modify, move, removal,
}

abbrev later : Option ℕ → Bool → Option ℕ
later (some i) found = some (suc i)
later none true = some 0
later none false = none

module _ {ℓ} {A : Type ℓ} where
  -- The index of the last match: `len - iter().rev().position(..) - 1`.
  unfoldable pub rposition : (A → Bool) → List A → Option ℕ
  rposition p [] = none
  rposition p (x ∷ xs) = later (rposition p xs) (p x)

-- The backward walk over the queue, which stops at a creation of the file: an event is out of its
-- reach when one comes after it.
unfoldable pub remove_modifies : String → List DebouncingEvent → List DebouncingEvent
remove_modifies file_name [] = []
remove_modifies file_name (event ∷ events) =
    let rest = remove_modifies file_name events in
    if any (is_create file_name) events
      || is_create file_name event
      || not (is_modify file_name event)
    then event ∷ rest
    else rest

unfoldable pub source_of : Option DebouncingEvent → Option String
source_of none = none
source_of (some event) = elim event.kind [ move from to ↦ from | _ ↦ none ]

-- `vim_in queue rename_index from create_index`: none when the assertion fails.
unfoldable pub vim_in :
    List DebouncingEvent → ℕ → String → Option ℕ → Option (Option (List DebouncingEvent))
vim_in queue rename_index from none = some none
vim_in queue rename_index from (some create_index) =
    if ltb rename_index create_index
    then some (
        some (
          remove_at rename_index (
            set_at create_index (λ (event : DebouncingEvent). record event { kind = modify from })
              queue)))
    else none

unfoldable pub vim_from :
    List DebouncingEvent → ℕ → Option String → Option (Option (List DebouncingEvent))
unfolding vim_in rposition
vim_from queue rename_index none = some none
vim_from queue rename_index (some from) =
    vim_in queue rename_index from (rposition (is_create from) queue)

unfoldable pub vim_rename : List DebouncingEvent → Option ℕ → Option (Option (List DebouncingEvent))
unfolding vim_from source_of
vim_rename queue none = some none
vim_rename queue (some rename_index) =
    vim_from queue rename_index (source_of (get_elem? queue rename_index))

unfoldable pub append_unless :
    ℕ
    → DebouncedEventKind
    → List DebouncingEvent
    → Option (Option (List DebouncingEvent))
    → Option (List DebouncingEvent)
append_unless now kind queue none = none
append_unless now kind queue (some (some merged)) = some merged
append_unless now kind queue (some none) =
    some (queue ++ record { kind = kind; timestamp = now } ∷ [])

unfoldable pub push_removal_in :
    ℕ → String → List DebouncingEvent → Option ℕ → Option (List DebouncingEvent)
unfolding append_unless vim_rename rposition
push_removal_in now file_name queue (some index) = some (remove_at index queue)
push_removal_in now file_name queue none =
    append_unless now (removal file_name) queue
      (vim_rename queue (rposition (is_move_from_to file_name) queue))

unfoldable pub push_removal : ℕ → String → List DebouncingEvent → Option (List DebouncingEvent)
unfolding push_removal_in remove_modifies rposition
push_removal now file_name queue =
    let left = remove_modifies file_name queue in
    push_removal_in now file_name left (rposition (is_create file_name) left)

unfoldable pub pair_matches :
    String → String → Option DebouncingEvent → Option DebouncingEvent → Bool
pair_matches from to (some potential_from) (some potential_to) =
    is_move_from from potential_from && is_move_to to potential_to
pair_matches from to potential_from potential_to = false

-- The single `from` and `to` events that the pair repeats.
unfoldable pub merge_moves : String → String → List DebouncingEvent → List DebouncingEvent
unfolding pair_matches
merge_moves from to queue =
    let to_index = length queue - 1 in
    let from_index = to_index - 1 in
    if pair_matches from to (get_elem? queue from_index) (get_elem? queue to_index)
    then remove_at from_index (remove_at to_index queue)
    else queue

unfoldable pub push_move_in :
    ℕ → String → String → List DebouncingEvent → Option ℕ → List DebouncingEvent
push_move_in now from to queue (some index) =
    set_at index (λ (event : DebouncingEvent). record event { kind = create to }) queue
push_move_in now from to queue none =
    queue ++ record { kind = move (some from) (some to); timestamp = now } ∷ []

unfoldable pub push_move : ℕ → String → String → List DebouncingEvent → List DebouncingEvent
unfolding push_move_in merge_moves rposition
push_move now from to queue =
    let left = merge_moves from to queue in
    push_move_in now from to left (rposition (is_create from) left)

unfoldable pub push_modify : ℕ → String → List DebouncingEvent → List DebouncingEvent
push_modify now file_name queue =
    if any (is_create file_name) queue || any (is_modify file_name) queue
    then queue
    else queue ++ record { kind = modify file_name; timestamp = now } ∷ []

unfoldable pub push : ℕ → DebouncedEventKind → List DebouncingEvent → Option (List DebouncingEvent)
unfolding push_removal push_move push_modify
push now (removal file_name) queue = push_removal now file_name queue
push now (modify file_name) queue = some (push_modify now file_name queue)
push now (move (some from) (some to)) queue = some (push_move now from to queue)
push now new_event queue = some (queue ++ record { kind = new_event; timestamp = now } ∷ [])

unfoldable pub push_next :
    List (ℕ × DebouncedEventKind) → Option (List DebouncingEvent) → Option (List DebouncingEvent)
unfolding push
push_next events none = none
push_next [] (some queue) = some queue
push_next ((now, kind) ∷ events) (some queue) = push_next events (push now kind queue)

-- Events in the order in which they come, each with its time.
unfoldable pub push_all :
    List (ℕ × DebouncedEventKind) → List DebouncingEvent → Option (List DebouncingEvent)
unfolding push_next
push_all events queue = push_next events (some queue)
