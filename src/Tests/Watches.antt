-- ===== src/Tests/Watches.antt =====
-- The watcher at concrete inputs.
use tagsy.Prelude.{
  Bool, Dict, List, String, [], any, ap, arith, false, ltb, map, none, not, refl, retain, some,
  true, ℕ, ◌++◌, ◌-◌, ◌==◌, ◌∷◌, ◌≡◌, ◌≢◌, ◌⊎◌, string_eq, nat_eq,
}
use tagsy.Watch.Debounce.{DebouncingEvent, create, modify, removal}
use tagsy.Watch.Debounce.Queue.{push_all}
use tagsy.Watch.Debounce.Renames.{push_all-replaced_by_rename, push_all-saved_by_rename, renames}
use tagsy.Watch.Debounce.Merges.{modifies}
use tagsy.Watch.Debounce.Settling.{
  IsDeepest, WindowRegistration, covers, default_debounce_window, extract_finalized,
  extract_finalized_lem, primary_path, window_for_in, window_for_in-IsDeepest,
}
use tagsy.Watch.SelfWrites.{
  Expected, WriteRecord, content, is_live, matches, modification, queue_at, record_at, take_at,
}
use tagsy.Watch.SelfWrites.Consumed.{Consumed}
use tagsy.Watch.SelfWrites.Matching.{Write, record_all, take_at-record_at, take_at_lem}

abbrev other_event : DebouncingEvent
other_event = record { kind = create "other"; timestamp = 0 }

push_all-saved_by_rename_example :
    push_all
      (renames 1 "a" "a~" ++ (2, create "a") ∷ modifies "a" (3 ∷ []) ++ (4, removal "a~") ∷ [])
      (other_event ∷ [])
    ≡ some ((other_event ∷ []) ++ record { kind = modify "a"; timestamp = 2 } ∷ [])
push_all-saved_by_rename_example =
    push_all-saved_by_rename "a" "a~" 1 2 4 (3 ∷ []) (other_event ∷ []) refl refl refl refl

push_all-replaced_by_rename_example :
    push_all
      ((1, create "x") ∷ renames 2 "a" "a~" ++ renames 3 "x" "a" ++ (4, removal "a~") ∷ [])
      (other_event ∷ [])
    ≡ none
push_all-replaced_by_rename_example =
    push_all-replaced_by_rename "x" "a" "a~" 1 2 3 4 (other_event ∷ []) refl refl refl refl refl

abbrev under : String → String → Bool
under path root = path == root

abbrev flat : String → ℕ
flat path = 1

abbrev registration : WindowRegistration
registration = record { root = "sync"; window = 200 }

abbrev narrow : WindowRegistration
narrow = record { root = "other"; window = 300 }

window_for_in-IsDeepest_example :
    ((any (covers under flat "sync") (narrow ∷ registration ∷ []) ≡ true)
      × IsDeepest under flat "sync"
          (narrow ∷ registration ∷ [])
          (window_for_in under flat (narrow ∷ registration ∷ []) (create "sync")))
    ⊎ ((any (covers under flat "sync") (narrow ∷ registration ∷ []) ≡ false)
        × (window_for_in under flat (narrow ∷ registration ∷ []) (create "sync")
            ≡ default_debounce_window))
unfolding primary_path
window_for_in-IsDeepest_example =
    window_for_in-IsDeepest under flat (narrow ∷ registration ∷ []) (create "sync") "sync" refl

abbrev recent_event : DebouncingEvent
recent_event = record { kind = create "sync"; timestamp = 800 }

abbrev outlived : DebouncingEvent → Bool
outlived event =
    ltb (window_for_in under flat (registration ∷ []) event.kind) (900 - event.timestamp)

abbrev staying : List DebouncingEvent
staying =
    retain (λ (event : DebouncingEvent). not (outlived event)) (other_event ∷ recent_event ∷ [])

extract_finalized_lem_example :
    (extract_finalized under flat 900 (registration ∷ []) (other_event ∷ recent_event ∷ []) ≡ (
      map
          (λ (event : DebouncingEvent). event.kind)
          (retain outlived (other_event ∷ recent_event ∷ [])),
      staying,
    ))
    × (extract_finalized under flat 900 (registration ∷ []) staying ≡ ([], staying))
extract_finalized_lem_example =
    extract_finalized_lem under flat 900 (registration ∷ []) (other_event ∷ recent_event ∷ [])

abbrev expected : Expected
expected = content (some "h")

apart : ◌≢◌ {A = String} "b" "a"
apart h = let e : false ≡ true = ap (λ (x : String). x == "a") h in ground (arith, e)

abbrev recorded : Dict String (List WriteRecord)
recorded = record_at "a" (content (some "h2")) 210 (record_at "a" expected 200 [])

take_at_lem_example :
    Consumed
      (matches (modification "h2"))
      (retain (is_live 700) (queue_at "a" recorded))
      (take_at "a" (modification "h2") 700 recorded).0
      (queue_at "a" (take_at "a" (modification "h2") 700 recorded).1)
    × (queue_at "b" (take_at "a" (modification "h2") 700 recorded).1 ≡ queue_at "b" recorded)
take_at_lem_example = take_at_lem "a" "b" (modification "h2") 700 recorded apart

abbrev later_writes : List Write
later_writes = record { path = "a"; expected = content (some "h2"); at = 210 } ∷ []

take_at-record_at_example :
    (take_at "a" (modification "h") 700 (record_all later_writes (record_at "a" expected 200 []))).0
    ≡ true
unfolding matches
take_at-record_at_example =
    take_at-record_at "a" expected (modification "h") 200 700 [] later_writes (omega arith) refl
