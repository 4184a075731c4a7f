-- ===== src/Registry/Operations/Work.antt =====
-- Running work: the registry with the handles that are held and the calls that are not done.
use Prim.Native.Nat.{◌^◌}
use tagsy.Prelude.{
  All, Bool-cases, List, Option, String, [], false, if◌then◌else◌, inl, inr, lookup, ltb, none, not,
  one, refl, some, sum_of, ℕ, ◌&&◌, ◌++◌, ◌+◌, ◌<◌, ◌==◌, ◌∷◌, ◌≡◌, string_eq, nat_eq,
}
use tagsy.Registry.Operations.{
  Operation, OperationEvent, OperationHandle, OperationKind, Operations, Progress, aborted,
  begin_locked, complete, completed, drop_handle, fail, failed, finish, finish_locked, is_terminal,
  new, progress_locked, send_started, send_updated, started, take_id, updated,
}

-- A call between two of its parts: a `begin` that has its id, a `begin` that has left the lock, and
-- a progress report or an ending that has left the lock, with what it sends.
pub data Call : Type 0 where
  numbered : Operation → Call
  starting : Operation → Call
  updating : Option Operation → Call

-- The registry, the handles that running work holds, and the calls that are not done.
pub record World : Type 0 where
  pub registry : Operations
  pub handles : List OperationHandle
  pub calls : List Call

-- How a handle may end: by `complete`, by `fail`, or dropped without either.
pub data Ending : Type 0 where
  completes : Ending
  fails : String → Ending
  drops : Ending

-- What each of them does under the lock.
abbrev pub ended_locked : Operations → OperationHandle → Ending → ℕ → Operations × Option Operation
ended_locked r handle completes now = finish_locked r handle.id completed now
ended_locked r handle (fails reason) now = finish_locked r handle.id (failed reason) now
ended_locked r handle drops now =
    if handle.finished then (r, none) else finish_locked r handle.id aborted now

abbrev pub ended : Operations → OperationHandle → Ending → ℕ → Operations
ended r handle completes now = complete r handle now
ended r handle (fails reason) now = fail r handle reason now
ended r handle drops now = drop_handle r handle now

-- The ending of a handle is its part under the lock and what that announces.
ended-parts :
    (r : Operations) (handle : OperationHandle) (ending : Ending) (now : ℕ)
    → ended r handle ending now
      ≡ send_updated (ended_locked r handle ending now).0 (ended_locked r handle ending now).1
unfolding complete fail drop_handle finish send_updated
ended-parts r handle completes now = refl
ended-parts r handle (fails reason) now = refl
ended-parts r handle drops now = elim (Bool-cases (handle.finished)) [
  | inl already ↦ rw already refl
  | inr held ↦ rw held refl
]

-- The next part of a call.
abbrev pub continued : Call → World → World
continued (numbered operation) w = record w {
  registry = begin_locked w.registry operation;
  calls = starting operation ∷ w.calls;
}
continued (starting operation) w = record w {
  registry = send_started w.registry operation;
  handles = record { id = operation.id; finished = false } ∷ w.handles;
}
continued (updating operation) w = record w { registry = send_updated w.registry operation }

-- Calls begin in any order, and each goes on when it comes to it.
pub data Step (w : World) : World → Type 0 where
  begins :
      (kind : OperationKind) (now : ℕ)
      → w.registry.next_id + 1 < 2 ^ 64
      → Step w (record w {
        registry = (take_id w.registry kind now).0;
        calls = numbered (take_id w.registry kind now).1 ∷ w.calls;
      })
  reports :
      (id : ℕ) (progress : Progress) (now : ℕ)
      → Step w (record w {
        registry = (progress_locked w.registry id progress now).0;
        calls = updating (progress_locked w.registry id progress now).1 ∷ w.calls;
      })
  ends :
      (before after : List OperationHandle) (handle : OperationHandle) (ending : Ending) (now : ℕ)
      → w.handles ≡ before ++ handle ∷ after
      → Step w (record {
        registry = (ended_locked w.registry handle ending now).0;
        handles = before ++ after;
        calls = updating (ended_locked w.registry handle ending now).1 ∷ w.calls;
      })
  continues :
      (before after : List Call) (call : Call)
      → w.calls ≡ before ++ call ∷ after
      → Step w (continued call (record w { calls = before ++ after }))

pub data Reach : World → Type 0 where
  start : Reach (record { registry = new; handles = []; calls = [] })
  next : {w v : World} → Reach w → Step w v → Reach v

-- Of one id: its unfinished handles, the calls at each part, and the events that start and end it.
abbrev pub holds : ℕ → OperationHandle → ℕ
holds k handle = one (handle.id == k && not handle.finished)

abbrev pub numbering : ℕ → Call → ℕ
numbering k (numbered operation) = one (operation.id == k)
numbering k (starting operation) = 0
numbering k (updating operation) = 0

abbrev pub opening : ℕ → Call → ℕ
opening k (numbered operation) = 0
opening k (starting operation) = one (operation.id == k)
opening k (updating operation) = 0

abbrev pub numbered_ended : Call → ℕ
numbered_ended (numbered operation) = one (is_terminal operation.status)
numbered_ended (starting operation) = 0
numbered_ended (updating operation) = 0

abbrev pub is_end : ℕ → Operation → ℕ
is_end k operation = one (operation.id == k && is_terminal operation.status)

abbrev pub closing : ℕ → Call → ℕ
closing k (numbered operation) = 0
closing k (starting operation) = 0
closing k (updating none) = 0
closing k (updating (some operation)) = is_end k operation

abbrev pub starts : ℕ → OperationEvent → ℕ
starts k (started operation) = one (operation.id == k)
starts k (updated operation) = 0

abbrev pub finishes : ℕ → OperationEvent → ℕ
finishes k (started operation) = 0
finishes k (updated operation) = is_end k operation

abbrev pub present : Option Operation → ℕ
present none = 0
present (some operation) = 1

abbrev pub Unfinished : List OperationHandle → Type 0
Unfinished = All (λ (h : OperationHandle). h.finished ≡ false)

pub Unfinished-split :
    (before after : List OperationHandle) (handle : OperationHandle)
    → Unfinished (before ++ handle ∷ after)
    → (handle.finished ≡ false) × Unfinished (before ++ after)
Unfinished-split [] after handle h = h
Unfinished-split (x ∷ xs) after handle h =
    ((Unfinished-split xs after handle h.1).0, (h.0, (Unfinished-split xs after handle h.1).1))

-- The active set against the handles, the ids that were given out against their one `Started`, and
-- the starts of an id against its ends.
pub record Tracked (w : World) : Type 0 where
  pub held :
      (k : ℕ)
      → present (lookup k w.registry.operations)
        ≡ sum_of (holds k) w.handles + sum_of (opening k) w.calls
  pub running :
      (k : ℕ) (operation : Operation)
      → lookup k w.registry.operations ≡ some operation
      → (operation.id ≡ k) × (is_terminal operation.status ≡ false)
  pub once :
      (k : ℕ)
      → sum_of (numbering k) w.calls
          + sum_of (opening k) w.calls
          + sum_of (starts k) w.registry.events
        ≡ one (ltb k w.registry.next_id)
  pub balanced :
      (k : ℕ)
      → sum_of (opening k) w.calls + sum_of (starts k) w.registry.events
        ≡ sum_of (finishes k) w.registry.events
          + sum_of (closing k) w.calls
          + present (lookup k w.registry.operations)
  pub fresh : Unfinished w.handles
  pub unended : sum_of numbered_ended w.calls ≡ 0
