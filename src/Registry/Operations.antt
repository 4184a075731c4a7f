-- ===== src/Registry/Operations.antt =====
-- tagsyd/src/operations.rs, with the data of tagsy-api/src/operations.rs. An `OperationId` is its
-- `u64`, and the counter wraps at 2 ^ 64 as `fetch_add` does. A call is its parts, as in the source:
-- the counter, what it does under the lock, and what it sends once the lock is free; other calls may
-- come between them. The clock is an argument, and `events` holds what was sent on the broadcast
-- channel, newest first.
pub mod Work
pub mod Continued
pub mod Lifecycle
use Prim.Native.Nat.{◌%◌, ◌^◌}
use tagsy.Prelude.{
  Bool, Dict, List, Option, String, [], false, if◌then◌else◌, insert, lookup, map, none, remove,
  some, true, ℕ, ◌+◌, ◌∷◌, nat_eq, string_eq,
}

pub data OperationKind : Type 0 where
  connecting_to_peer : String → String → OperationKind
  receiving_file : String → String → OperationKind
  fetching : String → OperationKind
  reconciling_manifest : String → OperationKind
  reconciling_tags : String → OperationKind
  placing_file : String → OperationKind
  scanning_sync_directories : OperationKind

pub record Progress : Type 0 where
  pub done : ℕ
  pub total : Option ℕ

pub data OperationStatus : Type 0 where
  active : Option Progress → OperationStatus
  completed : OperationStatus
  failed : String → OperationStatus
  aborted : OperationStatus

abbrev pub is_terminal : OperationStatus → Bool
is_terminal (active progress) = false
is_terminal completed = true
is_terminal (failed reason) = true
is_terminal aborted = true

pub record Operation : Type 0 where
  pub id : ℕ
  pub kind : OperationKind
  pub status : OperationStatus
  pub started_at : ℕ
  pub updated_at : ℕ

pub data OperationEvent : Type 0 where
  started : Operation → OperationEvent
  updated : Operation → OperationEvent

pub record Operations : Type 0 where
  pub operations : Dict ℕ Operation
  pub next_id : ℕ
  pub events : List OperationEvent

pub record OperationHandle : Type 0 where
  pub id : ℕ
  pub finished : Bool

abbrev pub new : Operations
new = record { operations = []; next_id = 0; events = [] }

-- `fetch_add` on the counter, and the operation that gets the id.
unfoldable pub take_id : Operations → OperationKind → ℕ → Operations × Operation
take_id r kind now = (
  record r { next_id = (r.next_id + 1) % 2 ^ 64 },
  record { id = r.next_id; kind = kind; status = active none; started_at = now; updated_at = now },
)

-- Under the lock.
unfoldable pub begin_locked : Operations → Operation → Operations
unfolding insert
begin_locked r operation = record r { operations = insert operation.id operation r.operations }

-- With the lock free.
unfoldable pub send_started : Operations → Operation → Operations
send_started r operation = record r { events = started operation ∷ r.events }

unfoldable pub begin : Operations → OperationKind → ℕ → Operations × OperationHandle
unfolding take_id begin_locked send_started
begin r kind now =
    let taken = take_id r kind now in
    (
      send_started (begin_locked taken.0 taken.1) taken.1,
      record { id = taken.1.id; finished = false },
    )

unfoldable pub snapshot : Operations → List Operation
snapshot r = map (λ (row : ℕ × Operation). row.1) r.operations

-- Under the lock: the operation to announce, if the id is active.
progress_in : Operations → ℕ → Progress → ℕ → Option Operation → Operations × Option Operation
progress_in r id progress now none = (r, none)
progress_in r id progress now (some operation) =
    let operation' : Operation = record operation {
      status = active (some progress);
      updated_at = now;
    } in
    (record r { operations = insert id operation' r.operations }, some operation')

unfoldable pub progress_locked : Operations → ℕ → Progress → ℕ → Operations × Option Operation
unfolding progress_in lookup insert
progress_locked r id progress now = progress_in r id progress now (lookup id r.operations)

-- With the lock free.
unfoldable pub send_updated : Operations → Option Operation → Operations
send_updated r none = r
send_updated r (some operation) = record r { events = updated operation ∷ r.events }

unfoldable pub set_progress : Operations → ℕ → Progress → ℕ → Operations
unfolding progress_locked send_updated
set_progress r id progress now =
    let locked = progress_locked r id progress now in send_updated locked.0 locked.1

unfoldable pub report_progress : Operations → ℕ → ℕ → Option ℕ → ℕ → Operations
unfolding set_progress
report_progress r id done total now = set_progress r id (record { done = done; total = total }) now

-- Under the lock: the operation that ended, if the id is active.
finish_in : Operations → ℕ → OperationStatus → ℕ → Option Operation → Operations × Option Operation
finish_in r id status now none = (r, none)
finish_in r id status now (some operation) = (
  record r { operations = remove id r.operations },
  some (record operation { status = status; updated_at = now }),
)

unfoldable pub finish_locked : Operations → ℕ → OperationStatus → ℕ → Operations × Option Operation
unfolding finish_in lookup remove
finish_locked r id status now = finish_in r id status now (lookup id r.operations)

unfoldable pub finish : Operations → ℕ → OperationStatus → ℕ → Operations
unfolding finish_locked send_updated
finish r id status now =
    let locked = finish_locked r id status now in send_updated locked.0 locked.1

-- `OperationHandle::progress`.
unfoldable pub progress : Operations → OperationHandle → ℕ → Option ℕ → ℕ → Operations
unfolding set_progress
progress r handle done total now =
    set_progress r handle.id (record { done = done; total = total }) now

-- `Drop for OperationHandle`.
unfoldable pub drop_handle : Operations → OperationHandle → ℕ → Operations
unfolding finish
drop_handle r handle now = if handle.finished then r else finish r handle.id aborted now

-- `complete` and `fail` consume the handle: it is dropped at the end of the call, as finished.
unfoldable pub complete : Operations → OperationHandle → ℕ → Operations
unfolding finish drop_handle
complete r handle now =
    drop_handle (finish r handle.id completed now) (record handle { finished = true }) now

unfoldable pub fail : Operations → OperationHandle → String → ℕ → Operations
unfolding finish drop_handle
fail r handle reason now =
    drop_handle (finish r handle.id (failed reason) now) (record handle { finished = true }) now
