-- ===== src/Tests/Registries.antt =====
-- The registries at concrete inputs: one session that opens and ends, one operation that completes,
-- and what overlapping calls do to the streams.
use tagsy.Prelude.{
  Bool, Option, [], arith, false, map, none, refl, some, ◌++◌, ◌∷◌, ◌≡◌, string_eq, nat_eq,
}
use tagsy.Registry.Connections
use tagsy.Registry.Connections.Calls
use tagsy.Registry.Connections.Sessions
use tagsy.Registry.Operations
use tagsy.Registry.Operations.Lifecycle
use tagsy.Registry.Operations.Work

abbrev registered : Connections.Connections × Option Connections.ConnectedPeer
registered = Connections.register_locked Connections.new "key" "laptop" Connections.inbound 7

abbrev opened : Calls.World
opened =
    Calls.finished (Calls.registering "key" registered.1)
      (record { registry = registered.0; guards = []; calls = [] ++ [] })

abbrev held : Connections.ConnectionGuard
held = record { public_key = "key" }

abbrev released : Connections.Connections × Bool
released = Connections.release_locked opened.registry "key"

abbrev closed : Calls.World
closed =
    Calls.finished (Calls.releasing "key" released.1)
      (record { registry = released.0; guards = [] ++ []; calls = [] ++ [] })

Reach-Inv_example : Calls.Inv closed
Reach-Inv_example = Sessions.Reach-Inv {w = closed} (
    Calls.next
      (Calls.next
        (Calls.next (Calls.next Calls.start (Calls.opens "key" "laptop" Connections.inbound 7))
          (Calls.sends [] [] (Calls.registering "key" registered.1) refl))
        (Calls.ends [] [] held refl))
      (Calls.sends [] [] (Calls.releasing "key" released.1) refl))

-- A new session registers between the two parts of the last release, and sends first: the last
-- event is `Disconnected`, while the registry holds the peer.
abbrev again : Connections.Connections × Option Connections.ConnectedPeer
again = Connections.register_locked released.0 "key" "laptop" Connections.outbound 9

late_disconnect :
    Connections.send_disconnected (Connections.send_connected again.0 again.1) "key" released.1
    ≡ record {
      peers =
          (
            "key",
            record {
              peer = record {
                peer_name = "laptop";
                public_key = "key";
                direction = Connections.outbound;
                since = 9;
              };
              sessions = 1;
            },
          )
          ∷ [];
      events =
          Connections.disconnected "key"
          ∷ Connections.connected (record {
            peer_name = "laptop";
            public_key = "key";
            direction = Connections.outbound;
            since = 9;
          })
          ∷ Connections.connected (record {
            peer_name = "laptop";
            public_key = "key";
            direction = Connections.inbound;
            since = 7;
          })
          ∷ [];
    }
unfolding Connections.register_locked Connections.release_locked Connections.send_connected
    Connections.send_disconnected
late_disconnect = refl

abbrev begun : Operations.Operations × Operations.Operation
begun = Operations.take_id Operations.new (Operations.fetching "file") 7

abbrev inserted : Operations.Operations
inserted = Operations.begin_locked begun.0 begun.1

abbrev started_work : Work.World
started_work =
    Work.continued (Work.starting begun.1)
      (record { registry = inserted; handles = []; calls = [] ++ [] })

abbrev handle : Operations.OperationHandle
handle = record { id = begun.1.id; finished = false }

abbrev completed_work : Operations.Operations × Option Operations.Operation
completed_work = Work.ended_locked started_work.registry handle Work.completes 9

abbrev finished_work : Work.World
finished_work =
    Work.continued (Work.updating completed_work.1)
      (record { registry = completed_work.0; handles = [] ++ []; calls = [] ++ [] })

Reach-Tracked_example : Work.Tracked finished_work
Reach-Tracked_example = Lifecycle.Reach-Tracked {w = finished_work} (
    Work.next
      (Work.next
        (Work.next
          (Work.next
            (Work.next Work.start (Work.begins (Operations.fetching "file") 7 (omega arith)))
            (Work.continues [] [] (Work.numbered begun.1) refl))
          (Work.continues [] [] (Work.starting begun.1) refl))
        (Work.ends [] [] handle Work.completes 9 refl))
      (Work.continues [] [] (Work.updating completed_work.1) refl))

-- A progress report that left the lock before the end sends after it: the last event of the
-- operation is an active one.
abbrev reported : Operations.Operations × Option Operations.Operation
reported = Operations.progress_locked started_work.registry 0 (record { done = 1; total = none }) 8

abbrev status_of : Operations.OperationEvent → Operations.OperationStatus
status_of (Operations.started operation) = operation.status
status_of (Operations.updated operation) = operation.status

late_progress :
    map status_of
      (Operations.send_updated
        (Operations.finish reported.0 0 Operations.completed 9)
        reported.1).events
    ≡ Operations.active (some (record { done = 1; total = none }))
      ∷ Operations.completed
      ∷ Operations.active none
      ∷ []
unfolding Operations.progress_locked Operations.take_id Operations.begin_locked
    Operations.send_started Operations.finish Operations.send_updated
late_progress = refl
