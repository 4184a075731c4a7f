-- ===== src/Registry/Connections/Calls.antt =====
-- Sessions whose calls overlap: the registry, the guards that are held and the calls that are not
-- done.
use tagsy.Prelude.{
  Bool, List, Option, String, [], if◌then◌else◌, lookup, none, one, some, sum_of, ℕ, ◌++◌, ◌+◌, ◌<◌,
  ◌==◌, ◌∷◌, ◌≡◌, nat_eq, string_eq,
}
use tagsy.Registry.Connections.{
  ConnectedPeer, ConnectionEvent, ConnectionGuard, Connections, Direction, Entry, connected,
  disconnected, new, register_locked, release_locked, send_connected, send_disconnected,
}

-- A call that has left the lock and has not sent yet, with what it sends.
pub data Call : Type 0 where
  registering : String → Option ConnectedPeer → Call
  releasing : String → Bool → Call

-- The registry, the guards that live sessions hold, and the calls that are not done.
pub record World : Type 0 where
  pub registry : Connections
  pub guards : List ConnectionGuard
  pub calls : List Call

-- The end of a call: it sends, and a `register` returns its guard.
abbrev pub finished : Call → World → World
finished (registering key peer) w = record w {
  registry = send_connected w.registry peer;
  guards = record { public_key = key } ∷ w.guards;
}
finished (releasing key final) w = record w { registry = send_disconnected w.registry key final }

-- Sessions open and end in any order, cleanly or not, and each call sends when it comes to it.
pub data Step (w : World) : World → Type 0 where
  opens :
      (key name : String) (direction : Direction) (now : ℕ)
      → Step w (record w {
        registry = (register_locked w.registry key name direction now).0;
        calls = registering key (register_locked w.registry key name direction now).1 ∷ w.calls;
      })
  ends :
      (before after : List ConnectionGuard) (guard : ConnectionGuard)
      → w.guards ≡ before ++ guard ∷ after
      → Step w (record {
        registry = (release_locked w.registry guard.public_key).0;
        guards = before ++ after;
        calls = releasing guard.public_key (release_locked w.registry guard.public_key).1 ∷ w.calls;
      })
  sends :
      (before after : List Call) (call : Call)
      → w.calls ≡ before ++ call ∷ after
      → Step w (finished call (record w { calls = before ++ after }))

pub data Reach : World → Type 0 where
  start : Reach (record { registry = new; guards = []; calls = [] })
  next : {w v : World} → Reach w → Step w v → Reach v

-- Of one key: its guards, the sessions that are registered and have no guard yet, and the events
-- that were sent and that are still to send.
abbrev pub holds : String → ConnectionGuard → ℕ
holds k guard = one (guard.public_key == k)

abbrev pub opening : String → Call → ℕ
opening k (registering key peer) = one (key == k)
opening k (releasing key final) = 0

abbrev pub connecting : String → Call → ℕ
connecting k (registering key none) = 0
connecting k (registering key (some peer)) = one (peer.public_key == k)
connecting k (releasing key final) = 0

abbrev pub disconnecting : String → Call → ℕ
disconnecting k (registering key peer) = 0
disconnecting k (releasing key final) = if final then one (key == k) else 0

abbrev pub connects : String → ConnectionEvent → ℕ
connects k (connected peer) = one (peer.public_key == k)
connects k (disconnected key) = 0

abbrev pub disconnects : String → ConnectionEvent → ℕ
disconnects k (connected peer) = 0
disconnects k (disconnected key) = one (key == k)

abbrev pub sessions : Option Entry → ℕ
sessions none = 0
sessions (some entry) = entry.sessions

abbrev pub present : Option Entry → ℕ
present none = 0
present (some entry) = 1

pub record Inv (w : World) : Type 0 where
  pub counted :
      (k : String)
      → sessions (lookup k w.registry.peers)
        ≡ sum_of (holds k) w.guards + sum_of (opening k) w.calls
  pub positive :
      (k : String) (entry : Entry)
      → lookup k w.registry.peers ≡ some entry
      → (0 < entry.sessions) × (entry.peer.public_key ≡ k)
  pub balanced :
      (k : String)
      → sum_of (connects k) w.registry.events + sum_of (connecting k) w.calls
        ≡ sum_of (disconnects k) w.registry.events
          + sum_of (disconnecting k) w.calls
          + present (lookup k w.registry.peers)
