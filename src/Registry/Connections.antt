-- ===== src/Registry/Connections.antt =====
-- tagsyd/src/connections.rs, with the data of tagsy-api/src/connections.rs. The `Arc<Mutex<..>>` is
-- state passing. A call is two parts, as in the source: what it does under the lock, and what it
-- sends once the lock is free; other calls may come between the two. `since` comes from the clock,
-- so it is an argument. `events` holds what was sent on the broadcast channel, newest first.
pub mod Calls
pub mod Sessions
use tagsy.Prelude.{
  Bool, Dict, List, Option, String, [], false, if◌then◌else◌, insert, lookup, map, none, remove,
  some, true, ℕ, ◌+◌, ◌-◌, ◌==◌, ◌∷◌, string_eq, nat_eq,
}

pub data Direction : Type 0 where
  outbound inbound : Direction

pub record ConnectedPeer : Type 0 where
  pub peer_name : String
  pub public_key : String
  pub direction : Direction
  pub since : ℕ

pub data ConnectionEvent : Type 0 where
  connected : ConnectedPeer → ConnectionEvent
  disconnected : String → ConnectionEvent

pub record Entry : Type 0 where
  pub peer : ConnectedPeer
  pub sessions : ℕ

pub record Connections : Type 0 where
  pub peers : Dict String Entry
  pub events : List ConnectionEvent

-- The guard carries the key that its drop releases.
pub record ConnectionGuard : Type 0 where
  pub public_key : String

abbrev pub new : Connections
new = record { peers = []; events = [] }

-- Under the lock: the peer to announce, if this is its first session.
register_in :
    Connections
    → String
    → String
    → Direction
    → ℕ
    → Option Entry
    → Connections × Option ConnectedPeer
register_in c key name direction now (some entry) =
    (record c { peers = insert key (record entry { sessions = entry.sessions + 1 }) c.peers }, none)
register_in c key name direction now none =
    (record c { peers = insert key (record { peer = peer; sessions = 1 }) c.peers }, some peer)
  where
    peer : ConnectedPeer
    peer = record { peer_name = name; public_key = key; direction = direction; since = now }

unfoldable pub register_locked :
    Connections → String → String → Direction → ℕ → Connections × Option ConnectedPeer
unfolding register_in lookup insert
register_locked c key name direction now = register_in c key name direction now (lookup key c.peers)

-- With the lock free.
unfoldable pub send_connected : Connections → Option ConnectedPeer → Connections
send_connected c none = c
send_connected c (some peer) = record c { events = connected peer ∷ c.events }

unfoldable pub register :
    Connections → String → String → Direction → ℕ → Connections × ConnectionGuard
unfolding register_locked send_connected
register c key name direction now =
    let locked = register_locked c key name direction now in
    (send_connected locked.0 locked.1, record { public_key = key })

unfoldable pub snapshot : Connections → List ConnectedPeer
snapshot c = map (λ (row : String × Entry). row.1.peer) c.peers

-- Under the lock: whether that was the last session. `entry.sessions -= 1`; the subtraction here
-- stops at 0.
release_in : Connections → String → Option Entry → Connections × Bool
release_in c key none = (c, false)
release_in c key (some entry) =
    let left = entry.sessions - 1 in
    if left == 0
    then (record c { peers = remove key c.peers }, true)
    else (record c { peers = insert key (record entry { sessions = left }) c.peers }, false)

unfoldable pub release_locked : Connections → String → Connections × Bool
unfolding release_in lookup insert remove
release_locked c key = release_in c key (lookup key c.peers)

-- With the lock free.
unfoldable pub send_disconnected : Connections → String → Bool → Connections
send_disconnected c key final =
    if final then record c { events = disconnected key ∷ c.events } else c

unfoldable pub release : Connections → String → Connections
unfolding release_locked send_disconnected
release c key = let locked = release_locked c key in send_disconnected locked.0 key locked.1

-- `Drop for ConnectionGuard`.
unfoldable pub drop_guard : Connections → ConnectionGuard → Connections
unfolding release
drop_guard c guard = release c guard.public_key
