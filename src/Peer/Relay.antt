-- ===== src/Peer/Relay.antt =====
-- tagsyd/src/peer/relay/mod.rs: the waiter table that the chunk relay and the preview relay share.
-- The key, the local reply channel and the payload are the parameters of `RelayProtocol`. The peer
-- directory is the test `connected`; a frame or a reply that goes out is a `Sent`; time is a
-- number of seconds.
pub mod Chunks
pub mod Counts
pub mod Answers
use tagsy.Prelude.{
  Bool, Dict, PartialEq, List, Option, String, [], contains, false, if◌then◌else◌, insert, is_empty,
  leb, lookup, map, none, not, remove, retain, some, true, ℕ, ◌++◌, ◌+◌, ◌==◌, ◌||◌, ◌∷◌, string_eq,
  nat_eq,
}

pub data Waiter (L : Type 0) : Type 0 where
  neighbour : String → Waiter L
  local_requester : L → Waiter L

pub record WaiterEntry (L : Type 0) : Type 0 where
  pub downstream : List (Waiter L)
  pub upstream_outstanding : List String
  pub deadline : ℕ

-- The frames to a peer, by its public key, and the deliveries to a local requester.
pub data Sent (K L D : Type 0) : Type 0 where
  request_frame : String → K → Sent K L D
  data_frame : String → K → D → Sent K L D
  miss_frame : String → K → Sent K L D
  deliver_data : L → K → D → Sent K L D
  deliver_miss : L → K → Sent K L D

pub record WaiterTable (K L D : Type 0) : Type 0 where
  pub inner : Dict K (WaiterEntry L)
  pub sent : List (Sent K L D)

abbrev pub hop_timeout : ℕ
hop_timeout = 8

-- `HashSet::remove`, and `collect` into a `HashSet`.
abbrev pub set_remove : String → List String → List String
set_remove a xs = retain (λ (x : String). not (x == a)) xs

unfoldable pub set_of : List String → List String
set_of [] = []
set_of (x ∷ xs) = let rest = set_of xs in if contains x rest then rest else x ∷ rest

unfoldable pub keeps_waiter : {L : Type 0} → (L → Bool) → String → Waiter L → Bool
keeps_waiter local_is_closed public_key (neighbour peer) = not (peer == public_key)
keeps_waiter local_is_closed public_key (local_requester reply) = not (local_is_closed reply)

unfoldable pub prune_entry : {L : Type 0} → (L → Bool) → String → WaiterEntry L → WaiterEntry L
unfolding keeps_waiter
prune_entry local_is_closed public_key entry = record entry {
  downstream = retain (keeps_waiter local_is_closed public_key) entry.downstream;
  upstream_outstanding = set_remove public_key entry.upstream_outstanding;
}

module _ {K L : Type 0} where
  unfoldable pub prune_entries :
      (L → Bool) → String → Dict K (WaiterEntry L) → Dict K (WaiterEntry L)
  prune_entries local_is_closed public_key [] = []
  prune_entries local_is_closed public_key ((key, entry) ∷ entries) =
      (key, prune_entry local_is_closed public_key entry)
      ∷ prune_entries local_is_closed public_key entries

  unfoldable pub keys_to_remove : Dict K (WaiterEntry L) → List K
  keys_to_remove [] = []
  keys_to_remove ((key, entry) ∷ entries) =
      let rest = keys_to_remove entries in
      if is_empty entry.downstream || is_empty entry.upstream_outstanding then key ∷ rest else rest

module _ {K L D : Type 0} ⦃e : PartialEq K⦄ where
  unfoldable pub fan_data : (String → Bool) → K → D → List (Waiter L) → List (Sent K L D)
  fan_data connected key payload [] = []
  fan_data connected key payload (local_requester reply ∷ waiters) =
      deliver_data reply key payload ∷ fan_data connected key payload waiters
  fan_data connected key payload (neighbour public_key ∷ waiters) =
      let rest = fan_data connected key payload waiters in
      if connected public_key then data_frame public_key key payload ∷ rest else rest

  unfoldable pub fan_miss : (String → Bool) → K → List (Waiter L) → List (Sent K L D)
  fan_miss connected key [] = []
  fan_miss connected key (local_requester reply ∷ waiters) =
      deliver_miss reply key ∷ fan_miss connected key waiters
  fan_miss connected key (neighbour public_key ∷ waiters) =
      let rest = fan_miss connected key waiters in
      if connected public_key then miss_frame public_key key ∷ rest else rest

  unfoldable pub enqueue_in :
      ℕ
      → K
      → Waiter L
      → List String
      → WaiterTable K L D
      → Option (WaiterEntry L)
      → WaiterTable K L D × Bool
  unfolding set_of
  enqueue_in now key waiter targets table (some entry) = (
    record table {
      inner =
          insert key (record entry { downstream = entry.downstream ++ waiter ∷ [] }) table.inner;
    },
    false,
  )
  enqueue_in now key waiter targets table none =
      let entry : WaiterEntry L = record {
        downstream = waiter ∷ [];
        upstream_outstanding = set_of targets;
        deadline = now + hop_timeout;
      } in
      (
        record {
          inner = insert key entry table.inner;
          sent = table.sent ++ map (λ (peer : String). request_frame peer key) targets;
        },
        true,
      )

  -- Whether a new entry was created comes second.
  unfoldable pub enqueue :
      ℕ → K → Waiter L → List String → WaiterTable K L D → WaiterTable K L D × Bool
  unfolding enqueue_in
  enqueue now key waiter targets table =
      enqueue_in now key waiter targets table (lookup key table.inner)

  unfoldable pub handle_data_in :
      (String → Bool) → K → D → WaiterTable K L D → Option (WaiterEntry L) → WaiterTable K L D
  unfolding fan_data
  handle_data_in connected key payload table none = table
  handle_data_in connected key payload table (some entry) = record {
    inner = remove key table.inner;
    sent = table.sent ++ fan_data connected key payload entry.downstream;
  }

  unfoldable pub handle_data : (String → Bool) → K → D → WaiterTable K L D → WaiterTable K L D
  unfolding handle_data_in
  handle_data connected key payload table =
      handle_data_in connected key payload table (lookup key table.inner)

  -- `table.remove(&key)` and `fan_miss` of the entry it gives, if any.
  unfoldable pub fail_in :
      (String → Bool) → K → WaiterTable K L D → Option (WaiterEntry L) → WaiterTable K L D
  unfolding fan_miss
  fail_in connected key table none = table
  fail_in connected key table (some entry) = record {
    inner = remove key table.inner;
    sent = table.sent ++ fan_miss connected key entry.downstream;
  }

  unfoldable pub fail_key : (String → Bool) → K → WaiterTable K L D → WaiterTable K L D
  unfolding fail_in
  fail_key connected key table = fail_in connected key table (lookup key table.inner)

  unfoldable pub handle_miss_in :
      (String → Bool) → String → K → WaiterTable K L D → Option (WaiterEntry L) → WaiterTable K L D
  unfolding fail_in
  handle_miss_in connected from_public_key key table none = table
  handle_miss_in connected from_public_key key table (some entry) =
      let left : WaiterEntry L = record entry {
        upstream_outstanding = set_remove from_public_key entry.upstream_outstanding;
      } in
      if is_empty left.upstream_outstanding
      then fail_in connected key table (some left)
      else record table { inner = insert key left table.inner }

  unfoldable pub handle_miss : (String → Bool) → String → K → WaiterTable K L D → WaiterTable K L D
  unfolding handle_miss_in
  handle_miss connected from_public_key key table =
      handle_miss_in connected from_public_key key table (lookup key table.inner)

  unfoldable pub fail_keys : (String → Bool) → List K → WaiterTable K L D → WaiterTable K L D
  fail_keys connected [] table = table
  fail_keys connected (key ∷ keys) table = fail_keys connected keys (fail_key connected key table)

  unfoldable pub prune_link :
      (String → Bool) → (L → Bool) → String → WaiterTable K L D → WaiterTable K L D
  unfolding keys_to_remove fail_keys
  prune_link connected local_is_closed public_key table =
      let pruned = prune_entries local_is_closed public_key table.inner in
      fail_keys connected (keys_to_remove pruned) (record table { inner = pruned })

  unfoldable pub expire_in :
      (String → Bool) → ℕ → K → WaiterTable K L D → Option (WaiterEntry L) → WaiterTable K L D
  unfolding fail_in
  expire_in connected now key table none = table
  expire_in connected now key table (some entry) =
      if leb entry.deadline now then fail_in connected key table (some entry) else table

  -- What the task that `arm_ttl` spawned does when it wakes.
  unfoldable pub expire : (String → Bool) → ℕ → K → WaiterTable K L D → WaiterTable K L D
  unfolding expire_in
  expire connected now key table = expire_in connected now key table (lookup key table.inner)
