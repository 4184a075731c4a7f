-- ===== src/Peer/Relay/Chunks.antt =====
-- tagsyd/src/peer/relay/chunks.rs: the ways into the waiter table, over the list of the connected
-- peers. A run of the table is a list of the events that its tasks bring.
use tagsy.Prelude.{
  Bool, PartialEq, List, Option, String, [], contains, if◌then◌else◌, is_empty, none, not, retain,
  some, ℕ, ◌++◌, ◌==◌, ◌∷◌, string_eq, nat_eq,
}
use tagsy.Peer.Relay.{
  WaiterTable, deliver_miss, enqueue, expire, handle_data, handle_miss, local_requester, miss_frame,
  neighbour, prune_link,
}

-- The neighbours to forward to: the preferred one, or all when it is gone or none is preferred.
unfoldable pub choose_targets : Option String → List String → List String
choose_targets none peers = peers
choose_targets (some public_key) peers =
    if contains public_key peers then public_key ∷ [] else peers

module _ {K L D : Type 0} ⦃e : PartialEq K⦄ where
  unfoldable pub request_chunk_from_peers :
      ℕ → List String → K → Option String → L → WaiterTable K L D → WaiterTable K L D
  unfolding choose_targets enqueue
  request_chunk_from_peers now peers key toward reply table =
      let targets = choose_targets toward peers in
      if is_empty targets
      then record table { sent = table.sent ++ deliver_miss reply key ∷ [] }
      else (enqueue now key (local_requester reply) targets table).0

  unfoldable pub relay_chunk_request :
      ℕ → List String → String → K → WaiterTable K L D → WaiterTable K L D
  unfolding enqueue
  relay_chunk_request now peers from_public_key key table =
      let others = retain (λ (peer : String). not (peer == from_public_key)) peers in
      if is_empty others
      then (if contains from_public_key peers
          then record table { sent = table.sent ++ miss_frame from_public_key key ∷ [] }
          else table)
      else (enqueue now key (neighbour from_public_key) others table).0

-- What happens to the table, with the peers that are connected at that moment.
pub data Event (K L D : Type 0) : Type 0 where
  local_request : ℕ → List String → K → Option String → L → Event K L D
  peer_request : ℕ → List String → String → K → Event K L D
  chunk_data : List String → K → D → Event K L D
  chunk_miss : List String → String → K → Event K L D
  link_dropped : List String → (L → Bool) → String → Event K L D
  woken : List String → ℕ → K → Event K L D

module _ {K L D : Type 0} ⦃e : PartialEq K⦄ where
  unfoldable pub handle : Event K L D → WaiterTable K L D → WaiterTable K L D
  unfolding request_chunk_from_peers relay_chunk_request
  handle (local_request now peers key toward reply) table =
      request_chunk_from_peers now peers key toward reply table
  handle (peer_request now peers from_public_key key) table =
      relay_chunk_request now peers from_public_key key table
  handle (chunk_data peers key payload) table =
      handle_data (λ (peer : String). contains peer peers) key payload table
  handle (chunk_miss peers from_public_key key) table =
      handle_miss (λ (peer : String). contains peer peers) from_public_key key table
  handle (link_dropped peers local_is_closed public_key) table =
      prune_link (λ (peer : String). contains peer peers) local_is_closed public_key table
  handle (woken peers now key) table = expire (λ (peer : String). contains peer peers) now key table

  unfoldable pub run : List (Event K L D) → WaiterTable K L D → WaiterTable K L D
  run [] table = table
  run (event ∷ events) table = run events (handle event table)
