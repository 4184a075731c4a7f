-- ===== src/Catalog/Forward.antt =====
-- tagsyd/src/catalog/forward.rs, and request_pull_from_origin of tagsyd/src/peer/fetch.rs: what goes
-- to peers.
pub mod Onward
use tagsy.Prelude.{
  Bool, Dict, List, Option, String, [], false, if◌then◌else◌, lookup, none, some, ℕ, ◌++◌, ◌==◌,
  ◌∷◌, nat_eq, string_eq,
}
use tagsy.Peer.Plan.{MaterializePlacement}
use tagsy.Catalog.{
  Change, ChangeOrigin, Context, Peer, RuntimePeer, Sent, frame, local, peer, start_receive,
}

abbrev local_origin : String
local_origin = "local"

unfoldable pub version_origin : ChangeOrigin → String
version_origin (local directory_path) = local_origin
version_origin (peer public_key) = public_key

-- `public_key == &peer.public_key` of a change that a peer sent.
abbrev pub is_from_peer : ChangeOrigin → String → Bool
is_from_peer (local directory_path) key = false
is_from_peer (peer public_key) key = public_key == key

-- A peer with no entry, or with no connection, is skipped.
abbrev pub send_to : Option RuntimePeer → String → Change → List Sent
send_to none key announced = []
send_to (some runtime_peer) key announced =
    if runtime_peer.outbound then frame key announced ∷ [] else []

unfoldable pub forward_in : List Peer → Dict String RuntimePeer → Change → ChangeOrigin → List Sent
unfolding lookup
forward_in [] runtime announced origin = []
forward_in (p ∷ peers) runtime announced origin =
    let rest = forward_in peers runtime announced origin in
    if is_from_peer origin p.public_key
    then rest
    else send_to (lookup p.public_key runtime) p.public_key announced ++ rest

unfoldable pub forward_to_peers : Context → Change → ChangeOrigin → List Sent
unfolding forward_in
forward_to_peers context announced origin =
    forward_in context.configuration.peers context.runtime announced origin

abbrev pull_from : Option RuntimePeer → Sent → List Sent
pull_from none message = []
pull_from (some runtime_peer) message = if runtime_peer.commands then message ∷ [] else []

unfoldable pub request_pull_from_origin :
    Context → ChangeOrigin → ℕ → String → ℕ → MaterializePlacement → List Sent
unfolding lookup
request_pull_from_origin context (local directory_path) file_id content_hash size placement = []
request_pull_from_origin context (peer public_key) file_id content_hash size placement =
    pull_from (lookup public_key context.runtime)
      (start_receive public_key file_id content_hash size placement)
