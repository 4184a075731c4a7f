-- ===== src/Catalog/Forward/Onward.antt =====
-- Which peers a change goes to, and that it is the change that goes.
use tagsy.Prelude.{
  Bool, Bool-cases, Dict, List, Option, String, [], ap, false, if◌then◌else◌, inl, inr, lookup, map,
  none, not, refl, retain, some, ◌&&◌, ◌∷◌, ◌≡◌, string_eq, nat_eq,
}
use tagsy.Catalog.{Change, ChangeOrigin, Context, Peer, RuntimePeer, Sent, frame}
use tagsy.Catalog.Forward.{forward_in, forward_to_peers, is_from_peer, send_to}

abbrev pub is_connected : Option RuntimePeer → Bool
is_connected none = false
is_connected (some runtime_peer) = runtime_peer.outbound

-- A peer that did not send the change and has a connection to it.
abbrev pub is_reached : ChangeOrigin → Dict String RuntimePeer → Peer → Bool
unfolding lookup
is_reached origin runtime p =
    not (is_from_peer origin p.public_key) && is_connected (lookup p.public_key runtime)

abbrev pub frame_for : Change → Peer → Sent
frame_for announced p = frame p.public_key announced

send_to-connected :
    (found : Option RuntimePeer) (public_key : String) (announced : Change)
    → send_to found public_key announced
      ≡ (if is_connected found then frame public_key announced ∷ [] else [])
send_to-connected none public_key announced = refl
send_to-connected (some p) public_key announced = refl

forward_in-retain :
    (peers : List Peer) (runtime : Dict String RuntimePeer) (announced : Change)
    (origin : ChangeOrigin)
    → forward_in peers runtime announced origin
      ≡ map (frame_for announced) (retain (is_reached origin runtime) peers)
unfolding forward_in
forward_in-retain [] runtime announced origin = refl
forward_in-retain (p ∷ peers) runtime announced origin =
    let rest = forward_in-retain peers runtime announced origin in
    let sent = send_to-connected (lookup p.public_key runtime) p.public_key announced in
    elim (Bool-cases (is_from_peer origin p.public_key)) [
      | inl back ↦ rw back rest
      | inr onward ↦ elim (Bool-cases (is_connected (lookup p.public_key runtime))) [
        | inl up ↦
            rw (onward, sent, up) (ap (λ (sent : List Sent). frame_for announced p ∷ sent) rest)
        | inr down ↦ rw (onward, sent, down) rest
      ]
    ]

-- A change is sent, as it is and once, to each configured peer that did not send it and is
-- connected, in the order of the configuration, and nothing else is sent.
pub forward_to_peers-retain :
    (context : Context) (announced : Change) (origin : ChangeOrigin)
    → forward_to_peers context announced origin
      ≡ map
          (frame_for announced)
          (retain (is_reached origin context.runtime) context.configuration.peers)
unfolding forward_to_peers
forward_to_peers-retain context announced origin =
    forward_in-retain context.configuration.peers context.runtime announced origin
