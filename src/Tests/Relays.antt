-- ===== src/Tests/Relays.antt =====
-- The relay at concrete inputs: a request that is answered by a second neighbour.
use tagsy.Prelude.{List, String, [], false, none, refl, ℕ, ◌+◌, ◌∷◌, ◌≡◌, nat_eq, string_eq}
use tagsy.Peer.Relay.{WaiterTable}
use tagsy.Peer.Relay.Chunks.{Event, chunk_data, chunk_miss, link_dropped, local_request, run, woken}
use tagsy.Peer.Relay.Counts.{answers, waiting}
use tagsy.Peer.Relay.Answers.{asked, run-settled}

abbrev nothing_yet : WaiterTable ℕ ℕ String
nothing_yet = record { inner = []; sent = [] }

abbrev traffic : List (Event ℕ ℕ String)
traffic =
    local_request 0 ("a" ∷ "b" ∷ []) 7 none 1
    ∷ chunk_miss ("a" ∷ "b" ∷ []) "a" 7
    ∷ link_dropped ("b" ∷ []) (λ reply. false) "a"
    ∷ chunk_data ("b" ∷ []) 7 "bytes"
    ∷ woken [] 8 7
    ∷ []

run-settled_example :
    waiting 1 7 (run traffic nothing_yet) + answers 1 7 (run traffic nothing_yet).sent
    ≡ asked 1 7 traffic + (waiting 1 7 nothing_yet + answers 1 7 nothing_yet.sent)
run-settled_example = run-settled 1 7 traffic nothing_yet (tt, (tt, (refl, (tt, (tt, tt)))))
