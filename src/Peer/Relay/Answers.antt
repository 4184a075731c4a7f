-- ===== src/Peer/Relay/Answers.antt =====
-- Each request of a local receiver against the answers it gets, over any run of the waiter table.
use tagsy.Prelude.{
  All, Bool, PartialEq, List, Option, String, [], ap, arith, contains, false, if◌then◌else◌, lookup,
  lookup-insert, lookup-remove, map, none, not, one, refl, retain, some, ℕ, ◌&&◌, ◌++◌, ◌+◌, ◌==◌,
  ◌∙◌, ◌∷◌, ◌≡◌, string_eq, nat_eq,
}
use tagsy.Peer.Relay.{
  Waiter, WaiterEntry, WaiterTable, deliver_miss, enqueue, enqueue_in, expire, expire_in, fail_in,
  fail_key, fail_keys, fan_data, fan_miss, handle_data, handle_data_in, handle_miss, handle_miss_in,
  hop_timeout, keys_to_remove, local_requester, miss_frame, neighbour, prune_entries, prune_link,
  request_frame, set_of, set_remove,
}
use tagsy.Peer.Relay.Chunks.{
  Event, choose_targets, chunk_data, chunk_miss, handle, link_dropped, local_request, peer_request,
  relay_chunk_request, request_chunk_from_peers, run, woken,
}
use tagsy.Peer.Relay.Counts.{
  answers, answers-append, answers-fan_data, answers-fan_miss, answers-requests, settled, waiting,
  waits_at, waits_at-pruned, waits_in, waits_in-append,
}

module _ {K L D : Type 0} ⦃e : PartialEq K⦄ ⦃f : PartialEq L⦄ where
  enqueued-settled :
      (r : L) (k j : K) (w : Waiter L) (now : ℕ) (targets : List String) (table : WaiterTable K L D)
      (found : Option (WaiterEntry L))
      → lookup j table.inner ≡ found
      → settled r k (enqueue_in now j w targets table found).0
        ≡ (if j == k then waits_in r (w ∷ []) else 0) + settled r k table
  unfolding enqueue_in
  enqueued-settled r k j w now targets table none h = ground (
    arith,
    e.same_iff j k,
    lookup-insert j k
        (record {
          downstream = w ∷ [];
          upstream_outstanding = set_of targets;
          deadline = now + hop_timeout;
        })
        table.inner,
    answers-append r k table.sent (map (λ (peer : String). request_frame peer j) targets),
    answers-requests D r k j targets,
    h,
  )
  enqueued-settled r k j w now targets table (some entry) h = ground (
    arith,
    e.same_iff j k,
    lookup-insert j k (record entry { downstream = entry.downstream ++ w ∷ [] }) table.inner,
    waits_in-append r entry.downstream (w ∷ []),
    h,
  )

  failed-settled :
      (r : L) (k j : K) (connected : String → Bool) (table : WaiterTable K L D)
      (found : Option (WaiterEntry L))
      → waits_at r (lookup j table.inner) ≡ waits_at r found
      → settled r k (fail_in connected j table found) ≡ settled r k table
  unfolding fail_in
  failed-settled r k j connected table none h = refl
  failed-settled r k j connected table (some entry) h = ground (
    arith,
    e.same_iff j k,
    lookup-remove j k table.inner,
    answers-append r k table.sent (fan_miss connected j entry.downstream),
    answers-fan_miss D r k j connected entry.downstream,
    h,
  )

  data-settled :
      (r : L) (k j : K) (connected : String → Bool) (payload : D) (table : WaiterTable K L D)
      (found : Option (WaiterEntry L))
      → lookup j table.inner ≡ found
      → settled r k (handle_data_in connected j payload table found) ≡ settled r k table
  unfolding handle_data_in
  data-settled r k j connected payload table none h = refl
  data-settled r k j connected payload table (some entry) h = ground (
    arith,
    e.same_iff j k,
    lookup-remove j k table.inner,
    answers-append r k table.sent (fan_data connected j payload entry.downstream),
    answers-fan_data r k j connected payload entry.downstream,
    h,
  )

  miss-settled :
      (r : L) (k j : K) (connected : String → Bool) (from : String) (table : WaiterTable K L D)
      (found : Option (WaiterEntry L))
      → lookup j table.inner ≡ found
      → settled r k (handle_miss_in connected from j table found) ≡ settled r k table
  unfolding handle_miss_in
  miss-settled r k j connected from table none h = refl
  miss-settled r k j connected from table (some entry) h =
      let left : WaiterEntry L = record entry {
        upstream_outstanding = set_remove from entry.upstream_outstanding;
      } in
      ground (
        arith,
        e.same_iff j k,
        lookup-insert j k left table.inner,
        failed-settled r k j connected table (some left) (ap (waits_at r) h),
        h,
      )

  expired-settled :
      (r : L) (k j : K) (connected : String → Bool) (now : ℕ) (table : WaiterTable K L D)
      (found : Option (WaiterEntry L))
      → lookup j table.inner ≡ found
      → settled r k (expire_in connected now j table found) ≡ settled r k table
  unfolding expire_in
  expired-settled r k j connected now table none h = refl
  expired-settled r k j connected now table (some entry) h =
      ground (arith, failed-settled r k j connected table (some entry) (ap (waits_at r) h))

  fail_keys-settled :
      (r : L) (k : K) (connected : String → Bool) (keys : List K) (table : WaiterTable K L D)
      → settled r k (fail_keys connected keys table) ≡ settled r k table
  unfolding fail_keys fail_key
  fail_keys-settled r k connected [] table = refl
  fail_keys-settled r k connected (j ∷ keys) table =
      fail_keys-settled r k connected keys (fail_key connected j table)
      ∙ failed-settled r k j connected table (lookup j table.inner) refl

  -- The requests of a receiver for a key that an event brings.
  abbrev pub asks : L → K → Event K L D → ℕ
  asks r k (local_request now peers key toward reply) = one (reply == r && key == k)
  asks r k event = 0

  -- The receiver keeps its reply channel open through an event.
  abbrev pub StaysOpen : L → Event K L D → Type 0
  StaysOpen r (link_dropped peers local_is_closed public_key) = local_is_closed r ≡ false
  StaysOpen r event = Unit

  asked-settled :
      (r l : L) (k j : K) (now : ℕ) (targets : List String) (table : WaiterTable K L D)
      → settled r k (enqueue now j (local_requester l) targets table).0
        ≡ one (l == r && j == k) + settled r k table
  unfolding enqueue
  asked-settled r l k j now targets table = ground (
    arith,
    enqueued-settled r k j (local_requester l) now targets table (lookup j table.inner) refl,
  )

  pub handle-settled :
      (r : L) (k : K) (event : Event K L D) (table : WaiterTable K L D)
      → StaysOpen r event
      → settled r k (handle event table) ≡ asks r k event + settled r k table
  unfolding handle request_chunk_from_peers relay_chunk_request enqueue handle_data handle_miss
      prune_link expire
  handle-settled r k (local_request now peers j toward l) table h =
      let targets = choose_targets toward peers in
      ground (
        arith,
        asked-settled r l k j now targets table,
        answers-append r k table.sent (deliver_miss l j ∷ []),
      )
  handle-settled r k (peer_request now peers from j) table h =
      let others = retain (λ (peer : String). not (peer == from)) peers in
      ground (
        arith,
        enqueued-settled r k j (neighbour from) now others table (lookup j table.inner) refl,
        answers-append r k table.sent (miss_frame from j ∷ []),
      )
  handle-settled r k (chunk_data peers j payload) table h = omega (
    arith,
    data-settled r k j (λ (peer : String). contains peer peers) payload table (lookup j table.inner)
        refl,
  )
  handle-settled r k (chunk_miss peers from j) table h = omega (
    arith,
    miss-settled r k j (λ (peer : String). contains peer peers) from table (lookup j table.inner)
        refl,
  )
  handle-settled r k (link_dropped peers closed gone) table h =
      let pruned = prune_entries closed gone table.inner in
      ground (
        arith,
        waits_at-pruned r k closed gone table.inner h,
        fail_keys-settled r k (λ (peer : String). contains peer peers) (keys_to_remove pruned)
            (record table { inner = pruned }),
      )
  handle-settled r k (woken peers now j) table h = omega (
    arith,
    expired-settled r k j (λ (peer : String). contains peer peers) now table (lookup j table.inner)
        refl,
  )

  abbrev pub asked : L → K → List (Event K L D) → ℕ
  asked r k [] = 0
  asked r k (event ∷ events) = asks r k event + asked r k events

  -- Every request of a receiver for a key, so long as it keeps its reply channel open, is either
  -- still waiting in the table or has been answered: over any run of events from any table the
  -- number of its waiters and answers grows by exactly the number of its requests, so none is lost
  -- and none is answered twice.
  pub run-settled :
      (r : L) (k : K) (events : List (Event K L D)) (table : WaiterTable K L D)
      → All (StaysOpen r) events
      → waiting r k (run events table) + answers r k (run events table).sent
        ≡ asked r k events + (waiting r k table + answers r k table.sent)
  unfolding run
  run-settled r k [] table h = omega arith
  run-settled r k (event ∷ events) table h =
      omega
        (arith, run-settled r k events (handle event table) h.1, handle-settled r k event table h.0)
