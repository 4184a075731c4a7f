-- ===== src/Peer/Relay/Counts.antt =====
-- How often a reply channel waits in a waiter table, and how often it has been answered.
use tagsy.Prelude.{
  Bool, Dict, PartialEq, List, Option, String, [], ap, arith, false, if◌then◌else◌, lookup, map,
  none, one, refl, retain, some, ℕ, ◌&&◌, ◌++◌, ◌+◌, ◌==◌, ◌∷◌, ◌≡◌, nat_eq, string_eq,
}
use tagsy.Peer.Relay.{
  Sent, Waiter, WaiterEntry, WaiterTable, data_frame, deliver_data, deliver_miss, fan_data,
  fan_miss, keeps_waiter, local_requester, miss_frame, neighbour, prune_entries, prune_entry,
  request_frame,
}

module _ {L : Type 0} ⦃f : PartialEq L⦄ where
  -- How often a reply channel waits in a list, an entry and a table.
  abbrev pub waits_in : L → List (Waiter L) → ℕ
  waits_in r [] = 0
  waits_in r (neighbour peer ∷ ws) = waits_in r ws
  waits_in r (local_requester reply ∷ ws) = one (reply == r) + waits_in r ws

  abbrev pub waits_at : L → Option (WaiterEntry L) → ℕ
  waits_at r none = 0
  waits_at r (some entry) = waits_in r entry.downstream

  pub waits_in-append :
      (r : L) (xs ys : List (Waiter L)) → waits_in r (xs ++ ys) ≡ waits_in r xs + waits_in r ys
  waits_in-append r [] ys = omega arith
  waits_in-append r (neighbour p ∷ xs) ys = waits_in-append r xs ys
  waits_in-append r (local_requester l ∷ xs) ys = omega (arith, waits_in-append r xs ys)

  pub waits_in-retain :
      (r : L) (closed : L → Bool) (peer : String) (ws : List (Waiter L))
      → closed r ≡ false
      → waits_in r (retain (keeps_waiter closed peer) ws) ≡ waits_in r ws
  unfolding keeps_waiter
  waits_in-retain r closed peer [] h = refl
  waits_in-retain r closed peer (neighbour p ∷ ws) h =
      ground (arith, waits_in-retain r closed peer ws h)
  waits_in-retain r closed peer (local_requester l ∷ ws) h =
      ground (arith, f.same_iff l r, ap closed {x = l} {y = r}, waits_in-retain r closed peer ws h)

module _ {K L D : Type 0} ⦃e : PartialEq K⦄ ⦃f : PartialEq L⦄ where
  abbrev pub waiting : L → K → WaiterTable K L D → ℕ
  waiting r k table = waits_at r (lookup k table.inner)

  -- The answers, data or miss, that a local receiver got for a key.
  abbrev pub answers : L → K → List (Sent K L D) → ℕ
  answers r k [] = 0
  answers r k (request_frame p j ∷ out) = answers r k out
  answers r k (data_frame p j d ∷ out) = answers r k out
  answers r k (miss_frame p j ∷ out) = answers r k out
  answers r k (deliver_data l j d ∷ out) = one (l == r && j == k) + answers r k out
  answers r k (deliver_miss l j ∷ out) = one (l == r && j == k) + answers r k out

  -- Waiting and answered together: what the requests of a receiver for a key have come to.
  abbrev pub settled : L → K → WaiterTable K L D → ℕ
  settled r k table = waiting r k table + answers r k table.sent

  pub answers-append :
      (r : L) (k : K) (xs ys : List (Sent K L D))
      → answers r k (xs ++ ys) ≡ answers r k xs + answers r k ys
  answers-append r k [] ys = omega arith
  answers-append r k (request_frame p j ∷ xs) ys = answers-append r k xs ys
  answers-append r k (data_frame p j d ∷ xs) ys = answers-append r k xs ys
  answers-append r k (miss_frame p j ∷ xs) ys = answers-append r k xs ys
  answers-append r k (deliver_data l j d ∷ xs) ys = omega (arith, answers-append r k xs ys)
  answers-append r k (deliver_miss l j ∷ xs) ys = omega (arith, answers-append r k xs ys)

  pub answers-fan_data :
      (r : L) (k j : K) (connected : String → Bool) (payload : D) (ws : List (Waiter L))
      → answers r k (fan_data connected j payload ws) ≡ (if j == k then waits_in r ws else 0)
  unfolding fan_data
  answers-fan_data r k j connected payload [] = ground arith
  answers-fan_data r k j connected payload (neighbour p ∷ ws) =
      ground (arith, answers-fan_data r k j connected payload ws)
  answers-fan_data r k j connected payload (local_requester l ∷ ws) =
      ground (arith, answers-fan_data r k j connected payload ws)

module _ {K L : Type 0} (D : Type 0) ⦃e : PartialEq K⦄ ⦃f : PartialEq L⦄ where
  pub answers-requests :
      (r : L) (k j : K) (peers : List String)
      → answers r k (map {B = Sent K L D} (λ (peer : String). request_frame peer j) peers) ≡ 0
  answers-requests r k j [] = refl
  answers-requests r k j (p ∷ peers) = answers-requests r k j peers

  pub answers-fan_miss :
      (r : L) (k j : K) (connected : String → Bool) (ws : List (Waiter L))
      → answers r k (fan_miss {D = D} connected j ws) ≡ (if j == k then waits_in r ws else 0)
  unfolding fan_miss
  answers-fan_miss r k j connected [] = ground arith
  answers-fan_miss r k j connected (neighbour p ∷ ws) =
      ground (arith, answers-fan_miss r k j connected ws)
  answers-fan_miss r k j connected (local_requester l ∷ ws) =
      ground (arith, answers-fan_miss r k j connected ws)

module _ {K L : Type 0} ⦃e : PartialEq K⦄ ⦃f : PartialEq L⦄ where
  pub waits_at-pruned :
      (r : L) (k : K) (closed : L → Bool) (peer : String) (d : Dict K (WaiterEntry L))
      → closed r ≡ false
      → waits_at r (lookup k (prune_entries closed peer d)) ≡ waits_at r (lookup k d)
  unfolding prune_entries prune_entry lookup
  waits_at-pruned r k closed peer [] h = refl
  waits_at-pruned r k closed peer ((j, entry) ∷ d) h =
      ground (
        arith,
        waits_in-retain r closed peer entry.downstream h,
        waits_at-pruned r k closed peer d h,
      )
