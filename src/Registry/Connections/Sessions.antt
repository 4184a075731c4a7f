-- ===== src/Registry/Connections/Sessions.antt =====
-- The registry against the guards that are held, and the event stream against the registry, with
-- calls that overlap.
use text.Mathlib.TextEquality.{eq_iff}
use text.Mathlib.TextPositions.{eq_refl}
use tagsy.Prelude.{
  List, Option, String, arith, false, lookup, lookup-insert, lookup-remove, none, refl, some,
  sum_of-split, true, ℕ, ◌++◌, ◌+◌, ◌-◌, ◌∷◌, ◌≡◌, nat_eq, string_eq,
}
use tagsy.Registry.Connections.{
  ConnectedPeer, ConnectionGuard, Direction, Entry, register_in, register_locked, release_in,
  release_locked, send_connected, send_disconnected,
}
use tagsy.Registry.Connections.Calls.{
  Call, Inv, Reach, Step, World, connecting, disconnecting, ends, finished, holds, next, opening,
  opens, registering, releasing, sends, start,
}

opens-Inv :
    (w : World) (key name : String) (direction : Direction) (now : ℕ) (found : Option Entry)
    → lookup key w.registry.peers ≡ found
    → Inv w
    → Inv (record w {
      registry = (register_in w.registry key name direction now found).0;
      calls = registering key (register_in w.registry key name direction now found).1 ∷ w.calls;
    })
unfolding register_in
opens-Inv w key name direction now none e inv =
    let peer : ConnectedPeer = record {
      peer_name = name;
      public_key = key;
      direction = direction;
      since = now;
    } in
    let entry : Entry = record { peer = peer; sessions = 1 } in
    record {
      counted = λ k.
          ground (arith, lookup-insert key k entry w.registry.peers, eq_iff key k, inv.counted k);
      positive = λ k found h.
          ground
            (arith, lookup-insert key k entry w.registry.peers, inv.positive k found, eq_iff key k);
      balanced = λ k.
          ground (arith, lookup-insert key k entry w.registry.peers, eq_iff key k, inv.balanced k);
    }
opens-Inv w key name direction now (some old) e inv =
    let entry : Entry = record old { sessions = old.sessions + 1 } in
    record {
      counted = λ k.
          ground (arith, lookup-insert key k entry w.registry.peers, eq_iff key k, inv.counted k);
      positive = λ k found h. ground (
        arith,
        lookup-insert key k entry w.registry.peers,
        inv.positive k found,
        inv.positive key old e,
        eq_iff key k,
      );
      balanced = λ k.
          ground (arith, lookup-insert key k entry w.registry.peers, eq_iff key k, inv.balanced k);
    }

ends-Inv :
    (w : World) (before after : List ConnectionGuard) (guard : ConnectionGuard)
    (found : Option Entry)
    → lookup guard.public_key w.registry.peers ≡ found
    → w.guards ≡ before ++ guard ∷ after
    → Inv w
    → Inv (record {
      registry = (release_in w.registry guard.public_key found).0;
      guards = before ++ after;
      calls = releasing guard.public_key (release_in w.registry guard.public_key found).1 ∷ w.calls;
    })
unfolding release_in
ends-Inv w before after guard none e split inv = absurd (
    ground (
      arith,
      inv.counted guard.public_key,
      sum_of-split (holds guard.public_key) w.guards before after guard split,
      eq_refl guard.public_key,
    ))
ends-Inv w before after guard (some old) e split inv =
    let key : String = guard.public_key in
    let entry : Entry = record old { sessions = old.sessions - 1 } in
    let removed : (k : String) → _ =
      λ k. sum_of-split (holds k) w.guards before after guard split in
    record {
      counted = λ k. ground (
        arith,
        lookup-insert key k entry w.registry.peers,
        lookup-remove key k w.registry.peers,
        eq_iff key k,
        eq_refl key,
        removed k,
        (inv.positive key old e).0,
        inv.counted k,
      );
      positive = λ k found h. ground (
        arith,
        lookup-insert key k entry w.registry.peers,
        lookup-remove key k w.registry.peers,
        inv.positive k found,
        (inv.positive key old e).1,
        eq_iff key k,
      );
      balanced = λ k. ground (
        arith,
        lookup-insert key k entry w.registry.peers,
        lookup-remove key k w.registry.peers,
        eq_iff key k,
        inv.balanced k,
      );
    }

sends-Inv :
    (w : World) (before after : List Call) (call : Call)
    → w.calls ≡ before ++ call ∷ after
    → Inv w
    → Inv (finished call (record w { calls = before ++ after }))
unfolding send_connected send_disconnected
sends-Inv w before after (registering key none) split inv = record {
  counted = λ k. omega (
    arith,
    inv.counted k,
    sum_of-split (opening k) w.calls before after (registering key none) split,
  );
  positive = inv.positive;
  balanced = λ k. omega (
    arith,
    inv.balanced k,
    sum_of-split (connecting k) w.calls before after (registering key none) split,
    sum_of-split (disconnecting k) w.calls before after (registering key none) split,
  );
}
sends-Inv w before after (registering key (some peer)) split inv = record {
  counted = λ k. omega (
    arith,
    inv.counted k,
    sum_of-split (opening k) w.calls before after (registering key (some peer)) split,
  );
  positive = inv.positive;
  balanced = λ k. omega (
    arith,
    inv.balanced k,
    sum_of-split (connecting k) w.calls before after (registering key (some peer)) split,
    sum_of-split (disconnecting k) w.calls before after (registering key (some peer)) split,
  );
}
sends-Inv w before after (releasing key true) split inv = record {
  counted = λ k. omega (
    arith,
    inv.counted k,
    sum_of-split (opening k) w.calls before after (releasing key true) split,
  );
  positive = inv.positive;
  balanced = λ k. omega (
    arith,
    inv.balanced k,
    sum_of-split (connecting k) w.calls before after (releasing key true) split,
    sum_of-split (disconnecting k) w.calls before after (releasing key true) split,
  );
}
sends-Inv w before after (releasing key false) split inv = record {
  counted = λ k. omega (
    arith,
    inv.counted k,
    sum_of-split (opening k) w.calls before after (releasing key false) split,
  );
  positive = inv.positive;
  balanced = λ k. omega (
    arith,
    inv.balanced k,
    sum_of-split (connecting k) w.calls before after (releasing key false) split,
    sum_of-split (disconnecting k) w.calls before after (releasing key false) split,
  );
}

Step-Inv : {w v : World} → Step w v → Inv w → Inv v
unfolding register_locked release_locked
Step-Inv {w} (opens key name direction now) inv =
    opens-Inv w key name direction now (lookup key w.registry.peers) refl inv
Step-Inv {w} (ends before after guard split) inv =
    ends-Inv w before after guard (lookup guard.public_key w.registry.peers) refl split inv
Step-Inv {w} (sends before after call split) inv = sends-Inv w before after call split inv

-- However sessions open and end, and whatever comes between the two parts of a call, the registry
-- holds a peer, under its own key, exactly while a guard for that key is held or a `register` of it
-- is about to return one, with the number of these as its count, which is positive. The `Connected`
-- of a key that are sent or about to be sent are as many as its `Disconnected`, and one more exactly
-- while the registry holds it.
pub Reach-Inv : {w : World} → Reach w → Inv w
unfolding lookup
Reach-Inv start = record { counted = λ k. refl; positive = λ k entry h. cc; balanced = λ k. refl }
Reach-Inv (next r s) = Step-Inv s (Reach-Inv r)
