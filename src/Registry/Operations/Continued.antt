-- ===== src/Registry/Operations/Continued.antt =====
-- The later parts of a call: the insertion of `begin`, and what each call sends.
use tagsy.Prelude.{
  List, Option, arith, false, lookup-insert, none, refl, some, sum_of, sum_of-split, ℕ, ◌++◌, ◌+◌,
  ◌∷◌, ◌≡◌, string_eq, nat_eq,
}
use tagsy.Registry.Operations.{Operation, begin_locked, is_terminal, send_started, send_updated}
use tagsy.Registry.Operations.Work.{
  Call, Tracked, World, closing, continued, numbered, numbered_ended, numbering, opening, starting,
  starts, updating,
}

pub numbered-Tracked :
    (w : World) (before after : List Call) (operation : Operation)
    → w.calls ≡ before ++ numbered operation ∷ after
    → Tracked w
    → Tracked (continued (numbered operation) (record w { calls = before ++ after }))
unfolding begin_locked
numbered-Tracked w before after operation split inv =
    let id : ℕ = operation.id in
    let call : Call = numbered operation in
    let parts : (f : Call → ℕ) → _ = λ f. sum_of-split f w.calls before after call split in
    let unended : is_terminal operation.status ≡ false =
      ground (arith, inv.unended, parts numbered_ended) in
    let unused : sum_of (opening id) w.calls + sum_of (starts id) w.registry.events ≡ 0 =
      ground (arith, inv.once id, parts (numbering id)) in
    record {
      held = λ k. ground (
        arith,
        lookup-insert id k operation w.registry.operations,
        inv.held k,
        inv.balanced k,
        parts (opening k),
        unused,
      );
      running = λ k found h.
          ground (
            arith,
            lookup-insert id k operation w.registry.operations,
            inv.running k found,
            unended,
          );
      once = λ k. omega (arith, inv.once k, parts (numbering k), parts (opening k));
      balanced = λ k. ground (
        arith,
        lookup-insert id k operation w.registry.operations,
        inv.balanced k,
        parts (opening k),
        parts (closing k),
        unused,
      );
      fresh = inv.fresh;
      unended = omega (arith, inv.unended, parts numbered_ended);
    }

pub starting-Tracked :
    (w : World) (before after : List Call) (operation : Operation)
    → w.calls ≡ before ++ starting operation ∷ after
    → Tracked w
    → Tracked (continued (starting operation) (record w { calls = before ++ after }))
unfolding send_started
starting-Tracked w before after operation split inv =
    let parts : (f : Call → ℕ) → _ =
      λ f. sum_of-split f w.calls before after (starting operation) split in
    record {
      held = λ k. ground (arith, inv.held k, parts (opening k));
      running = inv.running;
      once = λ k. omega (arith, inv.once k, parts (numbering k), parts (opening k));
      balanced = λ k. omega (arith, inv.balanced k, parts (opening k), parts (closing k));
      fresh = (refl, inv.fresh);
      unended = omega (arith, inv.unended, parts numbered_ended);
    }

pub updating-Tracked :
    (w : World) (before after : List Call) (found : Option Operation)
    → w.calls ≡ before ++ updating found ∷ after
    → Tracked w
    → Tracked (continued (updating found) (record w { calls = before ++ after }))
unfolding send_updated
updating-Tracked w before after none split inv =
    let parts : (f : Call → ℕ) → _ =
      λ f. sum_of-split f w.calls before after (updating none) split in
    record {
      held = λ k. omega (arith, inv.held k, parts (opening k));
      running = inv.running;
      once = λ k. omega (arith, inv.once k, parts (numbering k), parts (opening k));
      balanced = λ k. omega (arith, inv.balanced k, parts (opening k), parts (closing k));
      fresh = inv.fresh;
      unended = omega (arith, inv.unended, parts numbered_ended);
    }
updating-Tracked w before after (some operation) split inv =
    let parts : (f : Call → ℕ) → _ =
      λ f. sum_of-split f w.calls before after (updating (some operation)) split in
    record {
      held = λ k. omega (arith, inv.held k, parts (opening k));
      running = inv.running;
      once = λ k. omega (arith, inv.once k, parts (numbering k), parts (opening k));
      balanced = λ k. omega (arith, inv.balanced k, parts (opening k), parts (closing k));
      fresh = inv.fresh;
      unended = omega (arith, inv.unended, parts numbered_ended);
    }
