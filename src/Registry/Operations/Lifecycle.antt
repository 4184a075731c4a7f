-- ===== src/Registry/Operations/Lifecycle.antt =====
-- Every part of a call keeps the registry, the handles and the event stream in step.
use Prim.Native.Nat.{◌%◌, ◌^◌}
use tagsy.Prelude.{
  List, Option, arith, lookup, lookup-insert, lookup-remove, none, refl, some, subst, sum_of-split,
  true, ℕ, ◌++◌, ◌+◌, ◌<◌, ◌∷◌, ◌≡◌, nat_eq, string_eq,
}
use tagsy.Registry.Operations.{
  Operation, OperationHandle, OperationKind, OperationStatus, Progress, aborted, active, completed,
  failed, finish_in, finish_locked, is_terminal, progress_in, progress_locked, take_id,
}
use tagsy.Registry.Operations.Continued.{numbered-Tracked, starting-Tracked, updating-Tracked}
use tagsy.Registry.Operations.Work.{
  Reach, Step, Tracked, Unfinished, Unfinished-split, World, begins, completes, continues, drops,
  ends, fails, holds, next, numbered, reports, start, starting, updating,
}

begins-Tracked :
    (w : World) (kind : OperationKind) (now : ℕ)
    → w.registry.next_id + 1 < 2 ^ 64
    → Tracked w
    → Tracked (record w {
      registry = (take_id w.registry kind now).0;
      calls = numbered (take_id w.registry kind now).1 ∷ w.calls;
    })
unfolding take_id
begins-Tracked w kind now room inv =
    let bounded : (w.registry.next_id + 1) % 2 ^ 64 ≡ w.registry.next_id + 1 =
      omega (arith, room) in
    record {
      held = λ k. omega (arith, inv.held k);
      running = inv.running;
      once = λ k. ground (arith, inv.once k, bounded);
      balanced = λ k. omega (arith, inv.balanced k);
      fresh = inv.fresh;
      unended = omega (arith, inv.unended);
    }

reports-Tracked :
    (w : World) (id : ℕ) (made : Progress) (now : ℕ) (found : Option Operation)
    → lookup id w.registry.operations ≡ found
    → Tracked w
    → Tracked (record w {
      registry = (progress_in w.registry id made now found).0;
      calls = updating (progress_in w.registry id made now found).1 ∷ w.calls;
    })
unfolding progress_in
reports-Tracked w id made now none e inv = record {
  held = λ k. omega (arith, inv.held k);
  running = inv.running;
  once = λ k. omega (arith, inv.once k);
  balanced = λ k. omega (arith, inv.balanced k);
  fresh = inv.fresh;
  unended = omega (arith, inv.unended);
}
reports-Tracked w id made now (some old) e inv =
    let operation : Operation = record old { status = active (some made); updated_at = now } in
    record {
      held = λ k. ground (arith, lookup-insert id k operation w.registry.operations, inv.held k);
      running = λ k found h. ground (
        arith,
        lookup-insert id k operation w.registry.operations,
        inv.running k found,
        inv.running id old,
      );
      once = λ k. omega (arith, inv.once k);
      balanced =
          λ k. ground (arith, lookup-insert id k operation w.registry.operations, inv.balanced k);
      fresh = inv.fresh;
      unended = omega (arith, inv.unended);
    }

ends-Tracked :
    (w : World) (before after : List OperationHandle) (handle : OperationHandle)
    (status : OperationStatus) (now : ℕ) (found : Option Operation)
    → is_terminal status ≡ true
    → lookup handle.id w.registry.operations ≡ found
    → w.handles ≡ before ++ handle ∷ after
    → Tracked w
    → Tracked (record {
      registry = (finish_in w.registry handle.id status now found).0;
      handles = before ++ after;
      calls = updating (finish_in w.registry handle.id status now found).1 ∷ w.calls;
    })
unfolding finish_in
ends-Tracked w before after handle status now none t e split inv =
    let fresh = Unfinished-split before after handle (subst Unfinished split inv.fresh) in
    absurd (
      ground (
        arith,
        inv.held handle.id,
        sum_of-split (holds handle.id) w.handles before after handle split,
        fresh.0,
      ))
ends-Tracked w before after handle status now (some old) t e split inv =
    let id : ℕ = handle.id in
    let fresh = Unfinished-split before after handle (subst Unfinished split inv.fresh) in
    record {
      held = λ k. ground (
        arith,
        lookup-remove id k w.registry.operations,
        inv.held k,
        inv.held id,
        sum_of-split (holds k) w.handles before after handle split,
        fresh.0,
      );
      running = λ k found h.
          ground (arith, lookup-remove id k w.registry.operations, inv.running k found);
      once = λ k. omega (arith, inv.once k);
      balanced = λ k. ground (
        arith,
        lookup-remove id k w.registry.operations,
        inv.balanced k,
        (inv.running id old e).0,
      );
      fresh = fresh.1;
      unended = omega (arith, inv.unended);
    }

Step-Tracked : {w v : World} → Step w v → Tracked w → Tracked v
unfolding progress_locked finish_locked
Step-Tracked {w} (begins kind now room) inv = begins-Tracked w kind now room inv
Step-Tracked {w} (reports id made now) inv =
    reports-Tracked w id made now (lookup id w.registry.operations) refl inv
Step-Tracked {w} (ends before after handle completes now split) inv =
    ends-Tracked w before after handle completed now (lookup handle.id w.registry.operations) refl
      refl split inv
Step-Tracked {w} (ends before after handle (fails reason) now split) inv =
    ends-Tracked w before after handle (failed reason) now (lookup handle.id w.registry.operations)
      refl refl split inv
Step-Tracked {w} (ends before after handle drops now split) inv =
    let fresh = Unfinished-split before after handle (subst Unfinished split inv.fresh) in
    rw fresh.0 (
      ends-Tracked w before after handle aborted now (lookup handle.id w.registry.operations) refl
        refl split inv)
Step-Tracked {w} (continues before after (numbered operation) split) inv =
    numbered-Tracked w before after operation split inv
Step-Tracked {w} (continues before after (starting operation) split) inv =
    starting-Tracked w before after operation split inv
Step-Tracked {w} (continues before after (updating found) split) inv =
    updating-Tracked w before after found split inv

-- However operations begin, report and end, and whatever comes between the parts of their calls
-- (while ids stay below 2 ^ 64): the active set holds an id exactly while one unfinished handle for
-- it is held or a `begin` is about to return one, and an active operation carries its own id and no
-- terminal status. Each id below the counter is with a `begin` that has not sent yet or has one
-- `Started` in the stream, and no other id has any. The terminal updates of an id, sent or about to
-- be sent, are as many as its starts, sent or about to be sent, less one exactly while it is active:
-- so one at most.
pub Reach-Tracked : {w : World} → Reach w → Tracked w
unfolding lookup
Reach-Tracked start = record {
  held = λ k. refl;
  running = λ k operation h. ground arith;
  once = λ k. ground arith;
  balanced = λ k. refl;
  fresh = tt;
  unended = refl;
}
Reach-Tracked (next r s) = Step-Tracked s (Reach-Tracked r)
