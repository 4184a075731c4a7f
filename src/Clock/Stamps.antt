-- ===== src/Clock/Stamps.antt =====
-- The order of the stamps.
use tagsy.Prelude.{List, [], arith, max, ℕ, ◌+◌, ◌<◌, ◌∷◌, ◌≤◌, string_eq, nat_eq}
use tagsy.Clock.{Clock, Reach, Step, calls_in, exchanges, next, next_stamp, retries, start}

-- Newest first, each below those before it and none above the last stamp.
abbrev pub Descending : ℕ → List ℕ → Type 0
Descending bound [] = Unit
Descending bound (stamp ∷ stamps) = (stamp < bound) × Descending stamp stamps

Descending-mono : (a b : ℕ) (stamps : List ℕ) → a ≤ b → Descending a stamps → Descending b stamps
Descending-mono a b [] h d = tt
Descending-mono a b (stamp ∷ stamps) h d = (omega (arith, d.0), d.1)

Step-Descending :
    {c d : Clock}
    → Step c d
    → Descending (c.last_stamp + 1) c.issued
    → Descending (d.last_stamp + 1) d.issued
unfolding next_stamp
Step-Descending (calls_in wall seen) h = h
Step-Descending {c} (exchanges before after call split current) h = (
  omega arith,
  Descending-mono (c.last_stamp + 1) (max call.wall (call.seen + 1)) c.issued
      (omega (arith, current)) h,
)
Step-Descending (retries before after call split) h = h

-- However the calls of several threads interleave, whatever the wall clock reads, each stamp that is
-- handed out is greater than all those handed out before it.
pub Reach-Descending : {c : Clock} → Reach c → Descending (c.last_stamp + 1) c.issued
Reach-Descending start = tt
Reach-Descending (next r s) = Step-Descending s (Reach-Descending r)
