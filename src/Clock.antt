-- ===== src/Clock.antt =====
-- tagsy-core/src/clock.rs: `now_millis`, the stamp of every local change, called by several threads
-- at once. `wall` is what the wall clock reads; a stamp is a number of milliseconds.
pub mod Stamps
use tagsy.Prelude.{List, [], last, max, ℕ, ◌++◌, ◌+◌, ◌∷◌, ◌≡◌, nat_eq, string_eq}

-- What the loop stores and returns, from the last stamp that its thread has seen.
unfoldable pub next_stamp : ℕ → ℕ → ℕ
next_stamp wall last = max wall (last + 1)

-- A thread inside the loop.
pub record Call : Type 0 where
  pub wall : ℕ
  pub seen : ℕ

-- `LAST_STAMP`, the calls in the loop, and the stamps handed out, newest first.
pub record Clock : Type 0 where
  pub last_stamp : ℕ
  pub calls : List Call
  pub issued : List ℕ

abbrev pub new : Clock
new = record { last_stamp = 0; calls = []; issued = [] }

-- A call reads the clocks (what it sees of the last stamp may be stale), its exchange succeeds when
-- what it saw is the last stamp, and otherwise, or for no reason, it sees the last stamp anew.
pub data Step (c : Clock) : Clock → Type 0 where
  calls_in :
      (wall seen : ℕ) → Step c (record c { calls = record { wall = wall; seen = seen } ∷ c.calls })
  exchanges :
      (before after : List Call) (call : Call)
      → c.calls ≡ before ++ call ∷ after
      → call.seen ≡ c.last_stamp
      → Step c (record {
        last_stamp = next_stamp call.wall call.seen;
        calls = before ++ after;
        issued = next_stamp call.wall call.seen ∷ c.issued;
      })
  retries :
      (before after : List Call) (call : Call)
      → c.calls ≡ before ++ call ∷ after
      → Step c (record c { calls = before ++ record call { seen = c.last_stamp } ∷ after })

pub data Reach : Clock → Type 0 where
  start : Reach new
  next : {c d : Clock} → Reach c → Step c d → Reach d
