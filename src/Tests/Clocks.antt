-- ===== src/Tests/Clocks.antt =====
-- The pull gate and the clock at concrete inputs.
use tagsy.Prelude.{[], length, refl, ℕ, ◌++◌, ◌+◌, ◌∷◌, ◌≡◌, nat_eq, string_eq}
use tagsy.Clock
use tagsy.Clock.Stamps
use tagsy.Peer.Pulls
use tagsy.Peer.Pulls.Admission

abbrev seven_panicked : Pulls.World ℕ
seven_panicked = record {
  scheduler = record { permits = 1; in_flight = 7 ∷ []; max_concurrent = 1 };
  queued = [] ++ [];
  running = [] ++ [];
  cleared = [];
  panicked = 7 ∷ [];
}

Reach-Admitted_example :
    Admission.Admitted 1 seven_panicked
    × ((Pulls.load seven_panicked.scheduler).1
        ≡ length seven_panicked.running + length seven_panicked.cleared)
unfolding Pulls.submit Pulls.new
Reach-Admitted_example = Admission.Reach-Admitted 1 {w = seven_panicked} (
    Pulls.next
      (Pulls.next (Pulls.next Pulls.start (Pulls.submits 7)) (Pulls.acquires [] [] 7 0 refl refl))
      (Pulls.panics [] [] 7 refl))

-- The key of a job that panicked stays: the same pull is never started again.
submitted_again : Pulls.submit 7 seven_panicked ≡ seven_panicked
unfolding Pulls.submit
submitted_again = refl

abbrev stamped : Clock.Clock
stamped = record { last_stamp = 50; calls = [] ++ []; issued = 50 ∷ [] }

Reach-Descending_example : Stamps.Descending 51 (50 ∷ [])
unfolding Clock.next_stamp
Reach-Descending_example = Stamps.Reach-Descending {c = stamped} (
    Clock.next (Clock.next Clock.start (Clock.calls_in 50 0))
      (Clock.exchanges [] [] (record { wall = 50; seen = 0 }) refl refl))
