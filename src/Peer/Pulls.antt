-- ===== src/Peer/Pulls.antt =====
-- tagsyd/src/peer/pull_scheduler.rs: the gate on concurrent pulls. A pull is its key. tokio's
-- semaphore is its count of free permits, as documented: an acquire waits until one is free and
-- takes it, a permit that drops is free again, and it is never closed here.
pub mod Admission
use tagsy.Prelude.{
  List, PartialEq, [], contains, if◌then◌else◌, length, max, not, retain, ℕ, ◌++◌, ◌+◌, ◌-◌, ◌==◌,
  ◌∷◌, ◌≡◌, string_eq, nat_eq,
}

pub record PullScheduler (K : Type 0) : Type 0 where
  pub permits : ℕ
  pub in_flight : List K
  pub max_concurrent : ℕ

unfoldable pub new : {K : Type 0} → ℕ → PullScheduler K
new max_concurrent = record {
  permits = max max_concurrent 1;
  in_flight = [];
  max_concurrent = max max_concurrent 1;
}

-- The pulls that are queued and running, as the gate reports them; `in_flight` holds no key twice.
unfoldable pub load : {K : Type 0} → PullScheduler K → ℕ × ℕ
load s = let running = s.max_concurrent - s.permits in (length s.in_flight - running, running)

-- The gate and the governor tasks: those that wait for a permit, those whose job runs, those whose
-- job is done and whose key is cleared while they still hold the permit, and those whose job
-- panicked.
pub record World (K : Type 0) : Type 0 where
  pub scheduler : PullScheduler K
  pub queued : List K
  pub running : List K
  pub cleared : List K
  pub panicked : List K

abbrev pub idle : {K : Type 0} → ℕ → World K
unfolding new
idle max_concurrent = record {
  scheduler = new max_concurrent;
  queued = [];
  running = [];
  cleared = [];
  panicked = [];
}

module _ {K : Type 0} ⦃e : PartialEq K⦄ where
  -- A key that is in flight starts no task; any other enters the set and is spawned.
  unfoldable pub submit : K → World K → World K
  submit key w = if contains key w.scheduler.in_flight then w else record w {
    scheduler = record w.scheduler { in_flight = key ∷ w.scheduler.in_flight };
    queued = w.queued ++ key ∷ [];
  }

  -- `in_flight.lock().await.remove(&key)`.
  unfoldable pub clear : K → PullScheduler K → PullScheduler K
  clear key s = record s { in_flight = retain (λ (k : K). not (k == key)) s.in_flight }

  -- A submission, and what a governor task does: it takes a permit, its job ends and its key
  -- leaves the set, its permit drops. A panic in the job unwinds the task, which drops the permit
  -- and nothing else.
  pub data Step (w : World K) : World K → Type 0 where
    submits : (key : K) → Step w (submit key w)
    acquires :
        (before after : List K) (key : K) (free : ℕ)
        → w.queued ≡ before ++ key ∷ after
        → w.scheduler.permits ≡ free + 1
        → Step w (record w {
          scheduler = record w.scheduler { permits = free };
          queued = before ++ after;
          running = key ∷ w.running;
        })
    clears :
        (before after : List K) (key : K)
        → w.running ≡ before ++ key ∷ after
        → Step w (record w {
          scheduler = clear key w.scheduler;
          running = before ++ after;
          cleared = key ∷ w.cleared;
        })
    releases :
        (before after : List K) (key : K)
        → w.cleared ≡ before ++ key ∷ after
        → Step w (record w {
          scheduler = record w.scheduler { permits = w.scheduler.permits + 1 };
          cleared = before ++ after;
        })
    panics :
        (before after : List K) (key : K)
        → w.running ≡ before ++ key ∷ after
        → Step w (record w {
          scheduler = record w.scheduler { permits = w.scheduler.permits + 1 };
          running = before ++ after;
          panicked = key ∷ w.panicked;
        })

  pub data Reach (max_concurrent : ℕ) : World K → Type 0 where
    start : Reach max_concurrent (idle max_concurrent)
    next : {w v : World K} → Reach max_concurrent w → Step w v → Reach max_concurrent v
