-- ===== src/Peer/Pulls/Admission.antt =====
-- How many pulls run, and how often a key is in flight.
use tagsy.Prelude.{
  Bool-cases, List, PartialEq, [], ap, arith, contains, false, if◌then◌else◌, inl, inr, length,
  length-append, max, not, one, refl, retain, sum_of, sum_of-split, ℕ, ◌++◌, ◌+◌, ◌==◌, ◌∷◌, ◌≡◌,
  ◌≤◌, string_eq, nat_eq,
}
use tagsy.Peer.Pulls.{
  Reach, Step, World, acquires, clear, clears, load, new, next, panics, releases, start, submit,
  submits,
}

module _ {K : Type 0} ⦃e : PartialEq K⦄ where
  abbrev pub is_key : K → K → ℕ
  is_key k x = one (x == k)

  sum_of-push : (f : K → ℕ) (xs : List K) (x : K) → sum_of f (xs ++ x ∷ []) ≡ sum_of f xs + f x
  sum_of-push f [] x = omega arith
  sum_of-push f (y ∷ ys) x = omega (arith, sum_of-push f ys x)

  length-split :
      (xs before after : List K) (x : K)
      → xs ≡ before ++ x ∷ after
      → length xs ≡ 1 + length (before ++ after)
  length-split xs before after x split =
      let whole : length xs ≡ length (before ++ x ∷ after) = ap length split in
      omega (arith, whole, length-append before (x ∷ after), length-append before after)

  contains-is_key : (k : K) (xs : List K) → contains k xs ≡ false → sum_of (is_key k) xs ≡ 0
  contains-is_key k [] h = refl
  contains-is_key k (x ∷ xs) h = ground (arith, contains-is_key k xs)

  sum_of-cleared :
      (j k : K) (xs : List K)
      → sum_of (is_key k) (retain (λ (x : K). not (x == j)) xs)
        ≡ (if j == k then 0 else sum_of (is_key k) xs)
  sum_of-cleared j k [] = ground arith
  sum_of-cleared j k (x ∷ xs) =
      ground (arith, sum_of-cleared j k xs, e.same_iff x j, e.same_iff x k, e.same_iff j k)

  -- The permits against the tasks that hold one, and the keys in flight against the tasks that did
  -- not clear theirs.
  pub record Admitted (max_concurrent : ℕ) (w : World K) : Type 0 where
    pub limit : w.scheduler.max_concurrent ≡ max max_concurrent 1
    pub permits :
        w.scheduler.permits + length w.running + length w.cleared ≡ w.scheduler.max_concurrent
    pub tracked :
        (k : K)
        → sum_of (is_key k) w.scheduler.in_flight
          ≡ sum_of (is_key k) w.queued + sum_of (is_key k) w.running + sum_of (is_key k) w.panicked
    pub single : (k : K) → sum_of (is_key k) w.scheduler.in_flight ≤ 1

  submit-Admitted : (n : ℕ) (key : K) (w : World K) → Admitted n w → Admitted n (submit key w)
  unfolding submit
  submit-Admitted n key w a = elim (Bool-cases (contains key w.scheduler.in_flight)) [
    | inl known ↦ rw known a
    | inr unknown ↦ rw unknown (record {
      limit = a.limit;
      permits = a.permits;
      tracked = λ k. omega (arith, a.tracked k, sum_of-push (is_key k) w.queued key);
      single = λ k.
          ground (
            arith,
            a.single k,
            e.same_iff key k,
            contains-is_key key w.scheduler.in_flight unknown,
          );
    })
  ]

  Step-Admitted : (n : ℕ) {w v : World K} → Step w v → Admitted n w → Admitted n v
  unfolding clear
  Step-Admitted n {w} (submits key) a = submit-Admitted n key w a
  Step-Admitted n {w} (acquires before after key free split enough) a = record {
    limit = a.limit;
    permits = omega (arith, a.permits, enough);
    tracked =
        λ k. omega (arith, a.tracked k, sum_of-split (is_key k) w.queued before after key split);
    single = a.single;
  }
  Step-Admitted n {w} (clears before after key split) a = record {
    limit = a.limit;
    permits = omega (arith, a.permits, length-split w.running before after key split);
    tracked = λ k. ground (
      arith,
      a.tracked k,
      a.single k,
      sum_of-split (is_key k) w.running before after key split,
      sum_of-cleared key k w.scheduler.in_flight,
    );
    single = λ k. ground (arith, a.single k, sum_of-cleared key k w.scheduler.in_flight);
  }
  Step-Admitted n {w} (releases before after key split) a = record {
    limit = a.limit;
    permits = omega (arith, a.permits, length-split w.cleared before after key split);
    tracked = a.tracked;
    single = a.single;
  }
  Step-Admitted n {w} (panics before after key split) a = record {
    limit = a.limit;
    permits = omega (arith, a.permits, length-split w.running before after key split);
    tracked =
        λ k. omega (arith, a.tracked k, sum_of-split (is_key k) w.running before after key split);
    single = a.single;
  }

  reached : (n : ℕ) {w : World K} → Reach n w → Admitted n w
  unfolding new
  reached n start = record {
    limit = refl;
    permits = omega arith;
    tracked = λ k. refl;
    single = λ k. omega arith;
  }
  reached n (next r step) = Step-Admitted n step (reached n r)

  -- Whatever is submitted and in whatever order tasks go on, end or panic: the free permits and the
  -- tasks that hold one add up to the limit, which counts as one when it is zero, so no permit is
  -- lost and no more pulls run than the limit; a key is in flight once for the one pull of it that
  -- is queued or running, or for one that panicked, whose key stays; and the running pulls that
  -- `load` reports are the tasks that hold a permit.
  pub Reach-Admitted :
      (n : ℕ) {w : World K}
      → Reach n w
      → Admitted n w × ((load w.scheduler).1 ≡ length w.running + length w.cleared)
  unfolding load
  Reach-Admitted n r = let a = reached n r in (a, omega (arith, a.permits))
