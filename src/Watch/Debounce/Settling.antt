-- ===== src/Watch/Debounce/Settling.antt =====
-- tagsyd/src/sync_directories/watch/debounce.rs: the window of an event and the events that settle.
-- The standard library's `Path::starts_with` and the length of a path are parameters.
use tagsy.Prelude.{
  All, Bool, Bool-cases, List, Option, String, [], any, ap, arith, false, if◌then◌else◌, inl, inr,
  leb, ltb, map, none, not, refl, retain, some, subst, sym, true, ℕ, ◌&&◌, ◌++◌, ◌-◌, ◌∷◌, ◌≡◌, ◌≤◌,
  ◌⊎◌, string_eq, nat_eq,
}
use tagsy.Watch.Debounce.{
  DebouncedEventKind, DebouncingEvent, create, dir_create, dir_removal, modify, move, removal,
}

pub record WindowRegistration : Type 0 where
  pub root : String
  pub window : ℕ

abbrev pub default_debounce_window : ℕ
default_debounce_window = 500

or_else : Option String → Option String → Option String
or_else none other = other
or_else (some path) other = some path

unfoldable pub primary_path : DebouncedEventKind → Option String
unfolding or_else
primary_path (create file_name) = some file_name
primary_path (modify file_name) = some file_name
primary_path (removal file_name) = some file_name
primary_path (dir_create path) = some path
primary_path (dir_removal path) = some path
primary_path (move from to) = or_else to from

module _ (starts_with : String → String → Bool) (len : String → ℕ) where
  -- `max_by_key`, which takes the last of the greatest.
  deepest : WindowRegistration → List WindowRegistration → WindowRegistration
  deepest best [] = best
  deepest best (registration ∷ registrations) =
      deepest (if leb (len best.root) (len registration.root) then registration else best)
        registrations

  window_of : List WindowRegistration → ℕ
  unfolding deepest
  window_of [] = default_debounce_window
  window_of (registration ∷ registrations) = (deepest registration registrations).window

  window_at : List WindowRegistration → Option String → ℕ
  unfolding window_of
  window_at windows none = default_debounce_window
  window_at windows (some path) =
      window_of
        (retain (λ (registration : WindowRegistration). starts_with path registration.root) windows)

  unfoldable pub window_for_in : List WindowRegistration → DebouncedEventKind → ℕ
  unfolding window_at primary_path
  window_for_in windows kind = window_at windows (primary_path kind)

  has_settled : ℕ → List WindowRegistration → DebouncingEvent → Bool
  unfolding window_for_in
  has_settled now windows event = ltb (window_for_in windows event.kind) (now - event.timestamp)

  -- The settled events, in order, and the queue that is left.
  unfoldable pub extract_finalized :
      ℕ
      → List WindowRegistration
      → List DebouncingEvent
      → List DebouncedEventKind × List DebouncingEvent
  unfolding has_settled
  extract_finalized now windows [] = ([], [])
  extract_finalized now windows (event ∷ queued) =
      let rest = extract_finalized now windows queued in
      if has_settled now windows event
      then (event.kind ∷ rest.0, rest.1)
      else (rest.0, event ∷ rest.1)

  -- The registrations of the roots that a path lies under.
  abbrev pub covers : String → WindowRegistration → Bool
  covers path registration = starts_with path registration.root

  -- A registration whose root the path lies under, none such longer, and none such after it as long.
  pub record IsDeepest (path : String) (windows : List WindowRegistration) (window : ℕ)
      : Type 0 where
    pub before : List WindowRegistration
    pub chosen : WindowRegistration
    pub after : List WindowRegistration
    pub registered : windows ≡ before ++ chosen ∷ after
    pub covering : covers path chosen ≡ true
    pub none_longer :
        All
          (λ (r : WindowRegistration).
            (covers path r && ltb (len chosen.root) (len r.root)) ≡ false)
          before
    pub all_shorter :
        All
          (λ (r : WindowRegistration).
            (covers path r && leb (len chosen.root) (len r.root)) ≡ false)
          after
    pub its_window : window ≡ chosen.window

  abbrev AllShorter : String → ℕ → List WindowRegistration → Type 0
  AllShorter path n =
      All (λ (r : WindowRegistration). (covers path r && leb n (len r.root)) ≡ false)

  -- The greatest of a list and one before it: that one, or a deeper one of the list.
  abbrev FoundIn : String → WindowRegistration → List WindowRegistration → ℕ → Type 0
  FoundIn path best xs window =
      (AllShorter path (len best.root) xs × (window ≡ best.window))
      ⊎ ((d : IsDeepest path xs window) × (len best.root ≤ len d.chosen.root))

  later-IsDeepest :
      (path : String) (x : WindowRegistration) (xs : List WindowRegistration) (window : ℕ)
      (d : IsDeepest path xs window)
      → (covers path x && ltb (len d.chosen.root) (len x.root)) ≡ false
      → (e : IsDeepest path (x ∷ xs) window) × (e.chosen ≡ d.chosen)
  later-IsDeepest path x xs window d h = (
    record {
      before = x ∷ d.before;
      chosen = d.chosen;
      after = d.after;
      registered = ap (λ (ys : List WindowRegistration). x ∷ ys) d.registered;
      covering = d.covering;
      none_longer = (h, d.none_longer);
      all_shorter = d.all_shorter;
      its_window = d.its_window;
    },
    refl,
  )

  first-IsDeepest :
      (path : String) (x : WindowRegistration) (xs : List WindowRegistration) (window : ℕ)
      → covers path x ≡ true
      → AllShorter path (len x.root) xs
      → window ≡ x.window
      → (d : IsDeepest path (x ∷ xs) window) × (d.chosen ≡ x)
  first-IsDeepest path x xs window kept shorter e = (
    record {
      before = [];
      chosen = x;
      after = xs;
      registered = refl;
      covering = kept;
      none_longer = tt;
      all_shorter = shorter;
      its_window = e;
    },
    refl,
  )

  deepest-retain :
      (path : String) (best x : WindowRegistration) (xs : List WindowRegistration)
      → deepest best (retain (covers path) (x ∷ xs))
        ≡ deepest
            (if covers path x && leb (len best.root) (len x.root) then x else best)
            (retain (covers path) xs)
  unfolding deepest
  deepest-retain path best x xs = elim (Bool-cases (covers path x)) [
    | inl kept ↦ rw kept refl
    | inr dropped ↦ rw dropped refl
  ]

  deepest-FoundIn :
      (path : String) (best : WindowRegistration) (xs : List WindowRegistration)
      → FoundIn path best xs (deepest best (retain (covers path) xs)).window
  unfolding deepest
  deepest-FoundIn path best [] = inl (tt, refl)
  deepest-FoundIn path best (x ∷ xs) =
      let root_of = λ (r : WindowRegistration). len r.root in
      subst (λ (w : WindowRegistration). FoundIn path best (x ∷ xs) w.window)
        (sym (deepest-retain path best x xs))
        (elim (Bool-cases (covers path x && leb (len best.root) (len x.root))) [
          | inl deeper ↦ rw deeper (elim (deepest-FoundIn path x xs) [
            | inl here ↦
                let d = first-IsDeepest path x xs _ (ground (arith, deeper)) here.0 here.1 in
                inr (d.0, ground (arith, deeper, ap root_of d.1))
            | inr later ↦
                let d = later-IsDeepest path x xs _ later.0 (ground (arith, later.1)) in
                inr (d.0, ground (arith, deeper, later.1, ap root_of d.1))
          ])
          | inr kept ↦ rw kept (elim (deepest-FoundIn path best xs) [
            | inl here ↦ inl ((refl, here.0), here.1)
            | inr later ↦
                let d = later-IsDeepest path x xs _ later.0 (ground (arith, kept, later.1)) in
                inr (d.0, ground (arith, later.1, ap root_of d.1))
          ])
        ])

  window_of-IsDeepest :
      (path : String) (windows : List WindowRegistration)
      → ((any (covers path) windows ≡ true)
          × IsDeepest path windows (window_of (retain (covers path) windows)))
        ⊎ ((any (covers path) windows ≡ false)
            × (window_of (retain (covers path) windows) ≡ default_debounce_window))
  unfolding window_of
  window_of-IsDeepest path [] = inr (refl, refl)
  window_of-IsDeepest path (x ∷ xs) = elim (Bool-cases (covers path x)) [
    | inl kept ↦ rw kept (
        inl (
          refl,
          elim (deepest-FoundIn path x xs) [
            | inl here ↦ (first-IsDeepest path x xs _ kept here.0 here.1).0
            | inr later ↦ (later-IsDeepest path x xs _ later.0 (ground (arith, later.1))).0
          ],
        ))
    | inr dropped ↦ rw dropped (elim (window_of-IsDeepest path xs) [
      | inl found ↦ inl (found.0, (later-IsDeepest path x xs _ found.1 (ground (arith, dropped))).0)
      | inr absent ↦ inr absent
    ])
  ]

  -- The window of an event with a path is that of the registration with the longest root that the
  -- path lies under, the last one among equals; where there is none, it is the default.
  pub window_for_in-IsDeepest :
      (windows : List WindowRegistration) (kind : DebouncedEventKind) (path : String)
      → primary_path kind ≡ some path
      → ((any (covers path) windows ≡ true) × IsDeepest path windows (window_for_in windows kind))
        ⊎ ((any (covers path) windows ≡ false)
            × (window_for_in windows kind ≡ default_debounce_window))
  unfolding window_for_in window_at
  window_for_in-IsDeepest windows kind path at_path = rw at_path (window_of-IsDeepest path windows)

  -- Extraction parts the queue by the window of each event: the kinds of the events that have outlived
  -- theirs come out, in order, and the others stay, in order; a second extraction at the same time
  -- takes nothing more.
  pub extract_finalized_lem :
      (now : ℕ) (windows : List WindowRegistration) (queue : List DebouncingEvent)
      → let outlived = λ (event : DebouncingEvent).
        ltb (window_for_in windows event.kind) (now - event.timestamp) in
        let kind_of = λ (event : DebouncingEvent). event.kind in
        let staying = retain (λ (event : DebouncingEvent). not (outlived event)) queue in
        (extract_finalized now windows queue ≡ (map kind_of (retain outlived queue), staying))
        × (extract_finalized now windows staying ≡ ([], staying))
  unfolding extract_finalized has_settled
  extract_finalized_lem now windows [] = (refl, refl)
  extract_finalized_lem now windows (event ∷ queue) =
      let rest = extract_finalized_lem now windows queue in
      elim (Bool-cases (ltb (window_for_in windows event.kind) (now - event.timestamp))) [
        | inl settled ↦ rw settled (rw (rest.0) refl, rest.1)
        | inr stays ↦ rw stays (rw (rest.0) refl, rw stays (rw (rest.1) refl))
      ]
