-- ===== src/Hist/Close.antt =====
-- The windows of the tracker over a history of scrapes, newest first.
use mathlib.Core.Path.{ap₂}
use lss.Base.{
  Bool, not, any, filter, ℕ, ◌≡◌, refl, sym, ap, ◌∙◌, inl, inr, Option, none, some, false, List, [],
  ◌∷◌, ◌++◌, ◌==◌, ==_iff, if◌then◌else◌, Bool-cases,
}
use lss.Base.Float.{F64}
use lss.Hist.{HistSnapshot, HistAccum, total, delta, accum_is_empty, add}
use lss.Hist.Tracker.{
  ClosedWindow, add_delta, HistSet, Accs, no_accs, Window, LatencyTracker, new_tracker, take_over,
  open_slot, closed_of, add_deltas, since_prev, bucket_of, scraped, after_cut, observe,
}

module _ (F : F64) where
  open F use {ratio, le}

  -- a scrape at a time; none is a scrape that failed
  abbrev pub Scrape : Type 0
  Scrape = ℕ × Option (HistSet F)

  unfoldable pub run : List Scrape → LatencyTracker F
  run [] = new_tracker F
  run ((ts, set) ∷ h) = (observe F (run h) ts set).0

  -- The specification: the newest good scrape,
  unfoldable pub last_good : List Scrape → Option (HistSet F)
  last_good [] = none
  last_good ((ts, none) ∷ h) = last_good h
  last_good ((ts, some set) ∷ h) = some set

  -- what a scrape adds to a window, by the good scrape before it,
  unfoldable pub gained :
      Option (HistSnapshot F) → Option (HistSnapshot F) → HistAccum F → HistAccum F
  gained none after acc = acc
  gained (some p) none acc = acc
  gained (some p) (some c) acc =
      if le (total F (delta F p c)) (ratio 0 1) then acc else add F acc (delta F p c)

  unfoldable pub gained_all : HistSet F → HistSet F → Accs F → Accs F
  unfolding gained
  gained_all (p ∷ before) (c ∷ set) (a ∷ accs) = gained p c a ∷ gained_all before set accs
  gained_all _ _ accs = accs

  unfoldable pub absorbed : Option (HistSet F) → Option (HistSet F) → Accs F → Accs F
  unfolding gained_all
  absorbed before none accs = accs
  absorbed none (some set) accs = accs
  absorbed (some before) (some set) accs = gained_all before set accs

  -- and the fold of what the newest scrapes that lie in one bucket add.
  unfoldable pub gathered : ℕ → ℕ → List Scrape → Accs F
  unfolding last_good absorbed
  gathered res start [] = no_accs F
  gathered res start ((ts, set) ∷ h) =
      let earlier = absorbed (last_good h) set (gathered res start h) in
      if bucket_of res ts == start then earlier else no_accs F

  unfoldable pub open_window : ℕ → List Scrape → Option (Window F)
  open_window res [] = none
  open_window res ((ts, set) ∷ h) =
      some (bucket_of res ts, gathered res (bucket_of res ts) ((ts, set) ∷ h))

  -- the window that a scrape at `ts` ends
  unfoldable pub ended : ℕ → ℕ → List Scrape → Option (Window F)
  ended res ts [] = none
  ended res ts ((t, set) ∷ h) =
      if bucket_of res t == bucket_of res ts
      then none
      else some (bucket_of res t, gathered res (bucket_of res t) ((t, set) ∷ h))

  -- a window that was measured: some metric has a request in its buckets
  pub measured : ClosedWindow F → Bool
  measured w = any (λ a. not (le (total F a) (ratio 0 1))) w.accs

  abbrev pub closing : ℕ → Option (Window F) → List (ClosedWindow F)
  closing res none = []
  closing res (some (t, accs)) = record { res = res; ts = t; accs = accs } ∷ []

  closed_of-measured :
      (res : ℕ) (w : Option (Window F)) → closed_of F res w ≡ filter measured (closing res w)
  unfolding closed_of measured accum_is_empty
  closed_of-measured res none = refl
  closed_of-measured res (some (t, accs)) = refl

  gained-add_delta :
      (before after : Option (HistSnapshot F)) (acc : HistAccum F)
      → add_delta F before after acc ≡ gained before after acc
  unfolding add_delta gained accum_is_empty
  gained-add_delta none after acc = refl
  gained-add_delta (some p) none acc = refl
  gained-add_delta (some p) (some c) acc = refl

  pub gained_all-add_deltas :
      (before set : HistSet F) (accs : Accs F)
      → add_deltas F before set accs ≡ gained_all before set accs
  unfolding add_deltas gained_all
  gained_all-add_deltas [] set [] = refl
  gained_all-add_deltas (p ∷ before) [] [] = refl
  gained_all-add_deltas (p ∷ before) (c ∷ set) [] = refl
  gained_all-add_deltas [] set (a ∷ accs) = refl
  gained_all-add_deltas (p ∷ before) [] (a ∷ accs) = refl
  gained_all-add_deltas (p ∷ before) (c ∷ set) (a ∷ accs) =
      ap₂ (λ x xs. x ∷ xs) (gained-add_delta p c a) (gained_all-add_deltas before set accs)

  abbrev Holds : List Scrape → LatencyTracker F → Type 0
  Holds h l = (l.prev ≡ last_good h) × (l.minute ≡ open_window 60 h) × (l.ten ≡ open_window 600 h)

  since_prev-absorbed :
      (before : Option (HistSet F)) (set : HistSet F) (start : ℕ) (accs : Accs F)
      → since_prev F before set (start, accs) ≡ (start, absorbed before (some set) accs)
  unfolding since_prev absorbed
  since_prev-absorbed none set start accs = refl
  since_prev-absorbed (some before) set start accs =
      ap (λ a. (start, a)) (gained_all-add_deltas before set accs)

  gathered-nil : (res start : ℕ) → gathered res start [] ≡ no_accs F
  unfolding gathered
  gathered-nil res start = refl

  gathered-other :
      (res start t : ℕ) (set : Option (HistSet F)) (h : List Scrape)
      → (bucket_of res t == start) ≡ false
      → gathered res start ((t, set) ∷ h) ≡ no_accs F
  unfolding gathered
  gathered-other res start t set h e = rw e refl

  -- a slot holds the bucket of the new scrape, with what is in it already
  open_slot-gathered :
      (res ts : ℕ) (h : List Scrape)
      → open_slot F (bucket_of res ts) (open_window res h)
        ≡ (bucket_of res ts, gathered res (bucket_of res ts) h)
  unfolding open_slot open_window
  open_slot-gathered res ts [] =
      ap (λ a. (bucket_of res ts, a)) (sym (gathered-nil res (bucket_of res ts)))
  open_slot-gathered res ts ((t, set) ∷ h) =
      elim (Bool-cases (bucket_of res t == bucket_of res ts)) [
        | inl e ↦ rw e (ap (λ b. (b, gathered res b ((t, set) ∷ h))) ((==_iff _ _).0 e))
        | inr e ↦ rw e (
            ap (λ a. (bucket_of res ts, a)) (sym (gathered-other res (bucket_of res ts) t set h e)))
      ]

  take_over-ended :
      (res ts : ℕ) (h : List Scrape)
      → take_over F (bucket_of res ts) (open_window res h) ≡ ended res ts h
  unfolding take_over open_window ended
  take_over-ended res ts [] = refl
  take_over-ended res ts ((t, set) ∷ h) = refl

  -- the bucket of a scrape is the one that it lies in
  gathered-cons :
      (res ts : ℕ) (set : Option (HistSet F)) (h : List Scrape)
      → gathered res (bucket_of res ts) ((ts, set) ∷ h)
        ≡ absorbed (last_good h) set (gathered res (bucket_of res ts) h)
  unfolding gathered
  gathered-cons res ts set h = rw ((==_iff (bucket_of res ts) (bucket_of res ts)).1 refl) refl

  slot-observed :
      (res ts : ℕ) (set : Option (HistSet F)) (h : List Scrape)
      → some (bucket_of res ts, absorbed (last_good h) set (gathered res (bucket_of res ts) h))
        ≡ open_window res ((ts, set) ∷ h)
  unfolding open_window
  slot-observed res ts set h =
      ap (λ a. some (bucket_of res ts, a)) (sym (gathered-cons res ts set h))

  -- the slot of a tier after a scrape that failed, and after a good one
  failed_slot :
      (res ts : ℕ) (h : List Scrape) (w : Option (Window F))
      → w ≡ open_window res h
      → some (open_slot F (bucket_of res ts) w) ≡ open_window res ((ts, none) ∷ h)
  unfolding absorbed
  failed_slot res ts h w e =
      ap (λ w. some (open_slot F (bucket_of res ts) w)) e
      ∙ (ap some (open_slot-gathered res ts h) ∙ slot-observed res ts none h)

  good_slot :
      (res ts : ℕ) (set : HistSet F) (h : List Scrape) (w : Option (Window F))
      (before : Option (HistSet F))
      → w ≡ open_window res h
      → before ≡ last_good h
      → some (since_prev F before set (open_slot F (bucket_of res ts) w))
        ≡ open_window res ((ts, some set) ∷ h)
  good_slot res ts set h w before e f =
      ap (λ w. some (since_prev F before set (open_slot F (bucket_of res ts) w))) e
      ∙ (ap (λ b. some (since_prev F b set (open_slot F (bucket_of res ts) (open_window res h)))) f
          ∙ (ap (λ w. some (since_prev F (last_good h) set w)) (open_slot-gathered res ts h)
              ∙ (ap some (
                    since_prev-absorbed (last_good h) set (bucket_of res ts)
                      (gathered res (bucket_of res ts) h))
                  ∙ slot-observed res ts (some set) h)))

  observed :
      (h : List Scrape) (l : LatencyTracker F) (ts : ℕ) (set : Option (HistSet F))
      → Holds h l
      → Holds ((ts, set) ∷ h) (observe F l ts set).0
  unfolding observe after_cut last_good scraped
  observed h l ts none (p, m, t) = (p, failed_slot 60 ts h l.minute m, failed_slot 600 ts h l.ten t)
  observed h l ts (some set) (p, m, t) =
      (refl, good_slot 60 ts set h l.minute l.prev m p, good_slot 600 ts set h l.ten l.prev t p)

  run-Holds : (h : List Scrape) → Holds h (run h)
  unfolding run last_good open_window
  run-Holds [] = (refl, refl, refl)
  run-Holds ((ts, set) ∷ h) = observed h (run h) ts set (run-Holds h)

  closed_exact :
      (h : List Scrape) (ts : ℕ) (set : Option (HistSet F))
      → (observe F (run h) ts set).1
        ≡ closed_of F 60 (ended 60 ts h) ++ closed_of F 600 (ended 600 ts h)
  unfolding observe
  closed_exact h ts set =
      let v = run-Holds h in
      ap
        (λ w.
          closed_of F 60 (take_over F (bucket_of 60 ts) w)
          ++ closed_of F 600 (take_over F (bucket_of 600 ts) (run h).ten))
        v.1
      ∙ (ap
            (λ w.
              closed_of F 60 (take_over F (bucket_of 60 ts) (open_window 60 h))
              ++ closed_of F 600 (take_over F (bucket_of 600 ts) w))
            v.2
          ∙ (ap
                (λ w.
                  closed_of F 60 w
                  ++ closed_of F 600 (take_over F (bucket_of 600 ts) (open_window 600 h)))
                (take_over-ended 60 ts h)
              ∙ ap (λ w. closed_of F 60 (ended 60 ts h) ++ closed_of F 600 w)
                  (take_over-ended 600 ts h)))

  filter-append :
      {A : Type 0} (p : A → Bool) (xs ys : List A)
      → filter p (xs ++ ys) ≡ filter p xs ++ filter p ys
  filter-append p [] ys = refl
  filter-append p (x ∷ xs) ys = elim (Bool-cases (p x)) [
    | inl e ↦ rw e (ap (λ l. x ∷ l) (filter-append p xs ys))
    | inr e ↦ rw e (filter-append p xs ys)
  ]

  pub windows_exact :
      (h : List Scrape) (ts : ℕ) (set : Option (HistSet F))
      → ((observe F (run h) ts set).1
          ≡ filter measured (closing 60 (ended 60 ts h) ++ closing 600 (ended 600 ts h)))
        × ((observe F (run h) ts set).0.minute ≡ open_window 60 ((ts, set) ∷ h))
        × ((observe F (run h) ts set).0.ten ≡ open_window 600 ((ts, set) ∷ h))
  windows_exact h ts set =
      let (p, m, t) = run-Holds h in
      let after = observed h (run h) ts set (p, m, t) in
      (
        closed_exact h ts set
            ∙ (ap₂ (λ a b. a ++ b) (closed_of-measured 60 (ended 60 ts h))
                  (closed_of-measured 600 (ended 600 ts h))
                ∙ sym (
                    filter-append measured (closing 60 (ended 60 ts h))
                      (closing 600 (ended 600 ts h)))),
        after.1,
        after.2,
      )
