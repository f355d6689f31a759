-- ===== src/Hist/Shape.antt =====
-- Deltas and windows keep one count for each bucket.
use mathlib.Core.Path.{subst}
use lss.Base.{
  ◌≤◌, ℕ, zero, suc, ◌+◌, ◌⊎◌, All, ◌≡◌, refl, sym, ap, ◌∙◌, inl, inr, Option, none, some, Bool,
  true, false, not, ◌||◌, List, [], ◌∷◌, arith, ◌==◌, Bool-cases, length, is_empty,
}
use lss.Base.Float.{F64}
use lss.Hist.Tracker.{HistSet, Accs, no_accs, add_delta, add_deltas, bucket_of, Window, observe}
use lss.Hist.Close.{
  Scrape, run, last_good, absorbed, gathered, open_window, windows_exact, gained_all-add_deltas,
}
use lss.Hist.{
  accum_is_empty, HistSnapshot, HistAccum, per_bucket_from, per_bucket, differences, is_reset,
  delta, add_each, same_bounds, add,
}

apart : (b : Bool) (m n : ℕ) → (not b || not (m == n)) ≡ false → (b ≡ true) × (m ≡ n)
apart b m n h = (ground arith, ground arith)

module _ (F : F64) where
  -- a scrape has one count for each bound and one for +Inf
  abbrev pub Whole : HistSnapshot F → Type 0
  Whole s = length s.cum ≡ length s.bounds + 1

  -- an accumulator has nothing yet, or one count for each bound and one for +Inf
  abbrev pub Fits : HistAccum F → Type 0
  Fits h = (h.counts ≡ []) ⊎ (length h.counts ≡ length h.bounds + 1)

  length-per_bucket_from :
      (prev : F.Float) (cum : List F.Float) → length (per_bucket_from F prev cum) ≡ length cum
  unfolding per_bucket_from
  length-per_bucket_from prev [] = refl
  length-per_bucket_from prev (c ∷ cum) = omega (arith, length-per_bucket_from (F.fmax prev c) cum)

  length-differences :
      (n : ℕ) (cur prev : List F.Float)
      → length cur ≡ n
      → length prev ≡ n
      → length (differences F cur prev) ≡ n
  unfolding differences
  length-differences n [] prev e f = e
  length-differences n (c ∷ cur) [] e f = absurd (omega arith)
  length-differences zero (c ∷ cur) (p ∷ prev) e f = absurd (omega arith)
  length-differences (suc n) (c ∷ cur) (p ∷ prev) e f =
      omega (arith, length-differences n cur prev (omega arith) (omega arith))

  same_bounds-length : (xs ys : List F.Float) → same_bounds F xs ys ≡ true → length xs ≡ length ys
  unfolding same_bounds
  same_bounds-length [] [] h = refl
  same_bounds-length [] (y ∷ ys) h = cc
  same_bounds-length (x ∷ xs) [] h = cc
  same_bounds-length (x ∷ xs) (y ∷ ys) h = ground (arith, same_bounds-length xs ys)

  same_of_reset :
      (prev cur : HistSnapshot F)
      → is_reset F prev cur ≡ false
      → same_bounds F prev.bounds cur.bounds ≡ true
  unfolding is_reset
  same_of_reset prev cur e = elim (Bool-cases (same_bounds F prev.bounds cur.bounds)) [
    | inl f ↦ f
    | inr f ↦ absurd (ground (arith, f))
  ]

  pub delta-Fits :
      (prev cur : HistSnapshot F)
      → Whole prev
      → Whole cur
      → length (delta F prev cur).counts ≡ length (delta F prev cur).bounds + 1
  unfolding delta per_bucket
  delta-Fits prev cur h k = elim (Bool-cases (is_reset F prev cur)) [
    | inl e ↦ rw e (length-per_bucket_from (F.ratio 0 1) cur.cum ∙ k)
    | inr e ↦ rw e (
        length-per_bucket_from (F.ratio 0 1) (differences F cur.cum prev.cum)
        ∙ length-differences (length cur.bounds + 1) cur.cum prev.cum k (
            omega (arith, h, same_bounds-length prev.bounds cur.bounds (same_of_reset prev cur e))))
  ]

  length-add_each : (xs ys : List F.Float) → length (add_each F xs ys) ≡ length xs
  unfolding add_each
  length-add_each [] ys = refl
  length-add_each (x ∷ xs) [] = refl
  length-add_each (x ∷ xs) (y ∷ ys) = omega (arith, length-add_each xs ys)

  added_length :
      (h d : HistAccum F)
      → length d.counts ≡ length d.bounds + 1
      → (not (same_bounds F h.bounds d.bounds) || not (length h.counts == length d.counts)) ≡ false
      → length (add_each F h.counts d.counts) ≡ length h.bounds + 1
  added_length h d g k = omega (
    arith,
    length-add_each h.counts d.counts,
    (apart (same_bounds F h.bounds d.bounds) _ _ k).1,
    same_bounds-length h.bounds d.bounds
        (apart (same_bounds F h.bounds d.bounds) (length h.counts) (length d.counts) k).0,
  )

  add-Fits : (h d : HistAccum F) → Fits h → length d.counts ≡ length d.bounds + 1 → Fits (add F h d)
  unfolding add
  add-Fits h d f g = elim (Bool-cases (is_empty d.counts)) [
    | inl e ↦ rw e f
    | inr e ↦
        rw e
          (elim (Bool-cases
            (not (same_bounds F h.bounds d.bounds) || not (length h.counts == length d.counts))) [
              | inl k ↦ rw k (inr g)
              | inr k ↦ rw k (inr (added_length h d g k))
            ])
  ]

  abbrev pub WholeIf : Option (HistSnapshot F) → Type 0
  WholeIf none = Unit {0}
  WholeIf (some s) = Whole s

  -- every histogram of a scrape is whole
  abbrev pub AllWhole : HistSet F → Type 0
  AllWhole set = All WholeIf set

  add_delta-Fits :
      (p c : Option (HistSnapshot F)) (a : HistAccum F)
      → WholeIf p
      → WholeIf c
      → Fits a
      → Fits (add_delta F p c a)
  unfolding add_delta
  add_delta-Fits none c a v w f = f
  add_delta-Fits (some p) none a v w f = f
  add_delta-Fits (some p) (some c) a v w f = elim (Bool-cases (accum_is_empty F (delta F p c))) [
    | inl e ↦ rw e f
    | inr e ↦ rw e (add-Fits a (delta F p c) f (delta-Fits p c v w))
  ]

  add_deltas-Fits :
      (prev set : HistSet F) (accs : Accs F)
      → AllWhole prev
      → AllWhole set
      → All Fits accs
      → All Fits (add_deltas F prev set accs)
  unfolding add_deltas
  add_deltas-Fits prev set [] v w f = tt
  add_deltas-Fits [] set (a ∷ accs) v w f = f
  add_deltas-Fits (p ∷ prev) [] (a ∷ accs) v w f = f
  add_deltas-Fits (p ∷ prev) (c ∷ set) (a ∷ accs) v w f =
      (add_delta-Fits p c a v.0 w.0 f.0, add_deltas-Fits prev set accs v.1 w.1 f.1)

  abbrev pub ScrapeWhole : Scrape F → Type 0
  ScrapeWhole (ts, none) = Unit {0}
  ScrapeWhole (ts, some set) = AllWhole set

  abbrev GoodWhole : Option (HistSet F) → Type 0
  GoodWhole none = Unit {0}
  GoodWhole (some set) = AllWhole set

  last_good-Whole : (h : List (Scrape F)) → All ScrapeWhole h → GoodWhole (last_good F h)
  unfolding last_good
  last_good-Whole [] w = tt
  last_good-Whole ((ts, none) ∷ h) w = last_good-Whole h w.1
  last_good-Whole ((ts, some set) ∷ h) w = w.0

  absorbed-Fits :
      (before set : Option (HistSet F)) (accs : Accs F)
      → GoodWhole before
      → GoodWhole set
      → All Fits accs
      → All Fits (absorbed F before set accs)
  unfolding absorbed
  absorbed-Fits before none accs v w f = f
  absorbed-Fits none (some set) accs v w f = f
  absorbed-Fits (some before) (some set) accs v w f =
      subst (All Fits) (gained_all-add_deltas F before set accs)
        (add_deltas-Fits before set accs v w f)

  no_accs-Fits : All Fits (no_accs F)
  no_accs-Fits = (inl refl, (inl refl, (inl refl, (inl refl, (inl refl, (inl refl, tt))))))

  scrape_good : (ts : ℕ) (set : Option (HistSet F)) → ScrapeWhole (ts, set) → GoodWhole set
  scrape_good ts none w = tt
  scrape_good ts (some set) w = w

  gathered-Fits :
      (res start : ℕ) (h : List (Scrape F)) → All ScrapeWhole h → All Fits (gathered F res start h)
  unfolding gathered
  gathered-Fits res start [] w = no_accs-Fits
  gathered-Fits res start ((ts, set) ∷ h) w = elim (Bool-cases (bucket_of res ts == start)) [
    | inl e ↦ rw e (
        absorbed-Fits (last_good F h) set (gathered F res start h) (last_good-Whole h w.1)
          (scrape_good ts set w.0) (gathered-Fits res start h w.1))
    | inr e ↦ rw e no_accs-Fits
  ]

  some_inj : (w v : Window F) → some w ≡ some v → w ≡ v
  some_inj w v e = cc

  of_open :
      (res : ℕ) (h : List (Scrape F)) (ts : ℕ) (set : Option (HistSet F)) (t : ℕ) (accs : Accs F)
      → All ScrapeWhole ((ts, set) ∷ h)
      → open_window F res ((ts, set) ∷ h) ≡ some (t, accs)
      → (t ≤ ts) × All Fits accs
  unfolding open_window
  of_open res h ts set t accs w e =
      let p = some_inj _ _ e in
      (
        rw (← ap (λ (v : Window F). v.0) p) (omega arith),
        subst (All Fits) (ap (λ (v : Window F). v.1) p)
            (gathered-Fits res (bucket_of res ts) ((ts, set) ∷ h) w),
      )

  -- If each scrape has one count for each bound and one for +Inf, an open window does not begin
  -- after the scrape and each of its accumulators is empty or has one count for each of its bounds
  -- and one for +Inf.
  pub window-Fits :
      (h : List (Scrape F)) (ts : ℕ) (set : Option (HistSet F)) (t : ℕ) (accs : Accs F)
      → All ScrapeWhole ((ts, set) ∷ h)
      → ((observe F (run F h) ts set).0.minute ≡ some (t, accs))
        ⊎ ((observe F (run F h) ts set).0.ten ≡ some (t, accs))
      → (t ≤ ts) × All Fits accs
  window-Fits h ts set t accs w (inl e) =
      of_open 60 h ts set t accs w (sym (windows_exact F h ts set).1 ∙ e)
  window-Fits h ts set t accs w (inr e) =
      of_open 600 h ts set t accs w (sym (windows_exact F h ts set).2 ∙ e)
