-- ===== src/Hist/Recent.antt =====
-- The minutes that the percentiles of the last ten minutes are read from.
use lss.Base.{
  ℕ, ◌+◌, ◌*◌, ◌≤◌, ◌<◌, ◌≡◌, inl, inr, Option, none, some, Bool, true, List, [], ◌∷◌, ◌++◌, arith,
  ltb, ltb→lt, Bool-cases, length, length-filter-le, filter, All, All-map,
}
use lss.Base.Float.{F64}
use lss.Hist.Tracker.{
  recent_minutes, HistSet, Window, take_over, bucket_of, pop_to, push_recent, scraped, after_cut,
  observe,
}
use lss.Hist.Close.{Scrape, run}

module _ (F : F64) where
  length-pop_to : (n : ℕ) (ws : List (Window F)) → length (pop_to F n ws) ≤ n
  unfolding pop_to
  length-pop_to n [] = omega arith
  length-pop_to n (w ∷ ws) = ground (arith, length-pop_to n ws)

  length-push_recent :
      (recent : List (Window F)) (w : Option (Window F))
      → length recent ≤ 10
      → length (push_recent F recent w) ≤ 10
  unfolding push_recent
  length-push_recent recent none h = h
  length-push_recent recent (some w) h = length-pop_to 10 (recent ++ (w ∷ []))

  recent_bounded : (h : List (Scrape F)) → length (run F h).recent ≤ 10
  unfolding run observe after_cut scraped
  recent_bounded [] = omega arith
  recent_bounded ((ts, none) ∷ h) =
      length-push_recent (run F h).recent (take_over F (bucket_of 60 ts) (run F h).minute)
        (recent_bounded h)
  recent_bounded ((ts, some set) ∷ h) =
      let kept = push_recent F (run F h).recent (take_over F (bucket_of 60 ts) (run F h).minute) in
      omega (
        arith,
        length-filter-le (λ (w : Window F). ltb ts (w.0 + (recent_minutes + 1) * 60)) kept,
        length-push_recent (run F h).recent (take_over F (bucket_of 60 ts) (run F h).minute)
            (recent_bounded h),
      )

  -- what passes a filter has its property
  filter-All : (p : Window F → Bool) (ws : List (Window F)) → All (λ w. p w ≡ true) (filter p ws)
  filter-All p [] = tt
  filter-All p (w ∷ ws) = elim (Bool-cases (p w)) [
    | inl e ↦ rw e (e, filter-All p ws)
    | inr e ↦ rw e (filter-All p ws)
  ]

  recent_fresh :
      (h : List (Scrape F)) (ts : ℕ) (set : HistSet F)
      → All (λ (w : Window F). ts < w.0 + 660) (run F ((ts, some set) ∷ h)).recent
  unfolding run observe after_cut scraped
  recent_fresh h ts set =
      All-map (λ (w : Window F) (e : ltb ts (w.0 + 660) ≡ true). ltb→lt ts (w.0 + 660) e) _
        (filter-All (λ (w : Window F). ltb ts (w.0 + 660))
          (push_recent F (run F h).recent (take_over F (bucket_of 60 ts) (run F h).minute)))

  -- The tracker keeps at most ten closed minutes, and after a good scrape none of them began eleven
  -- minutes ago or earlier.
  pub recent_exact :
      (h : List (Scrape F)) (ts : ℕ) (set : HistSet F)
      → (length (run F h).recent ≤ 10)
        × All (λ (w : Window F). ts < w.0 + 660) (run F ((ts, some set) ∷ h)).recent
  recent_exact h ts set = (recent_bounded h, recent_fresh h ts set)
