-- ===== src/Hist/Tracker.antt =====
-- hist.rs: LatencyTracker, which cuts scrapes into windows of one and of ten minutes.
use lss.Base.{
  ℕ, ◌+◌, ◌-◌, ◌*◌, ◌%◌, String, Option, none, some, not, List, [], ◌∷◌, ◌++◌, map, ltb, ◌==◌,
  if◌then◌else◌, length, filter, any, get_elem?, concat,
}
use lss.Base.Float.{F64}
use lss.Hist.{
  latency_metrics, hist_metrics, HistSnapshot, HistAccum, no_accum, delta, accum_is_empty, add,
  HistSummary, summary,
}

abbrev pub recent_minutes : ℕ
recent_minutes = 10

-- `ts - ts.rem_euclid(res)`
abbrev pub bucket_of : ℕ → ℕ → ℕ
bucket_of res ts = ts - ts % res

module _ (F : F64) where
  open F use {Float}

  -- one snapshot, or none, for each metric
  abbrev pub HistSet : Type 0
  HistSet = List (Option (HistSnapshot F))

  -- one accumulator for each metric
  abbrev pub Accs : Type 0
  Accs = List (HistAccum F)

  abbrev pub no_accs : Accs
  no_accs = map (λ m. no_accum F) hist_metrics

  pub record ClosedWindow : Type 0 where
    pub res : ℕ
    pub ts : ℕ
    pub accs : Accs

  abbrev suffixes : HistSummary F → List (String × Float)
  suffixes s =
      ("p50_ms", s.p50_ms) ∷ ("p90_ms", s.p90_ms) ∷ ("p99_ms", s.p99_ms) ∷ ("avg_ms", s.avg_ms) ∷ []

  unfoldable pub points_of : String → Option (HistSummary F) → List (String × Float × Float)
  points_of short none = []
  points_of short (some s) = map (λ p. (concat (short ∷ "_" ∷ p.0 ∷ []), p.1, s.count)) (suffixes s)

  -- the latencies come first in the metrics; their accumulators in this order
  unfoldable pub points_from : List (String × String) → Accs → List (String × Float × Float)
  unfolding points_of
  points_from [] accs = []
  points_from (m ∷ metrics) [] = []
  points_from (m ∷ metrics) (a ∷ accs) = points_of m.0 (summary F a) ++ points_from metrics accs

  unfoldable pub points : ClosedWindow → List (String × Float × Float)
  unfolding points_from
  points w = points_from latency_metrics w.accs

  abbrev pub Window : Type 0
  Window = ℕ × Accs

  pub record LatencyTracker : Type 0 where
    pub prev : Option HistSet
    pub minute : Option Window
    pub ten : Option Window
    pub recent : List Window

  abbrev pub new_tracker : LatencyTracker
  new_tracker = record { prev = none; minute = none; ten = none; recent = [] }

  -- the window in the slot that is over, if the slot holds another bucket
  unfoldable pub take_over : ℕ → Option Window → Option Window
  take_over start none = none
  take_over start (some (t, accs)) = if t == start then none else some (t, accs)

  -- what the slot holds then
  unfoldable pub open_slot : ℕ → Option Window → Window
  open_slot start none = (start, no_accs)
  open_slot start (some (t, accs)) = if t == start then (t, accs) else (start, no_accs)

  unfoldable pub closed_of : ℕ → Option Window → List ClosedWindow
  closed_of res none = []
  closed_of res (some (t, accs)) =
      if any (λ a. not (accum_is_empty F a)) accs
      then record { res = res; ts = t; accs = accs } ∷ []
      else []

  -- `push_back`, then `pop_front` while there are more than ten
  unfoldable pub pop_to : ℕ → List Window → List Window
  pop_to n [] = []
  pop_to n (w ∷ ws) = let rest = pop_to n ws in if ltb n (length (w ∷ ws)) then rest else w ∷ ws

  unfoldable pub push_recent : List Window → Option Window → List Window
  unfolding pop_to
  push_recent recent none = recent
  push_recent recent (some w) = pop_to recent_minutes (recent ++ (w ∷ []))

  -- `if d.is_empty() { continue }`, else the accumulator takes the delta
  unfoldable pub add_delta :
      Option (HistSnapshot F) → Option (HistSnapshot F) → HistAccum F → HistAccum F
  add_delta none cur acc = acc
  add_delta (some p) none acc = acc
  add_delta (some p) (some c) acc =
      let d = delta F p c in if accum_is_empty F d then acc else add F acc d

  unfoldable pub add_deltas : HistSet → HistSet → Accs → Accs
  unfolding add_delta
  add_deltas prev set [] = []
  add_deltas [] set (a ∷ accs) = a ∷ accs
  add_deltas (p ∷ prev) [] (a ∷ accs) = a ∷ accs
  add_deltas (p ∷ prev) (c ∷ set) (a ∷ accs) = add_delta p c a ∷ add_deltas prev set accs

  unfoldable pub since_prev : Option HistSet → HistSet → Window → Window
  unfolding add_deltas
  since_prev none set w = w
  since_prev (some prev) set (t, accs) = (t, add_deltas prev set accs)

  -- what a good scrape does after the windows are cut
  unfoldable pub scraped :
      ℕ → HistSet → LatencyTracker → Window → Window → List Window → LatencyTracker
  unfolding since_prev
  scraped ts set l minute ten recent = record {
    prev = some set;
    minute = some (since_prev l.prev set minute);
    ten = some (since_prev l.prev set ten);
    recent = filter (λ (w : Window). ltb ts (w.0 + (recent_minutes + 1) * 60)) recent;
  }

  unfoldable pub after_cut :
      ℕ → Option HistSet → LatencyTracker → Window → Window → List Window → LatencyTracker
  unfolding scraped
  after_cut ts none l minute ten recent = record l {
    minute = some minute;
    ten = some ten;
    recent = recent;
  }
  after_cut ts (some set) l minute ten recent = scraped ts set l minute ten recent

  unfoldable pub observe : LatencyTracker → ℕ → Option HistSet → LatencyTracker × List ClosedWindow
  unfolding take_over open_slot closed_of push_recent after_cut
  observe l ts set =
      let over_minute = take_over (bucket_of 60 ts) l.minute in
      let over_ten = take_over (bucket_of 600 ts) l.ten in
      (
        after_cut ts set l (open_slot (bucket_of 60 ts) l.minute)
            (open_slot (bucket_of 600 ts) l.ten) (push_recent l.recent over_minute),
        closed_of 60 over_minute ++ closed_of 600 over_ten,
      )

  pub record LatencyNow : Type 0 where
    pub window_s : ℕ
    pub ttft : Option (HistSummary F)
    pub e2e : Option (HistSummary F)
    pub itl : Option (HistSummary F)
    pub queue_time : Option (HistSummary F)

  abbrev nth_acc : ℕ → Accs → HistAccum F
  nth_acc i accs = elim (get_elem? accs i) [ none ↦ no_accum F | some a ↦ a ]

  -- the closed minutes, then the one in progress
  unfoldable pub merge_from : ℕ → HistAccum F → List Window → HistAccum F
  merge_from i acc [] = acc
  merge_from i acc (w ∷ ws) = merge_from i (add F acc (nth_acc i w.1)) ws

  abbrev minute_list : Option Window → List Window
  minute_list none = []
  minute_list (some w) = w ∷ []

  unfoldable pub now : LatencyTracker → LatencyNow
  unfolding merge_from
  now l =
      let merged =
        λ (i : ℕ). summary F (merge_from i (no_accum F) (l.recent ++ minute_list l.minute)) in
      record {
        window_s = recent_minutes * 60;
        ttft = merged 0;
        e2e = merged 1;
        itl = merged 2;
        queue_time = merged 3;
      }
