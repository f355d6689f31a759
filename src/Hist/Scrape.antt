-- ===== src/Hist/Scrape.antt =====
-- hist.rs: the histogram of a scrape, and its storage form.
use lss.Base.{
  String, Option, none, some, Bool, not, ◌&&◌, ◌||◌, List, [], ◌∷◌, ◌++◌, map, if◌then◌else◌,
  str_eq, filter, any, is_empty, is_some_and, is_none_or, concat,
}
use lss.Base.Float.{F64}
use lss.Base.Sort.{sort_by}
use lss.Prom.{Series, label}
use lss.Hist.{hist_metrics, HistSnapshot, sum_from}
use lss.Hist.Tracker.{HistSet}

module _ (F : F64) where
  open F use {Float, ratio, plus, feq, total_le, is_finite, infinity, parse_float}

  abbrev has_label : Series F → String → String → Bool
  has_label s key value = is_some_and (label F s key) (λ v. str_eq v value)

  abbrev usable : Series F → Bool
  usable s = is_none_or (label F s "tp_rank") (λ r. str_eq r "0") && is_finite s.value

  -- `bounds.iter_mut().find(..)`: the count is added to the bound, or the bound is new
  unfoldable pub add_bound : List (Float × Float) → Float → Float → List (Float × Float)
  add_bound [] le v = (le, v) ∷ []
  add_bound ((b, c) ∷ bounds) le v =
      let rest = (b, c) ∷ add_bound bounds le v in if feq b le then (b, plus c v) ∷ bounds else rest

  abbrev parse_bound : String → Option Float
  parse_bound v = if str_eq v "+Inf" || str_eq v "Inf" then some infinity else parse_float v

  abbrev bind :
      Option Float → (Float → Option (List (Float × Float))) → Option (List (Float × Float))
  bind none f = none
  bind (some a) f = f a

  abbrev le_of : Series F → Option Float
  le_of s = elim (label F s "le") [ none ↦ none | some v ↦ parse_bound v ]

  -- a row with no bound, or one that is no number, is the end of it
  unfoldable pub collect_bounds :
      List (Series F) → List (Float × Float) → Option (List (Float × Float))
  unfolding add_bound
  collect_bounds [] bounds = some bounds
  collect_bounds (s ∷ rows) bounds =
      bind (le_of s) (λ le. collect_bounds rows (add_bound bounds le s.value))

  last_bound : List (Float × Float) → Option (Float × Float)
  last_bound [] = none
  last_bound (b ∷ []) = some b
  last_bound (b ∷ c ∷ bounds) = last_bound (c ∷ bounds)

  abbrev end_bound : Option (Float × Float) → List (Float × Float)
  end_bound none = (infinity, ratio 0 1) ∷ []
  end_bound (some (b, c)) = if is_finite b then (infinity, c) ∷ [] else []

  -- with no +Inf row the last finite bucket is all that is known
  unfoldable pub close_bounds : List (Float × Float) → List (Float × Float)
  unfolding last_bound
  close_bounds bounds = bounds ++ end_bound (last_bound bounds)

  abbrev values : List (Series F) → List Float
  values series = map (λ (s : Series F). s.value) series

  unfoldable pub snapshot_of :
      List (Series F) → String → Bool → Option (List (Float × Float)) → Option (HistSnapshot F)
  unfolding close_bounds
  snapshot_of series family explicit_total none = none
  snapshot_of series family explicit_total (some found) =
      let bounds = close_bounds (sort_by (λ (a b : Float × Float). total_le a.0 b.0) found) in
      let keep = λ (s : Series F). not explicit_total || has_label s "priority" "" in
      let scalar = λ (suffix : String). sum_from F (ratio 0 1) (
        values (
          filter
            (λ (s : Series F).
              str_eq s.name (concat (family ∷ "_" ∷ suffix ∷ [])) && usable s && keep s)
            series)) in
      some record {
        bounds = map (λ b. b.0) (filter (λ b. is_finite b.0) bounds);
        cum = map (λ b. b.1) bounds;
        sum = scalar "sum";
        count = scalar "count";
      }

  -- `only` keeps the rows that carry that label
  unfoldable pub extract_histogram_where :
      List (Series F) → String → Option (String × String) → Option (HistSnapshot F)
  unfolding collect_bounds snapshot_of
  extract_histogram_where all family only =
      let series = filter (λ (s : Series F). is_none_or only (λ p. has_label s p.0 p.1)) all in
      let rows =
        filter (λ (s : Series F). str_eq s.name (concat (family ∷ "_bucket" ∷ [])) && usable s)
          series in
      let explicit_total = any (λ (s : Series F). has_label s "priority" "") rows in
      let kept = filter (λ (s : Series F). not explicit_total || has_label s "priority" "") rows in
      if is_empty rows
      then none
      else snapshot_of series family explicit_total (collect_bounds kept [])

  unfoldable pub extract_histogram : List (Series F) → String → Option (HistSnapshot F)
  unfolding extract_histogram_where
  extract_histogram series base =
      extract_histogram_where series (concat ("sglang:" ∷ base ∷ [])) none

  unfoldable pub extract_latency : List (Series F) → HistSet F
  unfolding extract_histogram
  extract_latency series = map (λ m. extract_histogram series m.1) hist_metrics
