-- ===== src/Hist.antt =====
-- crates/lss-core/src/hist.rs: histograms by bucket deltas, and their percentiles.
pub mod Scrape
pub mod Tracker
pub mod Shape
pub mod Close
pub mod Recent
use lss.Base.{
  ℕ, zero, suc, ◌+◌, String, Option, none, some, Bool, true, false, not, ◌&&◌, ◌||◌, List, [], ◌∷◌,
  ◌++◌, map, ◌==◌, if◌then◌else◌, length, is_empty, str_eq, concat, show_ℕ, join,
}
use lss.Base.Float.{F64}

-- LATENCY_METRICS, and the two sizes that HIST_METRICS adds: (short name, histogram)
abbrev pub latency_metrics : List (String × String)
latency_metrics =
    ("ttft", "time_to_first_token_seconds")
    ∷ ("e2e", "e2e_request_latency_seconds")
    ∷ ("itl", "inter_token_latency_seconds")
    ∷ ("queue_time", "queue_time_seconds")
    ∷ []

abbrev pub hist_metrics : List (String × String)
hist_metrics =
    latency_metrics
    ++ (("prompt_tokens", "prompt_tokens_histogram")
        ∷ ("gen_tokens", "generation_tokens_histogram")
        ∷ [])

position : List (String × String) → String → Option ℕ
position [] short = none
position ((s, base) ∷ metrics) short =
    let rest = elim (position metrics short) as (λ _. Option ℕ) [
      | none ↦ none
      | some i ↦ some (i + 1)
    ] in
    if str_eq s short then some 0 else rest

unfoldable pub latency_index : String → Option ℕ
unfolding position
latency_index short = position latency_metrics short

unfoldable pub hist_index : String → Option ℕ
unfolding position
hist_index short = position hist_metrics short

abbrev is_found : Option ℕ → Bool
is_found none = false
is_found (some i) = true

unfoldable pub hist_unit : String → String
unfolding latency_index
hist_unit short = if is_found (latency_index short) then "s" else "tokens"

module _ (F : F64) where
  open F use {
    Float, ratio, plus, minus, times, over, lt, le, feq, fmax, fmin, round, is_finite, show_fixed,
    show_float, parse_float,
  }

  pub record HistSnapshot : Type 0 where
    -- finite upper bounds
    pub bounds : List Float
    -- one more count than bounds
    pub cum : List Float
    pub sum : Float
    pub count : Float

  pub record HistAccum : Type 0 where
    pub bounds : List Float
    pub counts : List Float
    pub sum : Float
    pub count : Float

  abbrev pub no_accum : HistAccum
  no_accum = record { bounds = []; counts = []; sum = ratio 0 1; count = ratio 0 1 }

  -- `==` of two vectors
  unfoldable pub same_bounds : List Float → List Float → Bool
  same_bounds [] [] = true
  same_bounds [] (y ∷ ys) = false
  same_bounds (x ∷ xs) [] = false
  same_bounds (x ∷ xs) (y ∷ ys) = feq x y && same_bounds xs ys

  unfoldable pub per_bucket_from : Float → List Float → List Float
  per_bucket_from prev [] = []
  per_bucket_from prev (c ∷ cum) =
      fmax (minus c prev) (ratio 0 1) ∷ per_bucket_from (fmax prev c) cum

  unfoldable pub per_bucket : List Float → List Float
  unfolding per_bucket_from
  per_bucket cum = per_bucket_from (ratio 0 1) cum

  -- `cur.zip(prev)`: with `any(|(c, p)| c < p)` and with c - p
  unfoldable pub any_less : List Float → List Float → Bool
  any_less [] prev = false
  any_less (c ∷ cur) [] = false
  any_less (c ∷ cur) (p ∷ prev) = lt c p || any_less cur prev

  unfoldable pub differences : List Float → List Float → List Float
  differences [] prev = []
  differences (c ∷ cur) [] = []
  differences (c ∷ cur) (p ∷ prev) = minus c p ∷ differences cur prev

  unfoldable pub is_reset : HistSnapshot → HistSnapshot → Bool
  unfolding same_bounds any_less
  is_reset prev cur =
      not (same_bounds prev.bounds cur.bounds)
      || lt cur.count prev.count
      || any_less cur.cum prev.cum

  unfoldable pub delta : HistSnapshot → HistSnapshot → HistAccum
  unfolding per_bucket differences
  delta prev cur =
      if is_reset prev cur
      then record {
        bounds = cur.bounds;
        counts = per_bucket cur.cum;
        sum = fmax cur.sum (ratio 0 1);
        count = fmax cur.count (ratio 0 1);
      }
      else record {
        bounds = cur.bounds;
        counts = per_bucket (differences cur.cum prev.cum);
        sum = fmax (minus cur.sum prev.sum) (ratio 0 1);
        count = fmax (minus cur.count prev.count) (ratio 0 1);
      }

  unfoldable pub sum_from : Float → List Float → Float
  sum_from acc [] = acc
  sum_from acc (c ∷ counts) = sum_from (plus acc c) counts

  unfoldable pub total : HistAccum → Float
  unfolding sum_from
  total h = sum_from (ratio 0 1) h.counts

  unfoldable pub accum_is_empty : HistAccum → Bool
  unfolding total
  accum_is_empty h = le (total h) (ratio 0 1)

  -- `a += b` of each pair
  unfoldable pub add_each : List Float → List Float → List Float
  add_each [] d = []
  add_each (a ∷ as_) [] = a ∷ as_
  add_each (a ∷ as_) (b ∷ bs) = plus a b ∷ add_each as_ bs

  unfoldable pub add : HistAccum → HistAccum → HistAccum
  unfolding add_each
  add h d =
      if is_empty d.counts
      then h
      else if not (same_bounds h.bounds d.bounds) || not (length h.counts == length d.counts)
      then d
      else record h {
        counts = add_each h.counts d.counts;
        sum = plus h.sum d.sum;
        count = plus h.count d.count;
      }

  unfoldable pub clamp01 : Float → Float
  clamp01 x = if lt x (ratio 0 1) then ratio 0 1 else if lt (ratio 1 1) x then ratio 1 1 else x

  unfoldable pub last_of : List Float → Option Float
  last_of [] = none
  last_of (x ∷ []) = some x
  last_of (x ∷ y ∷ xs) = last_of (y ∷ xs)

  -- the lower edge of a bucket: the edge below, or zero under the first
  abbrev lower_of : Option Float → Float → Float
  lower_of none upper = fmin (ratio 0 1) upper
  lower_of (some edge) upper = edge

  -- the loop of `quantile`; `below` is the edge under the bucket, none at the first
  unfoldable pub quantile_from :
      List Float → List Float → Option Float → Float → Float → Option Float → Option Float
  unfolding clamp01
  quantile_from [] bounds below rank seen last = last
  quantile_from (c ∷ counts) [] below rank seen last =
      let rest =
        quantile_from counts [] below rank (if le c (ratio 0 1) then seen else plus seen c) last in
      if not (le c (ratio 0 1)) && le rank (plus seen c) then last else rest
  quantile_from (c ∷ counts) (upper ∷ bounds) below rank seen last =
      let lower = lower_of below upper in
      let rest =
        quantile_from counts bounds (some upper) rank
          (if le c (ratio 0 1) then seen else plus seen c) last in
      if not (le c (ratio 0 1)) && le rank (plus seen c)
      then some (plus lower (times (minus upper lower) (clamp01 (over (minus rank seen) c))))
      else rest

  unfoldable pub quantile : HistAccum → Float → Option Float
  unfolding total quantile_from last_of clamp01
  quantile h q =
      if le (total h) (ratio 0 1) || is_empty h.bounds
      then none
      else quantile_from h.counts h.bounds none (times (clamp01 q) (total h)) (ratio 0 1)
          (last_of h.bounds)

  -- the loop of `fraction_le`: what was seen up to `x`
  unfoldable pub seen_le : List Float → List Float → Option Float → Float → Float → Float
  unfolding clamp01
  seen_le [] bounds below x seen = seen
  seen_le (c ∷ counts) [] below x seen = seen
  seen_le (c ∷ counts) (upper ∷ bounds) below x seen =
      let lower = lower_of below upper in
      let rest = seen_le counts bounds (some upper) x (plus seen c) in
      if le upper x
      then rest
      else if lt lower x
      then plus seen (times c (clamp01 (over (minus x lower) (minus upper lower))))
      else seen

  unfoldable pub fraction_le : HistAccum → Float → Option Float
  unfolding total seen_le clamp01
  fraction_le h x =
      if le (total h) (ratio 0 1) || is_empty h.bounds || not (is_finite x)
      then none
      else some (clamp01 (over (seen_le h.counts h.bounds none x (ratio 0 1)) (total h)))

  unfoldable pub round3 : Float → Float
  round3 v = over (round (times v (ratio 1000 1))) (ratio 1000 1)

  pub record HistSummary : Type 0 where
    pub p50_ms : Float
    pub p90_ms : Float
    pub p99_ms : Float
    pub avg_ms : Float
    pub count : Float

  pub record RawSummary : Type 0 where
    pub p50 : Float
    pub p90 : Float
    pub p99 : Float
    pub avg : Float
    pub count : Float

  infixl 5 ◌>>=◌
  abbrev ◌>>=◌ : {A B : Type 0} → Option A → (A → Option B) → Option B
  none >>= f = none
  some a >>= f = f a

  abbrev ms_of : HistAccum → Float → Option Float
  ms_of h q = quantile h q >>= λ s. some (round3 (times s (ratio 1000 1)))

  -- the histogram's own count, else the sum of its buckets
  abbrev count_or_total : HistAccum → Float
  count_or_total h = if lt (ratio 0 1) h.count then h.count else total h

  unfoldable pub summary : HistAccum → Option HistSummary
  unfolding quantile round3 total
  summary h = do
    p50 ← ms_of h (ratio 1 2)
    p90 ← ms_of h (ratio 9 10)
    p99 ← ms_of h (ratio 99 100)
    some record {
      p50_ms = p50;
      p90_ms = p90;
      p99_ms = p99;
      avg_ms = round3 (times (over h.sum (count_or_total h)) (ratio 1000 1));
      count = total h;
    }

  unfoldable pub summary_raw : HistAccum → Option RawSummary
  unfolding quantile round3 total
  summary_raw h = do
    p50 ← quantile h (ratio 1 2)
    p90 ← quantile h (ratio 9 10)
    p99 ← quantile h (ratio 99 100)
    some record {
      p50 = round3 p50;
      p90 = round3 p90;
      p99 = round3 p99;
      avg = round3 (over h.sum (count_or_total h));
      count = total h;
    }
