-- ===== src/Series.antt =====
-- crates/lss-core/src/series.rs: the rollup of samples into buckets, and the layout of an answer.
pub mod Rollup
pub mod Layout
pub mod Builder
pub mod Gateway
pub mod Points
use lss.Base.{
  ℕ, ◌+◌, ◌-◌, ◌*◌, ◌/◌, ◌%◌, String, Option, none, some, Bool, true, false, not, ◌&&◌, List, [],
  ◌∷◌, ltb, leb, ◌==◌, if◌then◌else◌, is_some_and, is_empty, max, min, unwrap_or, ℤ, sub_ℕ,
}
use lss.Base.Float.{F64}
use lss.Base.Map.{BTreeMap, get, insert, string_ord}

module _ (F : F64) where
  open F use {Float, ratio, plus, fmax, fmin}

  pub record Agg : Type 0 where
    pub sum : Float
    -- `min` and `max`
    pub lowest : Float
    pub highest : Float
    pub n : Float

  -- `Agg::one`
  unfoldable pub one : Float → Agg
  one v = record { sum = v; lowest = v; highest = v; n = ratio 1 1 }

  unfoldable pub merge : Agg → Agg → Agg
  merge a o = record {
    sum = plus a.sum o.sum;
    lowest = fmin a.lowest o.lowest;
    highest = fmax a.highest o.highest;
    n = plus a.n o.n;
  }

  pub record RollupBatch : Type 0 where
    pub res : ℕ
    pub ts : ℕ
    pub rows : BTreeMap String Agg

  pub record Roller : Type 0 where
    pub res : ℕ
    pub bucket : Option ℕ
    pub acc : BTreeMap String Agg

  -- `Roller::new`
  unfoldable pub new_roller : ℕ → Roller
  new_roller res = record { res = res; bucket = none; acc = [] }

  -- `self.bucket.take()?`, and the rows if there are any
  unfoldable pub batch_of : ℕ → Option ℕ → BTreeMap String Agg → Option RollupBatch
  batch_of res none acc = none
  batch_of res (some ts) acc =
      if is_empty acc then none else some record { res = res; ts = ts; rows = acc }

  unfoldable pub flush : Roller → Roller × Option RollupBatch
  unfolding batch_of
  flush r = (
    record r { bucket = none; acc = elim r.bucket [ none ↦ r.acc | some ts ↦ [] ] },
    batch_of r.res r.bucket r.acc,
  )

  unfoldable pub merge_point : Option Agg → Float → Agg
  unfolding one merge
  merge_point none v = one v
  merge_point (some a) v = merge a (one v)

  unfoldable pub merge_points : BTreeMap String Agg → List (String × Float) → BTreeMap String Agg
  unfolding merge_point
  merge_points acc [] = acc
  merge_points acc ((name, v) ∷ points) =
      merge_points (insert acc name (merge_point (get acc name) v)) points

  unfoldable pub bucket_start : ℕ → ℕ → ℕ
  bucket_start res ts = ts - ts % res

  unfoldable pub roll : Roller → ℕ → List (String × Float) → Roller × Option RollupBatch
  unfolding flush merge_points bucket_start
  roll r ts points =
      let start = bucket_start r.res ts in
      let (r', done) =
        if is_some_and r.bucket (λ b. not (b == start)) then flush r else (r, none) in
      (record r' { bucket = some start; acc = merge_points r'.acc points }, done)

abbrev pub max_points : ℕ
max_points = 600

abbrev pub raw_max_range : ℕ
raw_max_range = 7200

pub data Tier : Type 0 where
  raw m1 m10 : Tier

-- `Tier::res`: RES_RAW, RES_1M, RES_10M
unfoldable pub tier_res : Tier → ℕ
tier_res raw = 5
tier_res m1 = 60
tier_res m10 = 600

pub record Plan : Type 0 where
  pub tier : Tier
  pub range_s : ℕ
  pub step_s : ℕ
  pub start_ts : ℤ
  pub points : ℕ

-- `(a + b - 1) / b`
unfoldable pub ceil_div : ℕ → ℕ → ℕ
ceil_div a b = (a + b - 1) / b

-- `x.clamp(low, high)`
abbrev pub clamp : ℕ → ℕ → ℕ → ℕ
clamp low high x = min (max x low) high

unfoldable pub pick_tier : ℕ → ℕ → ℕ → ℕ → Tier
pick_tier want range_s keep_raw keep_1m =
    if ltb want 60 && leb range_s (min raw_max_range keep_raw)
    then raw
    else if ltb want 600 && leb range_s keep_1m
    then m1
    else m10

unfoldable pub plan : ℕ → ℕ → Option ℕ → ℕ × (ℕ × ℕ) → Plan
unfolding ceil_div pick_tier tier_res
plan now range step retention =
    let range_s = clamp 60 (max retention.1.1 60) range in
    let want = max (max (unwrap_or step 1) (ceil_div range_s max_points)) 1 in
    let tier = pick_tier want range_s retention.0 retention.1.0 in
    let res = tier_res tier in
    let step_s = ceil_div want res * res in
    let end = now - now % step_s + step_s in
    let points = clamp 1 max_points (ceil_div range_s step_s) in
    record {
      tier = tier;
      range_s = range_s;
      step_s = step_s;
      start_ts = sub_ℕ end (points * step_s);
      points = points;
    }

abbrev pub hist_columns : ℕ
hist_columns = 120

pub record HistPlan : Type 0 where
  pub res : ℕ
  pub step : ℕ
  pub start : ℤ
  pub columns : ℕ

unfoldable pub hist_plan : ℕ → ℕ → ℕ → HistPlan
unfolding ceil_div
hist_plan now range_s retention_1m =
    let res = if leb range_s (min retention_1m 86400) then 60 else 600 in
    let step = (ceil_div range_s hist_columns + res - 1) / res * res in
    let end = now - now % step + step in
    let cols = max (ceil_div range_s step) 1 in
    record { res = res; step = step; start = sub_ℕ end (cols * step); columns = cols }
