-- ===== src/Series/Builder.antt =====
-- series.rs, `SeriesBuilder`: the rows of a tier are folded into the cells of an answer. The parallel
-- vectors of the source are one row for each token here, and the tokens come parsed.
pub mod Cells
pub mod Times
use lss.Base.{
  ℕ, zero, suc, ◌+◌, ◌-◌, ◌/◌, String, Option, none, some, Bool, true, false, List, [], ◌∷◌, map,
  ltb, leb, str_eq, if◌then◌else◌, ℤ, pos, negsuc,
}
use lss.Base.Float.{F64}
use lss.Series.{Agg, merge, Tier, raw, m1, m10, Plan}
use lss.Base.Map.{BTreeMap, insert, string_ord}

pub data AggKind : Type 0 where
  avg lowest highest sum : AggKind

unfoldable pub tier_name : Tier → String
tier_name raw = "raw"
tier_name m1 = "1m"
tier_name m10 = "10m"

-- the token as requested, and its metric name and aggregation
abbrev pub Token : Type 0
Token = String × (String × AggKind)

-- `ts - start_ts`, if that is not negative
unfoldable pub offset : ℕ → ℤ → Option ℕ
offset ts (pos s) = if ltb ts s then none else some (ts - s)
offset ts (negsuc n) = some (ts + n + 1)

unfoldable pub in_points : ℕ → ℕ → Option ℕ
in_points points idx = if leb points idx then none else some idx

unfoldable pub place : ℕ → ℕ → Option ℕ → Option ℕ
unfolding in_points
place points step none = none
place points step (some d) = in_points points (d / step)

-- the cell that a time falls into
unfoldable pub cell_of : Plan → ℕ → Option ℕ
unfolding offset place
cell_of p ts = place p.points p.step_s (offset ts p.start_ts)

module _ (F : F64) where
  pub record Row : Type 0 where
    pub token : Token
    pub cells : List (Option (Agg F))
    pub seen : Bool

  pub record SeriesBuilder : Type 0 where
    pub plan : Plan
    pub rows : List Row

  unfoldable pub empty_cells : ℕ → List (Option (Agg F))
  empty_cells zero = []
  empty_cells (suc n) = none ∷ empty_cells n

  unfoldable pub new_row : Plan → Token → Row
  unfolding empty_cells
  new_row p t = record { token = t; cells = empty_cells p.points; seen = false }

  unfoldable pub new_builder : Plan → List Token → SeriesBuilder
  unfolding new_row
  new_builder p tokens = record { plan = p; rows = map (new_row p) tokens }

  unfoldable pub know : String → Row → Row
  know metric r = if str_eq r.token.1.0 metric then record r { seen = true } else r

  unfoldable pub mark_known : SeriesBuilder → String → SeriesBuilder
  unfolding know
  mark_known b metric = record b { rows = map (know metric) b.rows }

  unfoldable pub merge_cell : Option (Agg F) → Agg F → Agg F
  merge_cell none a = a
  merge_cell (some c) a = merge F c a

  -- `match &mut self.cells[i][idx]`
  unfoldable pub put : List (Option (Agg F)) → ℕ → Agg F → List (Option (Agg F))
  unfolding merge_cell
  put [] idx a = []
  put (c ∷ cs) zero a = some (merge_cell c a) ∷ cs
  put (c ∷ cs) (suc idx) a = c ∷ put cs idx a

  unfoldable pub add_row : String → ℕ → Agg F → Row → Row
  unfolding put
  add_row metric idx a r =
      if str_eq r.token.1.0 metric then record r { cells = put r.cells idx a; seen = true } else r

  unfoldable pub add_at : String → Agg F → Option ℕ → SeriesBuilder → SeriesBuilder
  unfolding add_row
  add_at metric a none b = b
  add_at metric a (some idx) b = record b { rows = map (add_row metric idx a) b.rows }

  unfoldable pub add : SeriesBuilder → String → ℕ → Agg F → SeriesBuilder
  unfolding cell_of add_at
  add b metric ts a = add_at metric a (cell_of b.plan ts) b

  open F use {Float, ratio, times, over, fmax, round}

  -- `Agg::avg` and `Agg::pick`
  unfoldable pub average : Agg F → Float
  average a = over a.sum (fmax a.n (ratio 1 1))

  unfoldable pub pick : Agg F → AggKind → Float
  unfolding average
  pick a avg = average a
  pick a lowest = a.lowest
  pick a highest = a.highest
  pick a sum = a.sum

  unfoldable pub round4 : Float → Float
  round4 v = over (round (times v (ratio 10000 1))) (ratio 10000 1)

  unfoldable pub shown : AggKind → Option (Agg F) → Option Float
  unfolding pick round4
  shown kind none = none
  shown kind (some a) = some (round4 (pick a kind))

  pub record SeriesDoc : Type 0 where
    pub v : ℕ
    pub generated_at : ℕ
    pub range_s : ℕ
    pub step_s : ℕ
    pub start_ts : ℤ
    pub points : ℕ
    pub tier : String
    pub series : BTreeMap String (List (Option Float))
    pub unknown : List String

  -- the requested tokens whose metric was never seen
  unfoldable pub unknown_of : List Row → List String
  unknown_of [] = []
  unknown_of (r ∷ rows) = let rest = unknown_of rows in if r.seen then rest else r.token.0 ∷ rest

  unfoldable pub series_of :
      List Row → BTreeMap String (List (Option Float)) → BTreeMap String (List (Option Float))
  unfolding shown
  series_of [] doc = doc
  series_of (r ∷ rows) doc = series_of rows (insert doc r.token.0 (map (shown r.token.1.1) r.cells))

  unfoldable pub finish : SeriesBuilder → ℕ → SeriesDoc
  unfolding unknown_of series_of
  finish b now = record {
    v = 1;
    generated_at = now;
    range_s = b.plan.range_s;
    step_s = b.plan.step_s;
    start_ts = b.plan.start_ts;
    points = b.plan.points;
    tier = tier_name b.plan.tier;
    series = series_of b.rows [];
    unknown = unknown_of b.rows;
  }
