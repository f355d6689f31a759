-- ===== src/Pipeline.antt =====
-- crates/lss-collector/src/rollup.rs: Pipeline, which folds each poll into the stored tiers. What it
-- writes to the database is the list of the writes, in their order.
pub mod Parts
pub mod Gatelog
pub mod Writes
use lss.Base.{
  ℕ, ◌-◌, ◌%◌, String, Option, none, some, Bool, true, false, List, [], ◌∷◌, ◌++◌, map, ◌==◌,
  if◌then◌else◌,
}
use lss.Base.Float.{F64}
use lss.GateLog.Lane.{LogDelta, no_delta, merge}
use lss.Hist.Tracker.{
  HistSet, ClosedWindow, points, LatencyTracker, new_tracker, observe, LatencyNow, now,
}
use lss.Model.{Sample}
use lss.Series.{Agg, RollupBatch, Roller, new_roller, roll}
use lss.Series.Points.Engine.{sample_points}

abbrev pub res_1m : ℕ
res_1m = 60

abbrev pub res_10m : ℕ
res_10m = 600

module _ (F : F64) where
  open F use {Float, ratio, times, fmax}

  pub data Write : Type 0 where
    write_rollup : RollupBatch F → Bool → Write
    write_hist_window : ClosedWindow F → Write
    write_gatelog : ℕ → LogDelta F → Bool → Write

  pub record Pipeline : Type 0 where
    pub m1 : Roller F
    pub m10 : Roller F
    pub latency : LatencyTracker F
    pub gate : Option (ℕ × LogDelta F)
    pub prev : Option (Sample F)

  abbrev pub new_pipeline : Pipeline
  new_pipeline = record {
    m1 = new_roller F res_1m;
    m10 = new_roller F res_10m;
    latency = new_tracker F;
    gate = none;
    prev = none;
  }

  -- `Agg::from_row`
  unfoldable pub from_row : Float → Float → Float → Float → Agg F
  from_row avg lowest highest n =
      let n' = fmax n (ratio 1 1) in
      record { sum = times avg n'; lowest = lowest; highest = highest; n = n' }

  unfoldable pub latency_batch : ClosedWindow F → RollupBatch F
  unfolding from_row
  latency_batch w = record {
    res = w.res;
    ts = w.ts;
    rows = map (λ (p : String × Float × Float). (p.0, from_row p.1 p.1 p.1 p.2)) (points F w);
  }

  abbrev pub rollups : Bool → Option (RollupBatch F) → List Write
  rollups replace none = []
  rollups replace (some batch) = write_rollup batch replace ∷ []

  unfoldable pub window_writes : List (ClosedWindow F) → List Write
  unfolding latency_batch
  window_writes [] = []
  window_writes (w ∷ closed) =
      write_hist_window w ∷ write_rollup (latency_batch w) true ∷ window_writes closed

  -- the log of a bucket that is over is written
  unfoldable pub gate_writes : ℕ → Bool → Option (ℕ × LogDelta F) → List Write
  gate_writes bucket replace none = []
  gate_writes bucket replace (some (t, log)) =
      if t == bucket then [] else write_gatelog t log replace ∷ []

  -- `get_or_insert_with(..).1.merge(&sample.log)`, after the bucket that is over is taken
  unfoldable pub gate_after : ℕ → LogDelta F → Option (ℕ × LogDelta F) → ℕ × LogDelta F
  gate_after bucket log none = (bucket, merge F (no_delta F) log)
  gate_after bucket log (some (t, open_log)) =
      if t == bucket then (t, merge F open_log log) else (bucket, merge F (no_delta F) log)

  unfoldable pub push :
      Pipeline
      → Sample F
      → Option (HistSet F)
      → Bool
      → Pipeline × List Write × List (ClosedWindow F)
  unfolding window_writes gate_writes gate_after
  push p sample hists replace =
      let points = sample_points F p.prev sample in
      let (m1, batch_1) = roll F p.m1 sample.ts points in
      let (m10, batch_10) = roll F p.m10 sample.ts points in
      let (latency, closed) = observe F p.latency sample.ts hists in
      let bucket = sample.ts - sample.ts % res_10m in
      (
        record {
          m1 = m1;
          m10 = m10;
          latency = latency;
          gate = some (gate_after bucket sample.log p.gate);
          prev = some sample;
        },
        rollups replace batch_1
            ++ (rollups replace batch_10
                ++ (window_writes closed ++ gate_writes bucket replace p.gate)),
        closed,
      )

  -- stored samples, after a restart: no histograms, and nothing that is stored is replaced
  unfoldable pub replay : Pipeline → List (Sample F) → Pipeline × List Write
  unfolding push
  replay p [] = (p, [])
  replay p (s ∷ samples) =
      let (p', writes, closed) = push p s none false in
      let (p'', later) = replay p' samples in (p'', writes ++ later)

  abbrev pub gate_open_bucket : Pipeline → Option (ℕ × LogDelta F)
  gate_open_bucket p = p.gate

  abbrev pub latency_now : Pipeline → LatencyNow F
  latency_now p = now F p.latency
