-- ===== src/Pipeline/Writes.antt =====
-- What a poll writes to the tiers, against the history of polls.
use lss.Base.{
  ℕ, ◌-◌, ◌%◌, ◌≡◌, Bool, true, String, Option, none, some, ◌==◌, if◌then◌else◌, List, [], ◌∷◌,
  ◌++◌,
}
use lss.Base.Float.{F64}
use lss.Base.Map.{get, string_ord}
use lss.GateLog.Lane.{LogDelta}
use lss.Hist.Tracker.{HistSet, ClosedWindow}
use lss.Model.{Sample}
use lss.Series.{RollupBatch}
use lss.Series.Rollup.{turns, newest_start, aggregate, values}
use lss.Series.Points.Engine.{sample_points}
use lss.Pipeline.{Write, write_rollup, write_hist_window, write_gatelog, latency_batch}
use lss.Pipeline.Parts.{Poll, run, added_points}

module _ (F : F64) where
  -- The specification: the batch of a tier,
  pub batch_write : Bool → Option (RollupBatch F) → List (Write F)
  batch_write replace none = []
  batch_write replace (some b) = write_rollup b replace ∷ []

  -- what is stored of a window that is over: its histograms, and the batch of its latencies,
  pub window_write : List (ClosedWindow F) → List (Write F)
  window_write [] = []
  window_write (w ∷ ws) =
      (write_hist_window w ∷ write_rollup (latency_batch F w) true ∷ []) ++ window_write ws

  -- and the log of ten minutes that are over.
  pub log_write : ℕ → Bool → Option (ℕ × LogDelta F) → List (Write F)
  log_write ts replace none = []
  log_write ts replace (some (t, log)) =
      if t == ts - ts % 600 then [] else write_gatelog t log replace ∷ []

module _ (F : F64) (replace : Bool) (h : List (Poll F)) (s : Sample F)
    (hists : Option (HistSet F)) where
  -- the batch is of the newest bucket before `s`, which is over, and of all that was added in it
  abbrev pub IsBucket : ℕ → RollupBatch F → Type 0
  IsBucket res b =
      (turns F res s.ts (added_points F h) ≡ true)
      × (newest_start F res (added_points F h) ≡ some b.ts)
      × (b.res ≡ res)
      × ((name : String) → get b.rows name ≡ aggregate F (values F res name (added_points F h)))

  abbrev next : List (String × F.Float)
  next = sample_points F (run F replace h).prev s
