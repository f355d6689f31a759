-- ===== src/Examples/Stream.antt =====
-- The theorems on the pipeline and on the tables of the gateway's log, at two polls.
use mathlib.Core.List.{Memᴰ}
use lss.Base.{
  some, ◌&&◌, ◌==◌, if◌then◌else◌, ℕ, ◌-◌, ◌≤◌, ◌≡◌, refl, inr, ◌⊎◌, none, some, true, false, List,
  [], ◌∷◌, arith, length,
}
use lss.Base.Map.{update, insert, get}
use lss.Base.Map.Sorted.{sum_where}
use lss.Base.Sort.{sum_of}
use lss.GateLog.{AuditRecord}
use lss.GateLog.Lane.{no_lane, LogDelta, add, merge, no_delta}
use lss.GateLog.Counts.{log, lane_of, count, request, parts, IsCounted}
use lss.Model.{Sample}
use lss.Pipeline.{gate_after, push}
use lss.Pipeline.Parts as Pipe
use lss.Pipeline.Parts.{Poll}
use lss.Pipeline.Gatelog.{newest_bucket, bucket_records, written_logs, gate-IsCounted}
use lss.Series.Points.Engine.{sample_points}
use lss.Series.Points.Sane.{Finite, sample_points-Finite, gap_gives_no_rates}
use lss.Series.Gateway.{GatewayDoc, no_coverage, covers, coverage_since, coded_of, observe_codes}
use lss.Series.Gateway.Coverage as Coverage
use lss.Series.Gateway.Coverage.{Coded, Delta, Rising, covers-Coded}
use lss.Series.Gateway.Lanes.{takes, lane_requests, doc, lanes_exact}
use lss.Examples.Data.{milli, addresses}
use lss.Examples.Logs.{early, late}

abbrev poll_at : ℕ → Sample milli
poll_at ts = record {
  ts = ts;
  serve_up = true;
  model = none;
  metrics = none;
  gpus_ok = true;
  gpus = [];
  serve_ct = none;
  gate_ct = none;
  gate = none;
  log = log milli addresses early;
  users = [];
  slots = 0;
  engine = "";
  not_reported = [];
  gate_absent = false;
  gpu_source = "";
}

abbrev polls : List (Poll milli)
polls = (poll_at 605, none) ∷ (poll_at 599, none) ∷ []

abbrev records : Poll milli → List (AuditRecord milli)
records x = early

-- the log of the bucket from 600 on
abbrev held : LogDelta milli
held = merge milli (no_delta milli) (log milli addresses early)

bucket_open : (Pipe.run milli true polls).gate ≡ some (600, held)
unfolding Pipe.run push gate_after
bucket_open = refl

gate-IsCounted_example :
    (newest_bucket milli addresses records polls ≡ some 600)
    × IsCounted milli addresses true
        (bucket_records milli addresses records polls)
        (parts milli addresses (lane_of milli addresses true held))
    × (written_logs milli addresses records
          (push milli (Pipe.run milli true polls) (poll_at 1203) none true).1
        ≡ (if 600 == 1200 then [] else (600, held) ∷ []))
gate-IsCounted_example =
    gate-IsCounted milli addresses records true polls 600 held true (poll_at 1203, none)
      (refl, (refl, tt)) bucket_open

sample_points-Finite_example : Finite milli (sample_points milli (some (poll_at 599)) (poll_at 605))
sample_points-Finite_example = sample_points-Finite milli (some (poll_at 599)) (poll_at 605)

gap_gives_no_rates_example :
    sample_points milli (some (poll_at 500)) (poll_at 605) ≡ sample_points milli none (poll_at 605)
gap_gives_no_rates_example =
    gap_gives_no_rates milli (poll_at 500) (poll_at 605) (inr (omega arith))

-- a log from before the statuses were kept by key
abbrev uncoded : LogDelta milli
uncoded = record {
  public_lane = record (no_lane milli) { requests = 3 };
  trusted_lane = no_lane milli;
}

abbrev deltas : List (Delta milli)
deltas = (20, log milli addresses early) ∷ (10, uncoded) ∷ []

rising : Rising milli deltas
rising = ((omega arith, tt), (tt, tt))

covered : covers (Coverage.run milli deltas) 20 ≡ true
unfolding covers Coverage.run observe_codes coded_of log add sum_of update insert sum_where get
covered = refl

covers-Coded_example :
    Coded milli (log milli addresses early).trusted_lane
    × ((◌≡◌ {A = ℕ} 20 20) ⊎ Coded milli (log milli addresses early).public_lane)
covers-Coded_example =
    covers-Coded milli deltas 20 20 (log milli addresses early) rising covered (Memᴰ.head refl)
      (omega arith)

-- a delta whose trusted lane is coded and whose public lane is not counts as covered itself
abbrev half_coded : LogDelta milli
half_coded = record {
  public_lane = record (no_lane milli) { requests = 3 };
  trusted_lane = record (no_lane milli) {
    requests = 1;
    by_key_status = ("acme", (200, 1) ∷ []) ∷ [];
  };
}

half_coded_since : coverage_since (Coverage.run milli ((10, half_coded) ∷ [])) ≡ some 10
unfolding coverage_since Coverage.run observe_codes coded_of sum_of sum_where
half_coded_since = refl

abbrev probed_doc : GatewayDoc milli
probed_doc = doc milli addresses late ((7, 200) ∷ (9, 200) ∷ []) no_coverage none 30 900

lanes_exact_example :
    (lane_requests milli addresses probed_doc
      ≡ count (request milli addresses true) late
        ∷ (count (request milli addresses false) late - probed_doc.probes_excluded)
        ∷ [])
    × (probed_doc.probes_excluded
        ≡ takes milli no_coverage none
            ((7, 200) ∷ (9, 200) ∷ [])
            (λ c. count (λ r. request milli addresses false r && r.status == c) late))
    × (probed_doc.probes_excluded ≤ count (request milli addresses false) late)
    × (probed_doc.probes_excluded ≤ length {A = ℕ × ℕ} ((7, 200) ∷ (9, 200) ∷ []))
lanes_exact_example =
    lanes_exact milli addresses late ((7, 200) ∷ (9, 200) ∷ []) no_coverage none 30 900

-- the second probe finds no request left
one_excluded :
    takes milli no_coverage none
      ((7, 200) ∷ (9, 200) ∷ [])
      (λ c. count (λ r. request milli addresses false r && r.status == c) late)
    ≡ 1
unfolding takes count
one_excluded = refl
