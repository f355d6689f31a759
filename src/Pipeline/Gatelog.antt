-- ===== src/Pipeline/Gatelog.antt =====
-- The ten minutes of the gateway's log that the pipeline holds, against the records of its polls.
use mathlib.Core.Path.{subst}
use lss.Base.{
  ℕ, ◌-◌, ◌%◌, ◌≡◌, refl, sym, ap, ◌∙◌, inl, inr, Option, none, some, Bool, true, false, List, [],
  ◌∷◌, ◌++◌, arith, ◌==◌, ==_iff, if◌then◌else◌, is_some_and, Bool-cases, All,
}
use lss.Base.Float.{F64}
use lss.GateLog.{AuditRecord}
use lss.GateLog.Lane.{Addresses, LogDelta, no_delta, merge, merge_lane}
use lss.GateLog.Counts.{log, lane_of, parts, IsCounted, lane-IsCounted}
use lss.GateLog.Merged.{lane-IsOrdered, merge_lane-IsCounted}
use lss.Hist.Tracker.{HistSet, ClosedWindow, observe}
use lss.Model.{Sample}
use lss.Series.{RollupBatch, roll}
use lss.Series.Points.Engine.{sample_points}
use lss.Pipeline.{
  Write, write_rollup, write_hist_window, write_gatelog, Pipeline, rollups, window_writes,
  gate_writes, gate_after, push,
}
use lss.Pipeline.Parts.{Poll, run}

module _ (F : F64) (std : Addresses) (records : Poll F → List (AuditRecord F)) where
  -- the log of a poll is that of its records
  abbrev pub Logged : Poll F → Type 0
  Logged x = x.0.log ≡ log F std (records x)

  abbrev pub bucket_of_poll : Poll F → ℕ
  bucket_of_poll x = x.0.ts - x.0.ts % 600

  abbrev pub newest_bucket : List (Poll F) → Option ℕ
  newest_bucket [] = none
  newest_bucket (x ∷ h) = some (bucket_of_poll x)

  -- the records of the newest polls that lie in one bucket
  unfoldable pub bucket_records : List (Poll F) → List (AuditRecord F)
  bucket_records [] = []
  bucket_records (x ∷ h) =
      let earlier = bucket_records h in
      (if is_some_and (newest_bucket h) (λ b. b == bucket_of_poll x) then earlier else [])
      ++ records x

  -- what is held counts these records, in both lanes
  abbrev Open : List (Poll F) → Option (ℕ × LogDelta F) → Type 0
  Open h none = h ≡ []
  Open h (some (t, d)) =
      (newest_bucket h ≡ some t)
      × ((p : Bool) → IsCounted F std p (bucket_records h) (parts F std (lane_of F std p d)))

  lane_of-merge :
      (p : Bool) (d d' : LogDelta F)
      → lane_of F std p (merge F d d') ≡ merge_lane F (lane_of F std p d) (lane_of F std p d')
  unfolding lane_of merge
  lane_of-merge true d d' = refl
  lane_of-merge false d d' = refl

  merge-IsCounted :
      (p : Bool) (rs rs' : List (AuditRecord F)) (d d' : LogDelta F)
      → d' ≡ log F std rs'
      → IsCounted F std p rs (parts F std (lane_of F std p d))
      → IsCounted F std p (rs ++ rs') (parts F std (lane_of F std p (merge F d d')))
  merge-IsCounted p rs rs' d d' e v =
      rw (lane_of-merge p d d', e)
        (merge_lane-IsCounted F std p rs rs' (lane_of F std p d) (lane_of F std p (log F std rs'))
          (lane-IsOrdered F std p rs') v (lane-IsCounted F std p rs'))

  nothing-IsCounted : (p : Bool) → IsCounted F std p [] (parts F std (lane_of F std p (no_delta F)))
  unfolding log
  nothing-IsCounted p = lane-IsCounted F std p []

  step-Open :
      (h : List (Poll F)) (x : Poll F) (g : Option (ℕ × LogDelta F))
      → Logged x
      → Open h g
      → Open (x ∷ h) (some (gate_after F (bucket_of_poll x) x.0.log g))
  unfolding gate_after bucket_records
  step-Open [] x none e o =
      (refl, λ p. merge-IsCounted p [] (records x) (no_delta F) x.0.log e (nothing-IsCounted p))
  step-Open (y ∷ h) x none e o = absurd (ground (arith, o))
  step-Open [] x (some (t, d)) e o = absurd (ground (arith, o.0))
  step-Open (y ∷ h) x (some (t, d)) e o =
      let same : bucket_of_poll y ≡ t = ground (arith, o.0) in
      elim (Bool-cases (t == bucket_of_poll x)) [
        | inl q ↦
            let u : (bucket_of_poll y == bucket_of_poll x) ≡ true =
              ap (λ b. b == bucket_of_poll x) same ∙ q in
            rw (q, u)
              (
                ap some (sym ((==_iff t (bucket_of_poll x)).0 q)),
                λ p. merge-IsCounted p (bucket_records (y ∷ h)) (records x) d x.0.log e (o.1 p),
              )
        | inr q ↦
            let u : (bucket_of_poll y == bucket_of_poll x) ≡ false =
              ap (λ b. b == bucket_of_poll x) same ∙ q in
            rw (q, u)
              (
                refl,
                λ p. merge-IsCounted p [] (records x) (no_delta F) x.0.log e (nothing-IsCounted p),
              )
      ]

  run-Open : (replace : Bool) (h : List (Poll F)) → All Logged h → Open h (run F replace h).gate
  unfolding run push
  run-Open replace [] l = refl
  run-Open replace (x ∷ h) l = step-Open h x (run F replace h).gate l.0 (run-Open replace h l.1)

  -- the logs among the writes, in their order
  unfoldable pub written_logs : List (Write F) → List (ℕ × LogDelta F)
  written_logs [] = []
  written_logs (write_rollup batch replace ∷ ws) = written_logs ws
  written_logs (write_hist_window w ∷ ws) = written_logs ws
  written_logs (write_gatelog t d replace ∷ ws) = (t, d) ∷ written_logs ws

  written_logs-rollups :
      (replace : Bool) (b : Option (RollupBatch F)) (ws : List (Write F))
      → written_logs (rollups F replace b ++ ws) ≡ written_logs ws
  unfolding written_logs
  written_logs-rollups replace none ws = refl
  written_logs-rollups replace (some b) ws = refl

  written_logs-windows :
      (closed : List (ClosedWindow F)) (ws : List (Write F))
      → written_logs (window_writes F closed ++ ws) ≡ written_logs ws
  unfolding written_logs window_writes
  written_logs-windows [] ws = refl
  written_logs-windows (w ∷ closed) ws = written_logs-windows closed ws

  written_logs-gate :
      (bucket : ℕ) (replace : Bool) (t : ℕ) (d : LogDelta F)
      → written_logs (gate_writes F bucket replace (some (t, d)))
        ≡ (if t == bucket then [] else (t, d) ∷ [])
  unfolding written_logs gate_writes
  written_logs-gate bucket replace t d = elim (Bool-cases (t == bucket)) [
    | inl e ↦ rw e refl
    | inr e ↦ rw e refl
  ]

  written_logs-push :
      (q : Pipeline F) (s : Sample F) (hists : Option (HistSet F)) (replace : Bool)
      → written_logs (push F q s hists replace).1
        ≡ written_logs (gate_writes F (s.ts - s.ts % 600) replace q.gate)
  unfolding push
  written_logs-push q s hists replace =
      let points = sample_points F q.prev s in
      written_logs-rollups replace (roll F q.m1 s.ts points).1 _
      ∙ (written_logs-rollups replace (roll F q.m10 s.ts points).1 _
          ∙ written_logs-windows (observe F q.latency s.ts hists).1 _)

  -- If the log of each poll is that of its records, the log that the pipeline holds after any polls is
  -- of the ten minutes of the newest poll and counts in either lane exactly the records of the polls
  -- since they began; and the next poll writes this log, under the start of those ten minutes, exactly
  -- if it lies in other ten minutes, and no other log.
  pub gate-IsCounted :
      (replace : Bool) (h : List (Poll F)) (t : ℕ) (d : LogDelta F) (p : Bool) (x : Poll F)
      → All Logged h
      → (run F replace h).gate ≡ some (t, d)
      → (newest_bucket h ≡ some t)
        × IsCounted F std p (bucket_records h) (parts F std (lane_of F std p d))
        × (written_logs (push F (run F replace h) x.0 x.1 replace).1
            ≡ (if t == bucket_of_poll x then [] else (t, d) ∷ []))
  gate-IsCounted replace h t d p x l e =
      let o = subst (Open h) e (run-Open replace h l) in
      (
        o.0,
        o.1 p,
        written_logs-push (run F replace h) x.0 x.1 replace
            ∙ (ap (λ g. written_logs (gate_writes F (bucket_of_poll x) replace g)) e
                ∙ written_logs-gate (bucket_of_poll x) replace t d),
      )
