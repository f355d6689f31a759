-- ===== src/Pipeline/Parts.antt =====
-- The pipeline over a history of polls, newest first: each part is what it would be alone.
use lss.Base.{String, ℕ, ◌≡◌, refl, ap, Option, none, some, Bool, List, [], ◌∷◌, map}
use mathlib.Core.Path.{ap₂}
use lss.Base.Float.{F64}
use lss.Hist.Close as Latency
use lss.Hist.Close.{Scrape, ended}
use lss.Hist.Tracker.{HistSet, observe}
use lss.Hist.Close.{windows_exact}
use lss.Model.{Sample}
use lss.Series.{roll}
use lss.Series.Rollup as Rollup
use lss.Series.Points.Engine.{sample_points}
use lss.Pipeline.{Pipeline, new_pipeline, push}

module _ (F : F64) where
  -- a poll, with the histograms of its scrape
  abbrev pub Poll : Type 0
  Poll = Sample F × Option (HistSet F)

  unfoldable pub run : Bool → List Poll → Pipeline F
  run replace [] = new_pipeline F
  run replace ((s, hists) ∷ h) = (push F (run replace h) s hists replace).0

  abbrev pub last_sample : List Poll → Option (Sample F)
  last_sample [] = none
  last_sample (p ∷ h) = some p.0

  -- the points that each poll adds, by the poll before it
  unfoldable pub added_points : List Poll → List (ℕ × List (String × F.Float))
  added_points [] = []
  added_points ((s, hists) ∷ h) = (s.ts, sample_points F (last_sample h) s) ∷ added_points h

  abbrev pub scrapes : List Poll → List (Scrape F)
  scrapes = map (λ (p : Poll). (p.0.ts, p.1))

  run-prev : (replace : Bool) (h : List Poll) → (run replace h).prev ≡ last_sample h
  unfolding run push
  run-prev replace [] = refl
  run-prev replace (p ∷ h) = refl

  -- After any polls the two rollers are what they would be over the points of the polls alone, and
  -- the latency tracker what it would be over their scrapes alone.
  pub parts_alone :
      (replace : Bool) (h : List Poll)
      → ((run replace h).m1 ≡ Rollup.run F 60 (added_points h))
        × ((run replace h).m10 ≡ Rollup.run F 600 (added_points h))
        × ((run replace h).latency ≡ Latency.run F (scrapes h))
  unfolding run push added_points Rollup.run Latency.run
  parts_alone replace [] = (refl, refl, refl)
  parts_alone replace ((s, hists) ∷ h) =
      let (one, ten, latency) = parts_alone replace h in
      let same : sample_points F (run replace h).prev s ≡ sample_points F (last_sample h) s =
        ap (λ p. sample_points F p s) (run-prev replace h) in
      (
        ap₂ (λ r points. (roll F r s.ts points).0) one same,
        ap₂ (λ r points. (roll F r s.ts points).0) ten same,
        ap (λ l. (observe F l s.ts hists).0) latency,
      )
