-- ===== src/Rules/Evaluate/Streak.antt =====
-- The decode-speed alert needs a streak of different probes.
use lss.Base.{
  unwrap_or, or_else, ℕ, ◌≡◌, Option, none, some, Bool, false, not, List, [], ◌∷◌, ◌++◌, ◌==◌,
  if◌then◌else◌, any,
}
use lss.Base.Float.{F64}
use lss.Config.{RulesConfig}
use lss.Rules.Types.{AlertEvent, Observation, Host}
use lss.Rules.State.{C1State, new_c1, ◌⨟◌}
use lss.Rules.Eval.Decode.{on_probe, eval_c1_stale}

abbrev pub is_fresh : AlertEvent → Bool
is_fresh a = not a.recovered

module _ (F : F64) where
  open F use {Float, times, lt}

  -- No two probes of a streak have the same stamp.
  abbrev pub Distinct : List (ℕ × Float) → Type 0
  Distinct [] = Unit
  Distinct (p ∷ r) = (any (λ q. q.0 == p.0) r ≡ false) × Distinct r

  module _ (host : Host) (cfg : RulesConfig F) where
    -- the decode-speed state after a history of observations, newest first
    unfoldable pub decode_run : List (Observation F) → C1State F
    unfolding on_probe eval_c1_stale
    decode_run [] = new_c1 F
    decode_run (o ∷ h) =
        let c = decode_run h in
        if o.bench_active
        then c
        else ((on_probe F host cfg o o.probe_tok_s ⨟ eval_c1_stale F host cfg o) c).0

    -- The specification: what a reading makes of a run of low readings with their stamps. There is no
    -- judgement without a baseline; a reading that is not low ends the run.
    unfoldable pub extended :
        Observation F → Option Float → Option Float → List (ℕ × Float) → List (ℕ × Float)
    extended o none baseline run = run
    extended o (some v) none run = run
    extended o (some v) (some baseline) run =
        if lt v (times cfg.c1_ratio baseline)
        then (if any (λ (p : ℕ × Float). p.0 == unwrap_or o.probe_ts o.now) run
            then run
            else run ++ (unwrap_or o.probe_ts o.now, v) ∷ [])
        else []

    -- the baseline after a history
    abbrev pub baseline_after : List (Observation F) → Option Float
    baseline_after h = or_else cfg.c1_baseline_tok_s (decode_run h).learned_baseline

    -- the low readings since the newest one that was not low; those of a benchmark do not count
    unfoldable pub low_run : List (Observation F) → List (ℕ × Float)
    unfolding extended
    low_run [] = []
    low_run (o ∷ h) =
        let run = low_run h in
        if o.bench_active then run else extended o o.probe_tok_s (baseline_after h) run
