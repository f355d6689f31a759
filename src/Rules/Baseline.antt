-- ===== src/Rules/Baseline.antt =====
-- rules.rs: the methods of `Engine` on the decode-speed baseline that the startup repair calls.
pub mod Repair
use lss.Base.{
  ℕ, ◌-◌, Option, none, some, Bool, true, false, not, List, [], ◌∷◌, map, max, leb, if◌then◌else◌,
  length, drop,
}
use lss.Base.Float.{F64}
use lss.Config.{RulesConfig}
use lss.Rules.State.{C1State, Engine, new_c1}
use lss.Rules.Eval.Decode.{median}

module _ (F : F64) where
  open F use {Float}

  unfoldable pub c1_baseline_progress : Engine F → ℕ
  c1_baseline_progress e = length e.c1.baseline_samples

  unfoldable pub c1_streak_probes : Engine F → List ℕ
  c1_streak_probes e = map (λ p. p.0) e.c1.low_probes

  -- the probes that stay, and the stamps of those that are dropped
  unfoldable pub retain : (ℕ → Bool) → List (ℕ × Float) → List (ℕ × Float) × List ℕ
  retain still_valid [] = ([], [])
  retain still_valid (p ∷ ps) =
      let (stay, dropped) = retain still_valid ps in
      if still_valid p.0 then (p ∷ stay, dropped) else (stay, p.0 ∷ dropped)

  unfoldable pub retain_c1_streak : (ℕ → Bool) → Engine F → Engine F × List ℕ
  unfolding retain
  retain_c1_streak still_valid e =
      let (stay, dropped) = retain still_valid e.c1.low_probes in
      (record e { c1 = record e.c1 { low_probes = stay } }, dropped)

  unfoldable pub c1_needs_revalidation : Engine F → Bool
  c1_needs_revalidation e = not e.c1.validated

  unfoldable pub relearn_c1_baseline : RulesConfig F → List Float → Engine F → Engine F
  relearn_c1_baseline cfg valid_values e =
      let want = max cfg.c1_baseline_probes 1 in
      let recent = drop (length valid_values - want) valid_values in
      record e {
        c1 = record (new_c1 F) {
          baseline_samples = recent;
          learned_baseline = if leb want (length recent) then some (median F recent) else none;
          last_sent = e.c1.last_sent;
          validated = true;
        };
      }
