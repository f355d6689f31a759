-- ===== src/Rules/Evaluate/Levels.antt =====
-- The level rules of the disk do not flap around their line.
use lss.Base.{
  ℕ, ◌+◌, ◌≡◌, refl, sym, ap, ◌∙◌, String, Bool, true, false, not, ◌&&◌, arith, leb, if◌then◌else◌,
  any, unwrap_or, is_none_or,
}
use lss.Base.Float.{F64}
use lss.Config.{RulesConfig}
use lss.Rules.Sustained.{Sustained, Edge, no_edge, fire, recover, step, cooled}
use lss.Rules.Types.{Severity, AlertEvent, DiskObs, Observation, used_pct, alert, push_edge}
use lss.Rules.Eval.Counters.{is_over, check_level}
use lss.Rules.Evaluate.Streak.{is_fresh}

abbrev pub is_recovery : AlertEvent → Bool
is_recovery a = a.recovered

is_fire : Edge → Bool
is_fire fire = true
is_fire _ = false

is_recover : Edge → Bool
is_recover recover = true
is_recover _ = false

any-push_edge :
    (e : Edge) (now : ℕ) (rule : String) (sev : Severity) (on off : String)
    → (any is_fresh (push_edge e now rule sev on off) ≡ is_fire e)
      × (any is_recovery (push_edge e now rule sev on off) ≡ is_recover e)
unfolding push_edge alert is_fire is_recover
any-push_edge fire now rule sev on off = (refl, refl)
any-push_edge recover now rule sev on off = (refl, refl)
any-push_edge no_edge now rule sev on off = (refl, refl)

-- the edges of a step whose condition depends on whether the rule is firing
step-edges :
    (s : Sustained) (now : ℕ) (below over : Bool) (hold cooldown : ℕ)
    → let r = step s now (if s.announced then below else over) hold cooldown in
      (is_recover r.1 ≡ (s.announced && not below))
      × (is_fire r.1 ≡ (
          not s.announced
          && (over
              && (leb (unwrap_or s.since now + hold) now
                  && is_none_or s.last_sent (λ t. leb (t + cooldown) now)))))
      × (r.0.announced ≡ (if s.announced then below else is_fire r.1))
unfolding step cooled is_fire is_recover
step-edges s now below over hold cooldown = (ground arith, ground arith, ground arith)

module _ (F : F64) (cfg : RulesConfig F) (o : Observation F) where
  open F use {Float, minus, le}

  -- A level rule that is firing sends its recovery exactly when the disk is below the line by more than the
  -- margin, and stays firing until then; one that is not firing sends its alert exactly when the disk is
  -- at the line or over, has been for the hold time, and the cooldown is over. No check sends both.
  pub level_exact :
      (d : DiskObs) (line : Float) (rule : String) (sev : Severity) (s : Sustained)
      → (any is_recovery (check_level F cfg o d line rule sev s).1
          ≡ (s.announced && not (le (minus line cfg.disk_recover_margin_pct) (used_pct F d))))
        × (any is_fresh (check_level F cfg o d line rule sev s).1 ≡ (
            not s.announced
            && (le line (used_pct F d)
                && (leb (unwrap_or s.since o.now + cfg.disk_secs) o.now
                    && is_none_or s.last_sent (λ t. leb (t + cfg.cooldown_secs) o.now)))))
        × ((check_level F cfg o d line rule sev s).0.announced ≡ (
            if s.announced
            then le (minus line cfg.disk_recover_margin_pct) (used_pct F d)
            else any is_fresh (check_level F cfg o d line rule sev s).1))
  unfolding check_level is_over
  level_exact d line rule sev s =
      let below = le (minus line cfg.disk_recover_margin_pct) (used_pct F d) in
      let (recovers, fires, stays) =
        step-edges s o.now below (le line (used_pct F d)) cfg.disk_secs cfg.cooldown_secs in
      let edge =
        (step s o.now (if s.announced then below else le line (used_pct F d)) cfg.disk_secs
          cfg.cooldown_secs).1 in
      let (fresh, recovery) = any-push_edge edge o.now rule sev _ _ in
      (
        recovery ∙ recovers,
        fresh ∙ fires,
        stays ∙ ap (λ b. if s.announced then below else b) (sym fresh),
      )
