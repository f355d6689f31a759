-- ===== src/Rules/Evaluate/Announced.antt =====
-- rules.rs, firing after evaluate: a condition that lasts is shown as firing.
use lss.Base.{
  ℕ, ◌+◌, ◌≤◌, ◌≡◌, refl, ap, ◌∙◌, some, true, false, List, ◌∷◌, map, arith, head?, unwrap_or,
}
use lss.Base.Float.{F64}
use lss.Config.{RulesConfig}
use lss.Rules.Sustained.{Sustained, step}
use lss.Rules.Sustained.History.{
  Tick, streak_start, run, fire_times, IsCooled, run-since, run-announced, run-last_sent,
}
use lss.Rules.Types.{Host, Observation}
use lss.Rules.Evaluate.{firing}
use lss.Rules.Evaluate.History.{engine, serve_tick, serve_down_alone}

-- A timer whose condition has held for the hold time, out of the cooldown, is announced.
announced_in_time :
    (hold cooldown : ℕ) (h : List Tick) (t : Tick)
    → t.cond ≡ true
    → unwrap_or (streak_start h) t.now + hold ≤ t.now
    → IsCooled hold cooldown (head? (fire_times hold cooldown h)) t.now
    → (run hold cooldown (t ∷ h)).announced ≡ true
unfolding run step
announced_in_time hold cooldown h t c held cool =
    ground (
      arith,
      run-since hold cooldown h,
      run-announced hold cooldown h,
      run-last_sent hold cooldown h,
    )

module _ (F : F64) (host : Host) (cfg : RulesConfig F) where
  -- An outage is announced: once the serve has been down at every observation for serve_down_secs,
  -- and the cooldown since the last alert of the rule is over, "serve_down" is the first rule that
  -- firing lists.
  pub outage_announced :
      (h : List (Observation F)) (o : Observation F)
      → o.serve_up ≡ false
      → unwrap_or (streak_start (map (serve_tick F host cfg) h)) o.now + cfg.serve_down_secs ≤ o.now
      → IsCooled cfg.serve_down_secs cfg.cooldown_secs
          (head? (fire_times cfg.serve_down_secs cfg.cooldown_secs (map (serve_tick F host cfg) h)))
          o.now
      → head? (firing F (engine F host cfg (o ∷ h)) o.now) ≡ some "serve_down"
  unfolding firing
  outage_announced h o down held cool =
      let announced : (engine F host cfg (o ∷ h)).serve_down.announced ≡ true =
        ap (λ (s : Sustained). s.announced) (serve_down_alone F host cfg (o ∷ h))
        ∙ announced_in_time cfg.serve_down_secs cfg.cooldown_secs (map (serve_tick F host cfg) h)
            (serve_tick F host cfg o) (rw down refl) held cool in
      rw announced refl
