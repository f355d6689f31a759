-- ===== src/Rules/Evaluate/Stamps/Whole.antt =====
-- The events of a whole evaluation.
use lss.Base.{ℕ, Option, none, some, Bool, List, [], ◌∷◌, All, leb, ◌+◌, is_some_and, unwrap_or, ℤ}
use lss.Base.Float.{F64}
use lss.Config.{RulesConfig}
use lss.Base.Map.{string_ord}
use lss.Rules.Sustained.{Edge, no_edge, fire, recover, step}
use lss.Rules.Windows.{FlapTracker}
use lss.Rules.Types.{AlertEvent, GpuObs, Observation, Host}
use lss.Rules.State.{Engine}
use lss.Rules.Eval.Gpus.{
  start_reading, digest_period_secs, check_missing, is_excluded, on_gpu, on_gpus, close_digest,
  on_reading, eval_gpus,
}
use lss.Rules.Eval.Decode.{
  judge, judge_low, judge_good, on_probe, stale_events, flaps_after, c1_stale_threshold,
  c1_stale_fire_hold_secs, eval_c1_stale, eval_c1,
}
use lss.Rules.Evaluate.Emits.{Each, Each-nil, Each-append, Each-if-pair, Emits, Emits-seq}
use lss.Rules.Evaluate.{remember, rules, test_events, evaluate}
use lss.Rules.Evaluate.Stamps.{
  IsStamped, map-IsStamped, stamp_rules, eval_serve_down-Stamps, eval_gate_down-Stamps,
  eval_restarts-Stamps, eval_xids-Stamps, eval_queue-Stamps, eval_rejects-Stamps,
  eval_omp_default-Stamps, eval_charging-Stamps, eval_cold_budget-Stamps, eval_disk-Stamps,
}

module _ (F : F64) (cfg : RulesConfig F) (o : Observation F) (host : Host) where
  abbrev Stamps : {S : Type 0} → (S → S × List AlertEvent) → Type 0
  Stamps = Emits (IsStamped o.now)

  check_missing-Stamps : Stamps (check_missing F host cfg o)
  unfolding check_missing
  check_missing-Stamps = record { at = λ e. search stamp_rules }

  on_gpu-Stamps : (dt : ℕ) (g : GpuObs F) → Stamps (on_gpu F host cfg o dt g)
  unfolding on_gpu
  on_gpu-Stamps dt g = record {
    at = λ e. Each-if-pair (is_excluded F host cfg o g) _ _ Each-nil (search stamp_rules);
  }

  on_gpus-Stamps : (dt : ℕ) (gs : List (GpuObs F)) → Stamps (on_gpus F host cfg o dt gs)
  unfolding on_gpus
  on_gpus-Stamps dt [] = record { at = λ e. Each-nil }
  on_gpus-Stamps dt (g ∷ gs) = Emits-seq (on_gpu-Stamps dt g) (on_gpus-Stamps dt gs)

  close_digest-Stamps : Stamps (close_digest F host cfg o)
  unfolding close_digest
  close_digest-Stamps = record {
    at = λ e.
        Each-if-pair (is_some_and e.digest.window_start (λ s. leb (s + digest_period_secs) o.now)) _
          _ (search stamp_rules) Each-nil;
  }

  on_reading-Stamps : (gs : Option (List (GpuObs F))) → Stamps (on_reading F host cfg o gs)
  unfolding on_reading
  on_reading-Stamps none = record { at = λ e. Each-nil }
  on_reading-Stamps (some gs) = record {
    at = λ e.
        (Emits-seq (on_gpus-Stamps _ gs) close_digest-Stamps).at (start_reading F host cfg o e);
  }

  eval_gpus-Stamps : Stamps (eval_gpus F host cfg o)
  unfolding eval_gpus
  eval_gpus-Stamps = Emits-seq check_missing-Stamps (on_reading-Stamps o.gpus)

  judge-Stamps : (v : F.Float) (b : Option F.Float) → Stamps (judge F host cfg o v b)
  unfolding judge judge_low judge_good
  judge-Stamps v none = record { at = λ c. Each-nil }
  judge-Stamps v (some b) = record {
    at = λ c.
        Each-if-pair (F.lt v (F.times cfg.c1_ratio b)) _ _ (search stamp_rules)
          (search stamp_rules);
  }

  on_probe-Stamps : (v : Option F.Float) → Stamps (on_probe F host cfg o v)
  unfolding on_probe
  on_probe-Stamps none = record { at = λ c. Each-nil }
  on_probe-Stamps (some v) = record { at = λ c. (judge-Stamps v _).at _ }

  stale_events-IsStamped :
      (edge : Edge) (quiet announced : Bool) (d w : ℤ) (flaps : FlapTracker)
      → Each (IsStamped o.now) (stale_events F host cfg o edge quiet announced d w flaps)
  unfolding stale_events
  stale_events-IsStamped fire quiet announced d w flaps = search stamp_rules
  stale_events-IsStamped recover quiet announced d w flaps = search stamp_rules
  stale_events-IsStamped no_edge quiet announced d w flaps = search stamp_rules

  eval_c1_stale-Stamps : Stamps (eval_c1_stale F host cfg o)
  unfolding eval_c1_stale
  eval_c1_stale-Stamps = record {
    at = λ c.
        let seen = unwrap_or c.last_valid_ts o.now in
        let late = leb (seen + c1_stale_threshold F host cfg o) o.now in
        let edge = (step c.stale o.now late c1_stale_fire_hold_secs cfg.cooldown_secs).1 in
        let flaps = flaps_after F host cfg o edge c.stale_flaps in
        stale_events-IsStamped edge _ flaps.muted_announced _ _ flaps;
  }

  eval_c1-Stamps : Stamps (eval_c1 F host cfg o)
  unfolding eval_c1
  eval_c1-Stamps = record {
    at = λ e.
        Each-if-pair o.bench_active _ _ Each-nil
          ((Emits-seq (on_probe-Stamps o.probe_tok_s) eval_c1_stale-Stamps).at e.c1);
  }

  rules-Stamps : Stamps (rules F host cfg o)
  unfolding rules
  rules-Stamps =
      Emits-seq
        (Emits-seq
          (Emits-seq
            (Emits-seq
              (Emits-seq
                (Emits-seq
                  (Emits-seq
                    (Emits-seq
                      (Emits-seq
                        (Emits-seq
                          (Emits-seq (eval_serve_down-Stamps F cfg o)
                            (eval_gate_down-Stamps F cfg o))
                          (eval_restarts-Stamps F cfg o))
                        (eval_xids-Stamps F cfg o))
                      (eval_queue-Stamps F cfg o))
                    eval_gpus-Stamps)
                  eval_c1-Stamps)
                (eval_rejects-Stamps F cfg o))
              (eval_omp_default-Stamps F cfg o))
            (eval_charging-Stamps F cfg o))
          (eval_cold_budget-Stamps F cfg o))
        (eval_disk-Stamps F cfg o)

  -- Whatever the state and the observation, every event of an evaluation carries the
  -- observation's time, and the text of a recovery begins "RECOVERED: ".
  pub evaluate-IsStamped : (e : Engine F) → All (IsStamped o.now) (evaluate F host cfg o e).1
  unfolding evaluate test_events
  evaluate-IsStamped e =
      (Each-append (rules-Stamps.at (remember F o e)) (map-IsStamped o.now o.test_alerts)).all
