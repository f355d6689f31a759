-- ===== src/Rules/Evaluate/Stamps.antt =====
-- The events that the rules on services, restarts and counters emit: their times and texts.
pub mod Whole
use lss.Base.{
  ℕ, String, ◌≡◌, refl, Option, none, some, Bool, true, false, List, [], ◌∷◌, ◌++◌, map, All, ltb,
  leb, ◌+◌, is_some_and, unwrap_or, All-append, concat, Bool-cases, inl, inr, arith, if◌then◌else◌,
  ℤ,
}
use lss.Base.Float.{F64}
use lss.Config.{RulesConfig}
use lss.Gate.{GateShadow}
use lss.Base.Map.{contains_key, string_ord}
use lss.Xid.{XidEvent}
use lss.Rules.Sustained.{Edge, no_edge, fire, recover, step}
use lss.Rules.Windows.{FlapTracker}
use lss.Rules.Types.{
  Severity, info, AlertEvent, RestartObs, GpuObs, DiskObs, Observation, Host, alert, push_edge,
}
use lss.Rules.State.{Engine, Eval, event_cooled, ◌⨟◌}
use lss.Rules.Eval.Service.{
  serve_events, eval_serve_down, eval_gate_down, charging, charging_of, eval_charging,
  cold_budget_of, cold_budget_step, eval_cold_budget, eval_omp_default, eval_queue,
}
use lss.Rules.Eval.Events.{
  on_restart, on_restarts, on_stable, on_stables, roles_where, is_stable, settle, eval_restarts,
  on_xid, on_xids, eval_xids,
}
use lss.Rules.Eval.Gpus.{
  start_reading, elapsed, digest_period_secs, check_missing, is_excluded, on_gpu, on_gpus,
  close_digest, on_reading, eval_gpus,
}
use lss.Rules.Eval.Decode.{
  judge, judge_low, judge_good, on_probe, stale_events, flaps_after, c1_stale_threshold,
  c1_stale_fire_hold_secs, eval_c1_stale, eval_c1,
}
use lss.Rules.Eval.Counters.{
  count_rejects, rejects_413, rejects_429, eval_rejects, check_level, check_pace, on_disk,
  eval_disk,
}
use lss.Rules.Evaluate.Emits.{
  Each, Each-nil, Each-cons, Each-append, Each-if-pair, each_rules, Emits, Emits-seq,
}
use lss.Rules.Evaluate.{remember, rules, test_events, evaluate}

abbrev pub IsStamped : ℕ → AlertEvent → Type 0
IsStamped now a =
    (a.ts ≡ now)
    × ((m : String) × (a.message ≡ (if a.recovered then concat ("RECOVERED: " ∷ m ∷ []) else m)))

pub alert-IsStamped :
    (now : ℕ) (rule : String) (sev : Severity) (b : Bool) (m : String)
    → IsStamped now (alert now rule sev b m)
unfolding alert
alert-IsStamped now rule sev b m = (refl, (m, refl))

pub push_edge-IsStamped :
    (edge : Edge) (now : ℕ) (rule : String) (sev : Severity) (on off : String)
    → Each (IsStamped now) (push_edge edge now rule sev on off)
unfolding push_edge
push_edge-IsStamped fire now rule sev on off = search (each_rules, alert-IsStamped)
push_edge-IsStamped recover now rule sev on off = search (each_rules, alert-IsStamped)
push_edge-IsStamped no_edge now rule sev on off = Each-nil

pub ruleset stamp_rules = (each_rules, alert-IsStamped, push_edge-IsStamped)

pub map-IsStamped :
    (now : ℕ) (msgs : List String)
    → Each
        (IsStamped now)
        (map (λ msg. alert now "test_alert" info false (concat ("[TEST] " ∷ msg ∷ []))) msgs)
map-IsStamped now [] = Each-nil
map-IsStamped now (m ∷ ms) = search (stamp_rules, map-IsStamped now ms)

serve_events-IsStamped :
    (now : ℕ) (on escalated : Edge) (d w : ℤ)
    → Each (IsStamped now) (serve_events now on escalated d w)
unfolding serve_events
serve_events-IsStamped now on escalated d w = search stamp_rules

module _ (F : F64) (cfg : RulesConfig F) (o : Observation F) where
  abbrev Stamps : {S : Type 0} → (S → S × List AlertEvent) → Type 0
  Stamps = Emits (IsStamped o.now)

  pub eval_serve_down-Stamps : Stamps (eval_serve_down F cfg o)
  unfolding eval_serve_down
  eval_serve_down-Stamps = record { at = λ e. serve_events-IsStamped _ _ _ _ _ }

  pub eval_gate_down-Stamps : Stamps (eval_gate_down F cfg o)
  unfolding eval_gate_down
  eval_gate_down-Stamps = record { at = λ e. search stamp_rules }

  pub charging_of-Stamps : (sh : Option (GateShadow F)) → Stamps (charging_of F cfg o sh)
  unfolding charging_of charging
  charging_of-Stamps none = record { at = λ e. Each-nil }
  charging_of-Stamps (some sh) = record { at = λ e. search stamp_rules }

  cold_budget_of-Stamps :
      (a : Option ℕ) (b : Option F.Float) (c : Option ℕ) → Stamps (cold_budget_of F cfg o a b c)
  unfolding cold_budget_of cold_budget_step
  cold_budget_of-Stamps (some a) (some b) (some c) = record {
    at = λ e. Each-if-pair (ltb 0 c) _ _ (search stamp_rules) Each-nil;
  }
  cold_budget_of-Stamps _ _ _ = record { at = λ e. Each-nil }

  pub eval_cold_budget-Stamps : Stamps (eval_cold_budget F cfg o)
  unfolding eval_cold_budget
  eval_cold_budget-Stamps = record {
    at = λ e. Each-if-pair o.bench_active _ _ Each-nil (
        (cold_budget_of-Stamps o.trusted_inflight_tokens o.cache_hit_rate
            o.trusted_budget_tokens).at
          e);
  }

  pub eval_omp_default-Stamps : Stamps (eval_omp_default F cfg o)
  unfolding eval_omp_default
  eval_omp_default-Stamps = record { at = λ e. search stamp_rules }

  pub eval_queue-Stamps : Stamps (eval_queue F cfg o)
  unfolding eval_queue
  eval_queue-Stamps = record { at = λ e. search stamp_rules }

  on_restart-Stamps : (r : RestartObs) → Stamps (on_restart F cfg o r)
  unfolding on_restart
  on_restart-Stamps r = record {
    at = λ e.
        Each-if-pair (event_cooled F e _ o.now cfg.cooldown_secs) _ _ (search stamp_rules)
          (Each-if-pair (contains_key e.restart_pending r.role) _ _ Each-nil Each-nil);
  }

  on_restarts-Stamps : (rs : List RestartObs) → Stamps (on_restarts F cfg o rs)
  unfolding on_restarts
  on_restarts-Stamps [] = record { at = λ e. Each-nil }
  on_restarts-Stamps (r ∷ rs) = Emits-seq (on_restart-Stamps r) (on_restarts-Stamps rs)

  on_stables-Stamps : (roles : List String) → Stamps (on_stables F cfg o roles)
  unfolding on_stables on_stable
  on_stables-Stamps [] = record { at = λ e. Each-nil }
  on_stables-Stamps (role ∷ roles) = record {
    at = λ e. Each-cons (alert-IsStamped _ _ _ _ _) ((on_stables-Stamps roles).at _);
  }

  settle-Stamps : Stamps (settle F cfg o)
  unfolding settle
  settle-Stamps = record {
    at = λ e. (on_stables-Stamps (roles_where (is_stable F cfg o) e.restart_pending)).at e;
  }

  pub eval_restarts-Stamps : Stamps (eval_restarts F cfg o)
  unfolding eval_restarts
  eval_restarts-Stamps = Emits-seq (on_restarts-Stamps o.restarts) settle-Stamps

  on_xid-Stamps : (x : XidEvent) → Stamps (on_xid F cfg o x)
  unfolding on_xid
  on_xid-Stamps x = record {
    at = λ e.
        Each-if-pair (event_cooled F e _ o.now cfg.cooldown_secs) _ _ (search stamp_rules) Each-nil;
  }

  pub on_xids-Stamps : (xs : List XidEvent) → Stamps (on_xids F cfg o xs)
  unfolding on_xids
  on_xids-Stamps [] = record { at = λ e. Each-nil }
  on_xids-Stamps (x ∷ xs) = Emits-seq (on_xid-Stamps x) (on_xids-Stamps xs)

  rejects_413-Stamps : (v : Option ℕ) → Stamps (rejects_413 F cfg o v)
  unfolding rejects_413 count_rejects
  rejects_413-Stamps none = record { at = λ e. Each-nil }
  rejects_413-Stamps (some v) = record { at = λ e. search stamp_rules }

  rejects_429-Stamps : (v : Option ℕ) → Stamps (rejects_429 F cfg o v)
  unfolding rejects_429 count_rejects
  rejects_429-Stamps none = record { at = λ e. Each-nil }
  rejects_429-Stamps (some v) = record { at = λ e. search stamp_rules }

  pub eval_rejects-Stamps : Stamps (eval_rejects F cfg o)
  unfolding eval_rejects
  eval_rejects-Stamps =
      Emits-seq (rejects_413-Stamps o.rejected_413) (rejects_429-Stamps o.rejected_429)

  pub on_disk-Stamps : (d : Option DiskObs) → Stamps (on_disk F cfg o d)
  unfolding on_disk check_level check_pace
  on_disk-Stamps none = record { at = λ e. Each-nil }
  on_disk-Stamps (some d) = record { at = λ e. search stamp_rules }

  pub eval_disk-Stamps : Stamps (eval_disk F cfg o)
  unfolding eval_disk
  eval_disk-Stamps = on_disk-Stamps o.disk

  pub eval_charging-Stamps : Stamps (eval_charging F cfg o)
  unfolding eval_charging
  eval_charging-Stamps = charging_of-Stamps o.gate_shadow

  pub eval_xids-Stamps : Stamps (eval_xids F cfg o)
  unfolding eval_xids
  eval_xids-Stamps = on_xids-Stamps o.xids
