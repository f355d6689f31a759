-- ===== src/Rules/Evaluate.antt =====
-- rules.rs: `Engine::evaluate` and `Engine::firing`.
pub mod Emits
pub mod Stamps
pub mod Timers
pub mod History
pub mod Announced
pub mod StandDown
pub mod Xids
pub mod Streak
pub mod Pairs
pub mod Levels
use lss.Base.{
  ℕ, String, Option, none, some, Bool, true, false, not, ◌&&◌, List, [], ◌∷◌, ◌++◌, map,
  if◌then◌else◌, or_else, concat, show_ℕ,
}
use lss.Base.Float.{F64}
use lss.Base.Map.{BTreeMap}
use lss.Config.{RulesConfig}
use lss.Rules.Sustained.{Sustained}
use lss.Rules.Windows.{muted}
use lss.Rules.Types.{info, AlertEvent, Observation, Host, alert}
use lss.Rules.State.{LastSeen, Engine, Eval, ◌⨟◌}
use lss.Rules.Eval.Service.{
  eval_serve_down, eval_gate_down, eval_charging, eval_cold_budget, eval_omp_default, eval_queue,
}
use lss.Rules.Eval.Events.{eval_restarts, eval_xids}
use lss.Rules.Eval.Gpus.{eval_gpus}
use lss.Rules.Eval.Decode.{eval_c1}
use lss.Rules.Eval.Counters.{eval_rejects, eval_disk}

module _ (F : F64) where
  -- what `rule_states` shows of this observation
  unfoldable pub remember : Observation F → Engine F → Engine F
  remember o e = record e {
    last = record {
      serve_up = o.serve_up;
      gate_up = o.gate_up;
      queue = o.queue;
      waiters = o.trusted_waiters;
      gpus = or_else o.gpus e.last.gpus;
      growth_413 = e.last.growth_413;
      growth_429 = e.last.growth_429;
      c1_tok_s = or_else o.probe_tok_s e.last.c1_tok_s;
      omp_mismatch = o.omp_mismatch;
      gate_shadow = or_else o.gate_shadow e.last.gate_shadow;
      disk = or_else o.disk e.last.disk;
    };
  }

  unfoldable pub test_events : Observation F → List AlertEvent
  test_events o =
      map (λ msg. alert o.now "test_alert" info false (concat ("[TEST] " ∷ msg ∷ []))) o.test_alerts

  unfoldable pub rules : Host → RulesConfig F → Observation F → Eval F
  rules host cfg o =
      eval_serve_down F cfg o
      ⨟ eval_gate_down F cfg o
      ⨟ eval_restarts F cfg o
      ⨟ eval_xids F cfg o
      ⨟ eval_queue F cfg o
      ⨟ eval_gpus F host cfg o
      ⨟ eval_c1 F host cfg o
      ⨟ eval_rejects F cfg o
      ⨟ eval_omp_default F cfg o
      ⨟ eval_charging F cfg o
      ⨟ eval_cold_budget F cfg o
      ⨟ eval_disk F cfg o

  unfoldable pub evaluate : Host → RulesConfig F → Observation F → Eval F
  unfolding remember rules test_events
  evaluate host cfg o e =
      let (e', out) = rules host cfg o (remember o e) in (e', out ++ test_events o)

  -- `add(name, s)`
  unfoldable pub add : String → Sustained → List String
  add name s = if s.announced then name ∷ [] else []

  unfoldable pub add_gpus : String → BTreeMap ℕ Sustained → List String
  unfolding add
  add_gpus prefix [] = []
  add_gpus prefix ((i, s) ∷ m) = add (concat (prefix ∷ show_ℕ i ∷ [])) s ++ add_gpus prefix m

  unfoldable pub firing : Engine F → ℕ → List String
  unfolding add add_gpus
  firing e now =
      add "serve_down" e.serve_down
      ++ (add "serve_down_page" e.serve_down_page
          ++ (add "gate_down" e.gate_down
              ++ (add "gate_charge_errors" e.charge_errors
                  ++ (add "gate_discount_inert" e.discount_inert
                      ++ (add "gate_cold_budget" e.cold_budget
                          ++ (add "queue_pressure" e.queue
                              ++ (add "gate_waiters" e.waiters
                                  ++ (add "gpu_missing" e.gpu_missing
                                      ++ (add "disk_full" e.disk_full
                                          ++ (add "disk_full_page" e.disk_full_page
                                              ++ (add "disk_growth" e.disk_growth.rule
                                                  ++ (add "rejects_413" e.rejects_413.rule
                                                      ++ (add "rejects_429" e.rejects_429.rule
                                                          ++ (add_gpus "thermal_temp:gpu"
                                                            e.thermal_temp
                                                            ++ (add_gpus "thermal_throttle:gpu"
                                                            e.thermal_throttle
                                                            ++ ((if e.c1.announced
                                                            then "c1_decode" ∷ []
                                                            else [])
                                                            ++ (if e.c1.stale.announced
                                                            && not (muted e.c1.stale_flaps now)
                                                            then "c1_stale" ∷ []
                                                            else [])))))))))))))))))
