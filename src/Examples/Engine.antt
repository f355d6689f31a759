-- ===== src/Examples/Engine.antt =====
-- The theorems on the rule engine, at concrete inputs.
use mathlib.Core.List.{Memᴰ}
use lss.Base.{head?, inl, inr, ◌⊎◌, ◌≡◌, refl, some, true, false, List, [], ◌∷◌, All, map, arith}
use lss.Base.Map.{nat_ord, string_ord}
use lss.Xid.{XidEvent}
use lss.Rules.Sustained.{Sustained, idle, step}
use lss.Rules.Sustained.History as Timer
use lss.Rules.Types.{Observation}
use lss.Rules.State.{Engine, new_engine}
use lss.Rules.Eval.Service.{eval_queue}
use lss.Rules.Evaluate.{evaluate, firing}
use lss.Rules.Evaluate.Announced.{outage_announced}
use lss.Rules.Evaluate.Timers.{timers, tick}
use lss.Rules.Evaluate.Timers.Leaves.{timers-evaluate}
use lss.Rules.Evaluate.History.{engine, serve_tick}
use lss.Rules.Evaluate.Stamps.{IsStamped}
use lss.Rules.Evaluate.Stamps.Whole.{evaluate-IsStamped}
use lss.Rules.Evaluate.StandDown.{bench_stands_down}
use lss.Rules.States.Rows.{rule_states}
use lss.Rules.States.Known.Whole.{table_exact}
use lss.Rules.States.Shown.{shown_firing, Shown}
use lss.Examples.Data.{milli, host, cfg, observe}

abbrev past : List (Observation milli)
past = observe 1060 false false ∷ observe 1000 false false ∷ observe 940 true false ∷ []

timers-evaluate_example :
    timers milli (evaluate milli host cfg (observe 1120 false false) (engine milli host cfg past)).0
    ≡ tick milli cfg (observe 1120 false false) (timers milli (engine milli host cfg past))
timers-evaluate_example =
    timers-evaluate milli cfg (observe 1120 false false) host (engine milli host cfg past)

no_alert_yet :
    Timer.IsCooled 120 1800
      (head? (Timer.fire_times 120 1800 (map (serve_tick milli host cfg) past)))
      1120
unfolding Timer.fire_times Timer.edge Timer.run step
no_alert_yet = tt

outage_announced_example :
    head? (firing milli (engine milli host cfg (observe 1120 false false ∷ past)) 1120)
    ≡ some "serve_down"
outage_announced_example =
    outage_announced milli host cfg past (observe 1120 false false) refl (omega arith) no_alert_yet

evaluate-IsStamped_example :
    All
      (IsStamped 1120)
      (evaluate milli host cfg (observe 1120 false false) (engine milli host cfg past)).1
evaluate-IsStamped_example =
    evaluate-IsStamped milli cfg (observe 1120 false false) host (engine milli host cfg past)

bench_stands_down_example :
    ((evaluate milli host cfg
        (observe 1120 false true)
        (engine milli host cfg past)).0.queue.announced
      ≡ false)
    × ((evaluate milli host cfg
          (observe 1120 false true)
          (engine milli host cfg past)).0.waiters.announced
        ≡ false)
    × All
        (λ a. a.recovered ≡ true)
        (eval_queue milli cfg (observe 1120 false true) (engine milli host cfg past)).1
bench_stands_down_example =
    bench_stands_down milli host cfg (observe 1120 false true) (engine milli host cfg past) refl
      refl

abbrev xid_79 : XidEvent
xid_79 = record { ts = 1110; pci = "0000:01:00"; xid = 79; gpu = some 0; detail = "fell off" }

abbrev on : Sustained
on = record { since = some 1000; announced = true; last_sent = some 1060 }

abbrev hot_engine : Engine milli
hot_engine = record (new_engine milli) {
  serve_down = on;
  thermal_temp = (0, idle) ∷ (2, on) ∷ [];
  thermal_throttle = (3, on) ∷ [];
}

table_exact_example :
    All
      (λ n. (n ≡ "gate_cold_budget") ⊎ Shown milli host cfg hot_engine 1120 n)
      (firing milli hot_engine 1120)
    × All
        (λ n. (n ≡ "omp_default_mismatch") ⊎ Memᴰ n (firing milli hot_engine 1120))
        (shown_firing (rule_states milli host cfg hot_engine 1120))
table_exact_example = table_exact milli host cfg hot_engine 1120 ((refl, tt), (tt, tt)) (tt, tt)

three_fire :
    firing milli hot_engine 1120 ≡ "serve_down" ∷ "thermal_temp:gpu2" ∷ "thermal_throttle:gpu3" ∷ []
unfolding firing lss.Base.concat lss.Base.show_ℕ
three_fire = refl
