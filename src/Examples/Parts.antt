-- ===== src/Examples/Parts.antt =====
-- The theorems on the parts, at concrete inputs.
use lss.Base.{
  All, none, ℕ, ◌+◌, ◌≤◌, ◌≡◌, refl, ◌↔◌, Bool, true, false, List, [], ◌∷◌, leb, map, unwrap_or,
  head?, if◌then◌else◌, ◌==◌, trim,
}
use lss.Rules.Sustained.{fire, recover, step}
use lss.Rules.Sustained.History.{
  Tick, run, edge, fire_times, fired_in_streak, IsCooled, edges_exactly,
}
use lss.Rules.Windows.{push, Point}
use lss.Rules.Windows.Growth as Growth
use lss.Docker.{ContainerState}
use lss.Incidents.{
  IncidentOp, IncidentInput, open_incident, step_down, on_containers, serve_down_since,
  gate_down_since,
}
use lss.Incidents.Down as Down
use lss.Incidents.Down.{Poll}
use lss.Incidents.Restart as Restart
use lss.Base.{All, none, ◌++◌}
use lss.Incidents as Tracker
use lss.Incidents.Whole.{down_ops, xid_event, is_event, step_exactly}
use lss.Maintenance.{no_maintenance, start, expired}
use lss.Maintenance.Window.{window_bounded}

abbrev tick : ℕ → Bool → Tick
tick now cond = record { now = now; cond = cond }

abbrev failing : List Tick
failing = tick 1060 true ∷ tick 1000 true ∷ tick 940 false ∷ []

edges_exactly_example :
    ((edge 120 1800 failing (tick 1120 true) ≡ fire) ↔ (
      (true ≡ true)
      × (1000 + 120 ≤ 1120)
      × (fired_in_streak 120 1800 failing ≡ false)
      × IsCooled 120 1800 (head? (fire_times 120 1800 failing)) 1120))
    × ((edge 120 1800 failing (tick 1120 true) ≡ recover)
        ↔ ((true ≡ false) × (fired_in_streak 120 1800 failing ≡ true)))
edges_exactly_example = edges_exactly 120 1800 failing (tick 1120 true)

fires_now : edge 120 1800 failing (tick 1120 true) ≡ fire
unfolding edge run step
fires_now = refl

-- a counter that was reset after its first reading
abbrev readings : List Point
readings = (160, 4) ∷ (100, 2) ∷ (40, 900) ∷ []

growth_is_7 : (push (Growth.run 100 readings) 220 9 100).1 ≡ 7
unfolding push Growth.run
growth_is_7 = refl

abbrev flaps : List ℕ
flaps = 9000 ∷ 8000 ∷ 7000 ∷ 100 ∷ []

abbrev poll : ℕ → Bool → Poll
poll now up = record { now = now; up = up; detail = "no answer" }

abbrev one_failed : List Poll
one_failed = poll 1060 false ∷ poll 1000 true ∷ []

down_ops_exactly_example :
    (step_down (Down.run "serve_down" one_failed) "serve_down" 1120 false "no answer").1 ≡ (
      if Down.trailing one_failed == 1
      then open_incident "serve_down" (unwrap_or (Down.first_failed one_failed) 1120) "no answer"
        ∷ []
      else [])
down_ops_exactly_example = Down.down_ops_exactly "serve_down" one_failed (poll 1120 false)

opens_back_dated :
    (step_down (Down.run "serve_down" one_failed) "serve_down" 1120 false "no answer").1
    ≡ open_incident "serve_down" 1060 "no answer" ∷ []
unfolding Down.run step_down
opens_back_dated = refl

abbrev container : ℕ → ℕ → ContainerState
container count started = record {
  name = "vllm";
  status = "running";
  restart_count = count;
  started_at = started;
}

abbrev input : ℕ → Bool → ContainerState → IncidentInput
input now up c = record {
  now = now;
  serve_up = up;
  serve_detail = "no answer";
  gate_up = true;
  gate_detail = "";
  containers = ("serve", c) ∷ [];
  xids = [];
}

abbrev inputs : List IncidentInput
inputs =
    input 1120 false (container 1 1050)
    ∷ input 1060 false (container 0 10)
    ∷ input 1000 true (container 0 10)
    ∷ []

restarts_exact_example :
    map Restart.heading
      (on_containers 1180 (("serve", container 2 1150) ∷ []) (Down.track inputs).containers).1
    ≡ Restart.restarts 1180 (("serve", container 2 1150) ∷ []) (Restart.sightings inputs)
restarts_exact_example = Restart.restarts_exact inputs (input 1180 true (container 2 1150))

granted : (start no_maintenance 1000 "upgrade" 30).1.ok ≡ true
unfolding start trim
granted = refl

window_bounded_example :
    (1000 + 60 ≤ (start no_maintenance 1000 "upgrade" 30).1.expires_at)
    × (((start no_maintenance 1000 "upgrade" 30).1.expires_at ≤ 1000 + 14400)
        × ((t : ℕ)
            → expired (start no_maintenance 1000 "upgrade" 30).0 t
              ≡ leb (start no_maintenance 1000 "upgrade" 30).1.expires_at t))
window_bounded_example = window_bounded no_maintenance 1000 "upgrade" 30 granted

abbrev xid_input : IncidentInput
xid_input = record (input 1180 true (container 2 1150)) {
  xids = record { ts = 1170; gpu = none; pci = "0000:01:00"; xid = 79; detail = "gone" } ∷ [];
}

step_exactly_example :
    (rs : List IncidentOp) × ((Tracker.step (Down.track inputs) xid_input).1
      ≡ down_ops "serve_down" (map Down.serve_poll inputs) (Down.serve_poll xid_input)
        ++ (down_ops "gate_down" (map Down.gate_poll inputs) (Down.gate_poll xid_input)
            ++ (rs ++ map xid_event xid_input.xids)))
    × (map Restart.heading rs
        ≡ Restart.restarts 1180 (("serve", container 2 1150) ∷ []) (Restart.sightings inputs))
    × All (λ op. is_event op ≡ true) rs
step_exactly_example = step_exactly inputs xid_input
