-- ===== src/Incidents/Whole.antt =====
-- A whole step of the incident tracker against the history of its inputs.
use mathlib.Core.Path.{ap₂}
use lss.Base.{
  ℕ, ◌≡◌, refl, ap, ◌∙◌, String, Option, none, some, Bool, true, false, List, [], ◌∷◌, ◌++◌, map,
  if◌then◌else◌, leb, ltb, ◌==◌, unwrap_or, sub_ℕ, concat, show_ℕ, trim, All, All-append, is_some,
  not,
}
use lss.Base.Map.{get, insert, string_ord}
use lss.Docker.{ContainerState}
use lss.Xid.{XidEvent, gpu_label, xid_hint}
use lss.Incidents.{
  IncidentOp, open_incident, close, event, kind_serve_down, kind_gate_down, kind_xid,
  kind_container_restart, misses_to_open, step_down, Containers, restart_detail, restart_op,
  on_container, on_containers, xid_key, xid_ops, IncidentInput, step,
}
use lss.Incidents.Down.{
  Poll, trailing, first_failed, down_ops_exactly, track, serve_poll, gate_poll, serve-track,
  gate-track,
}
use lss.Incidents.Restart.{heading, restarts, sightings, restarts_exact}

-- What a poll of a service does after the polls `h`.
pub down_ops : String → List Poll → Poll → List IncidentOp
down_ops kind h p =
    if p.up
    then (if leb misses_to_open (trailing h)
        then close kind p.now (sub_ℕ p.now (unwrap_or (first_failed h) p.now)) ∷ []
        else [])
    else (if trailing h == 1
        then open_incident kind (unwrap_or (first_failed h) p.now) p.detail ∷ []
        else [])

-- What an error report of the driver becomes.
pub xid_event : XidEvent → IncidentOp
unfolding xid_key
xid_event x =
    event kind_xid x.ts (gpu_label x)
      (trim (
        concat
          (gpu_label x ∷ " Xid " ∷ show_ℕ x.xid ∷ " (" ∷ xid_hint x.xid ∷ ") " ∷ x.detail ∷ [])))
      (some (concat ("xid|" ∷ gpu_label x ∷ "|" ∷ show_ℕ x.xid ∷ "|" ∷ show_ℕ x.ts ∷ [])))

xid_ops-map : (xs : List XidEvent) → xid_ops xs ≡ map xid_event xs
unfolding xid_ops xid_event xid_key
xid_ops-map [] = refl
xid_ops-map (x ∷ xs) = ap (λ l. xid_event x ∷ l) (xid_ops-map xs)

-- An event without a key, which opens and closes nothing.
pub is_event : IncidentOp → Bool
is_event (open_incident kind start detail) = false
is_event (close kind end duration) = false
is_event (event kind ts subject detail key) = not (is_some key)

restart_op-events :
    (role : String) (now : ℕ) (cur : ContainerState) (prev : Option ContainerState)
    → All (λ op. is_event op ≡ true) (restart_op role now cur prev)
unfolding restart_op is_event
restart_op-events role now cur none = tt
restart_op-events role now cur (some prev) = go (restart_detail prev cur)
  where
    go :
        (d : Option String)
        → All
            (λ op. is_event op ≡ true)
            (elim d [
              | none ↦ []
              | some detail ↦
                  event kind_container_restart
                    (if ltb prev.started_at cur.started_at then cur.started_at else now)
                    role
                    detail
                    none
                  ∷ []
            ])
    go none = tt
    go (some detail) = (refl, tt)

on_containers-events :
    (now : ℕ) (cs : List (String × ContainerState)) (seen : Containers)
    → All (λ op. is_event op ≡ true) (on_containers now cs seen).1
unfolding on_containers on_container
on_containers-events now [] seen = tt
on_containers-events now ((role, cur) ∷ cs) seen =
    All-append (λ op. is_event op ≡ true) (restart_op role now cur (get seen role)) _
      (restart_op-events role now cur (get seen role))
      (on_containers-events now cs (insert seen role cur))

-- After any sequence of polls, the operations of a further one are, in this order: those of the serve
-- and those of the gate, each by its own polls alone, with their details and durations; one event
-- without a key for each container whose latest sighting was another run; and for every error report
-- of the driver one event with its text and its key.
pub step_exactly :
    (h : List IncidentInput) (i : IncidentInput)
    → (rs : List IncidentOp) × ((step (track h) i).1
        ≡ down_ops kind_serve_down (map serve_poll h) (serve_poll i)
          ++ (down_ops kind_gate_down (map gate_poll h) (gate_poll i)
              ++ (rs ++ map xid_event i.xids)))
      × (map heading rs ≡ restarts i.now i.containers (sightings h))
      × All (λ op. is_event op ≡ true) rs
unfolding step down_ops serve_poll gate_poll
step_exactly h i =
    let rs = (on_containers i.now i.containers (track h).containers).1 in
    (
      rs,
      ap₂ (λ a b. a ++ (b ++ (rs ++ xid_ops i.xids)))
            (ap (λ t. (step_down t kind_serve_down i.now i.serve_up i.serve_detail).1)
                (serve-track h)
              ∙ down_ops_exactly kind_serve_down (map serve_poll h) (serve_poll i))
            (ap (λ t. (step_down t kind_gate_down i.now i.gate_up i.gate_detail).1) (gate-track h)
              ∙ down_ops_exactly kind_gate_down (map gate_poll h) (gate_poll i))
          ∙ ap
              (λ xs.
                down_ops kind_serve_down (map serve_poll h) (serve_poll i)
                ++ (down_ops kind_gate_down (map gate_poll h) (gate_poll i) ++ (rs ++ xs)))
              (xid_ops-map i.xids),
      restarts_exact h i,
      on_containers-events i.now i.containers (track h).containers,
    )
