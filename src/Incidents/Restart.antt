-- ===== src/Incidents/Restart.antt =====
-- The container events against all sightings of containers before them, newest first.
use lss.Base.{
  ℕ, ◌≡◌, refl, ap, ◌∙◌, String, Option, none, some, Bool, ◌&&◌, ◌||◌, List, [], ◌∷◌, ◌++◌, map,
  arith, ltb, ◌==◌, if◌then◌else◌, str_eq,
}
use lss.Base.Map.{get, insert, get-insert, string_ord}
use lss.Docker.{ContainerState}
use lss.Incidents.{
  IncidentOp, open_incident, close, event, kind_container_restart, Containers, restart_detail,
  restart_op, on_container, on_containers, IncidentInput, step,
}
use lss.Incidents.Down.{track}

abbrev pub Sightings : Type 0
Sightings = List (String × ContainerState)

pub seen_after : Sightings → Containers
seen_after [] = []
seen_after ((role, cur) ∷ h) = insert (seen_after h) role cur

-- The specification.
pub latest : String → Sightings → Option ContainerState
latest role [] = none
latest role ((r, cur) ∷ h) =
    let before = latest role h in if str_eq r role then some cur else before

pub same_run : ContainerState → ContainerState → Bool
same_run cur prev =
    str_eq cur.name prev.name
    && (cur.restart_count == prev.restart_count
        && ((cur.started_at == prev.started_at) || (cur.started_at == 0)))

-- What an operation is about: its kind, stamp and subject.
abbrev pub Heading : Type 0
Heading = String × (ℕ × String)

unfoldable pub heading : IncidentOp → Heading
heading (open_incident kind start detail) = (kind, (start, ""))
heading (close kind end duration) = (kind, (end, ""))
heading (event kind ts subject detail key) = (kind, (ts, subject))

pub restart_of : ℕ → String → ContainerState → Option ContainerState → List Heading
restart_of now role cur none = []
restart_of now role cur (some prev) =
    if same_run cur prev
    then []
    else (
      kind_container_restart,
      ((if ltb prev.started_at cur.started_at then cur.started_at else now), role),
    )
      ∷ []

pub restarts : ℕ → Sightings → Sightings → List Heading
restarts now [] h = []
restarts now ((role, cur) ∷ rest) h =
    restart_of now role cur (latest role h) ++ restarts now rest ((role, cur) ∷ h)

pub observed : Sightings → Sightings → Sightings
observed [] h = h
observed (s ∷ rest) h = observed rest (s ∷ h)

pub sightings : List IncidentInput → Sightings
sightings [] = []
sightings (i ∷ h) = observed i.containers (sightings h)

get-seen_after : (h : Sightings) (role : String) → get (seen_after h) role ≡ latest role h
unfolding seen_after latest get
get-seen_after [] role = refl
get-seen_after ((r, cur) ∷ h) role =
    get-insert (seen_after h) r role cur
    ∙ ap (λ o. if str_eq r role then some cur else o) (get-seen_after h role)

heading-restart_op :
    (now : ℕ) (role : String) (cur : ContainerState) (prev : Option ContainerState)
    → map heading (restart_op role now cur prev) ≡ restart_of now role cur prev
unfolding restart_op restart_of restart_detail same_run heading
heading-restart_op now role cur none = refl
heading-restart_op now role cur (some prev) = ground arith

pub map-append : (a b : List IncidentOp) → map heading (a ++ b) ≡ map heading a ++ map heading b
map-append [] b = refl
map-append (x ∷ a) b = ap (λ l. heading x ∷ l) (map-append a b)

containers-observed :
    (now : ℕ) (l h : Sightings) → (on_containers now l (seen_after h)).0 ≡ seen_after (observed l h)
unfolding on_containers on_container observed seen_after
containers-observed now [] h = refl
containers-observed now ((role, cur) ∷ l) h = containers-observed now l ((role, cur) ∷ h)

heading-on_containers :
    (now : ℕ) (l h : Sightings)
    → map heading (on_containers now l (seen_after h)).1 ≡ restarts now l h
unfolding on_containers on_container restarts seen_after
heading-on_containers now [] h = refl
heading-on_containers now ((role, cur) ∷ l) h =
    map-append (restart_op role now cur (get (seen_after h) role))
      (on_containers now l (seen_after ((role, cur) ∷ h))).1
    ∙ ap (λ l'. l' ++ map heading (on_containers now l (seen_after ((role, cur) ∷ h))).1)
        (heading-restart_op now role cur (get (seen_after h) role)
          ∙ ap (restart_of now role cur) (get-seen_after h role))
    ∙ ap (λ l'. restart_of now role cur (latest role h) ++ l')
        (heading-on_containers now l ((role, cur) ∷ h))

containers-track : (h : List IncidentInput) → (track h).containers ≡ seen_after (sightings h)
unfolding track step sightings seen_after
containers-track [] = refl
containers-track (i ∷ h) =
    ap (λ m. (on_containers i.now i.containers m).0) (containers-track h)
    ∙ containers-observed i.now i.containers (sightings h)

-- After any sequence of polls, a further poll records a restart of a container exactly when its role
-- was seen before, and the latest sighting of the role, within this poll or in an earlier one, has
-- another name, restart count or start (a start of 0 is no evidence): one event per restart, about
-- the role, stamped with the new start if that is later than the last known one, else with the poll.
pub restarts_exact :
    (h : List IncidentInput) (i : IncidentInput)
    → map heading (on_containers i.now i.containers (track h).containers).1
      ≡ restarts i.now i.containers (sightings h)
restarts_exact h i =
    ap (λ m. map heading (on_containers i.now i.containers m).1) (containers-track h)
    ∙ heading-on_containers i.now i.containers (sightings h)
