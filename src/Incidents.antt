-- ===== src/Incidents.antt =====
-- crates/lss-core/src/incidents.rs: successive observations become incidents that open and close.
pub mod Down
pub mod Restart
pub mod Whole
use lss.Base.{
  ℕ, ◌+◌, ◌-◌, String, Option, none, some, Bool, true, false, not, ◌&&◌, List, [], ◌∷◌, ◌++◌, min,
  ltb, leb, ◌==◌, if◌then◌else◌, unwrap_or, is_some, str_eq, ℤ, pos, sub_ℕ, concat, show_ℕ, trim,
}
use lss.Base.Map.{BTreeMap, get, insert, string_ord}
use lss.Docker.{ContainerState}
use lss.TimeUtil.{fmt_duration}
use lss.Xid.{XidEvent, gpu_label, xid_hint}

abbrev pub kind_serve_down : String
kind_serve_down = "serve_down"

abbrev pub kind_gate_down : String
kind_gate_down = "gate_down"

abbrev pub kind_container_restart : String
kind_container_restart = "container_restart"

abbrev pub kind_xid : String
kind_xid = "xid"

abbrev pub misses_to_open : ℕ
misses_to_open = 2

pub data IncidentOp : Type 0 where
  -- kind, start, detail
  open_incident : String → ℕ → String → IncidentOp
  -- kind, end, duration in seconds
  close : String → ℕ → ℤ → IncidentOp
  -- kind, stamp, subject, detail, key
  event : String → ℕ → String → String → Option String → IncidentOp

unfoldable pub xid_key : String → ℕ → ℕ → String
xid_key label xid ts = concat ("xid|" ∷ label ∷ "|" ∷ show_ℕ xid ∷ "|" ∷ show_ℕ ts ∷ [])

pub record DownTracker : Type 0 where
  pub misses : ℕ
  pub first_miss : Option ℕ
  pub open_since : Option ℕ

abbrev pub no_misses : DownTracker
no_misses = record { misses = 0; first_miss = none; open_since = none }

-- `u32::saturating_add(1)`
abbrev pub saturating_suc : ℕ → ℕ
saturating_suc n = min (n + 1) 4294967295

close_of : String → ℕ → Option ℕ → List IncidentOp
close_of kind now none = []
close_of kind now (some start) = close kind now (sub_ℕ now start) ∷ []

unfoldable pub step_down : DownTracker → String → ℕ → Bool → String → DownTracker × List IncidentOp
unfolding close_of
step_down t kind now true detail =
    (record { misses = 0; first_miss = none; open_since = none }, close_of kind now t.open_since)
step_down t kind now false detail =
    let misses = saturating_suc t.misses in
    let first = unwrap_or t.first_miss now in
    let opens = not (is_some t.open_since) && leb misses_to_open misses in
    (
      record {
        misses = misses;
        first_miss = some first;
        open_since = if opens then some first else t.open_since;
      },
      if opens then open_incident kind first detail ∷ [] else [],
    )

-- The description of a restart, if `cur` is a different run of the container than `prev`.
unfoldable pub restart_detail : ContainerState → ContainerState → Option String
restart_detail prev cur =
    if not (str_eq cur.name prev.name)
    then some (concat (prev.name ∷ " replaced by " ∷ cur.name ∷ []))
    else if not (cur.restart_count == prev.restart_count)
    then some (
        concat (
          cur.name
          ∷ " RestartCount "
          ∷ show_ℕ prev.restart_count
          ∷ " -> "
          ∷ show_ℕ cur.restart_count
          ∷ []))
    else if not (cur.started_at == prev.started_at) && not (cur.started_at == 0)
    then some (
        concat (
          cur.name
          ∷ " new StartedAt"
          ∷ (if ltb 0 prev.started_at && ltb prev.started_at cur.started_at
              then concat (
                  " (previous run lasted "
                  ∷ fmt_duration (pos (cur.started_at - prev.started_at))
                  ∷ ")"
                  ∷ [])
              else "")
          ∷ []))
    else none

restart_op : String → ℕ → ContainerState → Option ContainerState → List IncidentOp
restart_op role now cur none = []
restart_op role now cur (some prev) = elim (restart_detail prev cur) [
  | none ↦ []
  | some detail ↦
      event kind_container_restart
        (if ltb prev.started_at cur.started_at then cur.started_at else now) role detail none
      ∷ []
]

abbrev pub Containers : Type 0
Containers = BTreeMap String ContainerState

unfoldable pub on_container :
    ℕ → String → ContainerState → Containers → Containers × List IncidentOp
unfolding restart_op
on_container now role cur seen = (insert seen role cur, restart_op role now cur (get seen role))

unfoldable pub on_containers :
    ℕ → List (String × ContainerState) → Containers → Containers × List IncidentOp
unfolding on_container
on_containers now [] seen = (seen, [])
on_containers now ((role, cur) ∷ rest) seen =
    let (seen', ops) = on_container now role cur seen in
    let (seen'', more) = on_containers now rest seen' in (seen'', ops ++ more)

unfoldable pub xid_ops : List XidEvent → List IncidentOp
unfolding xid_key
xid_ops [] = []
xid_ops (x ∷ xs) =
    event kind_xid x.ts (gpu_label x)
      (trim (
        concat
          (gpu_label x ∷ " Xid " ∷ show_ℕ x.xid ∷ " (" ∷ xid_hint x.xid ∷ ") " ∷ x.detail ∷ [])))
      (some (xid_key (gpu_label x) x.xid x.ts))
    ∷ xid_ops xs

pub record IncidentTracker : Type 0 where
  pub serve : DownTracker
  pub gate : DownTracker
  pub containers : Containers

pub record IncidentInput : Type 0 where
  pub now : ℕ
  pub serve_up : Bool
  pub serve_detail : String
  pub gate_up : Bool
  pub gate_detail : String
  pub containers : List (String × ContainerState)
  pub xids : List XidEvent

unfoldable pub serve_down_since : IncidentTracker → Option ℕ
serve_down_since t = t.serve.open_since

unfoldable pub gate_down_since : IncidentTracker → Option ℕ
gate_down_since t = t.gate.open_since

unfoldable pub step : IncidentTracker → IncidentInput → IncidentTracker × List IncidentOp
unfolding step_down on_containers xid_ops
step t i =
    let (serve, a) = step_down t.serve kind_serve_down i.now i.serve_up i.serve_detail in
    let (gate, b) = step_down t.gate kind_gate_down i.now i.gate_up i.gate_detail in
    let (seen, c) = on_containers i.now i.containers t.containers in
    (record { serve = serve; gate = gate; containers = seen }, a ++ (b ++ (c ++ xid_ops i.xids)))
