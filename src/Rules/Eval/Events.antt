-- ===== src/Rules/Eval/Events.antt =====
-- rules.rs: the event rules, `eval_restarts` and `eval_xids`, which fire once for an event.
use lss.Base.{
  ℕ, ◌+◌, String, Option, none, some, Bool, true, false, ◌&&◌, List, [], ◌∷◌, ◌++◌, leb,
  if◌then◌else◌, unwrap_or, any, str_eq, sub_ℕ, concat, show_ℕ,
}
use lss.Base.Float.{F64}
use lss.Base.Map.{BTreeMap, get, insert, remove, contains_key, string_ord}
use lss.Config.{RulesConfig}
use lss.TimeUtil.{fmt_duration}
use lss.Xid.{XidEvent, gpu_label, xid_hint}
use lss.Rules.Types.{Severity, info, warn, hardware, RestartObs, Observation, alert}
use lss.Rules.State.{Eval, event_cooled, ◌⨟◌}

abbrev pub restart_key : String → String
restart_key role = concat ("container_restart:" ∷ role ∷ [])

unfoldable pub xid_key_of : Option ℕ → String → String
xid_key_of (some i) pci = concat ("xid:gpu" ∷ show_ℕ i ∷ [])
xid_key_of none pci = concat ("xid:" ∷ pci ∷ [])

unfoldable pub xid_key : XidEvent → String
unfolding xid_key_of
xid_key x = xid_key_of x.gpu x.pci

-- How a restart is graded and labelled: by the maintenance window that it fired in.
abbrev pub restart_severity : Bool → Severity
restart_severity planned = if planned then info else warn

abbrev restart_label : Bool → String
restart_label planned = if planned then "planned - " else ""

-- The roles whose entry passes the test, in the order of the map.
unfoldable pub roles_where : (String → ℕ → Bool) → BTreeMap String ℕ → List String
roles_where p [] = []
roles_where p ((role, since) ∷ m) =
    let rest = roles_where p m in if p role since then role ∷ rest else rest

module _ (F : F64) (cfg : RulesConfig F) (o : Observation F) where
  unfoldable pub on_restart : RestartObs → Eval F
  on_restart r e =
      let key = restart_key r.role in
      let owed = contains_key e.restart_pending r.role in
      if event_cooled F e key o.now cfg.cooldown_secs
      then (
        record e {
          event_last_sent = insert e.event_last_sent key o.now;
          restart_pending = insert e.restart_pending r.role o.now;
          restart_planned = insert e.restart_planned r.role o.maintenance_active;
        },
        alert o.now key (restart_severity o.maintenance_active) false (
              concat (
                restart_label o.maintenance_active
                ∷ r.role
                ∷ " container restarted: "
                ∷ r.detail
                ∷ []))
            ∷ [],
      )
      else if owed
      then (record e { restart_pending = insert e.restart_pending r.role o.now }, [])
      else (e, [])

  unfoldable pub on_restarts : List RestartObs → Eval F
  unfolding on_restart
  on_restarts [] e = (e, [])
  on_restarts (r ∷ rs) e =
      let (e', out) = on_restart r e in let (e'', more) = on_restarts rs e' in (e'', out ++ more)

  -- the container runs and answers, and the restart is long enough ago
  unfoldable pub is_stable : String → ℕ → Bool
  is_stable role since =
      any (λ r. str_eq r role) o.running_roles
      && (if str_eq role "serve" then o.serve_up else o.gate_up)
      && leb (since + cfg.restart_stable_secs) o.now

  unfoldable pub on_stable : String → Eval F
  on_stable role e =
      let since = unwrap_or (get e.restart_pending role) o.now in
      let planned = unwrap_or (get e.restart_planned role) false in
      (
        record e {
          restart_pending = remove e.restart_pending role;
          restart_planned = remove e.restart_planned role;
        },
        alert o.now (restart_key role) (restart_severity planned) true (
              concat (
                restart_label planned
                ∷ role
                ∷ " container recovered: running and answering "
                ∷ fmt_duration (sub_ℕ o.now since)
                ∷ " after the restart"
                ∷ []))
            ∷ [],
      )

  unfoldable pub on_stables : List String → Eval F
  unfolding on_stable
  on_stables [] e = (e, [])
  on_stables (role ∷ roles) e =
      let (e', out) = on_stable role e in
      let (e'', more) = on_stables roles e' in (e'', out ++ more)

  -- the restarts that have settled get their recovery
  unfoldable pub settle : Eval F
  unfolding is_stable roles_where on_stables
  settle e = on_stables (roles_where is_stable e.restart_pending) e

  unfoldable pub eval_restarts : Eval F
  unfolding on_restarts settle
  eval_restarts = on_restarts o.restarts ⨟ settle

  unfoldable pub on_xid : XidEvent → Eval F
  on_xid x e =
      let key = xid_key x in
      if event_cooled F e key o.now cfg.cooldown_secs
      then (
        record e { event_last_sent = insert e.event_last_sent key o.now },
        alert o.now key hardware false (
              concat (
                gpu_label x
                ∷ " Xid "
                ∷ show_ℕ x.xid
                ∷ " - "
                ∷ xid_hint x.xid
                ∷ " ["
                ∷ x.detail
                ∷ "]"
                ∷ []))
            ∷ [],
      )
      else (e, [])

  unfoldable pub on_xids : List XidEvent → Eval F
  unfolding on_xid
  on_xids [] e = (e, [])
  on_xids (x ∷ xs) e =
      let (e', out) = on_xid x e in let (e'', more) = on_xids xs e' in (e'', out ++ more)

  unfoldable pub eval_xids : Eval F
  unfolding on_xids
  eval_xids e = on_xids o.xids e
