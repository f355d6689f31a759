-- ===== src/Rules/Eval/Service.antt =====
-- rules.rs: the rules on the serve, the gateway, its charging and its queues, and omp's config.
use lss.Base.{
  ℕ, Option, none, some, Bool, true, false, not, ◌&&◌, ◌||◌, List, [], ◌∷◌, ◌++◌, ltb,
  if◌then◌else◌, is_some, unwrap_or, ℤ, pos, concat, show_ℕ,
}
use lss.Base.Float.{F64}
use lss.Config.{RulesConfig}
use lss.Gate.{GateShadow, discount_inert}
use lss.TimeUtil.{fmt_duration}
use lss.Rules.Sustained.{Edge, fire, recover, held_for, step}
use lss.Rules.Types.{warn, page, AlertEvent, Observation, alert, push_edge}
use lss.Rules.State.{Eval}

unfoldable pub is_recover : Edge → Bool
is_recover recover = true
is_recover _ = false

unfoldable pub is_fire : Edge → Bool
is_fire fire = true
is_fire _ = false

-- The two timers' edges become at most one fire each, and one shared recovery.
unfoldable pub serve_events : ℕ → Edge → Edge → ℤ → ℤ → List AlertEvent
unfolding is_fire is_recover
serve_events now on escalated down_for was_down_for =
    (if is_fire on
      then alert now "serve_down" warn false
          (concat ("serve DOWN for " ∷ fmt_duration down_for ∷ " (/v1/models not answering)" ∷ []))
        ∷ []
      else [])
    ++ ((if is_fire escalated
          then alert now "serve_down_page" page false
              (concat ("serve STILL DOWN after " ∷ fmt_duration down_for ∷ " - needs a human" ∷ []))
            ∷ []
          else [])
        ++ (if is_recover on || is_recover escalated
            then alert now "serve_down" (if is_recover escalated then page else warn) true
                (concat ("serve recovered after " ∷ fmt_duration was_down_for ∷ " down" ∷ []))
              ∷ []
            else []))

module _ (F : F64) (cfg : RulesConfig F) (o : Observation F) where
  open F use {Float, ratio, times, lt, le, show_fixed, show_float}

  unfoldable pub eval_serve_down : Eval F
  eval_serve_down e =
      let down = not o.serve_up in
      let down_for = if down then held_for e.serve_down o.now else pos 0 in
      let was_down_for = held_for e.serve_down o.now in
      let (warned, on) = step e.serve_down o.now down cfg.serve_down_secs cfg.cooldown_secs in
      let (paged, escalated) =
        step e.serve_down_page o.now down cfg.serve_down_page_secs cfg.cooldown_secs in
      (
        record e { serve_down = warned; serve_down_page = paged },
        serve_events o.now on escalated down_for was_down_for,
      )

  unfoldable pub eval_gate_down : Eval F
  eval_gate_down e =
      let was = held_for e.gate_down o.now in
      let (s, edge) = step e.gate_down o.now (not o.gate_up) cfg.gate_down_secs cfg.cooldown_secs in
      (
        record e { gate_down = s },
        push_edge edge o.now "gate_down" warn
            (concat (
              "the gateway DOWN for "
              ∷ fmt_duration was
              ∷ " (/gate/health not answering) - public endpoint is dark"
              ∷ []))
            (concat ("the gateway recovered after " ∷ fmt_duration was ∷ " down" ∷ [])),
      )

  unfoldable pub charging : GateShadow F → Eval F
  charging sh e =
      let (errors, failing) =
        step e.charge_errors o.now (ltb 0 sh.charge_errors) cfg.charge_errors_secs
          cfg.cooldown_secs in
      let (inert, idle_discount) =
        step e.discount_inert o.now (discount_inert F sh cfg.discount_min_admissions)
          cfg.discount_inert_secs cfg.cooldown_secs in
      (
        record e { charge_errors = errors; discount_inert = inert },
        push_edge failing o.now "gate_charge_errors" warn
              (concat (
                "the gateway charge path FAILING ("
                ∷ show_ℕ sh.charge_errors
                ∷ " errors): every trusted request is charging GROSS prompt tokens, so the budget refuses our own agents at ~10x the real cost. /gate/health shadow.charge_errors, and the gate log's charge_failed_gross line names the exception"
                ∷ []))
              "the gateway charge path recovered: effective-token charging is working again"
            ++ push_edge idle_discount o.now "gate_discount_inert" warn
                (concat (
                  "the gateway discount INERT: warm cache, engine visible, "
                  ∷ show_ℕ sh.recent_admissions
                  ∷ " recent admissions and NOT ONE discounted. Nothing raised - this is the shape card #68 hid in for 2,809 requests. Check /gate/health shadow and the shadow log's charged_tokens vs est_tokens"
                  ∷ []))
                "the gateway discount is engaging again",
      )

  unfoldable pub charging_of : Option (GateShadow F) → Eval F
  charging_of none e = (e, [])
  charging_of (some sh) e = charging sh e

  unfoldable pub eval_charging : Eval F
  unfolding charging charging_of
  eval_charging e = charging_of o.gate_shadow e

  unfoldable pub cold_budget_step : ℕ → Float → ℕ → Eval F
  cold_budget_step inflight hit capacity e =
      let filled = le (times (ratio 9 10) (ratio capacity 1)) (ratio inflight 1) in
      let breach = filled && lt hit cfg.cold_budget_hit_rate in
      let (s, edge) = step e.cold_budget o.now breach cfg.cold_budget_secs cfg.cooldown_secs in
      (
        record e { cold_budget = s },
        push_edge edge o.now "gate_cold_budget" warn
            (concat (
              "COLD-CACHE HEAVY BUDGET: "
              ∷ show_ℕ inflight
              ∷ " of "
              ∷ show_ℕ capacity
              ∷ " tokens in flight (>=90% full) with cache hit below "
              ∷ show_float (times cfg.cold_budget_hit_rate (ratio 100 1))
              ∷ " for "
              ∷ fmt_duration (pos cfg.cold_budget_secs)
              ∷ " - the budget's tokens are now REAL prefill; this is the state that preceded both Xid-8 hangs. Reduce the budget or shed load before the engine wedges"
              ∷ []))
            "cold-cache heavy budget recovered: in-flight back under the ceiling or the cache warmed up",
      )

  unfoldable pub cold_budget_of : Option ℕ → Option Float → Option ℕ → Eval F
  cold_budget_of (some inflight) (some hit) (some capacity) e =
      if ltb 0 capacity then cold_budget_step inflight hit capacity e else (e, [])
  cold_budget_of _ _ _ e = (e, [])

  unfoldable pub eval_cold_budget : Eval F
  unfolding cold_budget_of cold_budget_step
  eval_cold_budget e =
      if o.bench_active
      then (e, [])
      else cold_budget_of o.trusted_inflight_tokens o.cache_hit_rate o.trusted_budget_tokens e

  unfoldable pub eval_omp_default : Eval F
  eval_omp_default e =
      let (s, edge) =
        step e.omp_default o.now (is_some o.omp_mismatch) cfg.omp_mismatch_hold_secs
          cfg.cooldown_secs in
      let (configured, served) = unwrap_or o.omp_mismatch ("", "") in
      (
        record e { omp_default = s },
        push_edge edge o.now "omp_default_mismatch" warn
            (concat (
              "omp's default model (" ∷ configured ∷ ") is not what is served (" ∷ served
              ∷ ") - agent sessions may silently fall back to an outside provider: re-point omp's default at the served id"
              ∷ []))
            "omp's default model matches what is served again",
      )

  unfoldable pub eval_queue : Eval F
  eval_queue e =
      let q = if o.bench_active then ratio 0 1 else unwrap_or o.queue (ratio 0 1) in
      let (pressure, edge) =
        step e.queue o.now (le cfg.queue_reqs q) cfg.queue_secs cfg.cooldown_secs in
      let w : ℕ = if o.bench_active then 0 else unwrap_or o.trusted_waiters 0 in
      let (waiting, wedge) = step e.waiters o.now (ltb 0 w) cfg.waiters_secs cfg.cooldown_secs in
      (
        record e { queue = pressure; waiters = waiting },
        push_edge edge o.now "queue_pressure" warn
              (concat (
                "queue pressure: "
                ∷ show_fixed 0 q
                ∷ " requests queued (>= "
                ∷ show_fixed 0 cfg.queue_reqs
                ∷ ") for "
                ∷ fmt_duration (pos cfg.queue_secs)
                ∷ []))
              (concat ("queue pressure recovered: " ∷ show_fixed 0 q ∷ " queued" ∷ []))
            ++ push_edge wedge o.now "gate_waiters" warn
                (concat (
                  "queue pressure: "
                  ∷ show_ℕ w
                  ∷ " trusted request(s) waiting at the gate for token budget for "
                  ∷ fmt_duration (pos cfg.waiters_secs)
                  ∷ []))
                "gate waiters recovered: nobody waiting for token budget",
      )
