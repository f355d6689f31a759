-- ===== src/Rules/States.antt =====
-- rules.rs: rule_states, the table of every rule for the status page.
pub mod Rows
pub mod Shown
pub mod Listed
pub mod Known
use lss.Base.{
  ℕ, ◌+◌, ◌-◌, ◌*◌, String, Option, none, some, Bool, true, false, List, [], ◌∷◌, ◌++◌, ltb, leb,
  ◌==◌, if◌then◌else◌, unwrap_or, is_some, map_or, length, map, pos, sub_ℕ, concat, show_ℕ, any,
}
use lss.Base.Float.{F64}
use lss.Base.Sort.{sort_by}
use lss.Config.{RulesConfig}
use lss.Gate.{GateShadow}
use lss.TimeUtil.{fmt_duration}
use lss.Rules.Sustained.{Sustained, held_for}
use lss.Rules.Types.{Severity, info, warn, page, hardware, DiskObs, describe}
use lss.Rules.State.{Engine}

pub record RuleState : Type 0 where
  pub rule : String
  pub severity : String
  pub state : String
  pub threshold : String
  pub value : String
  pub pending_since : Option ℕ
  pub last_fired : Option ℕ
  pub cooldown_remaining_s : ℕ

-- `Severity::as_str`
unfoldable pub severity_str : Severity → String
severity_str info = "info"
severity_str warn = "warn"
severity_str page = "page"
severity_str hardware = "hardware"

-- the state of a timer in a word
unfoldable pub state_of : Sustained → String
state_of s = if s.announced then "firing" else if is_some s.since then "pending" else "ok"

-- the closure `cd`: what is left of the cooldown
unfoldable pub cooldown_left : ℕ → Option ℕ → ℕ → ℕ
cooldown_left cooldown none now = 0
cooldown_left cooldown (some t) now = t + cooldown - now

-- the closure `sustained`
unfoldable pub sustained_row : ℕ → ℕ → String → Severity → Sustained → String → String → RuleState
unfolding severity_str state_of cooldown_left
sustained_row cooldown now rule sev s threshold value = record {
  rule = rule;
  severity = severity_str sev;
  state = state_of s;
  threshold = threshold;
  value = value;
  pending_since = s.since;
  last_fired = s.last_sent;
  cooldown_remaining_s = cooldown_left cooldown s.last_sent now;
}

-- the closure `event`, of a rule that fires once for each event
unfoldable pub event_row : ℕ → ℕ → String → Severity → String → Option ℕ → Option ℕ → RuleState
unfolding severity_str cooldown_left
event_row cooldown now rule sev threshold pending last = record {
  rule = rule;
  severity = severity_str sev;
  state = if is_some pending then "pending" else "ok";
  threshold = threshold;
  value = if is_some pending then "waiting for it to stay up" else "-";
  pending_since = pending;
  last_fired = last;
  cooldown_remaining_s = cooldown_left cooldown last now;
}

-- the closure `updown`
unfoldable pub updown : Bool → Sustained → ℕ → String
updown up s now = if up then "up" else concat ("down " ∷ fmt_duration (held_for s now) ∷ [])

module _ (F : F64) (cfg : RulesConfig F) where
  open F use {Float, minus, show_fixed}

  unfoldable pub charge_value : Option (GateShadow F) → String
  charge_value none = "no reading"
  charge_value (some sh) = concat (show_ℕ sh.charge_errors ∷ " errors" ∷ [])

  unfoldable pub inert_value : Option (GateShadow F) → String
  inert_value none = "no reading"
  inert_value (some sh) = concat (
      show_ℕ sh.recent_discounted
      ∷ "/"
      ∷ show_ℕ sh.recent_admissions
      ∷ " discounted, warm "
      ∷ elim sh.cache_warm [ none ↦ "?" | some w ↦ if w then "true" else "false" ]
      ∷ [])

  -- the first nine rows
  unfoldable pub timer_rows : Engine F → ℕ → List RuleState
  unfolding sustained_row updown charge_value inert_value
  timer_rows e now =
      let l = e.last in
      let row = sustained_row cfg.cooldown_secs now in
      row "serve_down" warn e.serve_down
        (concat ("serve down >= " ∷ fmt_duration (pos cfg.serve_down_secs) ∷ []))
        (updown l.serve_up e.serve_down now)
      ∷ row "serve_down_page" page e.serve_down_page
          (concat ("serve down >= " ∷ fmt_duration (pos cfg.serve_down_page_secs) ∷ []))
          (updown l.serve_up e.serve_down_page now)
      ∷ row "gate_down" warn e.gate_down
          (concat ("gate down >= " ∷ fmt_duration (pos cfg.gate_down_secs) ∷ []))
          (updown l.gate_up e.gate_down now)
      ∷ row "gate_charge_errors" warn e.charge_errors
          (concat
            ("gate charge_errors > 0 for >= " ∷ fmt_duration (pos cfg.charge_errors_secs) ∷ []))
          (charge_value l.gate_shadow)
      ∷ row "gate_discount_inert" warn e.discount_inert
          (concat (
            "warm cache + >= "
            ∷ show_ℕ cfg.discount_min_admissions
            ∷ " admissions + 0 discounted for >= "
            ∷ fmt_duration (pos cfg.discount_inert_secs)
            ∷ []))
          (inert_value l.gate_shadow)
      ∷ row "queue_pressure" warn e.queue
          (concat (
            "queue >= "
            ∷ show_fixed 0 cfg.queue_reqs
            ∷ " for "
            ∷ fmt_duration (pos cfg.queue_secs)
            ∷ []))
          (concat ("queue " ∷ map_or l.queue "-" (show_fixed 0) ∷ []))
      ∷ row "gate_waiters" warn e.waiters
          (concat ("trusted waiters > 0 for " ∷ fmt_duration (pos cfg.waiters_secs) ∷ []))
          (concat ("waiters " ∷ map_or l.waiters "-" show_ℕ ∷ []))
      ∷ row "gpu_missing" hardware e.gpu_missing
          (concat (
            "GPUs < "
            ∷ show_ℕ e.gpu_count_seen
            ∷ " for "
            ∷ fmt_duration (pos cfg.gpu_missing_secs)
            ∷ []))
          (concat (show_ℕ (map_or l.gpus 0 length) ∷ " of " ∷ show_ℕ e.gpu_count_seen ∷ []))
      ∷ row "omp_default_mismatch" warn e.omp_default
          (concat
            ("omp default != served for " ∷ fmt_duration (pos cfg.omp_mismatch_hold_secs) ∷ []))
          (map_or l.omp_mismatch "in sync" (λ p. concat (p.0 ∷ " != " ∷ p.1 ∷ [])))
      ∷ []

  unfoldable pub disk_value : Option DiskObs → String
  disk_value none = "no reading"
  disk_value (some d) = concat (d.path ∷ " " ∷ describe F d ∷ [])

  abbrev level_threshold : Float → String
  level_threshold pct = concat (
      cfg.disk_path
      ∷ " >= "
      ∷ show_fixed 0 pct
      ∷ "% used for "
      ∷ fmt_duration (pos cfg.disk_secs)
      ∷ " (recovers below "
      ∷ show_fixed 0 (minus pct cfg.disk_recover_margin_pct)
      ∷ "%)"
      ∷ [])

  unfoldable pub disk_rows : Engine F → ℕ → List RuleState
  unfolding sustained_row disk_value
  disk_rows e now =
      let row = sustained_row cfg.cooldown_secs now in
      let value = disk_value e.last.disk in
      row "disk_full" warn e.disk_full (level_threshold cfg.disk_warn_pct) value
      ∷ row "disk_full_page" page e.disk_full_page (level_threshold cfg.disk_page_pct) value
      ∷ row "disk_growth" warn e.disk_growth.rule
          (concat (
            cfg.disk_path
            ∷ " loses >= "
            ∷ show_fixed 0 cfg.disk_growth_gb
            ∷ " GB free within "
            ∷ fmt_duration (pos cfg.disk_growth_secs)
            ∷ " (recovers when the drop over the window falls back under)"
            ∷ []))
          value
      ∷ []

  unfoldable pub reject_rows : Engine F → ℕ → List RuleState
  unfolding sustained_row
  reject_rows e now =
      let row = λ (code : String) (s : Sustained) (growth : Option ℕ).
        sustained_row cfg.cooldown_secs now (concat ("rejects_" ∷ code ∷ [])) info s
          (concat (
            "rejected_"
            ∷ code
            ∷ " grows > "
            ∷ show_ℕ cfg.reject_growth
            ∷ " in "
            ∷ fmt_duration (pos cfg.reject_window_secs)
            ∷ []))
          (concat ("+" ∷ show_ℕ (unwrap_or growth 0) ∷ [])) in
      row "413" e.rejects_413.rule e.last.growth_413
      ∷ row "429" e.rejects_429.rule e.last.growth_429
      ∷ []
