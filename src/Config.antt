-- ===== src/Config.antt =====
-- crates/lss-core/src/config.rs: the settings of the alert rules. Hold times, cooldowns and
-- windows are numbers of seconds that are not negative.
use lss.Base.{ℕ, String, List, Option}
use lss.Base.Float.{F64}

module _ (F : F64) where
  open F use {Float}

  pub record RulesConfig : Type 0 where
    pub cooldown_secs : ℕ
    pub serve_down_secs : ℕ
    pub serve_down_page_secs : ℕ
    pub gate_down_secs : ℕ
    pub queue_reqs : Float
    pub queue_secs : ℕ
    pub waiters_secs : ℕ
    pub thermal_temp_c : Float
    pub thermal_secs : ℕ
    pub thermal_exclude : List ℕ
    pub gpu_missing_secs : ℕ
    pub c1_ratio : Float
    pub c1_consecutive : ℕ
    pub c1_baseline_tok_s : Option Float
    pub c1_baseline_probes : ℕ
    pub c1_max_ttft_s : Float
    pub c1_stale_probe_intervals : ℕ
    pub reject_growth : ℕ
    pub reject_window_secs : ℕ
    pub restart_stable_secs : ℕ
    pub omp_config_path : String
    pub omp_mismatch_hold_secs : ℕ
    pub charge_errors_secs : ℕ
    pub discount_inert_secs : ℕ
    pub discount_min_admissions : ℕ
    pub cold_budget_secs : ℕ
    pub cold_budget_inflight : ℕ
    pub cold_budget_hit_rate : Float
    pub disk_path : String
    pub disk_warn_pct : Float
    pub disk_page_pct : Float
    pub disk_secs : ℕ
    pub disk_recover_margin_pct : Float
    pub disk_growth_gb : Float
    pub disk_growth_secs : ℕ
