-- ===== src/Examples/Data.antt =====
-- A host, a configuration and observations; the numbers are thousandths.
use lss.Base.{
  str_eq, ℕ, ◌+◌, ◌-◌, ◌*◌, ◌/◌, none, some, Bool, true, false, [], ◌∷◌, ltb, leb, ◌==◌,
  if◌then◌else◌, max, min,
}
use lss.Base.Float.{F64}
use lss.Config.{RulesConfig}
use lss.GateLog.Lane.{Addresses}
use lss.Units.{TempUnits}
use lss.Rules.Types.{Host, Observation, GpuObs}

abbrev pub milli : F64
milli = record {
  Float = ℕ;
  ratio = λ n d. if d == 0 then 0 else n * 1000 / d;
  plus = λ a b. a + b;
  minus = λ a b. a - b;
  times = λ a b. a * b / 1000;
  over = λ a b. if b == 0 then 0 else a * 1000 / b;
  lt = ltb;
  le = leb;
  fmax = max;
  fmin = min;
  fabs = λ a. a;
  round = λ a. a;
  feq = ◌==◌;
  infinity = 1000000000000;
  neg_infinity = 0;
  nan = 0;
  as_nat = λ a. a / 1000;
  parse_float = λ t. none;
  total_le = leb;
  is_finite = λ a. true;
  show_fixed = λ n a. "x";
  show_float = λ a. "x";
}

-- one address of each version
abbrev pub addresses : Addresses
addresses = record {
  parse_v4 = λ t. if str_eq t "192.0.2.7" then some (192, 0, 2) else none;
  parse_v6 = λ t. if str_eq t "2001:db8::9" then some (8193, 3512, 0) else none;
  parse_ip = λ t. if str_eq t "192.0.2.7" then some (4, 3221225991) else none;
}

abbrev pub host : Host
host = record { units = TempUnits.c; fmt_utc = λ t f. "a day" }

abbrev pub cfg : RulesConfig milli
cfg = record {
  cooldown_secs = 1800;
  serve_down_secs = 120;
  serve_down_page_secs = 600;
  gate_down_secs = 120;
  queue_reqs = 5000;
  queue_secs = 300;
  waiters_secs = 300;
  thermal_temp_c = 90000;
  thermal_secs = 120;
  thermal_exclude = 1 ∷ [];
  gpu_missing_secs = 60;
  c1_ratio = 800;
  c1_consecutive = 2;
  c1_baseline_tok_s = none;
  c1_baseline_probes = 3;
  c1_max_ttft_s = 2000;
  c1_stale_probe_intervals = 6;
  reject_growth = 5;
  reject_window_secs = 600;
  restart_stable_secs = 60;
  omp_config_path = "";
  omp_mismatch_hold_secs = 300;
  charge_errors_secs = 300;
  discount_inert_secs = 300;
  discount_min_admissions = 50;
  cold_budget_secs = 300;
  cold_budget_inflight = 100000;
  cold_budget_hit_rate = 200;
  disk_path = "/";
  disk_warn_pct = 85000;
  disk_page_pct = 95000;
  disk_secs = 300;
  disk_recover_margin_pct = 2000;
  disk_growth_gb = 50000;
  disk_growth_secs = 3600;
}

abbrev pub gpu_1 : GpuObs milli
gpu_1 = record { index = 1; temp_c = some 95000; throttle_mask = 0 }

-- an observation at `now` of the serve, with or without a benchmark
abbrev pub observe : ℕ → Bool → Bool → Observation milli
observe now serve bench = record {
  now = now;
  serve_up = serve;
  gate_up = true;
  queue = some 0;
  trusted_waiters = none;
  trusted_inflight_tokens = none;
  trusted_budget_tokens = none;
  cache_hit_rate = none;
  rejected_413 = none;
  rejected_429 = none;
  gpus = none;
  xids = [];
  restarts = [];
  running_roles = [];
  probe_tok_s = none;
  probe_ts = none;
  test_alerts = "hello" ∷ [];
  bench_active = bench;
  probe_interval_secs = 600;
  maintenance_active = false;
  gate_shadow = none;
  omp_mismatch = none;
  disk = none;
}
