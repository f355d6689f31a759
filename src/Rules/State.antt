-- ===== src/Rules/State.antt =====
-- rules.rs: the state of the rule engine.
use lss.Base.{ℕ, ◌+◌, String, Option, none, Bool, false, List, [], ◌++◌, leb, is_none_or}
use lss.Base.Float.{F64}
use lss.Base.Map.{BTreeMap, get, string_ord}
use lss.Gate.{GateShadow}
use lss.Rules.Sustained.{Sustained, idle}
use lss.Rules.Windows.{GrowthWindow, DiskGrowth, FlapTracker}
use lss.Rules.Types.{AlertEvent, GpuObs, DiskObs}

abbrev pub no_flaps : FlapTracker
no_flaps = record { flaps = []; muted_announced = false }

-- One step of the evaluation after another: the events are pushed to one list, in this order.
infixl 6 ◌⨟◌
abbrev pub ◌⨟◌ :
    {S : Type 0} → (S → S × List AlertEvent) → (S → S × List AlertEvent) → S → S × List AlertEvent
◌⨟◌ a b e = let (e', out) = a e in let (e'', more) = b e' in (e'', out ++ more)

module _ (F : F64) where
  open F use {Float}

  pub record C1State : Type 0 where
    pub baseline_samples : List Float
    pub learned_baseline : Option Float
    pub low_probes : List (ℕ × Float)
    pub announced : Bool
    pub last_sent : Option ℕ
    pub validated : Bool
    pub last_valid_ts : Option ℕ
    pub stale : Sustained
    pub stale_flaps : FlapTracker

  pub record DigestGpu : Type 0 where
    pub max_temp_c : Float
    pub hot_secs : ℕ
    pub throttled_secs : ℕ

  pub record Digest : Type 0 where
    pub window_start : Option ℕ
    pub last_eval : Option ℕ
    pub gpus : BTreeMap ℕ DigestGpu

  pub record LastSeen : Type 0 where
    pub serve_up : Bool
    pub gate_up : Bool
    pub queue : Option Float
    pub waiters : Option ℕ
    pub gpus : Option (List (GpuObs F))
    pub growth_413 : Option ℕ
    pub growth_429 : Option ℕ
    pub c1_tok_s : Option Float
    pub omp_mismatch : Option (String × String)
    pub gate_shadow : Option (GateShadow F)
    pub disk : Option DiskObs

  pub record Engine : Type 0 where
    pub serve_down : Sustained
    pub serve_down_page : Sustained
    pub gate_down : Sustained
    pub queue : Sustained
    pub waiters : Sustained
    pub thermal_temp : BTreeMap ℕ Sustained
    pub thermal_throttle : BTreeMap ℕ Sustained
    pub gpu_missing : Sustained
    pub gpu_count_seen : ℕ
    pub rejects_413 : GrowthWindow
    pub rejects_429 : GrowthWindow
    pub event_last_sent : BTreeMap String ℕ
    pub restart_pending : BTreeMap String ℕ
    pub restart_planned : BTreeMap String Bool
    pub c1 : C1State
    pub omp_default : Sustained
    pub charge_errors : Sustained
    pub discount_inert : Sustained
    pub cold_budget : Sustained
    pub disk_full : Sustained
    pub disk_full_page : Sustained
    pub disk_growth : DiskGrowth
    pub digest : Digest
    pub last : LastSeen

  abbrev pub new_c1 : C1State
  new_c1 = record {
    baseline_samples = [];
    learned_baseline = none;
    low_probes = [];
    announced = false;
    last_sent = none;
    validated = false;
    last_valid_ts = none;
    stale = idle;
    stale_flaps = no_flaps;
  }

  -- `Engine::default()`
  abbrev pub new_engine : Engine
  new_engine = record {
    serve_down = idle;
    serve_down_page = idle;
    gate_down = idle;
    queue = idle;
    waiters = idle;
    thermal_temp = [];
    thermal_throttle = [];
    gpu_missing = idle;
    gpu_count_seen = 0;
    rejects_413 = record { points = []; rule = idle };
    rejects_429 = record { points = []; rule = idle };
    event_last_sent = [];
    restart_pending = [];
    restart_planned = [];
    c1 = new_c1;
    omp_default = idle;
    charge_errors = idle;
    discount_inert = idle;
    cold_budget = idle;
    disk_full = idle;
    disk_full_page = idle;
    disk_growth = record { points = []; rule = idle };
    digest = record { window_start = none; last_eval = none; gpus = [] };
    last = record {
      serve_up = false;
      gate_up = false;
      queue = none;
      waiters = none;
      gpus = none;
      growth_413 = none;
      growth_429 = none;
      c1_tok_s = none;
      omp_mismatch = none;
      gate_shadow = none;
      disk = none;
    };
  }

  unfoldable pub event_cooled : Engine → String → ℕ → ℕ → Bool
  event_cooled e key now cooldown =
      is_none_or (get e.event_last_sent key) (λ t. leb (t + cooldown) now)

  -- A step of the evaluation: the new state, and the events that it pushes to `out`.
  abbrev pub Eval : Type 0
  Eval = Engine → Engine × List AlertEvent
