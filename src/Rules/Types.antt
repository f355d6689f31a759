-- ===== src/Rules/Types.antt =====
-- rules.rs: what the rule engine sees and what it says, and the small functions on them.
use lss.Base.{
  ℕ, ◌+◌, ◌/◌, ◌%◌, String, Option, Bool, true, false, List, [], ◌∷◌, ltb, ◌==◌, if◌then◌else◌,
  concat, show_ℕ,
}
use lss.Base.Float.{F64}
use lss.Gate.{GateShadow}
use lss.Units.{TempUnits}
use lss.Xid.{XidEvent}
use lss.Rules.Sustained.{Edge, no_edge, fire, recover}

pub data Severity : Type 0 where
  info warn page hardware : Severity

pub record AlertEvent : Type 0 where
  pub ts : ℕ
  pub rule : String
  pub severity : Severity
  pub message : String
  pub recovered : Bool

pub record RestartObs : Type 0 where
  pub role : String
  pub detail : String

pub record DiskObs : Type 0 where
  pub path : String
  pub total_bytes : ℕ
  pub avail_bytes : ℕ

-- What the texts of the messages take from the process: the configured temperature units, and the
-- rendering of a UTC time by the chrono crate.
pub record Host : Type 0 where
  pub units : TempUnits
  pub fmt_utc : ℕ → String → String

unfoldable pub alert : ℕ → String → Severity → Bool → String → AlertEvent
alert ts rule severity recovered message = record {
  ts = ts;
  rule = rule;
  severity = severity;
  message = if recovered then concat ("RECOVERED: " ∷ message ∷ []) else message;
  recovered = recovered;
}

-- The events that `push_edge` pushes to `out`.
unfoldable pub push_edge : Edge → ℕ → String → Severity → String → String → List AlertEvent
push_edge fire now rule sev on off = alert now rule sev false on ∷ []
push_edge recover now rule sev on off = alert now rule sev true off ∷ []
push_edge no_edge now rule sev on off = []

unfoldable pub gb : ℕ → String
gb bytes =
    let mb = (bytes + 500000) / 1000000 in
    let tenths = (bytes + 50000000) / 100000000 in
    if ltb mb 1000
    then concat (show_ℕ mb ∷ " MB" ∷ [])
    else if ltb tenths 100
    then concat (show_ℕ (tenths / 10) ∷ "." ∷ show_ℕ (tenths % 10) ∷ " GB" ∷ [])
    else concat (show_ℕ ((bytes + 500000000) / 1000000000) ∷ " GB" ∷ [])

module _ (F : F64) where
  open F use {Float, ratio, minus, times, over, show_fixed}

  pub record GpuObs : Type 0 where
    pub index : ℕ
    pub temp_c : Option Float
    pub throttle_mask : ℕ

  unfoldable pub used_pct : DiskObs → Float
  used_pct d =
      if d.total_bytes == 0
      then ratio 0 1
      else times (ratio 100 1)
          (minus (ratio 1 1) (over (ratio d.avail_bytes 1) (ratio d.total_bytes 1)))

  unfoldable pub describe : DiskObs → String
  unfolding used_pct gb
  describe d = concat (
      show_fixed 1 (used_pct d)
      ∷ "% used ("
      ∷ gb d.avail_bytes
      ∷ " free of "
      ∷ gb d.total_bytes
      ∷ ")"
      ∷ [])

  pub record Observation : Type 0 where
    pub now : ℕ
    pub serve_up : Bool
    pub gate_up : Bool
    pub queue : Option Float
    pub trusted_waiters : Option ℕ
    pub trusted_inflight_tokens : Option ℕ
    pub trusted_budget_tokens : Option ℕ
    pub cache_hit_rate : Option Float
    pub rejected_413 : Option ℕ
    pub rejected_429 : Option ℕ
    pub gpus : Option (List GpuObs)
    pub xids : List XidEvent
    pub restarts : List RestartObs
    pub running_roles : List String
    pub probe_tok_s : Option Float
    pub probe_ts : Option ℕ
    pub test_alerts : List String
    pub bench_active : Bool
    pub probe_interval_secs : ℕ
    pub maintenance_active : Bool
    pub gate_shadow : Option (GateShadow F)
    pub omp_mismatch : Option (String × String)
    pub disk : Option DiskObs
