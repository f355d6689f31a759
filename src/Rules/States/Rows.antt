-- ===== src/Rules/States/Rows.antt =====
-- rules.rs: the rows of rule_states for the GPUs, the decode speed and the events, and the whole.
use Prim.Native.Nat.{bit_and}
use Prim.Native.Char.{code}
use lss.Base.{
  ℕ, String, Option, none, some, Bool, List, [], ◌∷◌, ◌++◌, leb, ◌==◌, if◌then◌else◌, unwrap_or,
  is_empty, or_else, is_some, map_or, length, map, filter, head?, any, pos, sub_ℕ, concat, join,
  show_ℕ,
}
use lss.Base.Float.{F64}
use lss.Base.Map.{get, nat_ord, string_ord}
use lss.Base.Order.{str_le}
use lss.Base.Sort.{sort_by}
use lss.Config.{RulesConfig}
use lss.Gpu.{throttle_thermal_mask, throttle_flags}
use lss.TimeUtil.{fmt_duration}
use lss.Units.{TempStyle, fmt_temp_with}
use lss.Rules.Sustained.{Sustained, idle}
use lss.Rules.Windows.{
  flap_mute_threshold, flap_mute_window_secs, flap_label_window_secs, count_since, muted,
}
use lss.Rules.Types.{info, warn, hardware, Host, GpuObs}
use lss.Rules.State.{Engine}
use lss.Rules.States.{
  RuleState, severity_str, cooldown_left, sustained_row, event_row, timer_rows, disk_rows,
  reject_rows,
}

-- `dedup`, of a list in order
unfoldable pub dedup : List ℕ → List ℕ
dedup [] = []
dedup (i ∷ []) = i ∷ []
dedup (i ∷ j ∷ is) = let rest = dedup (j ∷ is) in if i == j then rest else i ∷ rest

abbrev begins : ℕ → String → Option String
begins c String.[] = none
begins c (String.◌∷◌ d s) = if code d == c then some s else none

abbrev after : ℕ → Option String → Option String
after c none = none
after c (some s) = begins c s

-- `k.starts_with("xid:")`
unfoldable pub is_xid_key : String → Bool
is_xid_key k = is_some (after b':' (after b'd' (after b'i' (begins b'x' k))))

module _ (F : F64) (host : Host) (cfg : RulesConfig F) where
  open F use {times, show_fixed}

  abbrev key_of : ℕ × Sustained → ℕ
  key_of p = p.0

  abbrev index_of : GpuObs F → ℕ
  index_of g = g.index

  -- every GPU that has a timer or a reading
  unfoldable pub gpu_indices : Engine F → List ℕ
  unfolding dedup
  gpu_indices e = dedup (
      sort_by leb (
        map key_of e.thermal_temp
        ++ (map key_of e.thermal_throttle ++ map index_of (unwrap_or e.last.gpus []))))

  abbrev temp_opt : Option F.Float → String
  temp_opt none = "-"
  temp_opt (some t) = fmt_temp_with F t host.units TempStyle.compact

  abbrev flags_text : List String → String
  flags_text flags = if is_empty flags then "none" else join "+" flags

  unfoldable pub gpu_pair : Engine F → ℕ → ℕ → List RuleState
  unfolding sustained_row
  gpu_pair e now i =
      let g = head? (filter (λ (g : GpuObs F). g.index == i) (unwrap_or e.last.gpus [])) in
      let note =
        if any (λ x. x == i) cfg.thermal_exclude then " (excluded: daily digest only)" else "" in
      let row = sustained_row cfg.cooldown_secs now in
      row (concat ("thermal_temp:gpu" ∷ show_ℕ i ∷ [])) warn (unwrap_or (get e.thermal_temp i) idle)
        (concat (
          ">= "
          ∷ fmt_temp_with F cfg.thermal_temp_c host.units TempStyle.compact
          ∷ " for "
          ∷ fmt_duration (pos cfg.thermal_secs)
          ∷ note
          ∷ []))
        (temp_opt (elim g [ none ↦ none | some g ↦ g.temp_c ]))
      ∷ row (concat ("thermal_throttle:gpu" ∷ show_ℕ i ∷ [])) warn
          (unwrap_or (get e.thermal_throttle i) idle)
          (concat ("thermal slowdown for " ∷ fmt_duration (pos cfg.thermal_secs) ∷ note ∷ []))
          (flags_text (elim g [
            | none ↦ []
            | some g ↦ throttle_flags (bit_and g.throttle_mask throttle_thermal_mask)
          ]))
      ∷ []

  unfoldable pub gpu_rows : Engine F → ℕ → List ℕ → List RuleState
  unfolding gpu_pair
  gpu_rows e now [] = []
  gpu_rows e now (i ∷ is) = gpu_pair e now i ++ gpu_rows e now is

  unfoldable pub c1_row : Engine F → ℕ → RuleState
  unfolding severity_str cooldown_left
  c1_row e now = record {
    rule = "c1_decode";
    severity = severity_str warn;
    state =
        if e.c1.announced then "firing" else if is_empty e.c1.low_probes then "ok" else "pending";
    threshold = elim (or_else cfg.c1_baseline_tok_s e.c1.learned_baseline) [
      | some b ↦ concat (
          "valid idle probe < "
          ∷ show_fixed 1 (times b cfg.c1_ratio)
          ∷ " tok/s, "
          ∷ show_ℕ cfg.c1_consecutive
          ∷ " in a row"
          ∷ [])
      | none ↦ concat (
          "learning the baseline ("
          ∷ show_ℕ (length e.c1.baseline_samples)
          ∷ "/"
          ∷ show_ℕ cfg.c1_baseline_probes
          ∷ ")"
          ∷ [])
    ];
    value = concat (
        map_or e.last.c1_tok_s "-" (show_fixed 1)
        ∷ " tok/s, "
        ∷ show_ℕ (length e.c1.low_probes)
        ∷ " low in a row"
        ∷ []);
    pending_since = none;
    last_fired = e.c1.last_sent;
    cooldown_remaining_s = cooldown_left cfg.cooldown_secs e.c1.last_sent now;
  }

  -- a muted row says so, and neither fires nor recovers
  unfoldable pub stale_row : Engine F → ℕ → RuleState
  unfolding severity_str cooldown_left sustained_row
  stale_row e now =
      if muted e.c1.stale_flaps now
      then record {
        rule = "c1_stale";
        severity = severity_str info;
        state = "muted";
        threshold = concat (
            ">= "
            ∷ show_ℕ flap_mute_threshold
            ∷ " flaps within "
            ∷ fmt_duration (pos flap_mute_window_secs)
            ∷ " mutes the row"
            ∷ []);
        value = concat (
            "c1_stale unreliable - "
            ∷ show_ℕ (count_since e.c1.stale_flaps.flaps now flap_label_window_secs)
            ∷ " flaps/24h, muted"
            ∷ []);
        pending_since = e.c1.stale.since;
        last_fired = e.c1.stale.last_sent;
        cooldown_remaining_s = cooldown_left cfg.cooldown_secs e.c1.stale.last_sent now;
      }
      else sustained_row cfg.cooldown_secs now "c1_stale" info e.c1.stale
          (concat (
            "no VALID idle reading for "
            ∷ show_ℕ cfg.c1_stale_probe_intervals
            ∷ " probe intervals"
            ∷ []))
          (map_or e.c1.last_valid_ts "never measured yet"
            (λ t. concat ("last valid " ∷ fmt_duration (sub_ℕ now t) ∷ " ago" ∷ [])))

  unfoldable pub restart_row : Engine F → ℕ → String → RuleState
  unfolding event_row
  restart_row e now role =
      let key = concat ("container_restart:" ∷ role ∷ []) in
      event_row cfg.cooldown_secs now key warn "any container restart" (get e.restart_pending role)
        (get e.event_last_sent key)

  abbrev pub xid_threshold : String
  xid_threshold = "any NVRM Xid in the kernel log"

  unfoldable pub xid_rows : Engine F → ℕ → List String → List RuleState
  unfolding event_row
  xid_rows e now [] = event_row cfg.cooldown_secs now "xid:*" hardware xid_threshold none none ∷ []
  xid_rows e now (k ∷ keys) =
      map
        (λ (key : String).
          event_row cfg.cooldown_secs now key hardware xid_threshold none
            (get e.event_last_sent key))
        (k ∷ keys)

  unfoldable pub xid_keys : Engine F → List String
  unfolding is_xid_key
  xid_keys e = sort_by str_le (filter is_xid_key (map (λ (p : String × ℕ). p.0) e.event_last_sent))

  unfoldable pub event_rows : Engine F → ℕ → List RuleState
  unfolding restart_row xid_rows xid_keys event_row
  event_rows e now =
      restart_row e now "serve"
      ∷ restart_row e now "gate"
      ∷ (xid_rows e now (xid_keys e)
          ++ (event_row cfg.cooldown_secs now "thermal_digest" info
                "daily summary of the excluded GPUs" none none
              ∷ []))

  unfoldable pub rule_states : Engine F → ℕ → List RuleState
  unfolding timer_rows disk_rows gpu_indices gpu_rows c1_row stale_row reject_rows event_rows
  rule_states e now =
      timer_rows F cfg e now
      ++ (disk_rows F cfg e now
          ++ (gpu_rows e now (gpu_indices e)
              ++ (c1_row e now ∷ stale_row e now ∷ (reject_rows F cfg e now ++ event_rows e now))))
