-- ===== src/Probe/Evidence.antt =====
-- probe.rs: `validate`, which judges what was seen around one probe.
use lss.Base.{
  ℕ, ◌-◌, String, Option, none, some, Bool, not, ◌&&◌, ◌||◌, [], ◌∷◌, ltb, ◌==◌, if◌then◌else◌,
  concat, show_ℕ,
}
use lss.Base.Float.{F64}
use lss.Probe.{invalid_busy_before}

abbrev pub invalid_slow_ttft : String
invalid_slow_ttft = "slow_ttft"

abbrev pub invalid_contended : String
invalid_contended = "contended"

-- What a probe could be shown to be.
pub data Confidence : Type 0 where
  ran_alone : Confidence
  could_not_rule_out : String → Confidence

-- `Result<Confidence, (&'static str, String)>`
pub data Verdict : Type 0 where
  accepted : Confidence → Verdict
  rejected : String → String → Verdict

module _ (F : F64) where
  open F use {Float, ratio, minus, times, over, lt, le, fmax, fabs, show_fixed, show_float}

  pub record ProbeEvidence : Type 0 where
    pub running_before : Float
    pub queue_before : Float
    pub ttft_ms : Float
    pub running_after : Option Float
    pub queue_after : Option Float
    pub admitted_before : Option ℕ
    pub admitted_after : Option ℕ
    pub probe_admitted : Bool
    pub gateway : Bool
    pub engine_reports_load : Bool
    pub gen_tokens_before : Option Float
    pub gen_tokens_after : Option Float
    pub probe_tokens : Float
    pub ttft_baseline_ms : Option Float
    pub requests_before : Option Float
    pub requests_after : Option Float
    pub prompt_tokens_before : Option Float
    pub prompt_tokens_after : Option Float

  abbrev pub prompt_margin : Float
  prompt_margin = ratio 4096 1

  abbrev pub contended_ratio : Float
  contended_ratio = ratio 3 2

  abbrev pub counter_margin : Float
  counter_margin = ratio 8 1

  -- The checks of `validate` in their order; each rejects, or hands on to the next.
  abbrev pub unless_busy : ProbeEvidence → Verdict → Verdict
  unless_busy e next =
      if lt (ratio 0 1) e.running_before || lt (ratio 0 1) e.queue_before
      then rejected invalid_busy_before (
          concat (
            "running="
            ∷ show_float e.running_before
            ∷ " queue="
            ∷ show_float e.queue_before
            ∷ " before the probe"
            ∷ []))
      else next

  abbrev pub unless_slow : ProbeEvidence → Float → Verdict → Verdict
  unless_slow e max_ttft_s next =
      if lt (times max_ttft_s (ratio 1000 1)) e.ttft_ms
      then rejected invalid_slow_ttft (
          concat (
            "TTFT "
            ∷ show_fixed 1 (over e.ttft_ms (ratio 1000 1))
            ∷ " s > "
            ∷ show_float max_ttft_s
            ∷ " s: the engine was prefilling someone else"
            ∷ []))
      else next

  abbrev pub unless_late : Float → Option Float → Verdict → Verdict
  unless_late ttft_ms none next = next
  unless_late ttft_ms (some idle) next =
      if lt (ratio 0 1) idle && lt (times contended_ratio idle) ttft_ms
      then rejected invalid_contended (
          concat (
            "TTFT "
            ∷ show_fixed 1 ttft_ms
            ∷ " ms is "
            ∷ show_fixed 1 (over ttft_ms idle)
            ∷ "x the idle median "
            ∷ show_fixed 1 idle
            ∷ " ms (limit "
            ∷ show_float contended_ratio
            ∷ "x): the engine was busy with someone else's request"
            ∷ []))
      else next

  -- what a counter grew by; a counter that went backwards has not grown
  unfoldable pub grown : Float → Float → Float
  grown before after = fmax (minus after before) (ratio 0 1)

  abbrev pub unless_requests : Option Float → Option Float → Verdict → Verdict
  unless_requests (some before) (some after) next =
      let others = minus (grown before after) (ratio 1 1) in
      if le (ratio 1 1) others
      then rejected invalid_contended (
          concat (
            "requests_total grew by "
            ∷ show_fixed 0 (minus after before)
            ∷ ": "
            ∷ show_fixed 0 others
            ∷ " other request(s) finished on this engine while the probe was out"
            ∷ []))
      else next
  unless_requests _ _ next = next

  abbrev pub unless_prompted : Option Float → Option Float → Verdict → Verdict
  unless_prompted (some before) (some after) next =
      if lt prompt_margin (grown before after)
      then rejected invalid_contended (
          concat (
            "prompt_tokens_total grew by "
            ∷ show_fixed 0 (grown before after)
            ∷ " - the probe's own prompt is a sentence: someone else's prompt was processed during the probe"
            ∷ []))
      else next
  unless_prompted _ _ next = next

  unfoldable pub why_generated : Float → Float → String
  why_generated n own =
      if lt own n
      then concat (
          show_fixed 0 (minus n own)
          ∷ " more than the probe's own "
          ∷ show_fixed 0 own
          ∷ " tokens"
          ∷ [])
      else concat ("neither 0 nor the probe's own " ∷ show_fixed 0 own ∷ " tokens" ∷ [])

  abbrev pub unless_generated : Float → Option Float → Option Float → Verdict → Verdict
  unless_generated own (some before) (some after) next =
      let n = grown before after in
      if not (le n counter_margin) && not (le (fabs (minus n own)) counter_margin)
      then rejected invalid_contended (
          concat (
            "generation_tokens_total grew by "
            ∷ show_fixed 0 n
            ∷ ", "
            ∷ why_generated n own
            ∷ ": something else generated on this engine during the probe"
            ∷ []))
      else next
  unless_generated own _ _ next = next

  abbrev pub reading : Option String → Verdict
  reading none = accepted ran_alone
  reading (some why) = accepted (could_not_rule_out why)

  -- the gate's admissions, of which the probe is `own`
  abbrev pub admissions : ℕ → Option ℕ → Option ℕ → Option String → Verdict
  admissions own (some before) (some after) caveat =
      if ltb after before
      then rejected invalid_contended "the gate restarted during the probe"
      else if (after - before - own) == 0
      then reading caveat
      else rejected invalid_contended (
          concat (
            "the gate admitted "
            ∷ show_ℕ (after - before - own)
            ∷ " other request(s) during the probe"
            ∷ []))
  admissions own _ _ caveat =
      rejected invalid_contended "gate admitted counters unreadable: cannot show it ran alone"

  abbrev pub at_gate : ProbeEvidence → Option String → Verdict
  at_gate e caveat =
      if not e.gateway
      then reading caveat
      else admissions (if e.probe_admitted then 1 else 0) e.admitted_before e.admitted_after caveat

  abbrev pub no_load : String
  no_load = "the engine does not report how many requests are running"

  -- the engine's own load right after the probe
  abbrev pub unless_loaded :
      Bool → Option Float → Option Float → (Option String → Verdict) → Verdict
  unless_loaded reports (some running) (some queue) next =
      if lt (ratio 1 1) running || lt (ratio 0 1) queue
      then rejected invalid_contended (
          concat (
            "running="
            ∷ show_float running
            ∷ " queue="
            ∷ show_float queue
            ∷ " right after the probe"
            ∷ []))
      else next none
  unless_loaded reports _ _ next =
      if not reports
      then next (some no_load)
      else rejected invalid_contended
          "engine metrics unreadable after the probe: cannot show it ran alone"

  unfoldable pub validate : ProbeEvidence → Float → Verdict
  validate e max_ttft_s = unless_busy e (
      unless_slow e max_ttft_s (
        unless_late e.ttft_ms e.ttft_baseline_ms (
          unless_requests e.requests_before e.requests_after (
            unless_prompted e.prompt_tokens_before e.prompt_tokens_after (
              unless_generated e.probe_tokens e.gen_tokens_before e.gen_tokens_after
                (unless_loaded e.engine_reports_load e.running_after e.queue_after (at_gate e)))))))
