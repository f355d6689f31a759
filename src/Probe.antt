-- ===== src/Probe.antt =====
-- crates/lss-core/src/probe.rs: when the decode-speed probe may run, and what makes it a reading.
pub mod Evidence
pub mod Validity
pub mod Alone
pub mod Reading
use lss.Base.{
  ℕ, ◌+◌, ◌-◌, String, Option, none, some, Bool, true, false, not, ◌&&◌, ◌||◌, List, [], ◌∷◌, max,
  ltb, leb, if◌then◌else◌, is_some_and, or_else, unwrap_or, length, str_eq, concat, show_ℕ,
}
use lss.Base.Float.{F64}

pub data ProbeDecision : Type 0 where
  run not_due in_flight skip_busy skip_down : ProbeDecision

abbrev pub invalid_busy_before : String
invalid_busy_before = "busy_before"

module _ (F : F64) where
  open F use {Float, ratio, plus, minus, times, over, lt, le, fmax, fabs, show_fixed, show_float}

  pub record ProbeGate : Type 0 where
    pub now : ℕ
    pub last_attempt : Option ℕ
    pub interval_secs : ℕ
    pub in_flight : Bool
    pub serve_up : Bool
    pub running : Float
    pub queue : Float

  unfoldable pub decide : ProbeGate → ProbeDecision
  decide g =
      if g.in_flight
      then ProbeDecision.in_flight
      else if is_some_and g.last_attempt (λ t. ltb g.now (t + g.interval_secs))
      then ProbeDecision.not_due
      else if not g.serve_up
      then ProbeDecision.skip_down
      else if lt (ratio 0 1) g.running || lt (ratio 0 1) g.queue
      then ProbeDecision.skip_busy
      else ProbeDecision.run

  pub record ProbeRecord : Type 0 where
    pub ts : ℕ
    pub status : String
    pub ttft_ms : Option Float
    pub decode_tok_s : Option Float
    pub tokens : Option ℕ
    pub detail : String
    pub http_status : Option ℕ
    pub valid : Bool
    pub invalid_reason : Option String
    pub unverified : Bool

  unfoldable pub skipped_busy : ℕ → Float → Float → ProbeRecord
  skipped_busy ts running queue = record {
    ts = ts;
    status = "skipped_busy";
    ttft_ms = none;
    decode_tok_s = none;
    tokens = none;
    detail = concat ("running=" ∷ show_float running ∷ " queue=" ∷ show_float queue ∷ []);
    http_status = none;
    valid = false;
    invalid_reason = some invalid_busy_before;
    unverified = false;
  }

  unfoldable pub is_reading : ProbeRecord → Bool
  is_reading p = str_eq p.status "ok" && p.valid

  unfoldable pub invalidate : ProbeRecord → String → String → ProbeRecord
  invalidate p reason detail = record p {
    valid = false;
    invalid_reason = some reason;
    detail = detail;
  }

  -- `results.iter().rev().find(..)`: the last reading of the list
  unfoldable pub last_reading : List ProbeRecord → Option ProbeRecord
  unfolding is_reading
  last_reading [] = none
  last_reading (p ∷ ps) = or_else (last_reading ps) (if is_reading p then some p else none)

  unfoldable pub speed_of : Option ProbeRecord → Option Float
  speed_of none = none
  speed_of (some p) = p.decode_tok_s

  unfoldable pub c1_reading : List ProbeRecord → Option Float
  unfolding last_reading speed_of
  c1_reading results = speed_of (last_reading results)

  pub record ProbeTiming : Type 0 where
    pub ttft_ms : Float
    pub decode_tok_s : Float
    pub tokens : ℕ
    pub chunks : ℕ
    pub span_ms : Float

  -- `chunk_ms.last()`, of a list that begins with `first`
  unfoldable pub last_chunk : Float → List Float → Float
  last_chunk first [] = first
  last_chunk first (x ∷ xs) = last_chunk x xs

  unfoldable pub timing : List Float → Option ℕ → Option ProbeTiming
  unfolding last_chunk
  timing [] usage_tokens = none
  timing (first ∷ rest) usage_tokens =
      let chunks = length (first ∷ rest) in
      let tokens = max (unwrap_or usage_tokens chunks) chunks in
      let span_ms = minus (last_chunk first rest) first in
      let span_s = over span_ms (ratio 1000 1) in
      if ltb tokens 2 || le span_s (ratio 0 1)
      then none
      else some record {
        ttft_ms = first;
        decode_tok_s = over (ratio (tokens - 1) 1) span_s;
        tokens = tokens;
        chunks = chunks;
        span_ms = span_ms;
      }

  abbrev pub min_ms_per_token : Float
  min_ms_per_token = over (ratio 50 1) (ratio 16 1)

  abbrev pub buffered_tokens_per_chunk : Float
  buffered_tokens_per_chunk = ratio 4 1

  abbrev pub burst_over_baseline : Float
  burst_over_baseline = ratio 2 1

  unfoldable pub over_baseline : ProbeTiming → Option Float → Option String
  over_baseline t none = none
  over_baseline t (some b) =
      if lt (ratio 0 1) b && lt (times b burst_over_baseline) t.decode_tok_s
      then some (
          concat (
            show_fixed 0 t.decode_tok_s
            ∷ " tok/s is more than "
            ∷ show_fixed 0 burst_over_baseline
            ∷ "x the usual "
            ∷ show_fixed 0 b
            ∷ " tok/s: the answer was buffered, not streamed"
            ∷ []))
      else none

  unfoldable pub burst_reason : ProbeTiming → Option Float → Option String
  unfolding over_baseline
  burst_reason t baseline =
      let per_chunk = over (ratio t.tokens 1) (ratio (max t.chunks 1) 1) in
      if le buffered_tokens_per_chunk per_chunk
        && lt t.span_ms (times (ratio t.tokens 1) min_ms_per_token)
      then some (
          concat (
            "the answer arrived in one burst, not as a stream: "
            ∷ show_ℕ t.tokens
            ∷ " tokens in "
            ∷ show_ℕ t.chunks
            ∷ " chunk(s) over "
            ∷ show_fixed 0 t.span_ms
            ∷ " ms - too short to measure a speed"
            ∷ []))
      else over_baseline t baseline
