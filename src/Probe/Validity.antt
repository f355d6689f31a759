-- ===== src/Probe/Validity.antt =====
-- What a probe has to show to be a reading.
use lss.Base.{
  ◌+◌, ◌≡◌, String, Option, none, some, Bool, true, false, not, ◌&&◌, ◌||◌, leb, if◌then◌else◌,
  is_none_or,
}
use lss.Base.Float.{F64}
use lss.Probe.Evidence.{
  Verdict, accepted, rejected, ProbeEvidence, grown, prompt_margin, contended_ratio, counter_margin,
  validate, unless_late, unless_requests, unless_prompted, unless_generated, unless_loaded, at_gate,
}

unfoldable pub is_accepted : Verdict → Bool
is_accepted (accepted c) = true
is_accepted (rejected reason detail) = false

-- A check on two counts, passed if either is missing.
pub both : {A : Type 0} → Option A → Option A → (A → A → Bool) → Bool
both (some a) (some b) p = p a b
both _ _ p = true

unfoldable pub both_read : {A : Type 0} → Option A → Option A → (A → A → Bool) → Bool
both_read (some a) (some b) p = p a b
both_read _ _ p = false

module _ (F : F64) where
  open F use {Float, ratio, minus, times, lt, le, fabs}

  -- what the evidence before and during the probe shows, one fact for each kind
  pub looks_alone : ProbeEvidence F → Float → Bool → Bool
  looks_alone e max_ttft_s rest =
      not (lt (ratio 0 1) e.running_before || lt (ratio 0 1) e.queue_before)
      && (not (lt (times max_ttft_s (ratio 1000 1)) e.ttft_ms)
          && (is_none_or e.ttft_baseline_ms
                (λ idle. not (lt (ratio 0 1) idle && lt (times (contended_ratio F) idle) e.ttft_ms))
              && (both e.requests_before e.requests_after
                    (λ a b. not (le (ratio 1 1) (minus (grown F a b) (ratio 1 1))))
                  && (both e.prompt_tokens_before e.prompt_tokens_after
                        (λ a b. not (lt (prompt_margin F) (grown F a b)))
                      && (both e.gen_tokens_before e.gen_tokens_after (λ a b. not (
                            not (le (grown F a b) (counter_margin F))
                            && not (
                                le (fabs (minus (grown F a b) e.probe_tokens)) (counter_margin F))))
                          && rest)))))

  -- the load that was read after the probe is at most the probe
  unfoldable pub load_quiet : ProbeEvidence F → Bool
  load_quiet e =
      both_read e.running_after e.queue_after (λ r q. not (lt (ratio 1 1) r || lt (ratio 0 1) q))

  -- at a gateway, the counters were read and at most the probe was admitted
  unfoldable pub gate_quiet : ProbeEvidence F → Bool
  gate_quiet e =
      not e.gateway
      || both_read e.admitted_before e.admitted_after
          (λ a b. leb a b && leb b (a + (if e.probe_admitted then 1 else 0)))

  -- a test of a verdict that no rejection passes; each check adds its fact
  module _ (p : Verdict → Bool) (rejects : (r d : String) → p (rejected r d) ≡ false) where
    past :
        (c : Bool) (r d : String) (next : Verdict) {b : Bool}
        → p next ≡ b
        → p (if c then rejected r d else next) ≡ (not c && b)
    past true r d next h = rejects r d
    past false r d next h = h

    past_late :
        (ttft : Float) (idle : Option Float) (next : Verdict) {b : Bool}
        → p next ≡ b
        → p (unless_late F ttft idle next) ≡ (
            is_none_or idle (λ i. not (lt (ratio 0 1) i && lt (times (contended_ratio F) i) ttft))
            && b)
    past_late ttft none next h = h
    past_late ttft (some i) next h = past _ _ _ next h

    past_requests :
        (before after : Option Float) (next : Verdict) {b : Bool}
        → p next ≡ b
        → p (unless_requests F before after next)
          ≡ (both before after (λ x y. not (le (ratio 1 1) (minus (grown F x y) (ratio 1 1)))) && b)
    unfolding both
    past_requests (some x) (some y) next h = past _ _ _ next h
    past_requests none y next h = h
    past_requests (some x) none next h = h

    past_prompted :
        (before after : Option Float) (next : Verdict) {b : Bool}
        → p next ≡ b
        → p (unless_prompted F before after next)
          ≡ (both before after (λ x y. not (lt (prompt_margin F) (grown F x y))) && b)
    unfolding both
    past_prompted (some x) (some y) next h = past _ _ _ next h
    past_prompted none y next h = h
    past_prompted (some x) none next h = h

    past_generated :
        (own : Float) (before after : Option Float) (next : Verdict) {b : Bool}
        → p next ≡ b
        → p (unless_generated F own before after next) ≡ (
            both before after (λ x y. not (
              not (le (grown F x y) (counter_margin F))
              && not (le (fabs (minus (grown F x y) own)) (counter_margin F))))
            && b)
    unfolding both
    past_generated own (some x) (some y) next h = past _ _ _ next h
    past_generated own none y next h = h
    past_generated own (some x) none next h = h

    pub past_all :
        (e : ProbeEvidence F) (max_ttft_s : Float) {b : Bool}
        → p (unless_loaded F e.engine_reports_load e.running_after e.queue_after (at_gate F e)) ≡ b
        → p (validate F e max_ttft_s) ≡ looks_alone e max_ttft_s b
    unfolding validate looks_alone
    past_all e max_ttft_s h = past _ _ _ _ (
        past _ _ _ _ (
          past_late e.ttft_ms e.ttft_baseline_ms _ (
            past_requests e.requests_before e.requests_after _ (
              past_prompted e.prompt_tokens_before e.prompt_tokens_after _
                (past_generated e.probe_tokens e.gen_tokens_before e.gen_tokens_after _ h)))))
