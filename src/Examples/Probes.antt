-- ===== src/Examples/Probes.antt =====
-- The theorems on the probe and the token ledger, at concrete inputs.
use lss.Base.{ℕ, ◌≡◌, refl, ◌⊎◌, none, some, true, false, List, [], ◌∷◌, arith, ltb, All}
use lss.Probe.{ProbeDecision, ProbeGate, decide, ProbeRecord}
use lss.Probe.Evidence.{ProbeEvidence, validate, grown, why_generated}
use lss.Probe.Validity.{is_accepted}
use lss.Tokens.{observe, note_peak, observe_all}
use lss.Tokens.Ledger.{Sample, ledger, Counted, ledger_exact}
use lss.Tokens.Peaks.{is_busy, peak_highest}
use lss.Examples.Data.{milli}

abbrev due : ProbeGate milli
due = record {
  now = 1000;
  last_attempt = some 100;
  interval_secs = 600;
  in_flight = false;
  serve_up = true;
  running = 0;
  queue = 0;
}

due_runs : decide milli due ≡ ProbeDecision.run
unfolding decide
due_runs = refl

abbrev probe : ℕ → ℕ → ProbeRecord milli
probe ts speed = record {
  ts = ts;
  status = "ok";
  ttft_ms = some 130000;
  decode_tok_s = some speed;
  tokens = some 128;
  detail = "";
  http_status = some 200;
  valid = true;
  invalid_reason = none;
  unverified = false;
}

-- an idle engine without a gateway
abbrev quiet : ProbeEvidence milli
quiet = record {
  running_before = 0;
  queue_before = 0;
  ttft_ms = 130000;
  running_after = some 1000;
  queue_after = some 0;
  admitted_before = none;
  admitted_after = none;
  probe_admitted = false;
  gateway = false;
  engine_reports_load = true;
  gen_tokens_before = some 500000;
  gen_tokens_after = some 628000;
  probe_tokens = 128000;
  ttft_baseline_ms = some 120000;
  requests_before = some 7000;
  requests_after = some 8000;
  prompt_tokens_before = none;
  prompt_tokens_after = none;
}

quiet-is_accepted : is_accepted (validate milli quiet 2000) ≡ true
unfolding validate is_accepted grown why_generated
quiet-is_accepted = refl

abbrev sample : ℕ → ℕ → ℕ → ℕ → Sample milli
sample ts epoch generated speed = record {
  ts = ts;
  day = "2026-09-20";
  epoch = epoch;
  metrics = record {
    generation_tokens_total = generated;
    prompt_tokens_total = generated;
    cached_tokens_total = 0;
    requests_total = 1000;
    gen_throughput = speed;
  };
}

-- the server restarted before the newest sample
abbrev samples : List (Sample milli)
samples = sample 1010 900 300 80 ∷ sample 1005 500 900 120 ∷ sample 1000 500 700 100 ∷ []

ledger_exact_example : Counted milli samples (ledger milli samples)
ledger_exact_example = ledger_exact milli samples

-- 200 before the restart and 300 after it
generated_500 : (ledger milli samples).generated.total ≡ 500
unfolding ledger observe_all note_peak observe
generated_500 = refl

ltb_irrefl : (a : ℕ) → ltb a a ≡ false
ltb_irrefl a = ground arith

ltb_trans : (a b c : ℕ) → ltb a b ≡ true → ltb b c ≡ true → ltb a c ≡ true
ltb_trans a b c h k = ground arith

peak_highest_example :
    All
      (λ s.
        (is_busy milli s ≡ false)
        ⊎ (ltb (ledger milli samples).peak.tok_s s.metrics.gen_throughput ≡ false))
      samples
peak_highest_example = peak_highest milli ltb_irrefl ltb_trans samples
