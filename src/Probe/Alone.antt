-- ===== src/Probe/Alone.antt =====
-- Which readings are said to have run alone.
use lss.Base.{
  ℕ, ◌+◌, ◌≡◌, refl, inl, inr, String, Option, none, some, Bool, true, false, not, ◌&&◌, ◌||◌,
  arith, leb, if◌then◌else◌, Bool-cases,
}
use lss.Base.Float.{F64}
use lss.Probe.Evidence.{
  ran_alone, could_not_rule_out, Verdict, accepted, rejected, ProbeEvidence, validate,
  unless_loaded, at_gate, admissions, no_load,
}
use lss.Probe.Validity.{both_read, looks_alone, load_quiet, gate_quiet, past_all}

pub is_alone : Verdict → Bool
is_alone (accepted ran_alone) = true
is_alone (accepted (could_not_rule_out why)) = false
is_alone (rejected reason detail) = false

module _ (F : F64) where
  open F use {Float, ratio, lt}

  alone-admissions :
      (own : ℕ) (before after : Option ℕ)
      → is_alone (admissions F own before after none)
        ≡ both_read before after (λ a b. leb a b && leb b (a + own))
  unfolding is_alone both_read
  alone-admissions own (some a) (some b) = ground arith
  alone-admissions own none b = refl
  alone-admissions own (some a) none = refl

  alone-at_gate : (e : ProbeEvidence F) → is_alone (at_gate F e none) ≡ gate_quiet F e
  unfolding gate_quiet is_alone
  alone-at_gate e = elim (Bool-cases e.gateway) [
    | inl g ↦
        rw g
          (alone-admissions (if e.probe_admitted then 1 else 0) e.admitted_before e.admitted_after)
    | inr g ↦ rw g refl
  ]

  caveat-admissions :
      (own : ℕ) (before after : Option ℕ) (why : String)
      → is_alone (admissions F own before after (some why)) ≡ false
  unfolding is_alone
  caveat-admissions own (some a) (some b) why = ground arith
  caveat-admissions own none b why = refl
  caveat-admissions own (some a) none why = refl

  caveat-at_gate : (e : ProbeEvidence F) (why : String) → is_alone (at_gate F e (some why)) ≡ false
  unfolding is_alone
  caveat-at_gate e why = elim (Bool-cases e.gateway) [
    | inl g ↦ rw g (
        caveat-admissions (if e.probe_admitted then 1 else 0) e.admitted_before e.admitted_after
          why)
    | inr g ↦ rw g refl
  ]

  alone-loaded :
      (reports : Bool) (running queue : Option Float) (next : Option String → Verdict) (b : Bool)
      → is_alone (next none) ≡ b
      → is_alone (next (some (no_load F))) ≡ false
      → is_alone (unless_loaded F reports running queue next)
        ≡ (both_read running queue (λ r q. not (lt (ratio 1 1) r || lt (ratio 0 1) q)) && b)
  unfolding is_alone both_read
  alone-loaded reports (some r) (some q) next b h k = ground arith
  alone-loaded reports none q next b h k = ground arith
  alone-loaded reports (some r) none next b h k = ground arith

  -- A probe is said to have run alone exactly when, of an accepted one, that was proved: the load after
  -- it was read and is at most the probe. Every other accepted reading says that it could not be proved.
  pub alone_was_read :
      (e : ProbeEvidence F) (max_ttft_s : Float)
      → is_alone (validate F e max_ttft_s)
        ≡ looks_alone F e max_ttft_s (load_quiet F e && gate_quiet F e)
  unfolding load_quiet is_alone
  alone_was_read e max_ttft_s =
      past_all F is_alone (λ r d. refl) e max_ttft_s
        (alone-loaded e.engine_reports_load e.running_after e.queue_after (at_gate F e) _
          (alone-at_gate e) (caveat-at_gate e (no_load F)))
