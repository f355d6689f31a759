-- ===== src/Probe/Reading.antt =====
-- When a probe runs, and which probe the rules read.
use lss.Base.{
  ◌+◌, ◌≡◌, refl, ap, ◌∙◌, ◌↔◌, String, Option, none, some, Bool, true, false, List, [], ◌∷◌, ◌++◌,
  arith, leb, if◌then◌else◌, is_none_or, or_else, filter,
}
use lss.Base.Float.{F64}
use lss.Probe.{
  ProbeDecision, ProbeGate, decide, ProbeRecord, is_reading, invalidate, last_reading, speed_of,
  c1_reading,
}

module _ (F : F64) where
  open F use {Float, ratio, lt}

  -- A probe runs exactly when none is in flight, the interval since the last attempt is over, the
  -- server is up, and neither a running nor a queued request is reported.
  pub runs_exactly :
      (g : ProbeGate F)
      → (decide F g ≡ ProbeDecision.run) ↔ (
          (g.in_flight ≡ false)
          × (is_none_or g.last_attempt (λ t. leb (t + g.interval_secs) g.now) ≡ true)
          × (g.serve_up ≡ true)
          × (lt (ratio 0 1) g.running ≡ false)
          × (lt (ratio 0 1) g.queue ≡ false))
  unfolding decide
  runs_exactly g = ground arith

  last_reading-snoc :
      (ps : List (ProbeRecord F)) (p : ProbeRecord F)
      → last_reading F (ps ++ p ∷ [])
        ≡ or_else (if is_reading F p then some p else none) (last_reading F ps)
  unfolding last_reading
  last_reading-snoc [] p = ground arith
  last_reading-snoc (q ∷ ps) p = ground (arith, last_reading-snoc ps p)

  last_reading-filter :
      (ps : List (ProbeRecord F)) → last_reading F (filter (is_reading F) ps) ≡ last_reading F ps
  unfolding last_reading
  last_reading-filter [] = refl
  last_reading-filter (p ∷ ps) = ground (arith, last_reading-filter ps)

  invalid :
      (p : ProbeRecord F) (reason detail : String)
      → is_reading F (invalidate F p reason detail) ≡ false
  unfolding is_reading invalidate
  invalid p reason detail = ground arith

  speed :
      (p : ProbeRecord F) (b : Bool) (o : Option (ProbeRecord F))
      → speed_of F (or_else (if b then some p else none) o)
        ≡ (if b then p.decode_tok_s else speed_of F o)
  unfolding speed_of
  speed p true o = refl
  speed p false o = refl

  speed-snoc :
      (ps : List (ProbeRecord F)) (p : ProbeRecord F)
      → c1_reading F (ps ++ p ∷ []) ≡ (if is_reading F p then p.decode_tok_s else c1_reading F ps)
  unfolding c1_reading
  speed-snoc ps p =
      ap (speed_of F) (last_reading-snoc ps p) ∙ speed p (is_reading F p) (last_reading F ps)

  -- What is not a reading contributes nothing: the rules read the speed of the last probe of the batch
  -- that is a reading, whatever other probes stand before, between or after it, and an invalidated
  -- probe at the end never changes it.
  pub c1_reading-snoc :
      (ps : List (ProbeRecord F)) (p : ProbeRecord F) (reason detail : String)
      → (c1_reading F (ps ++ p ∷ []) ≡ (if is_reading F p then p.decode_tok_s else c1_reading F ps))
        × (c1_reading F (ps ++ invalidate F p reason detail ∷ []) ≡ c1_reading F ps)
        × (c1_reading F (filter (is_reading F) ps) ≡ c1_reading F ps)
  unfolding c1_reading
  c1_reading-snoc ps p reason detail = (
    speed-snoc ps p,
    speed-snoc ps (invalidate F p reason detail) ∙ rw (invalid p reason detail) refl,
    ap (speed_of F) (last_reading-filter ps),
  )
