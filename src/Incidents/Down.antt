-- ===== src/Incidents/Down.antt =====
-- The down tracker against the whole history of polls, newest first.
use lss.Base.{
  ℕ, suc, ◌≡◌, refl, ap, String, Option, none, some, Bool, true, false, List, [], ◌∷◌, map, arith,
  min, leb, ◌==◌, if◌then◌else◌, unwrap_or, sub_ℕ, ◌≢◌, ◌⊎◌, inl, inr, Bool-cases, ◌∙◌,
}
use lss.Incidents.{
  kind_serve_down, kind_gate_down, open_incident, close, DownTracker, no_misses, step_down,
  misses_to_open, IncidentTracker, IncidentInput, serve_down_since, gate_down_since, step,
}

pub record Poll : Type 0 where
  pub now : ℕ
  pub up : Bool
  pub detail : String

-- The specification: how many polls failed since the last one that did not, and when the first of
-- them was.
pub trailing : List Poll → ℕ
trailing [] = 0
trailing (p ∷ h) = let n = trailing h in if p.up then 0 else suc n

pub first_failed : List Poll → Option ℕ
first_failed [] = none
first_failed (p ∷ h) =
    let first = unwrap_or (first_failed h) p.now in if p.up then none else some first

pub outage : List Poll → Option ℕ
unfolding trailing first_failed
outage h = if leb misses_to_open (trailing h) then first_failed h else none

module _ (kind : String) where
  unfoldable pub run : List Poll → DownTracker
  run [] = no_misses
  run (p ∷ h) = (step_down (run h) kind p.now p.up p.detail).0

  misses-step :
      (b : Bool) (t : DownTracker) (n : ℕ) (now : ℕ) (detail : String)
      → t.misses ≡ min n 4294967295
      → (step_down t kind now b detail).0.misses ≡ min (if b then 0 else suc n) 4294967295
  unfolding step_down
  misses-step true t n now detail eq = omega arith
  misses-step false t n now detail eq = omega arith

  first_miss-step :
      (b : Bool) (t : DownTracker) (first : Option ℕ) (now : ℕ) (detail : String)
      → t.first_miss ≡ first
      → (step_down t kind now b detail).0.first_miss
        ≡ (if b then none else some (unwrap_or first now))
  unfolding step_down
  first_miss-step true t first now detail eq = refl
  first_miss-step false t first now detail eq = ap (λ o. some (unwrap_or o now)) eq

  run-misses : (h : List Poll) → (run h).misses ≡ min (trailing h) 4294967295
  unfolding run trailing
  run-misses [] = omega arith
  run-misses (p ∷ h) = misses-step p.up (run h) (trailing h) p.now p.detail (run-misses h)

  run-first_miss : (h : List Poll) → (run h).first_miss ≡ first_failed h
  unfolding run first_failed
  run-first_miss [] = refl
  run-first_miss (p ∷ h) =
      first_miss-step p.up (run h) (first_failed h) p.now p.detail (run-first_miss h)

  open-step :
      (b : Bool) (t : DownTracker) (n : ℕ) (first : Option ℕ) (now : ℕ) (detail : String)
      → t.misses ≡ min n 4294967295
      → t.first_miss ≡ first
      → t.open_since ≡ (if leb misses_to_open n then first else none)
      → (n ≡ 0) ⊎ (first ≢ none)
      → (step_down t kind now b detail).0.open_since ≡ (
          if leb misses_to_open (if b then 0 else suc n)
          then (if b then none else some (unwrap_or first now))
          else none)
  unfolding step_down
  open-step true t n first now detail m f o w = refl
  open-step false t n first now detail m f o w = rw (f, o) (ground arith)

  trailing-first_failed : (h : List Poll) → (trailing h ≡ 0) ⊎ (first_failed h ≢ none)
  unfolding trailing first_failed
  trailing-first_failed [] = inl refl
  trailing-first_failed (p ∷ h) = elim (Bool-cases p.up) [
    | inl u ↦ inl (rw u refl)
    | inr u ↦ inr (rw u (λ eq. ground arith))
  ]

  run-open_since : (h : List Poll) → (run h).open_since ≡ outage h
  unfolding run outage trailing first_failed
  run-open_since [] = refl
  run-open_since (p ∷ h) =
      open-step p.up (run h) (trailing h) (first_failed h) p.now p.detail (run-misses h)
        (run-first_miss h) (run-open_since h) (trailing-first_failed h)

  ops-step :
      (b : Bool) (t : DownTracker) (n : ℕ) (first : Option ℕ) (now : ℕ) (detail : String)
      → t.misses ≡ min n 4294967295
      → t.first_miss ≡ first
      → t.open_since ≡ (if leb misses_to_open n then first else none)
      → (n ≡ 0) ⊎ (first ≢ none)
      → (step_down t kind now b detail).1 ≡ (
          if b
          then (if leb misses_to_open n
              then close kind now (sub_ℕ now (unwrap_or first now)) ∷ []
              else [])
          else (if n == 1 then open_incident kind (unwrap_or first now) detail ∷ [] else []))
  unfolding step_down
  ops-step true t n first now detail m f o w = rw (o) (ground arith)
  ops-step false t n first now detail m f o w = rw (f, o) (ground arith)

  -- After any history `h` of polls from a fresh tracker, a further poll opens an incident exactly
  -- when it fails right after a single failed poll, starting it at that first failure; a poll that
  -- succeeds closes one exactly when at least two polls before it failed in a row, with the time
  -- since the first of these as its duration; no other poll does anything.
  pub down_ops_exactly :
      (h : List Poll) (p : Poll)
      → (step_down (run h) kind p.now p.up p.detail).1 ≡ (
          if p.up
          then (if leb misses_to_open (trailing h)
              then close kind p.now (sub_ℕ p.now (unwrap_or (first_failed h) p.now)) ∷ []
              else [])
          else (if trailing h == 1
              then open_incident kind (unwrap_or (first_failed h) p.now) p.detail ∷ []
              else []))
  unfolding trailing outage
  down_ops_exactly h p =
      ops-step p.up (run h) (trailing h) (first_failed h) p.now p.detail (run-misses h)
        (run-first_miss h) (run-open_since h) (trailing-first_failed h)

-- The tracker fed with a whole history of inputs, newest first.
unfoldable pub track : List IncidentInput → IncidentTracker
track [] = record { serve = no_misses; gate = no_misses; containers = [] }
track (i ∷ h) = (step (track h) i).0

unfoldable pub serve_poll : IncidentInput → Poll
serve_poll i = record { now = i.now; up = i.serve_up; detail = i.serve_detail }

unfoldable pub gate_poll : IncidentInput → Poll
gate_poll i = record { now = i.now; up = i.gate_up; detail = i.gate_detail }

pub serve-track :
    (h : List IncidentInput) → (track h).serve ≡ run kind_serve_down (map serve_poll h)
unfolding track step run serve_poll
serve-track [] = refl
serve-track (i ∷ h) =
    ap (λ t. (step_down t kind_serve_down i.now i.serve_up i.serve_detail).0) (serve-track h)

pub gate-track : (h : List IncidentInput) → (track h).gate ≡ run kind_gate_down (map gate_poll h)
unfolding track step run gate_poll
gate-track [] = refl
gate-track (i ∷ h) =
    ap (λ t. (step_down t kind_gate_down i.now i.gate_up i.gate_detail).0) (gate-track h)

-- After any sequence of polls the tracker reports the serve, and the gate, as down exactly when
-- the last two or more polls of that service in a row found it down, whatever happened to the
-- other service, the containers and the driver meanwhile, and since the first of these polls.
pub down_since_exact :
    (h : List IncidentInput)
    → (serve_down_since (track h) ≡ outage (map serve_poll h))
      × (gate_down_since (track h) ≡ outage (map gate_poll h))
unfolding serve_down_since gate_down_since
down_since_exact h = (
  ap (λ t. t.open_since) (serve-track h) ∙ run-open_since kind_serve_down (map serve_poll h),
  ap (λ t. t.open_since) (gate-track h) ∙ run-open_since kind_gate_down (map gate_poll h),
)
