-- ===== src/Tokens/Ledger.antt =====
-- The token ledger over a history of samples, newest first.
use lss.Base.{
  ℕ, ◌≤◌, ◌≡◌, refl, ap, ◌∙◌, inl, inr, String, Option, none, some, Bool, true, false, not, ◌&&◌,
  List, [], ◌∷◌, arith, ◌==◌, if◌then◌else◌, length, Bool-cases,
}
use lss.Base.Float.{F64}
use lss.Base.Map.{BTreeMap, insert, string_ord}
use lss.Tokens.{
  peak_days, keep_newest, CounterTotal, added, is_valid, observe, AllTime, no_tokens, ServeMetrics,
  note_peak, observe_all,
}

keep_newest-bounded : {V : Type 0} (m : BTreeMap String V) → length (keep_newest m) ≤ peak_days
unfolding keep_newest
keep_newest-bounded [] = omega arith
keep_newest-bounded (p ∷ m) = ground (arith, keep_newest-bounded m)

module _ (F : F64) where
  open F use {Float, ratio, plus, minus, lt, is_finite}

  -- The specification of a total: the newest valid reading, and what each valid reading was credited with by
  -- the valid reading before it.
  pub newest : List (Float × Bool) → Option Float
  newest [] = none
  newest ((value, reset) ∷ h) =
      let before = newest h in if is_valid F value then some value else before

  pub credit : Option Float → Float → Bool → Float
  credit none value reset = ratio 0 1
  credit (some before) value true = value
  credit (some before) value false = if lt value before then value else minus value before

  pub credits : List (Float × Bool) → List Float
  unfolding newest
  credits [] = []
  credits ((value, reset) ∷ h) =
      let rest = credits h in
      if is_valid F value then credit (newest h) value reset ∷ rest else rest

  pub sum : List Float → Float
  sum [] = ratio 0 1
  sum (x ∷ xs) = plus (sum xs) x

  abbrev pub credited : List (Float × Bool) → CounterTotal F
  credited h = record { total = sum (credits h); last = newest h }

  added-credit :
      (last : Option Float) (value : Float) (reset : Bool)
      → added F last value reset ≡ credit last value reset
  unfolding added credit
  added-credit none value reset = refl
  added-credit (some before) value true = refl
  added-credit (some before) value false = refl

  observe-credited :
      (value : Float) (reset : Bool) (h : List (Float × Bool))
      → (observe F (credited h) value reset).0 ≡ credited ((value, reset) ∷ h)
  unfolding observe newest credits sum
  observe-credited value reset h = elim (Bool-cases (is_valid F value)) [
    | inl v ↦ rw (v, added-credit (newest h) value reset) refl
    | inr v ↦ rw v refl
  ]

  pub record Sample : Type 0 where
    pub ts : ℕ
    pub day : String
    pub epoch : ℕ
    pub metrics : ServeMetrics F

  unfoldable pub ledger : List Sample → AllTime F
  ledger [] = no_tokens F
  ledger (s ∷ h) = observe_all F (ledger h) s.ts s.day s.epoch s.metrics

  -- the newest start of the server that is known
  pub known_epoch : List Sample → ℕ
  known_epoch [] = 0
  known_epoch (s ∷ h) = let before = known_epoch h in if s.epoch == 0 then before else s.epoch

  pub restarted : Sample → List Sample → Bool
  unfolding known_epoch
  restarted s h = not (s.epoch == 0) && not (known_epoch h == 0) && not (s.epoch == known_epoch h)

  -- what a counter showed over the history, with the restarts that the epochs show
  pub readings : (ServeMetrics F → Float) → List Sample → List (Float × Bool)
  unfolding restarted
  readings counter [] = []
  readings counter (s ∷ h) = (counter s.metrics, restarted s h) ∷ readings counter h

  counter-step :
      (c : CounterTotal F) (value : Float) (epoch : ℕ) (s : Sample) (h : List Sample)
      (r : List (Float × Bool))
      → epoch ≡ known_epoch h
      → c ≡ credited r
      → (observe F c value (not (s.epoch == 0) && not (epoch == 0) && not (s.epoch == epoch))).0
        ≡ credited ((value, restarted s h) ∷ r)
  unfolding restarted
  counter-step c value epoch s h r e k = rw (e, k) (observe-credited value (restarted s h) r)

  -- the fields that no peak touches
  abbrev counted : AllTime F → ℕ × CounterTotal F × CounterTotal F × CounterTotal F × CounterTotal F
  counted a = (a.epoch, a.generated, a.prompt, a.cached, a.requests)

  counted-note_peak :
      (a : AllTime F) (ts : ℕ) (day : String) (tok_s : Float)
      → counted (note_peak F a ts day tok_s) ≡ counted a
  unfolding note_peak
  counted-note_peak a ts day tok_s = elim (Bool-cases (is_finite tok_s && lt (ratio 0 1) tok_s)) [
    | inl v ↦ rw v refl
    | inr v ↦ rw v refl
  ]

  abbrev pub Counted : List Sample → AllTime F → Type 0
  Counted h a =
      (a.epoch ≡ known_epoch h)
      × (a.generated ≡ credited (readings (λ m. m.generation_tokens_total) h))
      × (a.prompt ≡ credited (readings (λ m. m.prompt_tokens_total) h))
      × (a.cached ≡ credited (readings (λ m. m.cached_tokens_total) h))
      × (a.requests ≡ credited (readings (λ m. m.requests_total) h))

  -- Over any history of samples each of the four totals is the sum of what its valid readings were
  -- credited with: nothing for the first one, all of it after a restart of the server, seen by a lower
  -- count or by a new start time, and else the growth since the valid reading before it.
  pub ledger_exact : (h : List Sample) → Counted h (ledger h)
  unfolding ledger readings known_epoch observe_all newest credits sum
  ledger_exact [] = (refl, refl, refl, refl, refl)
  ledger_exact (s ∷ h) =
      let (e, g, p, c, r) = ledger_exact h in
      let m = s.metrics in
      let keeps = counted-note_peak _ s.ts s.day m.gen_throughput in
      (
        ap (λ t. t.0) keeps ∙ ap (λ n. if s.epoch == 0 then n else s.epoch) e,
        ap (λ t. t.1) keeps ∙ counter-step _ m.generation_tokens_total _ s h _ e g,
        ap (λ t. t.2) keeps ∙ counter-step _ m.prompt_tokens_total _ s h _ e p,
        ap (λ t. t.3) keeps ∙ counter-step _ m.cached_tokens_total _ s h _ e c,
        ap (λ t. t.4) keeps ∙ counter-step _ m.requests_total _ s h _ e r,
      )

  -- However long it runs, the ledger keeps the peaks of at most sixty days.
  pub day_peaks-bounded : (h : List Sample) → length (ledger h).day_peaks ≤ peak_days
  unfolding ledger observe_all note_peak
  day_peaks-bounded [] = omega arith
  day_peaks-bounded (s ∷ h) =
      elim (Bool-cases
        (is_finite s.metrics.gen_throughput && lt (ratio 0 1) s.metrics.gen_throughput)) [
          | inl v ↦ rw v (keep_newest-bounded (insert (ledger h).day_peaks s.day _))
          | inr v ↦ rw v (day_peaks-bounded h)
        ]
