-- ===== src/Series/Points/Sane.antt =====
-- What sample_points gives is finite, and a gap gives no rates.
use lss.Base.{
  ap, ℕ, ◌-◌, ◌+◌, ◌≤◌, ◌≡◌, refl, inl, inr, ◌⊎◌, String, Option, none, some, Bool, true, false,
  ◌&&◌, List, [], ◌∷◌, ◌++◌, arith, ltb, leb, if◌then◌else◌, Bool-cases, All, All-append,
}
use lss.Base.Float.{F64}
use lss.Gate.{GateHealth}
use lss.Gpu.{GpuSample}
use lss.Model.{Sample}
use lss.Prom.Extract.{ServeMetrics}
use lss.Users.{UserPoint}
use lss.Series.Points.{
  Points, bit, put, put_some, budget_points, gate_points, upstream_points, upstreams_points,
  users_points, user_points, gpu_points, gpus_points, other_points,
}
use lss.Series.Points.Engine.{
  gauge_points, rate_points, growth_points, read_points, time_points, late_points, energy_points,
  step_points, from_prev, sample_points,
}

module _ (F : F64) where
  -- a finite number under each name
  unfoldable pub Finite : Points F → Type 0
  Finite points = All (λ (p : String × F.Float). F.is_finite p.1 ≡ true) points

  nil-Finite : Finite []
  unfolding Finite
  nil-Finite = tt

  append-Finite : (xs ys : Points F) → Finite xs → Finite ys → Finite (xs ++ ys)
  unfolding Finite
  append-Finite xs ys h k = All-append (λ (p : String × F.Float). F.is_finite p.1 ≡ true) xs ys h k

  put-Finite : (name : String) (v : F.Float) → Finite (put F name v)
  unfolding put Finite
  put-Finite name v = elim (Bool-cases (F.is_finite v)) [ inl e ↦ rw e (e, tt) | inr e ↦ rw e tt ]

  put_some-Finite : (name : String) (v : Option F.Float) → Finite (put_some F name v)
  unfolding put_some
  put_some-Finite name none = nil-Finite
  put_some-Finite name (some v) = put-Finite name v

  if-Finite : (b : Bool) (xs ys : Points F) → Finite xs → Finite ys → Finite (if b then xs else ys)
  if-Finite true xs ys h k = h
  if-Finite false xs ys h k = k

  ruleset finite_rules = (nil-Finite, append-Finite, put-Finite, put_some-Finite, if-Finite)

  gauge-Finite : (cur : Sample F) (m : ServeMetrics F) → Finite (gauge_points F cur m)
  unfolding gauge_points
  gauge-Finite cur m = search finite_rules depth 20

  rate-Finite :
      (dt : F.Float) (cur : Sample F) (m pm : ServeMetrics F) → Finite (rate_points F dt cur m pm)
  unfolding rate_points
  rate-Finite dt cur m pm = search finite_rules depth 20

  growth-Finite : (cur : Sample F) (m pm : ServeMetrics F) → Finite (growth_points F cur m pm)
  unfolding growth_points
  growth-Finite cur m pm = search finite_rules depth 20

  read-Finite : (dt read : F.Float) → Finite (read_points F dt read)
  unfolding read_points
  read-Finite dt read = search finite_rules depth 20

  time-Finite : (e2e prefill : Option F.Float) → Finite (time_points F e2e prefill)
  unfolding time_points
  time-Finite (some e2e) (some prefill) = search finite_rules
  time-Finite (some e2e) none = nil-Finite
  time-Finite none prefill = nil-Finite

  late-Finite :
      (dt : F.Float) (cur : Sample F) (m pm : ServeMetrics F) → Finite (late_points F dt cur m pm)
  unfolding late_points
  late-Finite dt cur m pm = search (finite_rules, read-Finite, time-Finite) depth 20

  energy-Finite :
      (dt : F.Float) (m : ServeMetrics F) (a b : Option F.Float) → Finite (energy_points F dt m a b)
  unfolding energy_points
  energy-Finite dt m (some a) (some b) = search finite_rules depth 20
  energy-Finite dt m (some a) none = nil-Finite
  energy-Finite dt m none b = nil-Finite

  step-Finite :
      (p : Sample F) (pm : ServeMetrics F) (cur : Sample F) (m : ServeMetrics F)
      → Finite (step_points F p pm cur m)
  unfolding step_points
  step-Finite p pm cur m =
      search (finite_rules, rate-Finite, growth-Finite, late-Finite, energy-Finite) depth 20

  from_prev-Finite :
      (prev : Option (Sample F)) (cur : Sample F) (m : ServeMetrics F)
      → Finite (from_prev F prev cur m)
  unfolding from_prev
  from_prev-Finite none cur m = nil-Finite
  from_prev-Finite (some p) cur m = of_metrics p.metrics
    where
      of_metrics :
          (pm : Option (ServeMetrics F))
          → Finite (elim pm [ none ↦ [] | some pm ↦ step_points F p pm cur m ])
      of_metrics none = nil-Finite
      of_metrics (some pm) = step-Finite p pm cur m

  budget-Finite : (inflight : ℕ) (budget : Option ℕ) → Finite (budget_points F inflight budget)
  unfolding budget_points
  budget-Finite inflight none = nil-Finite
  budget-Finite inflight (some budget) = search finite_rules

  gate-Finite : (g : GateHealth F) → Finite (gate_points F g)
  unfolding gate_points
  gate-Finite g = search (finite_rules, budget-Finite) depth 20

  upstream-Finite :
      (real : List UserPoint) (here : Option String) (up : String)
      → Finite (upstream_points F real here up)
  unfolding upstream_points
  upstream-Finite real here up = search finite_rules depth 20

  upstreams-Finite :
      (real : List UserPoint) (here : Option String) (ups : List String)
      → Finite (upstreams_points F real here ups)
  unfolding upstreams_points
  upstreams-Finite real here [] = nil-Finite
  upstreams-Finite real here (up ∷ ups) =
      append-Finite (upstream_points F real here up) (upstreams_points F real here ups)
        (upstream-Finite real here up) (upstreams-Finite real here ups)

  users-Finite : (cur : Sample F) (g : Option (GateHealth F)) → Finite (users_points F cur g)
  unfolding users_points
  users-Finite cur none = nil-Finite
  users-Finite cur (some g) = search (finite_rules, upstreams-Finite) depth 20

  user-Finite : (users : List UserPoint) → Finite (user_points F users)
  unfolding user_points
  user-Finite [] = nil-Finite
  user-Finite (u ∷ users) = let rest = user-Finite users in search (finite_rules, rest) depth 20

  gpu-Finite : (g : GpuSample F) → Finite (gpu_points F g)
  unfolding gpu_points
  gpu-Finite g = search finite_rules depth 30

  gpus-Finite : (gpus : List (GpuSample F)) → Finite (gpus_points F gpus)
  unfolding gpus_points
  gpus-Finite [] = nil-Finite
  gpus-Finite (g ∷ gpus) =
      append-Finite (gpu_points F g) (gpus_points F gpus) (gpu-Finite g) (gpus-Finite gpus)

  optional-Finite :
      {A : Type 0} (f : A → Points F) (x : Option A)
      → ((a : A) → Finite (f a))
      → Finite (elim x [ none ↦ [] | some a ↦ f a ])
  optional-Finite f none h = nil-Finite
  optional-Finite f (some a) h = h a

  other-Finite : (cur : Sample F) → Finite (other_points F cur)
  unfolding other_points
  other-Finite cur =
      append-Finite _ _ (optional-Finite (gate_points F) cur.gate gate-Finite)
        (search (finite_rules, users-Finite, user-Finite, gpus-Finite) depth 20)

  metrics-Finite :
      (prev : Option (Sample F)) (cur : Sample F) (m : ServeMetrics F)
      → Finite (gauge_points F cur m ++ from_prev F prev cur m)
  metrics-Finite prev cur m =
      append-Finite (gauge_points F cur m) (from_prev F prev cur m) (gauge-Finite cur m)
        (from_prev-Finite prev cur m)

  -- Whatever is measured, every number that sample_points gives is finite.
  pub sample_points-Finite :
      (prev : Option (Sample F)) (cur : Sample F) → Finite (sample_points F prev cur)
  unfolding sample_points
  sample_points-Finite prev cur = append-Finite _ _ (put-Finite "serve_up" _) (
      append-Finite _ _
        (optional-Finite (λ m. gauge_points F cur m ++ from_prev F prev cur m) cur.metrics
          (metrics-Finite prev cur))
        (other-Finite cur))

  no_step :
      (p cur : Sample F) (m : ServeMetrics F)
      → (ltb p.ts cur.ts && leb (cur.ts - p.ts) 60) ≡ false
      → from_prev F (some p) cur m ≡ []
  unfolding from_prev step_points
  no_step p cur m out = of_metrics p.metrics
    where
      of_metrics :
          (pm : Option (ServeMetrics F))
          → Path (Points F) (elim pm [ none ↦ [] | some pm ↦ step_points F p pm cur m ]) []
      of_metrics none = refl
      of_metrics (some pm) = rw (step_points, out) refl

  -- Across a gap of more than a minute, or a step back in time, a poll gives what it would give with
  -- no poll before it: no rate and no growth.
  pub gap_gives_no_rates :
      (p cur : Sample F)
      → (cur.ts ≤ p.ts) ⊎ (p.ts + 61 ≤ cur.ts)
      → sample_points F (some p) cur ≡ sample_points F none cur
  unfolding sample_points from_prev
  gap_gives_no_rates p cur gap =
      let out : (ltb p.ts cur.ts && leb (cur.ts - p.ts) 60) ≡ false = out_of gap in
      ap
        (λ (points : Points F).
          put F "serve_up" (bit F cur.serve_up) ++ (points ++ other_points F cur))
        (of_metrics out cur.metrics)
    where
      out_of :
          (cur.ts ≤ p.ts) ⊎ (p.ts + 61 ≤ cur.ts)
          → (ltb p.ts cur.ts && leb (cur.ts - p.ts) 60) ≡ false
      out_of (inl h) = ground arith
      out_of (inr h) = ground arith

      of_metrics :
          (ltb p.ts cur.ts && leb (cur.ts - p.ts) 60) ≡ false
          → (m : Option (ServeMetrics F))
          → Path
              (Points F)
              (elim m [ none ↦ [] | some m ↦ gauge_points F cur m ++ from_prev F (some p) cur m ])
              (elim m [ none ↦ [] | some m ↦ gauge_points F cur m ++ from_prev F none cur m ])
      of_metrics out none = refl
      of_metrics out (some m) =
          ap (λ (points : Points F). gauge_points F cur m ++ points) (no_step p cur m out)
