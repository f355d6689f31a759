-- ===== src/Series/Gateway/Coverage.antt =====
-- What CodeCoverage says of the range, against the whole history of log deltas, newest first.
use mathlib.Core.Path.{subst}
use mathlib.Core.List.{Memᴰ}
use lss.Base.{
  sym, ◌⊎◌, ==_iff, ℕ, ◌≤◌, ◌<◌, ◌≡◌, refl, inl, inr, Option, none, some, true, false, ◌||◌, List,
  [], ◌∷◌, arith, leb, ◌==◌, unwrap_or, Bool-cases, Option-cases, All, All-map,
}
use lss.Base.Float.{F64}
use lss.GateLog.Lane.{LaneLog, LogDelta}
use lss.Series.Gateway.{CodeCoverage, no_coverage, covers, coded_of, observe_lane, observe_codes}

module _ (F : F64) where
  -- every request of the lane has a status by its key
  abbrev pub Coded : LaneLog F → Type 0
  Coded l = (l.requests == 0 || leb l.requests (coded_of F l)) ≡ true

  abbrev pub Delta : Type 0
  Delta = ℕ × LogDelta F

  unfoldable pub run : List Delta → CodeCoverage
  run [] = no_coverage
  run ((ts, log) ∷ h) = observe_codes F (run h) ts log

  -- each delta is later than those before it
  abbrev pub Rising : List Delta → Type 0
  Rising [] = Unit {0}
  Rising ((ts, log) ∷ h) = All (λ (d : Delta). d.0 < ts) h × Rising h

  -- from `s` on the trusted lane is coded, and the public one after it
  abbrev pub From : ℕ → Delta → Type 0
  From s (t, log) = (s ≤ t → Coded log.trusted_lane) × (s < t → Coded log.public_lane)

  abbrev Both : Delta → Type 0
  Both (t, log) = Coded log.trusted_lane × Coded log.public_lane

  -- what holds with no gap, and from the stamp of a coverage on
  record Says (c : CodeCoverage) (Whole : Type 0) (Since : ℕ → Type 0) : Type 0 where
    whole : c.gap ≡ false → Whole
    from : (s : ℕ) → c.since ≡ some s → Since s

  since_of :
      (o : Option ℕ) (ts : ℕ) (Since : ℕ → Type 0)
      → Since ts
      → ((s : ℕ) → o ≡ some s → Since s)
      → (s : ℕ) → some (unwrap_or o ts) ≡ some s
      → Since s
  since_of none ts Since now f s e = subst Since (ground (arith, e)) now
  since_of (some s') ts Since now f s e = f s e

  lane-Says :
      (ts : ℕ) (c : CodeCoverage) (l : LaneLog F) (Whole : Type 0) (Since : ℕ → Type 0)
      → Since ts
      → Says c Whole Since
      → Says (observe_lane F ts c l) (Whole × Coded l) (λ s. Since s × Coded l)
  unfolding observe_lane
  lane-Says ts c l Whole Since now v = elim (Bool-cases (l.requests == 0)) [
    | inl e ↦ rw e record { whole = λ g. (v.whole g, refl); from = λ s k. (v.from s k, refl) }
    | inr e ↦ rw e (elim (Bool-cases (leb l.requests (coded_of F l))) [
      | inl f ↦ rw f record {
        whole = λ g. (v.whole g, refl);
        from = λ s k. (since_of c.since ts Since now v.from s k, refl);
      }
      | inr f ↦ rw f record {
        whole = λ g. absurd (ground (arith, g));
        from = λ s k. absurd (ground (arith, k));
      }
    ])
  ]

  weaken :
      {c : CodeCoverage} {Whole Whole' : Type 0} {Since Since' : ℕ → Type 0}
      → (Whole → Whole')
      → ((s : ℕ) → Since s → Since' s)
      → Says c Whole Since
      → Says c Whole' Since'
  weaken f g v = record { whole = λ e. f (v.whole e); from = λ s e. g s (v.from s e) }

  run-Says : (h : List Delta) → Rising h → Says (run h) (All Both h) (λ s. All (From s) h)
  unfolding run observe_codes
  run-Says [] r = record { whole = λ e. tt; from = λ s e. tt }
  run-Says ((ts, log) ∷ h) r =
      let older : All (From ts) h =
        All-map
          (λ (d : Delta) (e : d.0 < ts). ((λ k. absurd (omega arith)), (λ k. absurd (omega arith))))
          h r.0 in
      let after_public =
        weaken {Since' = λ s. All (From s) h × (s < ts → Coded log.public_lane)} (λ w. w)
          (λ s (a, b). (a, λ k. b))
          (lane-Says ts (run h) log.public_lane (All Both h) (λ s. All (From s) h) older
            (run-Says h r.1)) in
      weaken (λ ((a, b), c). ((c, b), a)) (λ s ((a, b), c). (((λ k. c), b), a))
        (lane-Says ts (observe_lane F ts (run h) log.public_lane) log.trusted_lane
          (All Both h × Coded log.public_lane)
          (λ s. All (From s) h × (s < ts → Coded log.public_lane))
          (older, λ k. absurd (omega arith)) after_public)

  at : (P : Delta → Type 0) (h : List Delta) (d : Delta) → Memᴰ d h → All P h → P d
  at P [] d m a = elim m [ ]
  at P (x ∷ h) d (Memᴰ.head e) a = subst P (sym e) a.0
  at P (x ∷ h) d (Memᴰ.tail m) a = at P h d m a.1

  -- If each delta is later than those before it and the coverage reaches to a stamp, every request
  -- that the deltas from it on count has a status by its key, in the trusted lane and, but for the
  -- delta of that very stamp, in the public one.
  pub covers-Coded :
      (h : List Delta) (ts t : ℕ) (log : LogDelta F)
      → Rising h
      → covers (run h) ts ≡ true
      → Memᴰ (t, log) h
      → ts ≤ t
      → Coded log.trusted_lane × ((t ≡ ts) ⊎ Coded log.public_lane)
  unfolding covers
  covers-Coded h ts t log r c m b = elim (Bool-cases (run h).gap) [
    | inr e ↦ let w = at Both h (t, log) m ((run-Says h r).whole e) in (w.0, inr w.1)
    | inl e ↦ elim (Option-cases (run h).since) [
      | inl n ↦ absurd (ground (arith, n, e))
      | inr (s, n) ↦
          let before : s ≤ ts = ground (arith, n, e) in
          let w = at (From s) h (t, log) m ((run-Says h r).from s n) in
          (
            w.0 (omega arith),
            elim (Bool-cases (t == ts)) [
              | inl q ↦ inl ((==_iff t ts).0 q)
              | inr q ↦ inr (w.1 (ground (arith, before, b, q)))
            ],
          )
    ]
  ]
