-- ===== src/Rules/Baseline/Repair.antt =====
-- What a startup repair leaves of the decode-speed state.
use lss.Base.{
  ℕ, zero, suc, drop, ◌-◌, ◌≡◌, refl, Bool, false, not, List, [], ◌∷◌, map, min, max, arith, leb,
  length, filter, is_some, Bool-cases, inl, inr, ap,
}
use lss.Base.Float.{F64}
use lss.Config.{RulesConfig}
use lss.Rules.State.{Engine}
use lss.Rules.Baseline.{
  c1_baseline_progress, c1_streak_probes, retain, retain_c1_streak, c1_needs_revalidation,
  relearn_c1_baseline,
}

length-drop : {A : Type 0} (n : ℕ) (xs : List A) → length (drop n xs) ≡ length xs - n
length-drop zero xs = omega arith
length-drop (suc n) [] = omega arith
length-drop (suc n) (x ∷ xs) = omega (arith, length-drop n xs)

module _ (F : F64) where
  open F use {Float}

  retain-filter :
      (still_valid : ℕ → Bool) (ps : List (ℕ × Float))
      → (map (λ p. p.0) (retain F still_valid ps).0 ≡ filter still_valid (map (λ p. p.0) ps))
        × ((retain F still_valid ps).1 ≡ filter (λ t. not (still_valid t)) (map (λ p. p.0) ps))
  unfolding retain
  retain-filter still_valid [] = (refl, refl)
  retain-filter still_valid (p ∷ ps) =
      let (stay, dropped) = retain-filter still_valid ps in
      elim (Bool-cases (still_valid p.0)) [
        | inl v ↦ rw v (ap (λ l. p.0 ∷ l) stay, dropped)
        | inr v ↦ rw v (stay, ap (λ l. p.0 ∷ l) dropped)
      ]

  retain_again :
      (still_valid : ℕ → Bool) (ps : List (ℕ × Float))
      → (retain F still_valid (retain F still_valid ps).0).1 ≡ []
  unfolding retain
  retain_again still_valid [] = refl
  retain_again still_valid (p ∷ ps) = elim (Bool-cases (still_valid p.0)) [
    | inl v ↦ rw (v, v) (retain_again still_valid ps)
    | inr v ↦ rw v (retain_again still_valid ps)
  ]

  -- Re-judging the low-decode streak splits it: the probes that stay are those that are still valid, the
  -- ones returned as dropped are the others, each in their order; and to re-judge again by the same
  -- verdicts drops nothing more.
  pub retain_c1_streak-splits :
      (still_valid : ℕ → Bool) (e : Engine F)
      → (c1_streak_probes F (retain_c1_streak F still_valid e).0
          ≡ filter still_valid (c1_streak_probes F e))
        × ((retain_c1_streak F still_valid e).1
            ≡ filter (λ t. not (still_valid t)) (c1_streak_probes F e))
        × ((retain_c1_streak F still_valid (retain_c1_streak F still_valid e).0).1 ≡ [])
  unfolding c1_streak_probes retain_c1_streak
  retain_c1_streak-splits still_valid e =
      let (stay, dropped) = retain-filter still_valid e.c1.low_probes in
      (stay, dropped, retain_again still_valid e.c1.low_probes)

  -- Relearning keeps the newest valid rates, as many as the baseline needs at most, and has a baseline,
  -- their median, exactly when there are that many; no streak and no alert survive it, the engine needs no
  -- other revalidation, and the cooldown still counts from the last alert.
  pub relearn_exact :
      (cfg : RulesConfig F) (values : List Float) (e : Engine F)
      → let e' = relearn_c1_baseline F cfg values e in
        (c1_baseline_progress F e' ≡ min (length values) (max cfg.c1_baseline_probes 1))
        × (is_some e'.c1.learned_baseline ≡ leb (max cfg.c1_baseline_probes 1) (length values))
        × (c1_streak_probes F e' ≡ [])
        × (e'.c1.announced ≡ false)
        × (c1_needs_revalidation F e' ≡ false)
        × (e'.c1.last_sent ≡ e.c1.last_sent)
  unfolding relearn_c1_baseline c1_baseline_progress c1_streak_probes c1_needs_revalidation
  relearn_exact cfg values e = (
    omega (arith, length-drop (length values - max cfg.c1_baseline_probes 1) values),
    ground (arith, length-drop (length values - max cfg.c1_baseline_probes 1) values),
    refl,
    refl,
    refl,
    refl,
  )
