-- ===== src/Tokens/Peaks.antt =====
-- The highest speed of the ledger, against all samples. The two laws of `<` hold of IEEE 754 numbers,
-- NaN included.
use mathlib.Core.List.{Memᴰ}
use lss.Base.{
  ℕ, ◌≡◌, refl, ◌∙◌, ◌⊎◌, inl, inr, Bool, true, false, ◌&&◌, List, [], ◌∷◌, arith, if◌then◌else◌,
  All, All-map, Bool-cases,
}
use lss.Base.Float.{F64}
use lss.Tokens.{Peak, no_peak, raise, note_peak, observe_all}
use lss.Tokens.Ledger.{Sample, ledger}

module _ (F : F64) where
  open F use {Float, ratio, lt, is_finite}

  -- a sample that shows the server generating
  pub is_busy : Sample F → Bool
  is_busy s = is_finite s.metrics.gen_throughput && lt (ratio 0 1) s.metrics.gen_throughput

  pub peak_of : Sample F → Peak F
  peak_of s = record { tok_s = s.metrics.gen_throughput; ts = s.ts }

  peak-ledger :
      (s : Sample F) (h : List (Sample F))
      → (ledger F (s ∷ h)).peak ≡ (
          if is_busy s
          then raise F (ledger F h).peak s.metrics.gen_throughput s.ts
          else (ledger F h).peak)
  unfolding ledger observe_all note_peak is_busy
  peak-ledger s h =
      elim (Bool-cases
        (is_finite s.metrics.gen_throughput && lt (ratio 0 1) s.metrics.gen_throughput)) [
          | inl v ↦ rw v refl
          | inr v ↦ rw v refl
        ]

  peak-cases :
      (s : Sample F) (h : List (Sample F))
      → ((ledger F (s ∷ h)).peak ≡ (ledger F h).peak)
        ⊎ (((ledger F (s ∷ h)).peak ≡ peak_of s) × (is_busy s ≡ true))
  unfolding raise peak_of
  peak-cases s h = elim (Bool-cases (is_busy s)) [
    | inl b ↦ elim (Bool-cases (lt (ledger F h).peak.tok_s s.metrics.gen_throughput)) [
      | inl up ↦ inr (peak-ledger s h ∙ rw (b, up) refl, b)
      | inr up ↦ inl (peak-ledger s h ∙ rw (b, up) refl)
    ]
    | inr b ↦ inl (peak-ledger s h ∙ rw b refl)
  ]

  -- The recorded peak is that of some sample at which the server was generating, if it is not the
  -- initial one.
  pub peak_attained :
      (h : List (Sample F))
      → ((ledger F h).peak ≡ no_peak F)
        ⊎ ((s : Sample F) × Memᴰ s h × ((ledger F h).peak ≡ peak_of s) × (is_busy s ≡ true))
  peak_attained [] = inl (unfold ledger in refl)
  peak_attained (s ∷ h) = elim (peak-cases s h) [
    | inl same ↦ elim (peak_attained h) [
      | inl none ↦ inl (same ∙ none)
      | inr (t, m, e, b) ↦ inr (t, Memᴰ.tail m, same ∙ e, b)
    ]
    | inr (new, b) ↦ inr (s, Memᴰ.head refl, new, b)
  ]

  module _ (lt-irrefl : (a : Float) → lt a a ≡ false)
      (lt-trans : (a b c : Float) → lt a b ≡ true → lt b c ≡ true → lt a c ≡ true) where
    raise-keeps :
        (p : Peak F) (x : Float) (ts : ℕ) (y : Float)
        → lt p.tok_s y ≡ false
        → lt (raise F p x ts).tok_s y ≡ false
    unfolding raise
    raise-keeps p x ts y h = elim (Bool-cases (lt p.tok_s x)) [
      | inl up ↦ rw up (elim (Bool-cases (lt x y)) [
        | inl q ↦ absurd (ground (arith, lt-trans p.tok_s x y up q))
        | inr q ↦ q
      ])
      | inr up ↦ rw up h
    ]

    raise-above : (p : Peak F) (x : Float) (ts : ℕ) → lt (raise F p x ts).tok_s x ≡ false
    unfolding raise
    raise-above p x ts = elim (Bool-cases (lt p.tok_s x)) [
      | inl up ↦ rw up (lt-irrefl x)
      | inr up ↦ rw (up, up) refl
    ]

    keeps-if :
        (b : Bool) (p : Peak F) (x : Float) (ts : ℕ) (y : Float)
        → lt p.tok_s y ≡ false
        → lt (if b then raise F p x ts else p).tok_s y ≡ false
    keeps-if true p x ts y h = raise-keeps p x ts y h
    keeps-if false p x ts y h = h

    -- No sample at which the server was generating was ever faster than the recorded peak.
    pub peak_highest :
        (h : List (Sample F))
        → All
            (λ s.
              (is_busy s ≡ false) ⊎ (lt (ledger F h).peak.tok_s s.metrics.gen_throughput ≡ false))
            h
    peak_highest [] = tt
    peak_highest (s ∷ h) =
        let x = s.metrics.gen_throughput in
        (
          elim (Bool-cases (is_busy s)) [
            | inl b ↦ inr (rw (peak-ledger s h, b) (raise-above (ledger F h).peak x s.ts))
            | inr b ↦ inl b
          ],
          All-map
              (λ t d. elim d [
                | inl idle ↦ inl idle
                | inr low ↦ inr (
                    rw (peak-ledger s h)
                      (keeps-if (is_busy s) (ledger F h).peak x s.ts t.metrics.gen_throughput low))
              ])
              h (peak_highest h),
        )
