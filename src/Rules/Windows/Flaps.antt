-- ===== src/Rules/Windows/Flaps.antt =====
-- `FlapTracker`: pruning never forgets a flap that still counts.
use lss.Base.{
  ℕ, suc, ◌+◌, ◌≤◌, ◌≡◌, refl, List, [], ◌∷◌, ◌++◌, arith, leb, ltb, if◌then◌else◌, false,
}
use lss.Rules.Windows.{
  FlapTracker, note_flap, prune, count_since, muted, flap_label_window_secs, flap_mute_window_secs,
  flap_mute_threshold,
}

count_since-append :
    (xs ys : List ℕ) (now window : ℕ)
    → count_since (xs ++ ys) now window ≡ count_since xs now window + count_since ys now window
unfolding count_since
count_since-append [] ys now window = omega arith
count_since-append (x ∷ xs) ys now window = ground (arith, count_since-append xs ys now window)

count_since-prune :
    (xs : List ℕ) (at now window : ℕ)
    → at ≤ now
    → window ≤ flap_label_window_secs
    → count_since (prune at xs) now window ≡ count_since xs now window
unfolding count_since prune
count_since-prune [] at now window h w = refl
count_since-prune (x ∷ xs) at now window h w =
    ground (arith, count_since-prune xs at now window h w)

-- The tracker after the flaps of a history, newest first.
pub run : List ℕ → FlapTracker → FlapTracker
run [] f = f
run (t ∷ h) f = note_flap (run h f) t

-- Each stamp is at or after the one before it, and all are at or before `now`.
abbrev pub Until : ℕ → List ℕ → Type 0
Until now [] = Unit
Until now (t ∷ h) = (t ≤ now) × Until t h

-- All flaps ever noted that lie in the window.
pub flaps_in : List ℕ → ℕ → ℕ → ℕ
flaps_in [] now window = 0
flaps_in (t ∷ h) now window =
    let rest = flaps_in h now window in if ltb now (t + window) then suc rest else rest

Until-le : {t now : ℕ} (h : List ℕ) → t ≤ now → Until t h → Until now h
Until-le [] l u = tt
Until-le (s ∷ h) l u = (omega arith, u.1)

pub count_since-run :
    (h : List ℕ) (f : FlapTracker) (now window : ℕ)
    → Until now h
    → window ≤ flap_label_window_secs
    → count_since (run h f).flaps now window
      ≡ flaps_in h now window + count_since f.flaps now window
unfolding run note_flap count_since flaps_in
count_since-run [] f now window u w = omega arith
count_since-run (t ∷ h) f now window u w = ground (
  arith,
  count_since-prune ((run h f).flaps ++ t ∷ []) t now window u.0 w,
  count_since-append (run h f).flaps (t ∷ []) now window,
  count_since-run h f now window (Until-le h u.0 u.1) w,
)

abbrev pub no_flaps : FlapTracker
no_flaps = record { flaps = []; muted_announced = false }

-- Over any history of flaps on a clock that does not go back, a row is muted exactly when at least
-- three of all the flaps ever noted lie in the last two hours, and the count that its label shows is
-- the number of all the flaps ever noted in the last day: what was pruned never counts.
pub muted_exactly :
    (h : List ℕ) (now : ℕ)
    → Until now h
    → (muted (run h no_flaps) now ≡ leb flap_mute_threshold (flaps_in h now flap_mute_window_secs))
      × (count_since (run h no_flaps).flaps now flap_label_window_secs
          ≡ flaps_in h now flap_label_window_secs)
unfolding muted count_since
muted_exactly h now u = (
  ground (arith, count_since-run h no_flaps now flap_mute_window_secs u (omega arith)),
  omega (arith, count_since-run h no_flaps now flap_label_window_secs u (omega arith)),
)
