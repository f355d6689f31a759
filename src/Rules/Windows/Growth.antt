-- ===== src/Rules/Windows/Growth.antt =====
-- `GrowthWindow` against the whole log of readings.
use lss.Base.{
  ℕ, ◌+◌, ◌≤◌, Option, none, some, List, [], ◌∷◌, ◌++◌, leb, if◌then◌else◌, or_else, All,
}
use lss.Rules.Sustained.{idle}
use lss.Rules.Windows.{Point, front?, kept, GrowthWindow, push}

-- The specification keeps every reading since the counter last went backwards, oldest first.
pub since_reset : List Point → List Point
unfolding kept
since_reset [] = []
since_reset (p ∷ h) = kept p.1 (since_reset h) ++ p ∷ []

module _ (window : ℕ) where
  unfoldable pub run : List Point → GrowthWindow
  run [] = record { points = []; rule = idle }
  run (p ∷ h) = (push (run h) p.0 p.1 window).0

-- The newest reading that is at least `window` old.
pub newest_old : ℕ → ℕ → List Point → Option Point
newest_old now window [] = none
newest_old now window (p ∷ r) =
    or_else (newest_old now window r) (if leb (p.0 + window) now then some p else none)

abbrev AtMost : ℕ → List Point → Type 0
AtMost v = All (λ q. q.1 ≤ v)

-- The reading that growth is counted from.
pub baseline : List Point → ℕ → ℕ → Option Point
unfolding newest_old
baseline log now window = or_else (newest_old now window log) (front? log)
