-- ===== src/Rules/Windows.antt =====
-- rules.rs, the sliding windows of the rule engine: `GrowthWindow`, `DiskGrowth`, `FlapTracker`. A
-- deque is a list, its front first.
mod Trim
pub mod Growth
pub mod Disk
pub mod Flaps
use lss.Base.{
  ℕ, zero, suc, ◌+◌, ◌-◌, ◌≤◌, Option, none, some, Bool, true, false, List, [], ◌∷◌, ◌++◌, max, leb,
  ltb, if◌then◌else◌, is_some_and, map_or, filter, length,
}
use lss.Rules.Sustained.{Sustained, idle}

abbrev pub Point : Type 0
Point = ℕ × ℕ

-- `points.back()`
abbrev pub back? {ℓ} : {A : Type ℓ} → List A → Option A
back? [] = none
back? (x ∷ []) = some x
back? (x ∷ y ∷ r) = back? (y ∷ r)

-- `points.front()`
abbrev pub front? {ℓ} : {A : Type ℓ} → List A → Option A
front? [] = none
front? (x ∷ r) = some x

-- `while points.len() > 1 && points[1].0 <= now - window { points.pop_front(); }`
unfoldable pub trim : ℕ → ℕ → List Point → List Point
trim now window [] = []
trim now window (p ∷ []) = p ∷ []
trim now window (p ∷ q ∷ r) =
    let rest = trim now window (q ∷ r) in if leb (q.0 + window) now then rest else p ∷ q ∷ r

pub record GrowthWindow : Type 0 where
  pub points : List Point
  pub rule : Sustained

-- A counter that went backwards restarts the window.
unfoldable pub kept : ℕ → List Point → List Point
kept value points = if is_some_and (back? points) (λ p. ltb value p.1) then [] else points

unfoldable pub push : GrowthWindow → ℕ → ℕ → ℕ → GrowthWindow × ℕ
unfolding trim kept
push w now value window =
    let points = trim now window (kept value w.points ++ (now, value) ∷ []) in
    (record w { points = points }, value - map_or (front? points) value (λ p. p.1))

pub record DiskGrowth : Type 0 where
  pub points : List Point
  pub rule : Sustained

-- `points.iter().map(|(_, v)| v.saturating_sub(avail)).max().unwrap_or(0)`
unfoldable pub max_drop : ℕ → List Point → ℕ
max_drop avail [] = 0
max_drop avail (p ∷ r) = max (p.1 - avail) (max_drop avail r)

unfoldable pub push_disk : DiskGrowth → ℕ → ℕ → ℕ → DiskGrowth × ℕ
unfolding trim max_drop
push_disk w now avail window =
    let points = trim now window (w.points ++ (now, avail) ∷ []) in
    (record w { points = points }, max_drop avail points)

pub record FlapTracker : Type 0 where
  pub flaps : List ℕ
  pub muted_announced : Bool

abbrev pub flap_mute_window_secs : ℕ
flap_mute_window_secs = 7200

abbrev pub flap_mute_threshold : ℕ
flap_mute_threshold = 3

abbrev pub flap_label_window_secs : ℕ
flap_label_window_secs = 86400

-- `while flaps.front() <= now - FLAP_LABEL_WINDOW_SECS { flaps.pop_front(); }`
unfoldable pub prune : ℕ → List ℕ → List ℕ
prune now [] = []
prune now (t ∷ r) =
    let rest = prune now r in if leb (t + flap_label_window_secs) now then rest else t ∷ r

unfoldable pub note_flap : FlapTracker → ℕ → FlapTracker
unfolding prune
note_flap f now = record f { flaps = prune now (f.flaps ++ now ∷ []) }

-- `t > now - window`
unfoldable pub count_since : List ℕ → ℕ → ℕ → ℕ
count_since [] now window = 0
count_since (t ∷ r) now window =
    let rest = count_since r now window in if ltb now (t + window) then suc rest else rest

unfoldable pub muted : FlapTracker → ℕ → Bool
unfolding count_since
muted f now = leb flap_mute_threshold (count_since f.flaps now flap_mute_window_secs)
