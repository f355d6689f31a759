-- ===== src/Rules/Windows/Disk.antt =====
-- `DiskGrowth` against the whole log of readings.
use mathlib.Core.List.{Memᴰ}
use lss.Base.{
  All-map, ℕ, ◌+◌, ◌-◌, ◌≤◌, ◌<◌, ◌≡◌, refl, ◌⊎◌, inl, inr, List, [], ◌∷◌, ◌++◌, arith, leb,
  Bool-cases, All,
}
use native.Mathlib.Decide.{dec_le}
use lss.Rules.Sustained.{idle}
use lss.Rules.Windows.Trim.{trim-trim-append, back?-append, Until, Ascending, Ascending-append}
use lss.Rules.Windows.{Point, trim, DiskGrowth, push_disk, max_drop}

-- Every reading of a history, oldest first.
pub log : List Point → List Point
log [] = []
log (p ∷ h) = log h ++ p ∷ []

log-Ascending : (p : Point) (h : List Point) → Until p.0 h → Ascending (log (p ∷ h))
unfolding log
log-Ascending p [] u = tt
log-Ascending p (q ∷ h) u =
    Ascending-append (log (q ∷ h)) q p (back?-append (log h) q) u.0 (log-Ascending q h u.1)

module _ (now window : ℕ) where
  -- a reading of the window that a predicate is wanted at
  abbrev InWindow : (Point → Type 0) → Point → Type 0
  InWindow P q = now < q.0 + window → P q

  -- The first of a trimmed list is the only one that may lie outside the window.
  trim-covers :
      (P : Point → Type 0) (l : List Point)
      → Ascending l
      → All P (trim now window l)
      → All (InWindow P) l
  unfolding trim
  trim-covers P [] a h = tt
  trim-covers P (p ∷ []) a h = ((λ _. h.0), tt)
  trim-covers P (p ∷ q ∷ r) a h = elim (Bool-cases (leb (q.0 + window) now)) [
    | inl old ↦ ((λ w. absurd (ground arith)), trim-covers P (q ∷ r) a.1 (rw old at h))
    | inr new ↦ weaken P (p ∷ q ∷ r) (rw new at h)
  ]
    where
      weaken : (P : Point → Type 0) (l : List Point) → All P l → All (InWindow P) l
      weaken P [] h = tt
      weaken P (p ∷ l) h = ((λ _. h.0), weaken P l h.1)

  Mem-trim : (q : Point) (l : List Point) → Memᴰ q (trim now window l) → Memᴰ q l
  unfolding trim
  Mem-trim q [] m = m
  Mem-trim q (p ∷ []) m = m
  Mem-trim q (p ∷ x ∷ r) m = elim (Bool-cases (leb (x.0 + window) now)) [
    | inl old ↦ Memᴰ.tail (Mem-trim q (x ∷ r) (rw old at m))
    | inr new ↦ rw new at m
  ]

max_drop-le : (avail : ℕ) (l : List Point) → All (λ q. q.1 ≤ max_drop avail l + avail) l
unfolding max_drop
max_drop-le avail [] = tt
max_drop-le avail (p ∷ r) = (omega arith, raise r _ _ (omega arith) (max_drop-le avail r))
  where
    raise :
        (l : List Point) (v w : ℕ)
        → v ≤ w
        → All (λ q. q.1 ≤ v + avail) l
        → All (λ q. q.1 ≤ w + avail) l
    raise [] v w le h = tt
    raise (q ∷ l) v w le h = (omega arith, raise l v w le h.1)

max_drop-attained :
    (avail : ℕ) (l : List Point)
    → (max_drop avail l ≡ 0) ⊎ ((q : Point) × Memᴰ q l × (q.1 ≡ max_drop avail l + avail))
unfolding max_drop
max_drop-attained avail [] = inl refl
max_drop-attained avail (p ∷ r) = elim (dec_le (p.1 - avail) (max_drop avail r)) [
  | yes less ↦ elim (max_drop-attained avail r) [
    | inl zero ↦ inl (omega arith)
    | inr (q, m, e) ↦ inr (q, Memᴰ.tail m, omega arith)
  ]
  | no more ↦ inr (p, Memᴰ.head refl, omega arith)
]

module _ (window : ℕ) where
  unfoldable pub run : List Point → DiskGrowth
  run [] = record { points = []; rule = idle }
  run (p ∷ h) = (push_disk (run h) p.0 p.1 window).0

  points-run :
      (p : Point) (h : List Point)
      → Until p.0 h
      → (run (p ∷ h)).points ≡ trim p.0 window (log (p ∷ h))
  unfolding run push_disk log
  points-run p [] u = refl
  points-run p (q ∷ h) u =
      rw (points-run q h u.1) (trim-trim-append (log (q ∷ h)) (p ∷ []) q.0 p.0 window u.0)

  drop-points :
      (p : Point) (h : List Point)
      → (push_disk (run h) p.0 p.1 window).1 ≡ max_drop p.1 (run (p ∷ h)).points
  unfolding run push_disk
  drop-points p h = refl

  -- Over any history of readings on a clock that does not go back, the drop that is reported is at
  -- least the fall to the newest reading from each reading of the whole log that lies in the window,
  -- and it is zero or the fall from some reading that was really made.
  pub push_disk_exact :
      (p : Point) (h : List Point)
      → Until p.0 h
      → let d = (push_disk (run h) p.0 p.1 window).1 in
        All (λ q. (q.0 + window ≤ p.0) ⊎ (q.1 ≤ d + p.1)) (log (p ∷ h))
        × ((d ≡ 0) ⊎ ((q : Point) × Memᴰ q (log (p ∷ h)) × (q.1 ≡ d + p.1)))
  push_disk_exact p h u =
      rw (drop-points, points-run p h u)
        (
          All-map
              (λ q f. elim (dec_le (q.0 + window) p.0) [
                | yes old ↦ inl old
                | no new ↦ inr (f (omega arith))
              ])
              (log (p ∷ h))
              (trim-covers p.0 window _ (log (p ∷ h)) (log-Ascending p h u) (max_drop-le p.1 _)),
          elim (max_drop-attained p.1 (trim p.0 window (log (p ∷ h)))) [
            | inl none ↦ inl none
            | inr (q, m, e) ↦ inr (q, Mem-trim p.0 window q (log (p ∷ h)) m, e)
          ],
        )
