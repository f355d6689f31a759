-- ===== src/Rules/Windows/Trim.antt =====
-- What trimming a window keeps.
use lss.Base.{ℕ, ◌+◌, ◌≤◌, ◌≡◌, refl, some, List, [], ◌∷◌, ◌++◌, arith, leb, Bool-cases, inl, inr}
use lss.Rules.Windows.{Point, back?, trim}

-- Trimming what was trimmed before at an earlier time is trimming the whole.
pub trim-trim-append :
    (l ps : List Point) (at now window : ℕ)
    → at ≤ now
    → trim now window (trim at window l ++ ps) ≡ trim now window (l ++ ps)
unfolding trim
trim-trim-append [] ps at now window h = refl
trim-trim-append (p ∷ []) ps at now window h = refl
trim-trim-append (p ∷ q ∷ r) ps at now window h = elim (Bool-cases (leb (q.0 + window) at)) [
  | inl old ↦ ground (arith, trim-trim-append (q ∷ r) ps at now window h)
  | inr new ↦ rw new refl
]

pub back?-trim : (l : List Point) (now window : ℕ) → back? (trim now window l) ≡ back? l
unfolding trim
back?-trim [] now window = refl
back?-trim (p ∷ []) now window = refl
back?-trim (p ∷ q ∷ r) now window = elim (Bool-cases (leb (q.0 + window) now)) [
  | inl old ↦ rw old (back?-trim (q ∷ r) now window)
  | inr new ↦ rw new refl
]

pub back?-append : (l : List Point) (p : Point) → back? (l ++ p ∷ []) ≡ some p
back?-append [] p = refl
back?-append (q ∷ []) p = refl
back?-append (q ∷ r ∷ l) p = back?-append (r ∷ l) p

-- The stamps of a history, newest first, do not go back.
abbrev pub Until : ℕ → List Point → Type 0
Until now [] = Unit
Until now (p ∷ h) = (p.0 ≤ now) × Until p.0 h

abbrev pub Ascending : List Point → Type 0
Ascending [] = Unit
Ascending (p ∷ []) = Unit
Ascending (p ∷ q ∷ r) = (p.0 ≤ q.0) × Ascending (q ∷ r)

pub Ascending-append :
    (l : List Point) (p q : Point)
    → back? l ≡ some p
    → p.0 ≤ q.0
    → Ascending l
    → Ascending (l ++ q ∷ [])
Ascending-append [] p q e h a = tt
Ascending-append (x ∷ []) p q e h a = (ground arith, tt)
Ascending-append (x ∷ y ∷ l) p q e h a = (a.0, Ascending-append (y ∷ l) p q e h a.1)
