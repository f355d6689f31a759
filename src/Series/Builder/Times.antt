-- ===== src/Series/Builder/Times.antt =====
-- Which times a cell of an answer stands for.
use native.Mathlib.Nat.{mod-add-div', mod-lt, mul-le-mul_right}
use lss.Base.{
  ℕ, suc, ◌+◌, ◌*◌, ◌/◌, ◌≤◌, ◌≡◌, refl, inl, inr, Option, none, some, Bool, true, false, not, ◌&&◌,
  arith, ltb, leb, ◌==◌, ℤ, pos, negsuc, Bool-cases,
}
use lss.Series.{Plan}
use lss.Series.Builder.{offset, in_points, place, cell_of}

-- whether the cell is the i-th, and whether it is one at all
unfoldable pub falls : Option ℕ → ℕ → Bool
falls none i = false
falls (some j) i = j == i

unfoldable pub in_range : Option ℕ → Bool
in_range none = false
in_range (some j) = true

-- The time is at least `k` seconds after the start, which may be negative.
unfoldable pub reached : ℤ → ℕ → ℕ → Bool
reached (pos s) k ts = leb (s + k) ts
reached (negsuc n) k ts = leb k (ts + n + 1)

-- The time lies in the i-th step from the start of the plan,
unfoldable pub lies : Plan → ℕ → ℕ → Bool
unfolding reached
lies p i ts =
    reached p.start_ts (i * p.step_s) ts && not (reached p.start_ts (i * p.step_s + p.step_s) ts)

-- and in any of its points.
unfoldable pub spanned : Plan → ℕ → Bool
unfolding reached
spanned p ts = reached p.start_ts 0 ts && not (reached p.start_ts (p.points * p.step_s) ts)

far : Option ℕ → ℕ → Bool
far none k = false
far (some d) k = leb k d

reached-far : (start : ℤ) (k ts : ℕ) → reached start k ts ≡ far (offset ts start) k
unfolding reached offset far
reached-far (pos s) k ts = elim (Bool-cases (ltb ts s)) [
  | inl e ↦ rw e (ground (arith, e))
  | inr e ↦ rw e (ground (arith, e))
]
reached-far (negsuc n) k ts = refl

falls-far :
    (points step i : ℕ) (o : Option ℕ)
    → 1 ≤ step
    → ltb i points ≡ true
    → falls (place points step o) i ≡ (far o (i * step) && not (far o (i * step + step)))
unfolding falls place in_points far
falls-far points step i none h k = refl
falls-far points step i (some d) h k =
    let whole = mod-add-div' d step in
    let rest = mod-lt d {m = step} h in
    elim (Bool-cases (leb points (d / step))) [
      | inl out ↦
          let below : suc i ≤ d / step = ground (arith, out, k) in
          let wide = mul-le-mul_right step below in rw out (ground (arith, wide, whole))
      | inr inside ↦ elim (Bool-cases (d / step == i)) [
        | inl same ↦
            let e : d / step ≡ i = ground (arith, same) in
            rw inside (rw e (ground (arith, (rw e at whole), rest)))
        | inr other ↦ elim (Bool-cases (ltb i (d / step))) [
          | inl above ↦
              let below : suc i ≤ d / step = ground (arith, above) in
              let wide = mul-le-mul_right step below in
              rw inside (ground (arith, other, wide, whole))
          | inr under ↦
              let below : suc (d / step) ≤ i = ground (arith, under, other) in
              let wide = mul-le-mul_right step below in
              rw inside (ground (arith, other, wide, whole, rest))
        ]
      ]
    ]

in_range-far :
    (points step : ℕ) (o : Option ℕ)
    → 1 ≤ step
    → in_range (place points step o) ≡ (far o 0 && not (far o (points * step)))
unfolding in_range place in_points far
in_range-far points step none h = refl
in_range-far points step (some d) h =
    let whole = mod-add-div' d step in
    let rest = mod-lt d {m = step} h in
    elim (Bool-cases (leb points (d / step))) [
      | inl out ↦
          let below : points ≤ d / step = ground (arith, out) in
          let wide = mul-le-mul_right step below in rw out (ground (arith, wide, whole))
      | inr inside ↦
          let below : suc (d / step) ≤ points = ground (arith, inside) in
          let wide = mul-le-mul_right step below in rw inside (ground (arith, wide, whole, rest))
    ]

pub falls-lies :
    (p : Plan) (i ts : ℕ)
    → 1 ≤ p.step_s
    → ltb i p.points ≡ true
    → falls (cell_of p ts) i ≡ lies p i ts
unfolding cell_of lies
falls-lies p i ts h k =
    rw
      (
        reached-far p.start_ts (i * p.step_s) ts,
        reached-far p.start_ts (i * p.step_s + p.step_s) ts,
      )
      (falls-far p.points p.step_s i (offset ts p.start_ts) h k)

pub in_range-spanned : (p : Plan) (ts : ℕ) → 1 ≤ p.step_s → in_range (cell_of p ts) ≡ spanned p ts
unfolding cell_of spanned
in_range-spanned p ts h =
    rw (reached-far p.start_ts 0 ts, reached-far p.start_ts (p.points * p.step_s) ts)
      (in_range-far p.points p.step_s (offset ts p.start_ts) h)
