-- ===== src/Series/Layout.antt =====
-- The layout of an answer: how the step, the number of points and the tier are chosen.
use native.Mathlib.Nat.{mod-add-div', mod-lt, mul-le-mul_right, lt_of_mul-lt-mul_right}
use lss.Base.{
  ℕ, ◌+◌, ◌-◌, ◌*◌, ◌%◌, ◌≤◌, ◌<◌, ◌≡◌, refl, Bool, true, arith, leb, if◌then◌else◌, max, min,
  sub_ℕ,
}
use lss.Series.{raw_max_range, Tier, raw, m1, m10, ceil_div, hist_columns, hist_plan}

-- a ceiling division covers, and by less than one divisor
ceil_div-covers : (a b : ℕ) → 1 ≤ b → (a ≤ ceil_div a b * b) × (ceil_div a b * b < a + b)
unfolding ceil_div
ceil_div-covers a b h =
    let whole = mod-add-div' (a + b - 1) b in
    let rest = mod-lt (a + b - 1) {m = b} h in (omega arith, omega arith)

-- the newest bucket: its end lies after `now`, by at most a step
end_of :
    (now step : ℕ)
    → 1 ≤ step
    → (now < now - now % step + step) × (now - now % step + step ≤ now + step)
end_of now step h =
    let whole = mod-add-div' now step in
    let rest = mod-lt now {m = step} h in (omega arith, omega arith)

-- which tier may serve a range
pub keeps : Tier → ℕ → ℕ × (ℕ × ℕ) → Bool
keeps raw range retention = leb range (min raw_max_range retention.0)
keeps m1 range retention = leb range retention.1.0
keeps m10 range retention = true

hist_points_suffice :
    (range step : ℕ)
    → 1 ≤ step
    → range ≤ step * 120
    → (max (ceil_div range step) 1 ≤ 120) × (range ≤ max (ceil_div range step) 1 * step)
hist_points_suffice range step h fits =
    let (covers, close) = ceil_div-covers range step h in
    let few : ceil_div range step < 121 = lt_of_mul-lt-mul_right step (omega arith) in
    let enough : ceil_div range step ≤ max (ceil_div range step) 1 = omega arith in
    let wide = mul-le-mul_right step enough in (omega arith, omega arith)

hist_step :
    (range res : ℕ)
    → 1 ≤ range
    → 1 ≤ res
    → (1 ≤ ceil_div (ceil_div range hist_columns) res * res)
      × (range ≤ ceil_div (ceil_div range hist_columns) res * res * 120)
hist_step range res h k =
    let all = (ceil_div-covers range hist_columns (omega arith)).0 in
    let up = (ceil_div-covers (ceil_div range hist_columns) res k).0 in (omega arith, omega arith)

-- The heat strip of any range of at least a second has between one and 120 columns, which span the whole
-- range and end after `now`, by at most a column; a column is a positive number of whole buckets.
pub hist_plan_exact :
    (now range keep_1m : ℕ)
    → 1 ≤ range
    → let p = hist_plan now range keep_1m in
      (1 ≤ p.columns)
      × (p.columns ≤ 120)
      × (range ≤ p.columns * p.step)
      × ((end : ℕ) × (p.start ≡ sub_ℕ end (p.columns * p.step))
          × (now < end)
          × (end ≤ now + p.step))
      × ((k : ℕ) × (p.step ≡ k * p.res) × (1 ≤ p.step))
unfolding hist_plan ceil_div
hist_plan_exact now range keep_1m h =
    let res = if leb range (min keep_1m 86400) then 60 else 600 in
    let (pos, fits) = hist_step range res h (ground arith) in
    let s = ceil_div (ceil_div range hist_columns) res * res in
    let (few, all) = hist_points_suffice range s pos fits in
    let (after, soon) = end_of now s pos in
    (
      omega arith,
      few,
      all,
      (now - now % s + s, refl, after, soon),
      (ceil_div (ceil_div range hist_columns) res, refl, pos),
    )
