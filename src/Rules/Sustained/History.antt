-- ===== src/Rules/Sustained/History.antt =====
-- A `Sustained` timer over the whole history of its observations, newest first.
use lss.Base.{
  ℕ, suc, ◌+◌, ◌≤◌, ◌≡◌, refl, ◌↔◌, inl, inr, Option, none, some, Bool, true, false, ◌||◌, List, [],
  ◌∷◌, arith, if◌then◌else◌, unwrap_or, head?, Option-cases,
}
use lss.Rules.Sustained.{Edge, fire, recover, Sustained, idle, step}

pub record Tick : Type 0 where
  pub now : ℕ
  pub cond : Bool

abbrev is_fire : Edge → Bool
is_fire fire = true
is_fire _ = false

-- The specification reads the history alone: when the unbroken run of true observations began.
abbrev pub streak_start : List Tick → Option ℕ
streak_start [] = none
streak_start (t ∷ h) =
    let start = unwrap_or (streak_start h) t.now in if t.cond then some start else none

-- The condition was true at every observation from the one at `s` to the newest.
pub data Unbroken (s : ℕ) : List Tick → Type 0 where
  start : (t : Tick) {h : List Tick} → t.cond ≡ true → t.now ≡ s → Unbroken s (t ∷ h)
  more : (t : Tick) {h : List Tick} → t.cond ≡ true → Unbroken s h → Unbroken s (t ∷ h)

module _ (hold cooldown : ℕ) where
  unfoldable pub run : List Tick → Sustained
  run [] = idle
  run (t ∷ h) = (step (run h) t.now t.cond hold cooldown).0

  unfoldable pub edge : List Tick → Tick → Edge
  edge h t = (step (run h) t.now t.cond hold cooldown).1

  -- The times of the alerts that were sent, newest first.
  unfoldable pub fire_times : List Tick → List ℕ
  unfolding edge
  fire_times [] = []
  fire_times (t ∷ h) = let rest = fire_times h in if is_fire (edge h t) then t.now ∷ rest else rest

  -- An alert was sent in the current run of true observations.
  pub fired_in_streak : List Tick → Bool
  unfolding edge
  fired_in_streak [] = false
  fired_in_streak (t ∷ h) =
      let before = fired_in_streak h in if t.cond then before || is_fire (edge h t) else false

  pub fires : List Tick → ℕ
  unfolding edge
  fires [] = 0
  fires (t ∷ h) = let rest = fires h in elim (edge h t) [ fire ↦ suc rest | _ ↦ rest ]

  pub recoveries : List Tick → ℕ
  unfolding edge
  recoveries [] = 0
  recoveries (t ∷ h) = let rest = recoveries h in elim (edge h t) [ recover ↦ suc rest | _ ↦ rest ]

  pub run-since : (h : List Tick) → (run h).since ≡ streak_start h
  unfolding run step
  run-since [] = refl
  run-since (t ∷ h) = ground (arith, run-since h)

  pub run-announced : (h : List Tick) → (run h).announced ≡ fired_in_streak h
  unfolding run step fired_in_streak edge
  run-announced [] = refl
  run-announced (t ∷ h) = ground (arith, run-announced h)

  pub run-last_sent : (h : List Tick) → (run h).last_sent ≡ head? (fire_times h)
  unfolding run step fire_times edge
  run-last_sent [] = refl
  run-last_sent (t ∷ h) = ground (arith, run-last_sent h)

  -- The cooldown since the newest alert is over.
  abbrev pub IsCooled : Option ℕ → ℕ → Type 0
  IsCooled none now = Unit
  IsCooled (some t) now = t + cooldown ≤ now

  -- At any point of any history: an alert is sent exactly when the condition holds, has held without
  -- a break for `hold` seconds, no alert was sent in this streak, and the cooldown since the last
  -- alert is over; a recovery is sent exactly when the condition fails and the streak it ends had
  -- sent its alert.
  pub edges_exactly :
      (h : List Tick) (t : Tick)
      → ((edge h t ≡ fire) ↔ (
          (t.cond ≡ true)
          × (unwrap_or (streak_start h) t.now + hold ≤ t.now)
          × (fired_in_streak h ≡ false)
          × IsCooled (head? (fire_times h)) t.now))
        × ((edge h t ≡ recover) ↔ ((t.cond ≡ false) × (fired_in_streak h ≡ true)))
  unfolding edge step
  edges_exactly h t = (
    ground (arith, run-since h, run-announced h, run-last_sent h),
    ground (arith, run-announced h),
  )

  -- Alerts and recoveries alternate: at every point of every history the alerts sent are the
  -- recoveries sent, and one more just while the rule is firing. So a recovery is never sent for an
  -- alert that was not.
  pub fires-balance :
      (h : List Tick) → fires h ≡ recoveries h + (if (run h).announced then 1 else 0)
  unfolding run step fires edge recoveries
  fires-balance [] = omega arith
  fires-balance (t ∷ h) = ground (arith, fires-balance h)

  streak-Unbroken : (h : List Tick) (s : ℕ) → streak_start h ≡ some s → Unbroken s h
  streak-Unbroken [] s e = absurd (ground arith)
  streak-Unbroken (t ∷ h) s e = elim (Option-cases (streak_start h)) [
    | inl fresh ↦ start t (ground arith) (ground arith)
    | inr (s', old) ↦ more t (ground arith) (streak-Unbroken h s (ground arith))
  ]

  -- No alert for a blip: when an alert is sent, some observation at least `hold` seconds ago saw the
  -- condition true, and so did every observation since.
  pub fire_needs_hold :
      (h : List Tick) (t : Tick)
      → edge h t ≡ fire
      → (s : ℕ) × Unbroken s (t ∷ h) × (s + hold ≤ t.now)
  fire_needs_hold h t e =
      let (c, held, quiet, cool) = (edges_exactly h t).0.0 e in
      (unwrap_or (streak_start h) t.now, streak-Unbroken (t ∷ h) _ (ground arith), held)

  abbrev pub Spaced : List ℕ → Type 0
  Spaced [] = Unit
  Spaced (t ∷ ts) = IsCooled (head? ts) t × Spaced ts

  -- Over any history, each alert comes at least the cooldown after the alert before it.
  pub fire_times-Spaced : (h : List Tick) → Spaced (fire_times h)
  unfolding fire_times
  fire_times-Spaced [] = tt
  fire_times-Spaced (t ∷ h) = ground (arith, fire_times-Spaced h, (edges_exactly h t).0.0)
