-- ===== src/TimeUtil.antt =====
-- crates/lss-core/src/timeutil.rs: durations as a person reads them.
use lss.Base.{
  ℕ, ◌+◌, ◌*◌, ◌/◌, ◌%◌, ◌≤◌, ◌<◌, String, ◌≡◌, refl, [], ◌∷◌, arith, leb, if◌then◌else◌, ℤ, pos,
  negsuc, pos_part, concat, show_ℕ, show_pad2,
}

-- A duration in its two largest units.
pub data Parts : Type 0 where
  days hours minutes : ℕ → ℕ → Parts
  seconds : ℕ → Parts

pub split : ℕ → Parts
split s =
    if leb 86400 s
    then days (s / 86400) (s % 86400 / 3600)
    else if leb 3600 s
    then hours (s / 3600) (s % 3600 / 60)
    else if leb 60 s
    then minutes (s / 60) (s % 60)
    else seconds s

show_parts : Parts → String
show_parts (days d h) = concat (show_ℕ d ∷ "d" ∷ show_pad2 h ∷ "h" ∷ [])
show_parts (hours h m) = concat (show_ℕ h ∷ "h" ∷ show_pad2 m ∷ "m" ∷ [])
show_parts (minutes m s) = concat (show_ℕ m ∷ "m" ∷ show_pad2 s ∷ "s" ∷ [])
show_parts (seconds s) = concat (show_ℕ s ∷ "s" ∷ [])

-- A negative duration reads as 0.
unfoldable pub fmt_duration : ℤ → String
unfolding split show_parts
fmt_duration secs = show_parts (split (pos_part secs))

-- What the two units leave out of a duration, and the largest value of each lower unit.
pub seconds_shown : Parts → ℕ
seconds_shown (days d h) = d * 86400 + h * 3600
seconds_shown (hours h m) = h * 3600 + m * 60
seconds_shown (minutes m s) = m * 60 + s
seconds_shown (seconds s) = s

pub unit_of : Parts → ℕ
unit_of (days d h) = 3600
unit_of (hours h m) = 60
unit_of (minutes m s) = 1
unit_of (seconds s) = 1

-- What is shown is the duration rounded down to the smaller unit shown: it is never above the
-- duration, and less than one such unit is lost.
pub split_rounds_down :
    (s : ℕ) → (seconds_shown (split s) ≤ s) × (s < seconds_shown (split s) + unit_of (split s))
unfolding split seconds_shown unit_of
split_rounds_down s = ground arith

fmt_duration_tests :
    concat (
      fmt_duration (pos 42)
      ∷ " "
      ∷ fmt_duration (pos 185)
      ∷ " "
      ∷ fmt_duration (pos 3720)
      ∷ " "
      ∷ fmt_duration (pos 183600)
      ∷ " "
      ∷ fmt_duration (negsuc 4)
      ∷ [])
    ≡ "42s 3m05s 1h02m 2d03h 0s"
unfolding fmt_duration concat show_ℕ show_pad2
fmt_duration_tests = refl
