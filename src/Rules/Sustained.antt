-- ===== src/Rules/Sustained.antt =====
-- rules.rs, `Sustained`: the timer that every held condition shares. Stamps are unix seconds, so
-- the source's `now - since >= hold` is `since + hold ≤ now`.
pub mod History
use lss.Base.{
  ℕ, ◌+◌, Option, none, some, Bool, true, false, not, ◌&&◌, leb, if◌then◌else◌, unwrap_or,
  is_none_or, map_or, ℤ, pos, sub_ℕ,
}

pub data Edge : Type 0 where
  no_edge fire recover : Edge

pub record Sustained : Type 0 where
  pub since : Option ℕ
  pub announced : Bool
  pub last_sent : Option ℕ

abbrev pub idle : Sustained
idle = record { since = none; announced = false; last_sent = none }

unfoldable pub cooled : Sustained → ℕ → ℕ → Bool
cooled s now cooldown = is_none_or s.last_sent (λ t. leb (t + cooldown) now)

unfoldable pub held_for : Sustained → ℕ → ℤ
held_for s now = map_or s.since (pos 0) (λ t. sub_ℕ now t)

unfoldable pub step : Sustained → ℕ → Bool → ℕ → ℕ → Sustained × Edge
unfolding cooled
step s now cond hold cooldown =
    let start = unwrap_or s.since now in
    if not cond
    then (record s { since = none; announced = false }, if s.announced then recover else no_edge)
    else if leb (start + hold) now && not s.announced && cooled s now cooldown
    then (record s { since = some start; announced = true; last_sent = some now }, fire)
    else (record s { since = some start }, no_edge)
