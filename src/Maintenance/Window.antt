-- ===== src/Maintenance/Window.antt =====
-- How long a maintenance window can stay open.
use lss.Base.{
  ℕ, ◌+◌, ◌≤◌, ◌≡◌, refl, String, none, some, true, [], ◌∷◌, arith, inl, inr, Bool-cases, trim,
  str_eq, leb, if◌then◌else◌, concat, sub_ℕ,
}
use lss.TimeUtil.{fmt_duration}
use lss.Maintenance.{
  MaintenanceState, MaintenanceReply, no_maintenance, max_minutes, clamp_minutes, start, stop,
  expired,
}

pub clamp_minutes-bounds : (m : ℕ) → (1 ≤ clamp_minutes m) × (clamp_minutes m ≤ max_minutes)
unfolding clamp_minutes
clamp_minutes-bounds m = ground arith

pub closing : String → String → MaintenanceReply
closing lasted reason = record {
  ok = true;
  message = concat ("maintenance window closed after " ∷ lasted ∷ ": " ∷ reason ∷ []);
  expires_at = 0;
}

stop_twice : (s : MaintenanceState) (later last : ℕ) → (stop (stop s later).0 last).1 ≡ none
unfolding stop
stop_twice s later last = elim (Bool-cases s.active) [ inl a ↦ rw a refl | inr a ↦ ground arith ]

-- Starting a window with a reason that is not blank grants one of at least a minute and at most four
-- hours, counted from `now`, and the window then expires exactly from the moment that the reply
-- announced, so that a forgotten one ends by itself.
pub window_bounded :
    (s : MaintenanceState) (now : ℕ) (reason : String) (minutes : ℕ)
    → (start s now reason minutes).1.ok ≡ true
    → (now + 60 ≤ (start s now reason minutes).1.expires_at)
      × (((start s now reason minutes).1.expires_at ≤ now + 14400)
          × ((t : ℕ)
              → expired (start s now reason minutes).0 t
                ≡ leb (start s now reason minutes).1.expires_at t))
unfolding start expired
window_bounded s now reason minutes ok =
    let (low, high) = clamp_minutes-bounds minutes in
    elim (Bool-cases (str_eq (trim reason) "")) [
      | inl blank ↦ absurd (ground arith)
      | inr named ↦ rw named (omega arith, (omega arith, λ t. refl))
    ]

-- A stop after a start is the stop of what was there before when the reason is blank, and otherwise
-- closes one window, whether or not one was open before, that is announced under the given reason
-- with the time since this start. A second stop announces nothing.
pub stop-start :
    (s : MaintenanceState) (now later last : ℕ) (reason : String) (minutes : ℕ)
    → let after = stop (start s now reason minutes).0 later in
      (after ≡ (
        if str_eq (trim reason) ""
        then stop s later
        else (no_maintenance, some (closing (fmt_duration (sub_ℕ later now)) (trim reason)))))
      × ((stop after.0 last).1 ≡ none)
unfolding start stop closing
stop-start s now later last reason minutes = elim (Bool-cases (str_eq (trim reason) "")) [
  | inl blank ↦ rw blank (refl, stop_twice s later last)
  | inr named ↦ rw named (refl, refl)
]
