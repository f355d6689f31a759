-- ===== src/Maintenance.antt =====
-- crates/lss-core/src/maintenance.rs: the planned-maintenance window.
pub mod Window
use lss.Base.{
  ℕ, ◌+◌, ◌*◌, String, Option, none, some, Bool, true, false, ◌&&◌, min, leb, ◌==◌, if◌then◌else◌,
  max, str_eq, sub_ℕ, concat, show_ℕ, trim, List, [], ◌∷◌,
}
use lss.TimeUtil.{fmt_duration}

abbrev pub default_minutes : ℕ
default_minutes = 60

abbrev pub max_minutes : ℕ
max_minutes = 240

pub record MaintenanceReply : Type 0 where
  pub ok : Bool
  pub message : String
  pub expires_at : ℕ

pub record MaintenanceState : Type 0 where
  pub active : Bool
  pub reason : String
  pub started_at : ℕ
  pub expires_at : ℕ

abbrev pub no_maintenance : MaintenanceState
no_maintenance = record { active = false; reason = ""; started_at = 0; expires_at = 0 }

unfoldable pub clamp_minutes : ℕ → ℕ
clamp_minutes minutes = if minutes == 0 then default_minutes else min (max minutes 1) max_minutes

unfoldable pub start : MaintenanceState → ℕ → String → ℕ → MaintenanceState × MaintenanceReply
unfolding clamp_minutes
start state now reason minutes =
    let reason = trim reason in
    let mins = clamp_minutes minutes in
    let expires_at = now + mins * 60 in
    if str_eq reason ""
    then (
      state,
      record {
        ok = false;
        message = "a reason is required: lss maintenance start \"reason\"";
        expires_at = 0;
      },
    )
    else (
      record { active = true; reason = reason; started_at = now; expires_at = expires_at },
      record {
        ok = true;
        message = concat (
            "maintenance window open: "
            ∷ reason
            ∷ " (auto-expires in "
            ∷ show_ℕ mins
            ∷ "m unless stopped first)"
            ∷ []);
        expires_at = expires_at;
      },
    )

unfoldable pub stop : MaintenanceState → ℕ → MaintenanceState × Option MaintenanceReply
stop state now =
    if state.active
    then (
      no_maintenance,
      some record {
        ok = true;
        message = concat (
            "maintenance window closed after "
            ∷ fmt_duration (sub_ℕ now state.started_at)
            ∷ ": "
            ∷ state.reason
            ∷ []);
        expires_at = 0;
      },
    )
    else (state, none)

unfoldable pub expired : MaintenanceState → ℕ → Bool
expired state now = state.active && leb state.expires_at now
