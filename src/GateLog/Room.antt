-- ===== src/GateLog/Room.antt =====
-- A client that sprays keys cannot grow the log: a lane keeps at most 64 users.
use mathlib.Core.Path.{subst}
use lss.Base.{
  ◌≤◌, ◌≡◌, sym, ◌∙◌, inl, inr, String, Option, none, some, Bool, true, false, not, ◌&&◌, ◌||◌,
  List, [], ◌∷◌, arith, ltb, if◌then◌else◌, Bool-cases, Option-cases, unwrap_or, str_eq, length,
}
use lss.Base.Float.{F64}
use lss.Base.Map.{BTreeMap, get, update, contains_key, string_ord}
use lss.Base.Map.Sorted.{IsSorted, update-IsSorted, length-insert}
use lss.Base.Order.{string_lawful}
use lss.GateLog.{AuditRecord}
use lss.GateLog.Experience.{UserExp}
use lss.GateLog.Lane.{
  Addresses, exp_max_users, LaneLog, sane, answered, who, count_request, note_est, note_ip,
  note_prompt, time_by_size, note_size, user_exp, note_user, note_completion, add_to_lane,
}
use lss.GateLog.Counts.{log, lane_of, lane_of-add, in_lane, is_post}

module _ (F : F64) (std : Addresses) where
  abbrev HasRoom : BTreeMap String (UserExp F) → Type 0
  HasRoom m = IsSorted m × (length m ≤ exp_max_users)

  update-HasRoom :
      (m : BTreeMap String (UserExp F)) (k : String) (d : UserExp F) (f : UserExp F → UserExp F)
      → HasRoom m
      → (ltb (length m) exp_max_users || contains_key m k) ≡ true
      → HasRoom (update m k d f)
  unfolding contains_key update
  update-HasRoom m k d f (s, n) h =
      (update-IsSorted m k d f s, ground (arith, length-insert m k (f (unwrap_or (get m k) d)) s))

  user_exp-HasRoom :
      (r : AuditRecord F) (t : F.Float) (u : Option String) (l : LaneLog F)
      → HasRoom l.by_user
      → HasRoom (user_exp F r t u l).by_user
  unfolding user_exp
  user_exp-HasRoom r t none l h = h
  user_exp-HasRoom r t (some u) l h =
      elim (Bool-cases
        (not (str_eq u "") && (ltb (length l.by_user) exp_max_users || contains_key l.by_user u))) [
          | inl e ↦ rw e (update-HasRoom l.by_user u _ _ h (ground arith))
          | inr e ↦ rw e h
        ]

  note_user-HasRoom :
      (r : AuditRecord F) (l : LaneLog F) → HasRoom l.by_user → HasRoom (note_user F r l).by_user
  unfolding note_user
  note_user-HasRoom r l h = elim (Option-cases (if answered F r then sane F r.ttfb_ms else none)) [
    | inl e ↦ rw (e, note_user) h
    | inr (t, e) ↦ rw (e, note_user) (user_exp-HasRoom r t (who F r) l h)
  ]

  est-users : (r : AuditRecord F) (l : LaneLog F) → (note_est F r l).by_user ≡ l.by_user
  unfolding note_est
  est-users r l = ground arith

  ip-users : (r : AuditRecord F) (l : LaneLog F) → (note_ip F std r l).by_user ≡ l.by_user
  unfolding note_ip
  ip-users r l = ground arith

  prompt-users : (r : AuditRecord F) (l : LaneLog F) → (note_prompt F r l).by_user ≡ l.by_user
  unfolding note_prompt
  prompt-users r l = ground arith

  size-users : (r : AuditRecord F) (l : LaneLog F) → (note_size F r l).by_user ≡ l.by_user
  unfolding note_size time_by_size
  size-users r l = ground arith

  completion-users :
      (r : AuditRecord F) (l : LaneLog F) → (note_completion F r l).by_user ≡ l.by_user
  unfolding note_completion
  completion-users r l = ground arith

  add_to_lane-HasRoom :
      (r : AuditRecord F) (l : LaneLog F)
      → HasRoom l.by_user
      → HasRoom (add_to_lane F std r l).by_user
  unfolding add_to_lane count_request
  add_to_lane-HasRoom r l h = elim (Bool-cases (is_post F std r)) [
    | inl e ↦ rw e (
        subst HasRoom (sym (completion-users r _)) (
          note_user-HasRoom r _ (
            subst HasRoom
              (sym (
                size-users r _
                ∙ prompt-users r _
                ∙ ip-users r _
                ∙ est-users r (count_request F r l)))
              h)))
    | inr e ↦ rw e h
  ]

  lane-HasRoom :
      (p : Bool) (h : List (AuditRecord F)) → HasRoom (lane_of F std p (log F std h)).by_user
  unfolding log lane_of
  lane-HasRoom true [] = (tt, omega arith)
  lane-HasRoom false [] = (tt, omega arith)
  lane-HasRoom p (r ∷ h) =
      subst (λ (l : LaneLog F). HasRoom l.by_user) (sym (lane_of-add F std p r (log F std h)))
        (elim (Bool-cases (in_lane F std p r)) [
          | inl e ↦ rw e (add_to_lane-HasRoom r (lane_of F std p (log F std h)) (lane-HasRoom p h))
          | inr e ↦ rw e (lane-HasRoom p h)
        ])

  -- After any number of requests a lane keeps the experience of at most 64 users.
  pub users_bounded :
      (p : Bool) (h : List (AuditRecord F))
      → length (lane_of F std p (log F std h)).by_user ≤ exp_max_users
  users_bounded p h = (lane-HasRoom p h).1
