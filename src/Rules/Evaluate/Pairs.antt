-- ===== src/Rules/Evaluate/Pairs.antt =====
-- A restart that waits for its recovery always has its grade noted.
use lss.Base.{◌≡◌, String, List, [], ◌∷◌, arith, is_some, Bool-cases, inl, inr}
use lss.Base.Float.{F64}
use lss.Base.Map.{get, contains_key, get-insert, get-remove, string_ord}
use lss.Config.{RulesConfig}
use lss.Rules.Types.{RestartObs, Observation}
use lss.Rules.State.{Engine, event_cooled}
use lss.Rules.Eval.Events.{
  restart_key, roles_where, on_restart, on_restarts, is_stable, on_stable, on_stables, settle,
  eval_restarts,
}

module _ (F : F64) where
  -- A role has a pending restart exactly when the grade of its alert is noted.
  pub record IsPaired (e : Engine F) : Type 0 where
    pub at :
        (role : String)
        → is_some (get e.restart_pending role) ≡ is_some (get e.restart_planned role)

  module _ (cfg : RulesConfig F) (o : Observation F) where
    on_restart-IsPaired :
        (r : RestartObs) (e : Engine F) → IsPaired e → IsPaired (on_restart F cfg o r e).0
    unfolding on_restart contains_key
    on_restart-IsPaired r e p =
        elim (Bool-cases (event_cooled F e (restart_key r.role) o.now cfg.cooldown_secs)) [
          | inl c ↦
              rw c record { at = λ role. rw (get-insert, get-insert) (ground (arith, p.at role)) }
          | inr c ↦ elim (Bool-cases (is_some (get e.restart_pending r.role))) [
            | inl w ↦
                rw (c, w)
                  record {
                    at = λ role.
                        rw get-insert
                          (ground (arith, p.at role, p.at r.role, string_ord.beq_iff r.role role));
                  }
            | inr w ↦ rw (c, w) p
          ]
        ]

    on_restarts-IsPaired :
        (rs : List RestartObs) (e : Engine F) → IsPaired e → IsPaired (on_restarts F cfg o rs e).0
    unfolding on_restarts
    on_restarts-IsPaired [] e p = p
    on_restarts-IsPaired (r ∷ rs) e p =
        on_restarts-IsPaired rs (on_restart F cfg o r e).0 (on_restart-IsPaired r e p)

    on_stable-IsPaired :
        (role : String) (e : Engine F) → IsPaired e → IsPaired (on_stable F cfg o role e).0
    unfolding on_stable
    on_stable-IsPaired role e p = record {
      at = λ other. rw (get-remove, get-remove) (ground (arith, p.at other));
    }

    on_stables-IsPaired :
        (roles : List String) (e : Engine F) → IsPaired e → IsPaired (on_stables F cfg o roles e).0
    unfolding on_stables
    on_stables-IsPaired [] e p = p
    on_stables-IsPaired (role ∷ roles) e p =
        on_stables-IsPaired roles (on_stable F cfg o role e).0 (on_stable-IsPaired role e p)

    -- The restart rules keep the pairing of pending restarts and grades, whatever restarts and whatever
    -- settles in the step, so that a recovery is always graded as a planned or an unplanned restart was
    -- noted, and the fallback of a missing grade is never taken.
    pub eval_restarts-IsPaired : (e : Engine F) → IsPaired e → IsPaired (eval_restarts F cfg o e).0
    unfolding eval_restarts settle
    eval_restarts-IsPaired e p =
        let e' = (on_restarts F cfg o o.restarts e).0 in
        on_stables-IsPaired (roles_where (is_stable F cfg o) e'.restart_pending) e'
          (on_restarts-IsPaired o.restarts e p)
