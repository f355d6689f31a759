-- ===== src/Rules/States/Known.antt =====
-- rules.rs: the table of rule_states and the list firing, compared.
pub mod Whole
use native.Mathlib.Omega.{arith}
use mathlib.Core.Path.{subst}
use mathlib.Core.List.{Memᴰ}
use mathlib.Core.List.Memᴰ
use lss.Base.{
  Option, none, some, is_empty, unwrap_or, map, concat, show_ℕ, ◌==◌, ==_iff, ℕ, ◌≡◌, refl, inl,
  inr, ◌⊎◌, not, ◌&&◌, String, Bool, true, false, List, [], ◌∷◌, ◌++◌, if◌then◌else◌, str_eq,
  Bool-cases, All, All-append, is_some,
}
use lss.Base.Float.{F64}
use lss.Base.Map.{BTreeMap, get, nat_ord, string_ord}
use lss.Base.Map.Sorted.{IsSorted}
use lss.Config.{RulesConfig}
use lss.Rules.Sustained.{Sustained, idle}
use lss.Rules.Windows.{muted}
use lss.Rules.Types.{Severity, info, warn, hardware, Host}
use lss.Rules.State.{Engine}
use lss.Rules.Evaluate.{add, add_gpus, firing}
use lss.Rules.States.{RuleState, state_of, event_row, timer_rows, disk_rows, reject_rows}
use lss.Rules.States.Rows.{
  gpu_indices, gpu_pair, gpu_rows, c1_row, stale_row, restart_row, xid_threshold, xid_rows,
  xid_keys, event_rows, rule_states,
}
use lss.Rules.States.Shown.{shown_firing, Shown}
use lss.Rules.States.Listed.{firing-Shown}

pub announced_of : (s : Sustained) → str_eq (state_of s) "firing" ≡ true → s.announced ≡ true
unfolding state_of
announced_of s h = elim (Bool-cases s.announced) [
  | inl a ↦ a
  | inr a ↦ elim (Bool-cases (is_some s.since)) [
    | inl b ↦ absurd (ground (arith, (rw (a, b) at h)))
    | inr b ↦ absurd (ground (arith, (rw (a, b) at h)))
  ]
]

-- what holds of the rule of every row that is shown as firing
abbrev pub Fires : (String → Type 0) → RuleState → Type 0
Fires P r = str_eq r.state "firing" ≡ true → P r.rule

pub shown-All :
    (P : String → Type 0) (rows : List RuleState) → All (Fires P) rows → All P (shown_firing rows)
unfolding shown_firing
shown-All P [] h = tt
shown-All P (r ∷ rows) h = elim (Bool-cases (str_eq r.state "firing")) [
  | inl e ↦ rw e (h.0 e, shown-All P rows h.1)
  | inr e ↦ rw e (shown-All P rows h.1)
]

module _ (F : F64) (host : Host) (cfg : RulesConfig F) (e : Engine F) (now : ℕ) where
  abbrev pub Known : String → Type 0
  Known n = (n ≡ "omp_default_mismatch") ⊎ Memᴰ n (firing F e now)

  -- the timers with a name of their own, in the order of `firing`
  abbrev pub named : List (String × Sustained)
  named =
      ("serve_down", e.serve_down)
      ∷ ("serve_down_page", e.serve_down_page)
      ∷ ("gate_down", e.gate_down)
      ∷ ("gate_charge_errors", e.charge_errors)
      ∷ ("gate_discount_inert", e.discount_inert)
      ∷ ("gate_cold_budget", e.cold_budget)
      ∷ ("queue_pressure", e.queue)
      ∷ ("gate_waiters", e.waiters)
      ∷ ("gpu_missing", e.gpu_missing)
      ∷ ("disk_full", e.disk_full)
      ∷ ("disk_full_page", e.disk_full_page)
      ∷ ("disk_growth", e.disk_growth.rule)
      ∷ ("rejects_413", e.rejects_413.rule)
      ∷ ("rejects_429", e.rejects_429.rule)
      ∷ []

  abbrev names : List (String × Sustained) → List String → List String
  names [] rest = rest
  names ((n, s) ∷ ps) rest = add F n s ++ names ps rest

  abbrev pub gpu_names : List String
  gpu_names =
      add_gpus F "thermal_temp:gpu" e.thermal_temp
      ++ (add_gpus F "thermal_throttle:gpu" e.thermal_throttle
          ++ ((if e.c1.announced then "c1_decode" ∷ [] else [])
              ++ (if e.c1.stale.announced && not (muted e.c1.stale_flaps now)
                  then "c1_stale" ∷ []
                  else [])))

  pub firing-named : firing F e now ≡ names named gpu_names
  unfolding firing
  firing-named = refl

  pub first :
      (n : String) (b : Bool) (ys : List String)
      → b ≡ true
      → Memᴰ n ((if b then n ∷ [] else []) ++ ys)
  first n true ys h = Memᴰ.head refl
  first n false ys h = absurd (ground (arith, h))

  pub one : (n : String) (b : Bool) → b ≡ true → Memᴰ n (if b then n ∷ [] else [])
  one n true h = Memᴰ.head refl
  one n false h = absurd (ground (arith, h))

  named_in :
      (n : String) (s : Sustained) (ps : List (String × Sustained)) (rest : List String)
      → Memᴰ (n, s) ps
      → s.announced ≡ true
      → Memᴰ n (names ps rest)
  unfolding add
  named_in n s [] rest m h = elim m [ ]
  named_in n s ((k, t) ∷ ps) rest (Memᴰ.head p) h =
      subst (λ (q : String × Sustained). Memᴰ n (add F q.0 q.1 ++ names ps rest)) p
        (first n s.announced (names ps rest) h)
  named_in n s ((k, t) ∷ ps) rest (Memᴰ.tail m) h =
      Memᴰ.append_right (add F k t) (named_in n s ps rest m h)

  pub tail_in :
      (n : String) (ps : List (String × Sustained)) (rest : List String)
      → Memᴰ n rest
      → Memᴰ n (names ps rest)
  tail_in n [] rest m = m
  tail_in n ((k, t) ∷ ps) rest m = Memᴰ.append_right (add F k t) (tail_in n ps rest m)

  known :
      (n : String) (s : Sustained)
      → Memᴰ (n, s) named
      → str_eq (state_of s) "firing" ≡ true
      → Known n
  known n s m h = inr (rw firing-named (named_in n s named gpu_names m (announced_of s h)))

  pub timers-Known : All (Fires Known) (timer_rows F cfg e now)
  unfolding timer_rows
  timers-Known = (
    known _ _ (Memᴰ.head refl),
    (
      known _ _ (Memᴰ.tail (Memᴰ.head refl)),
      (
        known _ _ (Memᴰ.tail (Memᴰ.tail (Memᴰ.head refl))),
        (
          known _ _ (Memᴰ.tail (Memᴰ.tail (Memᴰ.tail (Memᴰ.head refl)))),
          (
            known _ _ (Memᴰ.tail (Memᴰ.tail (Memᴰ.tail (Memᴰ.tail (Memᴰ.head refl))))),
            (
              known _ _ (
                  Memᴰ.tail
                    (Memᴰ.tail (Memᴰ.tail (Memᴰ.tail (Memᴰ.tail (Memᴰ.tail (Memᴰ.head refl))))))),
              (
                known _ _ (
                    Memᴰ.tail (
                      Memᴰ.tail (
                        Memᴰ.tail
                          (Memᴰ.tail (Memᴰ.tail (Memᴰ.tail (Memᴰ.tail (Memᴰ.head refl)))))))),
                (
                  known _ _ (
                      Memᴰ.tail (
                        Memᴰ.tail (
                          Memᴰ.tail (
                            Memᴰ.tail
                              (Memᴰ.tail (Memᴰ.tail (Memᴰ.tail (Memᴰ.tail (Memᴰ.head refl))))))))),
                  (λ h. inl refl, tt),
                ),
              ),
            ),
          ),
        ),
      ),
    ),
  )

  pub disk-Known : All (Fires Known) (disk_rows F cfg e now)
  unfolding disk_rows
  disk-Known = (
    known _ _ (
        Memᴰ.tail (
          Memᴰ.tail (
            Memᴰ.tail (
              Memᴰ.tail
                (Memᴰ.tail (Memᴰ.tail (Memᴰ.tail (Memᴰ.tail (Memᴰ.tail (Memᴰ.head refl)))))))))),
    (
      known _ _ (
          Memᴰ.tail (
            Memᴰ.tail (
              Memᴰ.tail (
                Memᴰ.tail (
                  Memᴰ.tail (
                    Memᴰ.tail
                      (Memᴰ.tail (Memᴰ.tail (Memᴰ.tail (Memᴰ.tail (Memᴰ.head refl))))))))))),
      (
        known _ _ (
            Memᴰ.tail (
              Memᴰ.tail (
                Memᴰ.tail (
                  Memᴰ.tail (
                    Memᴰ.tail (
                      Memᴰ.tail (
                        Memᴰ.tail
                          (Memᴰ.tail (Memᴰ.tail (Memᴰ.tail (Memᴰ.tail (Memᴰ.head refl)))))))))))),
        tt,
      ),
    ),
  )

  pub rejects-Known : All (Fires Known) (reject_rows F cfg e now)
  unfolding reject_rows lss.Base.concat
  rejects-Known = (
    known _ _ (
        Memᴰ.tail (
          Memᴰ.tail (
            Memᴰ.tail (
              Memᴰ.tail (
                Memᴰ.tail (
                  Memᴰ.tail (
                    Memᴰ.tail (
                      Memᴰ.tail
                        (Memᴰ.tail (Memᴰ.tail (Memᴰ.tail (Memᴰ.tail (Memᴰ.head refl))))))))))))),
    (
      known _ _ (
          Memᴰ.tail (
            Memᴰ.tail (
              Memᴰ.tail (
                Memᴰ.tail (
                  Memᴰ.tail (
                    Memᴰ.tail (
                      Memᴰ.tail (
                        Memᴰ.tail (
                          Memᴰ.tail (
                            Memᴰ.tail
                              (Memᴰ.tail (Memᴰ.tail (Memᴰ.tail (Memᴰ.head refl)))))))))))))),
      tt,
    ),
  )
