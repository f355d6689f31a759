-- ===== src/Rules/States/Known/Whole.antt =====
-- rules.rs: the rows for the GPUs, the decode speed and the events, and the whole table.
use native.Mathlib.Omega.{arith}
use mathlib.Core.Path.{subst}
use mathlib.Core.List.{Memᴰ}
use mathlib.Core.List.Memᴰ
use lss.Base.{
  Option, none, some, is_empty, unwrap_or, map, concat, show_ℕ, ◌==◌, ==_iff, ℕ, ◌≡◌, inl, inr, ◌⊎◌,
  not, ◌&&◌, String, true, List, [], ◌∷◌, ◌++◌, if◌then◌else◌, str_eq, Bool-cases, All, All-append,
}
use lss.Base.Float.{F64}
use lss.Base.Map.{BTreeMap, get, nat_ord, string_ord}
use lss.Base.Map.Sorted.{IsSorted}
use lss.Config.{RulesConfig}
use lss.Rules.Sustained.{Sustained, idle}
use lss.Rules.Windows.{muted}
use lss.Rules.Types.{Severity, info, warn, hardware, Host}
use lss.Rules.State.{Engine}
use lss.Rules.Evaluate.{add, add_gpus, firing}
use lss.Rules.States.{event_row, timer_rows, disk_rows, reject_rows}
use lss.Rules.States.Rows.{
  gpu_indices, gpu_pair, gpu_rows, c1_row, stale_row, restart_row, xid_threshold, xid_rows,
  xid_keys, event_rows, rule_states,
}
use lss.Rules.States.Shown.{shown_firing, Shown}
use lss.Rules.States.Listed.{firing-Shown}
use lss.Rules.States.Known.{
  announced_of, Fires, shown-All, Known, gpu_names, firing-named, first, one, tail_in, timers-Known,
  disk-Known, rejects-Known, named,
}

module _ (F : F64) (host : Host) (cfg : RulesConfig F) (e : Engine F) (now : ℕ) where
  later_in : (n : String) → Memᴰ n (gpu_names F host cfg e now) → (Known F host cfg e now) n
  later_in n m = inr (
      rw (firing-named F host cfg e now)
        (tail_in F host cfg e now n (named F host cfg e now) (gpu_names F host cfg e now) m))

  gpu_in :
      (rule : String) (m : BTreeMap ℕ Sustained) (i : ℕ)
      → (unwrap_or (get m i) idle).announced ≡ true
      → Memᴰ (concat (rule ∷ show_ℕ i ∷ [])) (add_gpus F rule m)
  unfolding add_gpus get
  gpu_in rule [] i h = absurd (ground (arith, h))
  gpu_in rule ((j, t) ∷ m) i h = elim (Bool-cases (j == i)) [
    | inl p ↦
        subst
          (λ k.
            Memᴰ (concat (rule ∷ show_ℕ k ∷ []))
              (add F (concat (rule ∷ show_ℕ j ∷ [])) t ++ add_gpus F rule m))
          ((==_iff j i).0 p) (first F host cfg e now _ t.announced _ (rw p at h))
    | inr p ↦ Memᴰ.append_right (add F _ t) (gpu_in rule m i (rw p at h))
  ]

  pair-Known : (i : ℕ) → All (Fires (Known F host cfg e now)) (gpu_pair F host cfg e now i)
  unfolding gpu_pair
  pair-Known i = (
    (λ h. later_in _ (
        Memᴰ.append_left _ (
          gpu_in "thermal_temp:gpu" e.thermal_temp i
            (announced_of (unwrap_or (get e.thermal_temp i) idle) h)))),
    (
      (λ h. later_in _ (
          Memᴰ.append_right (add_gpus F "thermal_temp:gpu" e.thermal_temp) (
            Memᴰ.append_left _ (
              gpu_in "thermal_throttle:gpu" e.thermal_throttle i
                (announced_of (unwrap_or (get e.thermal_throttle i) idle) h))))),
      tt,
    ),
  )

  gpus-Known : (is : List ℕ) → All (Fires (Known F host cfg e now)) (gpu_rows F host cfg e now is)
  unfolding gpu_rows
  gpus-Known [] = tt
  gpus-Known (i ∷ is) =
      All-append (Fires (Known F host cfg e now)) (gpu_pair F host cfg e now i)
        (gpu_rows F host cfg e now is) (pair-Known i) (gpus-Known is)

  past_gpus :
      (n : String)
      → Memᴰ n (
          (if e.c1.announced then "c1_decode" ∷ [] else [])
          ++ (if e.c1.stale.announced && not (muted e.c1.stale_flaps now)
              then "c1_stale" ∷ []
              else []))
      → (Known F host cfg e now) n
  past_gpus n m = later_in n (
      Memᴰ.append_right (add_gpus F "thermal_temp:gpu" e.thermal_temp)
        (Memᴰ.append_right (add_gpus F "thermal_throttle:gpu" e.thermal_throttle) m))

  c1_announced : str_eq (c1_row F host cfg e now).state "firing" ≡ true → e.c1.announced ≡ true
  unfolding c1_row
  c1_announced h = elim (Bool-cases e.c1.announced) [
    | inl a ↦ a
    | inr a ↦ elim (Bool-cases (is_empty e.c1.low_probes)) [
      | inl b ↦ absurd (ground (arith, (rw (a, b) at h)))
      | inr b ↦ absurd (ground (arith, (rw (a, b) at h)))
    ]
  ]

  c1-Known : Fires (Known F host cfg e now) (c1_row F host cfg e now)
  unfolding c1_row
  c1-Known h = past_gpus _ (first F host cfg e now "c1_decode" e.c1.announced _ (c1_announced h))

  stale-Known : Fires (Known F host cfg e now) (stale_row F host cfg e now)
  unfolding stale_row
  stale-Known h = elim (Bool-cases (muted e.c1.stale_flaps now)) [
    | inl m ↦ absurd (ground (arith, (rw m at h)))
    | inr m ↦ rw m (
        past_gpus "c1_stale" (
          Memᴰ.append_right (if e.c1.announced then "c1_decode" ∷ [] else []) (
            one F host cfg e now "c1_stale"
              (e.c1.stale.announced && not (muted e.c1.stale_flaps now))
              (ground (arith, m, announced_of e.c1.stale (rw m at h))))))
  ]

  event_quiet :
      (rule : String) (sev : Severity) (threshold : String) (pending last : Option ℕ)
      → Fires
          (Known F host cfg e now)
          (event_row cfg.cooldown_secs now rule sev threshold pending last)
  unfolding event_row
  event_quiet rule sev threshold none last h = absurd (ground (arith, h))
  event_quiet rule sev threshold (some t) last h = absurd (ground (arith, h))

  xids_quiet :
      (keys : List String)
      → All (Fires (Known F host cfg e now)) (
          map
            (λ (key : String).
              event_row cfg.cooldown_secs now key hardware
                (xid_threshold F host cfg)
                none
                (get e.event_last_sent key))
            keys)
  xids_quiet [] = tt
  xids_quiet (k ∷ keys) = (
    event_quiet k hardware (xid_threshold F host cfg) none (get e.event_last_sent k),
    xids_quiet keys,
  )

  xid_rows_quiet :
      (keys : List String) → All (Fires (Known F host cfg e now)) (xid_rows F host cfg e now keys)
  unfolding xid_rows
  xid_rows_quiet [] = (event_quiet "xid:*" hardware (xid_threshold F host cfg) none none, tt)
  xid_rows_quiet (k ∷ keys) = xids_quiet (k ∷ keys)

  restart_quiet :
      (role : String) → Fires (Known F host cfg e now) (restart_row F host cfg e now role)
  unfolding restart_row
  restart_quiet role =
      event_quiet (concat ("container_restart:" ∷ role ∷ [])) warn "any container restart"
        (get e.restart_pending role)
        (get e.event_last_sent (concat ("container_restart:" ∷ role ∷ [])))

  events_quiet : All (Fires (Known F host cfg e now)) (event_rows F host cfg e now)
  unfolding event_rows
  events_quiet = (
    restart_quiet "serve",
    (
      restart_quiet "gate",
      All-append (Fires (Known F host cfg e now))
          (xid_rows F host cfg e now (xid_keys F host cfg e)) _
          (xid_rows_quiet (xid_keys F host cfg e))
          (event_quiet "thermal_digest" info "daily summary of the excluded GPUs" none none, tt),
    ),
  )

  shown-Known : All (Known F host cfg e now) (shown_firing (rule_states F host cfg e now))
  unfolding rule_states
  shown-Known =
      let events =
        All-append (Fires (Known F host cfg e now)) (reject_rows F cfg e now)
          (event_rows F host cfg e now) (rejects-Known F host cfg e now) events_quiet in
      let late =
        c1_row F host cfg e now
        ∷ stale_row F host cfg e now
        ∷ (reject_rows F cfg e now ++ event_rows F host cfg e now) in
      let gpus = gpu_rows F host cfg e now (gpu_indices F host cfg e) in
      shown-All (Known F host cfg e now) (rule_states F host cfg e now) (
        All-append (Fires (Known F host cfg e now)) (timer_rows F cfg e now)
          (disk_rows F cfg e now ++ (gpus ++ late)) (timers-Known F host cfg e now)
          (All-append (Fires (Known F host cfg e now)) (disk_rows F cfg e now) (gpus ++ late)
            (disk-Known F host cfg e now)
            (All-append (Fires (Known F host cfg e now)) gpus late
              (gpus-Known (gpu_indices F host cfg e)) (c1-Known, (stale-Known, events)))))

  -- If the thermal timers are in the order of their keys, every rule that firing lists, but
  -- gate_cold_budget, has a row in the table that shows it as firing, and every rule that the
  -- table shows as firing, but omp_default_mismatch, is listed by firing.
  pub table_exact :
      IsSorted e.thermal_temp
      → IsSorted e.thermal_throttle
      → All (λ n. (n ≡ "gate_cold_budget") ⊎ Shown F host cfg e now n) (firing F e now)
        × All
            (λ n. (n ≡ "omp_default_mismatch") ⊎ Memᴰ n (firing F e now))
            (shown_firing (rule_states F host cfg e now))
  table_exact o p = (firing-Shown F host cfg e now o p, shown-Known)
