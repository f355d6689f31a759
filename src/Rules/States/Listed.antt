-- ===== src/Rules/States/Listed.antt =====
-- rules.rs: the rows of rule_states for the rules that firing lists.
use mathlib.Core.List.{Memᴰ}
use lss.Base.{
  ℕ, ◌≡◌, refl, inl, inr, ◌⊎◌, String, Bool, true, false, not, ◌&&◌, List, [], ◌∷◌, ◌++◌,
  if◌then◌else◌, arith, str_eq, Bool-cases, All, All-append,
}
use lss.Base.Float.{F64}
use lss.Base.Map.{nat_ord}
use lss.Base.Map.Sorted.{IsSorted}
use lss.Config.{RulesConfig}
use lss.Rules.Windows.{muted}
use lss.Rules.Types.{Host}
use lss.Rules.State.{Engine}
use lss.Rules.Evaluate.{add, add_gpus, firing}
use lss.Rules.States.{timer_rows, disk_rows, reject_rows}
use lss.Rules.States.Rows.{gpu_indices, gpu_rows, c1_row, stale_row, event_rows, rule_states}
use lss.Rules.States.Shown.{
  shown_firing, there, here, firing_state, if-All, left, right, Shown, temp-Shown, throttle-Shown,
  add-All, add_gpus-All,
}

module _ (F : F64) (host : Host) (cfg : RulesConfig F) (e : Engine F) (now : ℕ) where
  abbrev Sh : String → Type 0
  Sh n = Memᴰ n (shown_firing (rule_states F host cfg e now))

  abbrev Listed : String → Type 0
  Listed n = (n ≡ "gate_cold_budget") ⊎ Sh n

  timer : (n : String) → Memᴰ n (shown_firing (timer_rows F cfg e now)) → Listed n
  unfolding rule_states
  timer n m = inr (left n (timer_rows F cfg e now) _ m)

  disk : (n : String) → Memᴰ n (shown_firing (disk_rows F cfg e now)) → Listed n
  unfolding rule_states
  disk n m = inr (right n (timer_rows F cfg e now) _ (left n (disk_rows F cfg e now) _ m))

  late :
      (n : String)
      → Memᴰ n (
          shown_firing (
            c1_row F host cfg e now
            ∷ stale_row F host cfg e now
            ∷ (reject_rows F cfg e now ++ event_rows F host cfg e now)))
      → Listed n
  unfolding rule_states
  late n m = inr (
      right n (timer_rows F cfg e now) _ (
        right n (disk_rows F cfg e now) _
          (right n (gpu_rows F host cfg e now (gpu_indices F host cfg e)) _ m)))

  reject : (n : String) → Memᴰ n (shown_firing (reject_rows F cfg e now)) → Listed n
  reject n m = late n (there n _ _ (there n _ _ (left n (reject_rows F cfg e now) _ m)))

  service_listed :
      All Listed (add F "serve_down" e.serve_down)
      × All Listed (add F "serve_down_page" e.serve_down_page)
      × All Listed (add F "gate_down" e.gate_down)
      × All Listed (add F "gate_charge_errors" e.charge_errors)
      × All Listed (add F "gate_discount_inert" e.discount_inert)
  unfolding timer_rows
  service_listed = (
    add-All F host cfg Listed _ e.serve_down
        (λ h. timer _ (here _ _ (firing_state e.serve_down h))),
    add-All F host cfg Listed _ e.serve_down_page
        (λ h. timer _ (there _ _ _ (here _ _ (firing_state e.serve_down_page h)))),
    add-All F host cfg Listed _ e.gate_down
        (λ h. timer _ (there _ _ _ (there _ _ _ (here _ _ (firing_state e.gate_down h))))),
    add-All F host cfg Listed _ e.charge_errors (λ h.
        timer _
          (there _ _ _ (there _ _ _ (there _ _ _ (here _ _ (firing_state e.charge_errors h)))))),
    add-All F host cfg Listed _ e.discount_inert (λ h. timer _ (
        there _ _ _
          (there _ _ _ (there _ _ _ (there _ _ _ (here _ _ (firing_state e.discount_inert h))))))),
  )

  load_listed :
      All Listed (add F "queue_pressure" e.queue)
      × All Listed (add F "gate_waiters" e.waiters)
      × All Listed (add F "gpu_missing" e.gpu_missing)
  unfolding timer_rows
  load_listed = (
    add-All F host cfg Listed _ e.queue (λ h. timer _ (
        there _ _ _ (
          there _ _ _
            (there _ _ _ (there _ _ _ (there _ _ _ (here _ _ (firing_state e.queue h)))))))),
    add-All F host cfg Listed _ e.waiters (λ h. timer _ (
        there _ _ _ (
          there _ _ _ (
            there _ _ _
              (there _ _ _ (there _ _ _ (there _ _ _ (here _ _ (firing_state e.waiters h))))))))),
    add-All F host cfg Listed _ e.gpu_missing (λ h. timer _ (
        there _ _ _ (
          there _ _ _ (
            there _ _ _ (
              there _ _ _ (
                there _ _ _
                  (there _ _ _ (there _ _ _ (here _ _ (firing_state e.gpu_missing h)))))))))),
  )

  disk_listed :
      All Listed (add F "disk_full" e.disk_full)
      × All Listed (add F "disk_full_page" e.disk_full_page)
      × All Listed (add F "disk_growth" e.disk_growth.rule)
  unfolding disk_rows
  disk_listed = (
    add-All F host cfg Listed _ e.disk_full (λ h. disk _ (here _ _ (firing_state e.disk_full h))),
    add-All F host cfg Listed _ e.disk_full_page
        (λ h. disk _ (there _ _ _ (here _ _ (firing_state e.disk_full_page h)))),
    add-All F host cfg Listed _ e.disk_growth.rule
        (λ h. disk _ (there _ _ _ (there _ _ _ (here _ _ (firing_state e.disk_growth.rule h))))),
  )

  rejects_listed :
      All Listed (add F "rejects_413" e.rejects_413.rule)
      × All Listed (add F "rejects_429" e.rejects_429.rule)
  unfolding reject_rows lss.Base.concat
  rejects_listed = (
    add-All F host cfg Listed _ e.rejects_413.rule
        (λ h. reject _ (here _ _ (firing_state e.rejects_413.rule h))),
    add-All F host cfg Listed _ e.rejects_429.rule
        (λ h. reject _ (there _ _ _ (here _ _ (firing_state e.rejects_429.rule h)))),
  )

  c1_state : e.c1.announced ≡ true → str_eq (c1_row F host cfg e now).state "firing" ≡ true
  unfolding c1_row
  c1_state a = rw a refl

  c1_listed : All Listed (if e.c1.announced then "c1_decode" ∷ [] else [])
  unfolding c1_row
  c1_listed =
      if-All F host cfg Listed _ e.c1.announced
        (λ a. late _ (here (c1_row F host cfg e now) _ (c1_state a)))

  stale_shown :
      (m : Bool)
      → muted e.c1.stale_flaps now ≡ m
      → (e.c1.stale.announced && not m) ≡ true
      → Memᴰ "c1_stale" (
          shown_firing
            (stale_row F host cfg e now ∷ (reject_rows F cfg e now ++ event_rows F host cfg e now)))
  unfolding stale_row
  stale_shown true m a = absurd (ground (arith, a))
  stale_shown false m a = rw m (here _ _ (firing_state e.c1.stale (ground (arith, a))))

  stale_listed :
      All Listed
        (if e.c1.stale.announced && not (muted e.c1.stale_flaps now) then "c1_stale" ∷ [] else [])
  stale_listed =
      if-All F host cfg Listed _ (e.c1.stale.announced && not (muted e.c1.stale_flaps now))
        (λ a. late _ (there _ _ _ (stale_shown (muted e.c1.stale_flaps now) refl a)))

  gpus_listed :
      IsSorted e.thermal_temp
      → IsSorted e.thermal_throttle
      → All Listed (add_gpus F "thermal_temp:gpu" e.thermal_temp)
        × All Listed (add_gpus F "thermal_throttle:gpu" e.thermal_throttle)
  gpus_listed o p = (
    add_gpus-All F host cfg Listed _ e.thermal_temp
        (λ i s m a. inr (temp-Shown F host cfg e now i s o m a)),
    add_gpus-All F host cfg Listed _ e.thermal_throttle
        (λ i s m a. inr (throttle-Shown F host cfg e now i s p m a)),
  )

  and_then : (xs ys : List String) → All Listed xs → All Listed ys → All Listed (xs ++ ys)
  and_then xs ys h k = All-append Listed xs ys h k

  pub firing-Shown :
      IsSorted e.thermal_temp
      → IsSorted e.thermal_throttle
      → All (λ n. (n ≡ "gate_cold_budget") ⊎ Shown F host cfg e now n) (firing F e now)
  unfolding firing
  firing-Shown o p =
      let (down, pages, gates, charges, inert) = service_listed in
      let (queue, waiters, missing) = load_listed in
      let (full, full_page, growth) = disk_listed in
      let (r413, r429) = rejects_listed in
      let (temps, throttles) = gpus_listed o p in
      let cold = add-All F host cfg Listed "gate_cold_budget" e.cold_budget (λ h. inl refl) in
      and_then _ _ down (
        and_then _ _ pages (
          and_then _ _ gates (
            and_then _ _ charges (
              and_then _ _ inert (
                and_then _ _ cold (
                  and_then _ _ queue (
                    and_then _ _ waiters (
                      and_then _ _ missing (
                        and_then _ _ full (
                          and_then _ _ full_page (
                            and_then _ _ growth (
                              and_then _ _ r413 (
                                and_then _ _ r429 (
                                  and_then _ _ temps (
                                    and_then _ _ throttles
                                      (and_then _ _ c1_listed stale_listed))))))))))))))))
