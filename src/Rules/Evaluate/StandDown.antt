-- ===== src/Rules/Evaluate/StandDown.antt =====
-- When the rules stand down: a benchmark, a GPU that is excluded.
use lss.Base.{
  ap, ◌∙◌, ℕ, ◌+◌, ◌≡◌, refl, String, Bool, true, false, List, [], arith, if◌then◌else◌, All,
  All-append, map_or,
}
use lss.Base.Float.{F64}
use lss.Base.Map.{get, get-insert, nat_ord}
use lss.Config.{RulesConfig}
use lss.Rules.Evaluate.{evaluate}
use lss.Rules.Evaluate.Timers.{Timers, timers, tick}
use lss.Rules.Evaluate.Timers.Leaves.{timers-evaluate}
use lss.Rules.Sustained.{Sustained, no_edge, recover, step}
use lss.Rules.Types.{Severity, AlertEvent, GpuObs, Observation, Host, alert, push_edge}
use lss.Rules.State.{Engine}
use lss.Rules.Eval.Service.{eval_queue}
use lss.Rules.Eval.Gpus.{is_excluded, add_digest, on_gpu, is_hot}

abbrev OnlyRecoveries : List AlertEvent → Type 0
OnlyRecoveries = All (λ a. a.recovered ≡ true)

edge_recovers :
    (b : Bool) (now : ℕ) (rule : String) (sev : Severity) (on off : String)
    → OnlyRecoveries (push_edge (if b then recover else no_edge) now rule sev on off)
unfolding push_edge alert
edge_recovers true now rule sev on off = (refl, tt)
edge_recovers false now rule sev on off = tt

module _ (F : F64) (host : Host) (cfg : RulesConfig F) (o : Observation F) (e : Engine F) where
  -- a timer whose condition does not hold is not announced after the tick
  step-false :
      (t : Sustained) (now hold cooldown : ℕ) → (step t now false hold cooldown).0.announced ≡ false
  unfolding step
  step-false t now hold cooldown = refl

  quiet_queue :
      o.bench_active ≡ true
      → F.le cfg.queue_reqs (F.ratio 0 1) ≡ false
      → (tick F cfg o (timers F e)).queue.announced ≡ false
  unfolding tick
  quiet_queue b q = rw (b, q) (step-false e.queue o.now cfg.queue_secs cfg.cooldown_secs)

  quiet_waiters : o.bench_active ≡ true → (tick F cfg o (timers F e)).waiters.announced ≡ false
  unfolding tick
  quiet_waiters b = rw b (step-false e.waiters o.now cfg.waiters_secs cfg.cooldown_secs)

  -- While a benchmark runs, and if the queue threshold is above an empty queue: whatever fired
  -- before, after a whole evaluation neither the queue rule nor the waiters rule is firing; and the
  -- two send no alert, but at most the recovery of each.
  pub bench_stands_down :
      o.bench_active ≡ true
      → F.le cfg.queue_reqs (F.ratio 0 1) ≡ false
      → ((evaluate F host cfg o e).0.queue.announced ≡ false)
        × ((evaluate F host cfg o e).0.waiters.announced ≡ false)
        × All (λ a. a.recovered ≡ true) (eval_queue F cfg o e).1
  unfolding eval_queue step
  bench_stands_down b q =
      let ticked : timers F (evaluate F host cfg o e).0 ≡ tick F cfg o (timers F e) =
        timers-evaluate F cfg o host e in
      (
        ap (λ (t : Timers). t.queue.announced) ticked ∙ quiet_queue b q,
        ap (λ (t : Timers). t.waiters.announced) ticked ∙ quiet_waiters b,
        rw (b, q)
            (All-append (λ (a : AlertEvent). a.recovered ≡ true) _ _
              (edge_recovers e.queue.announced _ _ _ _ _)
              (edge_recovers e.waiters.announced _ _ _ _ _)),
      )

  -- An excluded GPU never raises or recovers a thermal alert, and keeps every thermal timer: it adds
  -- to its digest line the seconds of this step if it is hot, and does not lose any that were there.
  pub excluded_only_digests :
      (dt : ℕ) (g : GpuObs F)
      → is_excluded F host cfg o g ≡ true
      → ((on_gpu F host cfg o dt g e).1 ≡ [])
        × ((on_gpu F host cfg o dt g e).0.thermal_temp ≡ e.thermal_temp)
        × ((on_gpu F host cfg o dt g e).0.thermal_throttle ≡ e.thermal_throttle)
        × (map_or (get (on_gpu F host cfg o dt g e).0.digest.gpus g.index) 0 (λ d. d.hot_secs)
            ≡ map_or (get e.digest.gpus g.index) 0 (λ d. d.hot_secs)
              + (if is_hot F host cfg o g then dt else 0))
  unfolding on_gpu add_digest
  excluded_only_digests dt g x = rw x (refl, refl, refl, rw get-insert (ground arith))
