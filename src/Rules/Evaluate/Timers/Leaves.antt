-- ===== src/Rules/Evaluate/Timers/Leaves.antt =====
-- The rules that leave the timers alone, and the whole evaluation.
use lss.Base.{
  max, ltb, ℕ, ◌+◌, String, ◌≡◌, refl, ◌∙◌, Option, none, some, Bool, true, false, List, [], ◌∷◌,
  ltb, leb, if◌then◌else◌, is_some_and,
}
use lss.Base.Float.{F64}
use lss.Base.Map.{contains_key, string_ord}
use lss.Config.{RulesConfig}
use lss.Gate.{GateShadow}
use lss.Xid.{XidEvent}
use lss.Rules.Types.{AlertEvent, RestartObs, GpuObs, DiskObs, Observation, Host}
use lss.Rules.State.{Engine, Eval, event_cooled}
use lss.Rules.Eval.Service.{
  charging, charging_of, eval_charging, cold_budget_step, cold_budget_of, eval_cold_budget,
}
use lss.Rules.Eval.Events.{
  on_restart, on_restarts, on_stable, on_stables, roles_where, is_stable, settle, eval_restarts,
  on_xid, on_xids, eval_xids,
}
use lss.Rules.Eval.Gpus.{
  start_reading, elapsed, gpu_count, check_missing, is_excluded, on_gpu, on_gpus,
  digest_period_secs, close_digest, on_reading, eval_gpus,
}
use lss.Rules.Eval.Decode.{eval_c1}
use lss.Rules.Eval.Counters.{rejects_413, rejects_429, eval_rejects, on_disk, eval_disk}
use lss.Rules.Sustained.{step}
use lss.Rules.Evaluate.{remember, rules, evaluate}
use lss.Rules.Evaluate.Timers.{
  gpus_read, Acts, timers, tick, Leaves-seq, Acts-seq, still, Acts-serve_down, Acts-gate_down,
  Acts-queue, Acts-omp,
}

module _ (F : F64) (cfg : RulesConfig F) (o : Observation F) where
  open F use {Float}

  abbrev Leaves : Eval F → Type 0
  Leaves m = (e : Engine F) → timers F (m e).0 ≡ timers F e

  choose :
      (b : Bool) (r t : Engine F × List AlertEvent) (e : Engine F)
      → timers F r.0 ≡ timers F e
      → timers F t.0 ≡ timers F e
      → timers F (if b then r else t).0 ≡ timers F e
  choose true r t e h k = h
  choose false r t e h k = k

  on_restart-Leaves : (r : RestartObs) → Leaves (on_restart F cfg o r)
  unfolding on_restart
  on_restart-Leaves r e =
      choose (event_cooled F e _ o.now cfg.cooldown_secs) _ _ e refl
        (choose (contains_key e.restart_pending r.role) _ _ e refl refl)

  on_restarts-Leaves : (rs : List RestartObs) → Leaves (on_restarts F cfg o rs)
  unfolding on_restarts
  on_restarts-Leaves [] e = refl
  on_restarts-Leaves (r ∷ rs) e =
      (Leaves-seq F cfg o) (on_restart F cfg o r) (on_restarts F cfg o rs) (on_restart-Leaves r)
        (on_restarts-Leaves rs) e

  on_stables-Leaves : (roles : List String) → Leaves (on_stables F cfg o roles)
  unfolding on_stables
  on_stables-Leaves [] e = refl
  on_stables-Leaves (role ∷ roles) e =
      (Leaves-seq F cfg o) (on_stable F cfg o role) (on_stables F cfg o roles)
        (λ e. unfold on_stable in refl) (on_stables-Leaves roles) e

  eval_restarts-Leaves : Leaves (eval_restarts F cfg o)
  unfolding eval_restarts settle
  eval_restarts-Leaves =
      (Leaves-seq F cfg o) (on_restarts F cfg o o.restarts) (settle F cfg o)
        (on_restarts-Leaves o.restarts)
        (λ e. on_stables-Leaves (roles_where (is_stable F cfg o) e.restart_pending) e)

  on_xid-Leaves : (x : XidEvent) → Leaves (on_xid F cfg o x)
  unfolding on_xid
  on_xid-Leaves x e = choose (event_cooled F e _ o.now cfg.cooldown_secs) _ _ e refl refl

  on_xids-Leaves : (xs : List XidEvent) → Leaves (on_xids F cfg o xs)
  unfolding on_xids
  on_xids-Leaves [] e = refl
  on_xids-Leaves (x ∷ xs) e =
      (Leaves-seq F cfg o) (on_xid F cfg o x) (on_xids F cfg o xs) (on_xid-Leaves x)
        (on_xids-Leaves xs) e

  rejects_413-Leaves : (v : Option ℕ) → Leaves (rejects_413 F cfg o v)
  unfolding rejects_413
  rejects_413-Leaves none e = refl
  rejects_413-Leaves (some v) e = refl

  rejects_429-Leaves : (v : Option ℕ) → Leaves (rejects_429 F cfg o v)
  unfolding rejects_429
  rejects_429-Leaves none e = refl
  rejects_429-Leaves (some v) e = refl

  on_disk-Leaves : (d : Option DiskObs) → Leaves (on_disk F cfg o d)
  unfolding on_disk
  on_disk-Leaves none e = refl
  on_disk-Leaves (some d) e = refl

  charging_of-Leaves : (sh : Option (GateShadow F)) → Leaves (charging_of F cfg o sh)
  unfolding charging_of charging
  charging_of-Leaves none e = refl
  charging_of-Leaves (some sh) e = refl

  cold_budget_of-Leaves :
      (a : Option ℕ) (b : Option Float) (c : Option ℕ) → Leaves (cold_budget_of F cfg o a b c)
  unfolding cold_budget_of cold_budget_step
  cold_budget_of-Leaves (some a) (some b) (some c) e = choose (ltb 0 c) _ _ e refl refl
  cold_budget_of-Leaves _ _ _ e = refl

  module _ (host : Host) where
    on_gpu-Leaves : (dt : ℕ) (g : GpuObs F) → Leaves (on_gpu F host cfg o dt g)
    unfolding on_gpu
    on_gpu-Leaves dt g e = choose (is_excluded F host cfg o g) _ _ e refl refl

    on_gpus-Leaves : (dt : ℕ) (gs : List (GpuObs F)) → Leaves (on_gpus F host cfg o dt gs)
    unfolding on_gpus
    on_gpus-Leaves dt [] e = refl
    on_gpus-Leaves dt (g ∷ gs) e =
        (Leaves-seq F cfg o) (on_gpu F host cfg o dt g) (on_gpus F host cfg o dt gs)
          (on_gpu-Leaves dt g) (on_gpus-Leaves dt gs) e

    close_digest-Leaves : Leaves (close_digest F host cfg o)
    unfolding close_digest
    close_digest-Leaves e =
        choose (is_some_and e.digest.window_start (λ s. leb (s + digest_period_secs) o.now)) _ _ e
          refl refl

    on_reading-Leaves : (gs : Option (List (GpuObs F))) → Leaves (on_reading F host cfg o gs)
    unfolding on_reading
    on_reading-Leaves none e = refl
    on_reading-Leaves (some gs) e =
        close_digest-Leaves
          (on_gpus F host cfg o (elapsed F host cfg o e.digest) gs (start_reading F host cfg o e)).0
        ∙ on_gpus-Leaves (elapsed F host cfg o e.digest) gs (start_reading F host cfg o e)

    Acts-gpus : (Acts F cfg o) (eval_gpus F host cfg o) (λ t. record t {
      gpu_count_seen = max t.gpu_count_seen (gpus_read F cfg o);
      gpu_missing =
          (step t.gpu_missing o.now
            (ltb (gpus_read F cfg o) (max t.gpu_count_seen (gpus_read F cfg o)))
            cfg.gpu_missing_secs
            cfg.cooldown_secs).0;
    })
    unfolding eval_gpus check_missing gpu_count
    Acts-gpus = record { at = λ e. on_reading-Leaves o.gpus (check_missing F host cfg o e).0 }

    eval_c1-Leaves : Leaves (eval_c1 F host cfg o)
    unfolding eval_c1
    eval_c1-Leaves e = choose o.bench_active _ _ e refl refl

    eval_rejects-Leaves : Leaves (eval_rejects F cfg o)
    unfolding eval_rejects
    eval_rejects-Leaves =
        (Leaves-seq F cfg o) (rejects_413 F cfg o o.rejected_413)
          (rejects_429 F cfg o o.rejected_429) (rejects_413-Leaves o.rejected_413)
          (rejects_429-Leaves o.rejected_429)

    eval_cold_budget-Leaves : Leaves (eval_cold_budget F cfg o)
    unfolding eval_cold_budget
    eval_cold_budget-Leaves e =
        choose o.bench_active _ _ e refl (
          cold_budget_of-Leaves o.trusted_inflight_tokens o.cache_hit_rate o.trusted_budget_tokens
            e)

    -- One evaluation ticks each of the seven timers that do not wait for a reading once, by its own
    -- condition, and nothing else in the evaluation touches them: those of serve_down,
    -- serve_down_page, gate_down, queue_pressure, gate_waiters, omp_default_mismatch and gpu_missing,
    -- the last by whether fewer GPUs were read than ever before.
    pub timers-evaluate :
        (e : Engine F) → timers F (evaluate F host cfg o e).0 ≡ tick F cfg o (timers F e)
    unfolding evaluate rules remember tick eval_xids eval_charging eval_disk
    timers-evaluate e =
        ((Acts-seq F cfg o)
            ((Acts-seq F cfg o)
              ((Acts-seq F cfg o)
                ((Acts-seq F cfg o)
                  ((Acts-seq F cfg o)
                    ((Acts-seq F cfg o)
                      ((Acts-seq F cfg o)
                        ((Acts-seq F cfg o)
                          ((Acts-seq F cfg o)
                            ((Acts-seq F cfg o)
                              ((Acts-seq F cfg o) (Acts-serve_down F cfg o)
                                (Acts-gate_down F cfg o))
                              ((still F cfg o) (eval_restarts F cfg o) eval_restarts-Leaves))
                            ((still F cfg o) (on_xids F cfg o o.xids) (on_xids-Leaves o.xids)))
                          (Acts-queue F cfg o))
                        Acts-gpus)
                      ((still F cfg o) (eval_c1 F host cfg o) eval_c1-Leaves))
                    ((still F cfg o) (eval_rejects F cfg o) eval_rejects-Leaves))
                  (Acts-omp F cfg o))
                ((still F cfg o) (charging_of F cfg o o.gate_shadow)
                  (charging_of-Leaves o.gate_shadow)))
              ((still F cfg o) (eval_cold_budget F cfg o) eval_cold_budget-Leaves))
            ((still F cfg o) (on_disk F cfg o o.disk) (on_disk-Leaves o.disk))).at
          (remember F o e)
