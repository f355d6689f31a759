-- ===== src/Rules/Evaluate/Timers.antt =====
-- The timers that tick at every evaluation: each depends on its own past and on its own condition,
-- so the engine over a history of observations runs each as `Sustained.History` does.
pub mod Leaves
use lss.Base.{
  max, map_or, length, ℕ, ◌+◌, String, ◌≡◌, refl, ap, ◌∙◌, Option, none, some, Bool, true, false,
  not, List, [], ◌∷◌, map, ltb, leb, arith, if◌then◌else◌, is_some, unwrap_or, is_some_and,
}
use lss.Base.Float.{F64}
use lss.Base.Map.{contains_key, string_ord}
use lss.Config.{RulesConfig}
use lss.Gate.{GateShadow}
use lss.Xid.{XidEvent}
use lss.Rules.Sustained.{Sustained, step}
use lss.Rules.Types.{AlertEvent, RestartObs, GpuObs, DiskObs, Observation, Host}
use lss.Rules.State.{Engine, Eval, new_engine, event_cooled, ◌⨟◌}
use lss.Rules.Eval.Service.{
  eval_serve_down, eval_gate_down, charging, charging_of, eval_charging, cold_budget_step,
  cold_budget_of, eval_cold_budget, eval_omp_default, eval_queue,
}
use lss.Rules.Eval.Events.{
  on_restart, on_restarts, on_stable, on_stables, roles_where, is_stable, settle, eval_restarts,
  on_xid, on_xids, eval_xids,
}
use lss.Rules.Eval.Gpus.{
  start_reading, elapsed, check_missing, add_digest, check_thermal, is_excluded, on_gpu, on_gpus,
  digest_period_secs, close_digest, on_reading, eval_gpus,
}
use lss.Rules.Eval.Decode.{eval_c1}
use lss.Rules.Eval.Counters.{rejects_413, rejects_429, eval_rejects, on_disk, eval_disk}
use lss.Rules.Evaluate.{remember, rules, evaluate}

pub record Timers : Type 0 where
  pub serve_down : Sustained
  pub serve_down_page : Sustained
  pub gate_down : Sustained
  pub queue : Sustained
  pub waiters : Sustained
  pub omp_default : Sustained
  -- the most GPUs that were ever read, which the last timer is measured against
  pub gpu_count_seen : ℕ
  pub gpu_missing : Sustained

module _ (F : F64) where
  open F use {Float, ratio, le}

  abbrev pub timers : Engine F → Timers
  timers e = record {
    serve_down = e.serve_down;
    serve_down_page = e.serve_down_page;
    gate_down = e.gate_down;
    queue = e.queue;
    waiters = e.waiters;
    omp_default = e.omp_default;
    gpu_count_seen = e.gpu_count_seen;
    gpu_missing = e.gpu_missing;
  }

  module _ (cfg : RulesConfig F) (o : Observation F) where
    -- the conditions; a benchmark reads the queue and the waiters as empty
    abbrev pub queue_high : Bool
    queue_high =
        le cfg.queue_reqs (if o.bench_active then ratio 0 1 else unwrap_or o.queue (ratio 0 1))

    abbrev pub waiting : Bool
    waiting = ltb 0 (if o.bench_active then 0 else unwrap_or o.trusted_waiters 0)

    abbrev pub gpus_read : ℕ
    gpus_read = map_or o.gpus 0 length

    -- one tick of each timer on its own
    unfoldable pub tick : Timers → Timers
    tick t = record {
      serve_down =
          (step t.serve_down o.now (not o.serve_up) cfg.serve_down_secs cfg.cooldown_secs).0;
      serve_down_page =
          (step t.serve_down_page o.now (not o.serve_up) cfg.serve_down_page_secs
            cfg.cooldown_secs).0;
      gate_down = (step t.gate_down o.now (not o.gate_up) cfg.gate_down_secs cfg.cooldown_secs).0;
      queue = (step t.queue o.now queue_high cfg.queue_secs cfg.cooldown_secs).0;
      waiters = (step t.waiters o.now waiting cfg.waiters_secs cfg.cooldown_secs).0;
      omp_default =
          (step t.omp_default o.now (is_some o.omp_mismatch) cfg.omp_mismatch_hold_secs
            cfg.cooldown_secs).0;
      gpu_count_seen = max t.gpu_count_seen gpus_read;
      gpu_missing =
          (step t.gpu_missing o.now (ltb gpus_read (max t.gpu_count_seen gpus_read))
            cfg.gpu_missing_secs cfg.cooldown_secs).0;
    }

    -- what a step does to the timers, and the steps that leave them alone
    pub record Acts (m : Eval F) (f : Timers → Timers) : Type 0 where
      pub at : (e : Engine F) → timers (m e).0 ≡ f (timers e)

    abbrev pub Leaves : Eval F → Type 0
    Leaves m = (e : Engine F) → timers (m e).0 ≡ timers e

    pub Leaves-seq : (a b : Eval F) → Leaves a → Leaves b → Leaves (a ⨟ b)
    Leaves-seq a b h k e = k (a e).0 ∙ h e

    pub still : (m : Eval F) → Leaves m → Acts m (λ t. t)
    still m h = record { at = h }

    pub Acts-seq :
        {a b : Eval F} {f g : Timers → Timers} → Acts a f → Acts b g → Acts (a ⨟ b) (λ t. g (f t))
    Acts-seq {a} {b} {f} {g} h k = record { at = λ e. k.at (a e).0 ∙ ap g (h.at e) }

    pub Acts-serve_down : Acts (eval_serve_down F cfg o) (λ t. record t {
      serve_down =
          (step t.serve_down o.now (not o.serve_up) cfg.serve_down_secs cfg.cooldown_secs).0;
      serve_down_page =
          (step t.serve_down_page o.now
            (not o.serve_up)
            cfg.serve_down_page_secs
            cfg.cooldown_secs).0;
    })
    unfolding eval_serve_down
    Acts-serve_down = record { at = λ e. refl }

    pub Acts-gate_down : Acts (eval_gate_down F cfg o) (λ t. record t {
      gate_down = (step t.gate_down o.now (not o.gate_up) cfg.gate_down_secs cfg.cooldown_secs).0;
    })
    unfolding eval_gate_down
    Acts-gate_down = record { at = λ e. refl }

    pub Acts-queue : Acts (eval_queue F cfg o) (λ t. record t {
      queue = (step t.queue o.now queue_high cfg.queue_secs cfg.cooldown_secs).0;
      waiters = (step t.waiters o.now waiting cfg.waiters_secs cfg.cooldown_secs).0;
    })
    unfolding eval_queue
    Acts-queue = record { at = λ e. refl }

    pub Acts-omp : Acts (eval_omp_default F cfg o) (λ t. record t {
      omp_default =
          (step t.omp_default o.now
            (is_some o.omp_mismatch)
            cfg.omp_mismatch_hold_secs
            cfg.cooldown_secs).0;
    })
    unfolding eval_omp_default
    Acts-omp = record { at = λ e. refl }
