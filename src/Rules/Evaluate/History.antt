-- ===== src/Rules/Evaluate/History.antt =====
-- The engine over a history of observations, newest first.
use lss.Base.{
  max, ltb, true, false, ℕ, ℤ, concat, ◌≡◌, refl, ap, ◌∙◌, not, List, [], ◌∷◌, ◌++◌, map, is_some,
}
use lss.Base.Float.{F64}
use lss.Config.{RulesConfig}
use lss.TimeUtil.{fmt_duration}
use lss.Rules.Sustained.{Edge, no_edge, fire, recover}
use lss.Rules.Sustained.History as Timer
use lss.Rules.Sustained.History.{Tick}
use lss.Rules.Types.{AlertEvent, warn, page, alert, Observation, Host}
use lss.Rules.State.{Engine, new_engine}
use lss.Rules.Evaluate.{evaluate}
use lss.Rules.Evaluate.Timers.{gpus_read, Timers, timers, tick, queue_high, waiting}
use lss.Rules.Evaluate.Timers.Leaves.{timers-evaluate}

-- What the two serve-down timers say, by the edges of each: the warning,
unfoldable pub warning : ℕ → Edge → ℤ → List AlertEvent
warning now fire down_for =
    alert now "serve_down" warn false
      (concat ("serve DOWN for " ∷ fmt_duration down_for ∷ " (/v1/models not answering)" ∷ []))
    ∷ []
warning now recover down_for = []
warning now no_edge down_for = []

-- the page,
unfoldable pub escalation : ℕ → Edge → ℤ → List AlertEvent
escalation now fire down_for =
    alert now "serve_down_page" page false
      (concat ("serve STILL DOWN after " ∷ fmt_duration down_for ∷ " - needs a human" ∷ []))
    ∷ []
escalation now recover down_for = []
escalation now no_edge down_for = []

-- and one recovery, graded as the page if that was sent.
unfoldable pub recovery : ℕ → Edge → Edge → ℤ → List AlertEvent
recovery now on recover down_for =
    alert now "serve_down" page true
      (concat ("serve recovered after " ∷ fmt_duration down_for ∷ " down" ∷ []))
    ∷ []
recovery now recover no_edge down_for =
    alert now "serve_down" warn true
      (concat ("serve recovered after " ∷ fmt_duration down_for ∷ " down" ∷ []))
    ∷ []
recovery now recover fire down_for =
    alert now "serve_down" warn true
      (concat ("serve recovered after " ∷ fmt_duration down_for ∷ " down" ∷ []))
    ∷ []
recovery now fire no_edge down_for = []
recovery now fire fire down_for = []
recovery now no_edge no_edge down_for = []
recovery now no_edge fire down_for = []

-- The events of a step begin with `xs`.
record Begins {S : Type 0} (m : S → S × List AlertEvent) (e : S) (xs : List AlertEvent)
    : Type 0 where
  rest : List AlertEvent
  splits : (m e).1 ≡ xs ++ rest

module _ (F : F64) (host : Host) (cfg : RulesConfig F) where
  -- the engine after a history, from a fresh start
  pub engine : List (Observation F) → Engine F
  engine [] = new_engine F
  engine (o ∷ h) = (evaluate F host cfg o (engine h)).0

  -- what each timer sees of an observation
  abbrev pub serve_tick : Observation F → Tick
  serve_tick o = record { now = o.now; cond = not o.serve_up }

  abbrev pub gate_tick : Observation F → Tick
  gate_tick o = record { now = o.now; cond = not o.gate_up }

  abbrev pub queue_tick : Observation F → Tick
  queue_tick o = record { now = o.now; cond = queue_high F cfg o }

  abbrev pub waiters_tick : Observation F → Tick
  waiters_tick o = record { now = o.now; cond = waiting F cfg o }

  abbrev pub omp_tick : Observation F → Tick
  omp_tick o = record { now = o.now; cond = is_some o.omp_mismatch }

  -- the most GPUs that were read before
  pub most_gpus : List (Observation F) → ℕ
  most_gpus [] = 0
  most_gpus (o ∷ h) = max (most_gpus h) (gpus_read F cfg o)

  -- fewer GPUs are read than ever before
  pub gpu_ticks : List (Observation F) → List Tick
  unfolding most_gpus
  gpu_ticks [] = []
  gpu_ticks (o ∷ h) =
      record { now = o.now; cond = ltb (gpus_read F cfg o) (most_gpus (o ∷ h)) } ∷ gpu_ticks h

  -- the timers, each run on its own over its own ticks
  pub alone : List (Observation F) → Timers
  unfolding Timer.run
  alone h = record {
    serve_down = Timer.run cfg.serve_down_secs cfg.cooldown_secs (map serve_tick h);
    serve_down_page = Timer.run cfg.serve_down_page_secs cfg.cooldown_secs (map serve_tick h);
    gate_down = Timer.run cfg.gate_down_secs cfg.cooldown_secs (map gate_tick h);
    queue = Timer.run cfg.queue_secs cfg.cooldown_secs (map queue_tick h);
    waiters = Timer.run cfg.waiters_secs cfg.cooldown_secs (map waiters_tick h);
    omp_default = Timer.run cfg.omp_mismatch_hold_secs cfg.cooldown_secs (map omp_tick h);
    gpu_count_seen = most_gpus h;
    gpu_missing = Timer.run cfg.gpu_missing_secs cfg.cooldown_secs (gpu_ticks h);
  }

  -- Over any history of observations the engine's timers that do not wait for a reading are what each
  -- would be if it were run alone over its own condition.
  pub timers-engine : (h : List (Observation F)) → timers F (engine h) ≡ alone h
  unfolding engine alone tick most_gpus gpu_ticks
  timers-engine [] = refl
  timers-engine (o ∷ h) =
      timers-evaluate F cfg o host (engine h) ∙ ap (tick F cfg o) (timers-engine h)

  pub serve_down_alone :
      (h : List (Observation F))
      → (engine h).serve_down ≡ Timer.run cfg.serve_down_secs cfg.cooldown_secs (map serve_tick h)
  unfolding alone
  serve_down_alone h =
      let p : timers F (engine h) ≡ alone h = timers-engine h in ap (λ (t : Timers). t.serve_down) p

  pub serve_page_alone :
      (h : List (Observation F))
      → (engine h).serve_down_page
        ≡ Timer.run cfg.serve_down_page_secs cfg.cooldown_secs (map serve_tick h)
  unfolding alone
  serve_page_alone h =
      let p : timers F (engine h) ≡ alone h = timers-engine h in
      ap (λ (t : Timers). t.serve_down_page) p

  -- the edge that each serve-down timer has at an observation, run alone
  abbrev pub warn_edge : List (Observation F) → Observation F → Edge
  warn_edge h o = Timer.edge cfg.serve_down_secs cfg.cooldown_secs (map serve_tick h) (serve_tick o)

  abbrev pub page_edge : List (Observation F) → Observation F → Edge
  page_edge h o =
      Timer.edge cfg.serve_down_page_secs cfg.cooldown_secs (map serve_tick h) (serve_tick o)
