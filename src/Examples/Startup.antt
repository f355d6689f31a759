-- ===== src/Examples/Startup.antt =====
-- The theorems on the decode-speed state and on restarts, at concrete inputs.
use lss.Base.{ℕ, ◌+◌, ◌≡◌, refl, some, true, false, not, List, [], ◌∷◌}
use lss.Base.Map.{get, nat_ord, string_ord}
use lss.Rules.Types.{Observation}
use lss.Rules.State.{Engine, new_engine}
use lss.Base.{any, leb}
use lss.Rules.Eval.Events.{eval_restarts}
use lss.Rules.Evaluate.Streak.{extended, baseline_after, low_run, is_fresh}
use lss.Rules.Evaluate.Pairs.{IsPaired, eval_restarts-IsPaired}
use lss.Rules.State.{new_c1}
use lss.Base.{◌+◌, ◌&&◌}
use lss.Rules.Sustained.{Sustained}
use lss.Rules.Types.{DiskObs, used_pct, warn}
use lss.Rules.Eval.Counters.{check_level}
use lss.Rules.Evaluate.Levels.{is_recovery, level_exact}
use lss.Examples.Data.{milli, host, cfg, observe}

abbrev rates : List ℕ
rates = 40 ∷ 41 ∷ 42 ∷ 43 ∷ []

abbrev in_streak : Engine milli
in_streak = record (new_engine milli) {
  c1 = record (new_c1 milli) { low_probes = (100, 9) ∷ (200, 8) ∷ [] };
}

-- three probes to learn from, then two low ones
abbrev probed : ℕ → ℕ → Observation milli
probed now speed = record (observe now true false) { probe_tok_s = some speed; probe_ts = some now }

abbrev low_once : List (Observation milli)
low_once = probed 1800 50000 ∷ probed 1200 100000 ∷ probed 600 100000 ∷ probed 0 100000 ∷ []

abbrev low_twice : List (ℕ × ℕ)
low_twice =
    extended milli host cfg (probed 2400 50000) (some 50000)
      (baseline_after milli host cfg low_once) (low_run milli host cfg low_once)

abbrev restarting : Observation milli
restarting = record (observe 500 true false) {
  restarts = record { role = "serve"; detail = "new" } ∷ [];
}

new-IsPaired : IsPaired milli (new_engine milli)
unfolding get
new-IsPaired = record { at = λ role. refl }

eval_restarts-IsPaired_example :
    IsPaired milli (eval_restarts milli cfg restarting (new_engine milli)).0
eval_restarts-IsPaired_example =
    eval_restarts-IsPaired milli cfg restarting (new_engine milli) new-IsPaired

-- 84% used, with a line at 85% that is firing and a margin of 2%
abbrev disk_84 : DiskObs
disk_84 = record { path = "/"; total_bytes = 1000; avail_bytes = 160 }

abbrev disk_firing : Sustained
disk_firing = record { since = some 100; announced = true; last_sent = some 400 }

level_exact_example :
    (any is_recovery
        (check_level milli cfg
          (observe 900 true false)
          disk_84
          85000
          "disk_full"
          warn
          disk_firing).1
      ≡ (true && not (leb 83000 (used_pct milli disk_84))))
    × (any is_fresh
          (check_level milli cfg
            (observe 900 true false)
            disk_84
            85000
            "disk_full"
            warn
            disk_firing).1
        ≡ (not true
            && (leb 85000 (used_pct milli disk_84)
                && (leb (100 + 300) 900 && leb (400 + 1800) 900))))
    × ((check_level milli cfg
          (observe 900 true false)
          disk_84
          85000
          "disk_full"
          warn
          disk_firing).0.announced
        ≡ leb 83000 (used_pct milli disk_84))
level_exact_example =
    level_exact milli cfg (observe 900 true false) disk_84 85000 "disk_full" warn disk_firing
