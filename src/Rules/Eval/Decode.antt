-- ===== src/Rules/Eval/Decode.antt =====
-- rules.rs: `median`, `eval_c1` and `eval_c1_stale`, the decode speed of one user on an idle engine.
use lss.Base.{
  ℕ, ◌+◌, ◌-◌, ◌*◌, ◌/◌, ◌%◌, String, Option, none, some, Bool, true, false, not, ◌&&◌, ◌||◌, List,
  [], ◌∷◌, ◌++◌, map, leb, ◌==◌, if◌then◌else◌, unwrap_or, or_else, is_none_or, any, length,
  get_elem?, filter, max, ℤ, pos, sub_ℕ, concat, join, show_ℕ,
}
use lss.Base.Float.{F64}
use lss.Config.{RulesConfig}
use lss.TimeUtil.{fmt_duration}
use lss.Rules.Sustained.{Edge, no_edge, fire, recover, held_for, step}
use lss.Rules.Windows.{FlapTracker, note_flap, muted, count_since, flap_mute_window_secs}
use lss.Rules.Types.{info, warn, AlertEvent, Observation, Host, alert}
use lss.Rules.State.{C1State, Eval, ◌⨟◌}

abbrev pub c1_stale_fire_hold_secs : ℕ
c1_stale_fire_hold_secs = 300

module _ (F : F64) where
  open F use {Float, ratio, plus, times, over, lt, total_le, is_finite, show_fixed}

  unfoldable pub insert_sorted : Float → List Float → List Float
  insert_sorted x [] = x ∷ []
  insert_sorted x (y ∷ ys) =
      let rest = insert_sorted x ys in if total_le x y then x ∷ y ∷ ys else y ∷ rest

  -- `v.sort_by(f64::total_cmp)`
  unfoldable pub sort : List Float → List Float
  unfolding insert_sorted
  sort [] = []
  sort (x ∷ xs) = insert_sorted x (sort xs)

  -- an index that is always in range
  unfoldable pub at : List Float → ℕ → Float
  at v i = unwrap_or (get_elem? v i) (ratio 0 1)

  unfoldable pub median_sorted : List Float → Float
  unfolding at
  median_sorted [] = ratio 0 1
  median_sorted (x ∷ xs) =
      let v = x ∷ xs in
      let mid = length v / 2 in
      if length v % 2 == 1 then at v mid else over (plus (at v (mid - 1)) (at v mid)) (ratio 2 1)

  unfoldable pub median : List Float → Float
  unfolding sort median_sorted
  median values = median_sorted (sort (filter is_finite values))

  module _ (host : Host) (cfg : RulesConfig F) (o : Observation F) where
    -- The configured baseline wins over the learned one.
    unfoldable pub c1_baseline : C1State F → Option Float
    c1_baseline c = or_else cfg.c1_baseline_tok_s c.learned_baseline

    -- the probes that a streak is made of, as the alert quotes them
    unfoldable pub quote_probes : List (ℕ × Float) → List String
    quote_probes = map (λ p. concat (host.fmt_utc p.0 "%H:%M:%SZ" ∷ " " ∷ show_fixed 1 p.1 ∷ []))

    unfoldable pub add_low : ℕ → Float → List (ℕ × Float) → List (ℕ × Float)
    add_low ts v probes = if any (λ p. p.0 == ts) probes then probes else probes ++ (ts, v) ∷ []

    unfoldable pub judge_low : Float → Float → C1State F → C1State F × List AlertEvent
    unfolding add_low quote_probes
    judge_low v baseline c =
        let floor = times cfg.c1_ratio baseline in
        let probes = add_low (unwrap_or o.probe_ts o.now) v c.low_probes in
        let n = length probes in
        let cool = is_none_or c.last_sent (λ t. leb (t + cfg.cooldown_secs) o.now) in
        let fires = leb cfg.c1_consecutive n && not c.announced && cool in
        (
          record c {
            low_probes = probes;
            announced = c.announced || fires;
            last_sent = if fires then some o.now else c.last_sent;
          },
          if fires
              then alert o.now "c1_decode" warn false (
                  concat (
                    "C1 decode "
                    ∷ show_fixed 1 v
                    ∷ " tok/s, below "
                    ∷ show_fixed 1 floor
                    ∷ " ("
                    ∷ show_fixed 0 (times cfg.c1_ratio (ratio 100 1))
                    ∷ "% of baseline "
                    ∷ show_fixed 1 baseline
                    ∷ ") on "
                    ∷ show_ℕ n
                    ∷ " consecutive valid idle probes (probes "
                    ∷ join ", " (quote_probes probes)
                    ∷ ")"
                    ∷ []))
                ∷ []
              else [],
        )

    unfoldable pub judge_good : Float → Float → C1State F → C1State F × List AlertEvent
    judge_good v baseline c = (
      record c { low_probes = []; announced = false },
      if c.announced
          then alert o.now "c1_decode" warn true (
              concat (
                "C1 decode recovered: "
                ∷ show_fixed 1 v
                ∷ " tok/s (baseline "
                ∷ show_fixed 1 baseline
                ∷ ")"
                ∷ []))
            ∷ []
          else [],
    )

    -- still learning: the first probes define normal and are not judged
    unfoldable pub learn : Float → C1State F → C1State F
    learn v c =
        let samples = c.baseline_samples ++ v ∷ [] in
        record c {
          baseline_samples = samples;
          learned_baseline =
              if leb (max cfg.c1_baseline_probes 1) (length samples)
              then some (median samples)
              else c.learned_baseline;
        }

    unfoldable pub judge : Float → Option Float → C1State F → C1State F × List AlertEvent
    unfolding judge_low judge_good learn
    judge v none c = (learn v c, [])
    judge v (some baseline) c =
        if lt v (times cfg.c1_ratio baseline)
        then judge_low v baseline c
        else judge_good v baseline c

    unfoldable pub on_probe : Option Float → C1State F → C1State F × List AlertEvent
    unfolding judge c1_baseline
    on_probe none c = (c, [])
    on_probe (some v) c =
        let c' : C1State F = record c { validated = true; last_valid_ts = some o.now } in
        judge v (c1_baseline c') c'

    unfoldable pub stale_events : Edge → Bool → Bool → ℤ → ℤ → FlapTracker → List AlertEvent
    stale_events edge quiet announced stale_for was_stale_for flaps =
        (elim edge [
          | fire ↦
              if quiet
              then []
              else alert o.now "c1_stale" info false (
                  concat (
                    "C1 has not been able to measure for "
                    ∷ fmt_duration stale_for
                    ∷ " - the server has been busy"
                    ∷ []))
                ∷ []
          | recover ↦
              if quiet
              then []
              else alert o.now "c1_stale" info true (
                  concat (
                    "C1 is measuring again after "
                    ∷ fmt_duration was_stale_for
                    ∷ " unable to get a valid reading"
                    ∷ []))
                ∷ []
          | no_edge ↦ []
        ])
        ++ (if quiet && not announced
            then alert o.now "c1_stale" info false (
                concat (
                  "c1_stale has flapped "
                  ∷ show_ℕ (count_since flaps.flaps o.now flap_mute_window_secs)
                  ∷ " times in "
                  ∷ fmt_duration (pos flap_mute_window_secs)
                  ∷ " - the MEASUREMENT is unreliable, not the server; going quiet on individual fire/recover pairs, the row stays visible and counted"
                  ∷ []))
              ∷ []
            else [])

    unfoldable pub flaps_after : Edge → FlapTracker → FlapTracker
    flaps_after recover f = note_flap f o.now
    flaps_after _ f = f

    unfoldable pub c1_stale_threshold : ℕ
    c1_stale_threshold = max o.probe_interval_secs 1 * max cfg.c1_stale_probe_intervals 1

    unfoldable pub eval_c1_stale : C1State F → C1State F × List AlertEvent
    unfolding stale_events flaps_after c1_stale_threshold
    eval_c1_stale c =
        let seen = unwrap_or c.last_valid_ts o.now in
        let (s, edge) =
          step c.stale o.now (leb (seen + c1_stale_threshold) o.now) c1_stale_fire_hold_secs
            cfg.cooldown_secs in
        let flaps = flaps_after edge c.stale_flaps in
        let quiet = muted flaps o.now in
        (
          record c {
            last_valid_ts = some seen;
            stale = s;
            stale_flaps = record flaps { muted_announced = quiet };
          },
          stale_events edge quiet flaps.muted_announced (sub_ℕ o.now seen) (held_for c.stale o.now)
              flaps,
        )

    unfoldable pub eval_c1 : Eval F
    unfolding on_probe eval_c1_stale
    eval_c1 e =
        let (c, out) = (on_probe o.probe_tok_s ⨟ eval_c1_stale) e.c1 in
        if o.bench_active then (e, []) else (record e { c1 = c }, out)
