-- ===== src/Rules/Eval/Gpus.antt =====
-- rules.rs: `eval_gpus`, the GPUs that are missing or hot, and the daily digest of the excluded.
use lss.Base.{
  ℕ, ◌+◌, ◌-◌, String, Option, none, some, Bool, false, ◌||◌, List, [], ◌∷◌, ◌++◌, ltb, leb, ◌==◌,
  if◌then◌else◌, unwrap_or, is_some_and, map_or, any, is_empty, length, min, max, pos, concat, join,
  show_ℕ,
}
use lss.Base.Float.{F64}
use lss.Base.Map.{BTreeMap, get, insert, nat_ord}
use lss.Config.{RulesConfig}
use lss.Gpu.{throttle_thermal_mask, has_bits, throttle_flags}
use lss.TimeUtil.{fmt_duration}
use lss.Units.{temp}
use lss.Rules.Sustained.{idle, step}
use lss.Rules.Types.{info, warn, hardware, GpuObs, Observation, Host, alert, push_edge}
use lss.Rules.State.{DigestGpu, Digest, Engine, Eval, ◌⨟◌}

abbrev pub digest_period_secs : ℕ
digest_period_secs = 86400

module _ (F : F64) (host : Host) (cfg : RulesConfig F) (o : Observation F) where
  open F use {Float, ratio, le, fmax}

  -- the number of GPUs that the reading shows, none if it failed
  unfoldable pub gpu_count : ℕ
  gpu_count = map_or o.gpus 0 length

  unfoldable pub check_missing : Eval F
  unfolding gpu_count
  check_missing e =
      let seen = max e.gpu_count_seen gpu_count in
      let (s, edge) =
        step e.gpu_missing o.now (ltb gpu_count seen) cfg.gpu_missing_secs cfg.cooldown_secs in
      (
        record e { gpu_count_seen = seen; gpu_missing = s },
        push_edge edge o.now "gpu_missing" hardware
            (concat (
              "nvidia-smi reports "
              ∷ show_ℕ gpu_count
              ∷ " GPU(s), expected "
              ∷ show_ℕ seen
              ∷ " - a GPU may have fallen off the bus"
              ∷ []))
            (concat ("all " ∷ show_ℕ gpu_count ∷ " GPUs visible again" ∷ [])),
      )

  unfoldable pub is_hot : GpuObs F → Bool
  is_hot g = is_some_and g.temp_c (λ t. le cfg.thermal_temp_c t)

  unfoldable pub is_throttled : GpuObs F → Bool
  is_throttled g = has_bits g.throttle_mask throttle_thermal_mask

  unfoldable pub is_excluded : GpuObs F → Bool
  is_excluded g = any (λ i. i == g.index) cfg.thermal_exclude

  -- an excluded GPU adds the step's seconds to its digest line
  unfoldable pub add_digest : ℕ → GpuObs F → Eval F
  add_digest dt g e =
      let d : DigestGpu F =
        unwrap_or (get e.digest.gpus g.index)
          (record { max_temp_c = ratio 0 1; hot_secs = 0; throttled_secs = 0 }) in
      let d' : DigestGpu F = record {
        max_temp_c = fmax d.max_temp_c (unwrap_or g.temp_c (ratio 0 1));
        hot_secs = d.hot_secs + (if is_hot g then dt else 0);
        throttled_secs = d.throttled_secs + (if is_throttled g then dt else 0);
      } in
      (record e { digest = record e.digest { gpus = insert e.digest.gpus g.index d' } }, [])

  unfoldable pub check_thermal : GpuObs F → Eval F
  check_thermal g e =
      let t = unwrap_or g.temp_c (ratio 0 1) in
      let (s, edge) =
        step (unwrap_or (get e.thermal_temp g.index) idle) o.now (is_hot g) cfg.thermal_secs
          cfg.cooldown_secs in
      let (u, slow) =
        step (unwrap_or (get e.thermal_throttle g.index) idle) o.now (is_throttled g)
          cfg.thermal_secs cfg.cooldown_secs in
      (
        record e {
          thermal_temp = insert e.thermal_temp g.index s;
          thermal_throttle = insert e.thermal_throttle g.index u;
        },
        push_edge edge o.now (concat ("thermal_temp:gpu" ∷ show_ℕ g.index ∷ [])) warn
              (concat (
                "GPU"
                ∷ show_ℕ g.index
                ∷ " at "
                ∷ temp F host.units t
                ∷ ", >= "
                ∷ temp F host.units cfg.thermal_temp_c
                ∷ " for "
                ∷ fmt_duration (pos cfg.thermal_secs)
                ∷ []))
              (concat ("GPU" ∷ show_ℕ g.index ∷ " thermal recovered: " ∷ temp F host.units t ∷ []))
            ++ push_edge slow o.now (concat ("thermal_throttle:gpu" ∷ show_ℕ g.index ∷ [])) warn
                (concat (
                  "GPU"
                  ∷ show_ℕ g.index
                  ∷ " thermal slowdown active ("
                  ∷ join "+" (throttle_flags g.throttle_mask)
                  ∷ ") for "
                  ∷ fmt_duration (pos cfg.thermal_secs)
                  ∷ ", "
                  ∷ temp F host.units t
                  ∷ []))
                (concat ("GPU" ∷ show_ℕ g.index ∷ " thermal slowdown cleared" ∷ [])),
      )

  unfoldable pub on_gpu : ℕ → GpuObs F → Eval F
  unfolding is_excluded add_digest check_thermal
  on_gpu dt g e = if is_excluded g then add_digest dt g e else check_thermal g e

  unfoldable pub on_gpus : ℕ → List (GpuObs F) → Eval F
  unfolding on_gpu
  on_gpus dt [] e = (e, [])
  on_gpus dt (g ∷ gs) e =
      let (e', out) = on_gpu dt g e in let (e'', more) = on_gpus dt gs e' in (e'', out ++ more)

  unfoldable pub digest_lines : BTreeMap ℕ (DigestGpu F) → List String
  digest_lines [] = []
  digest_lines ((i, d) ∷ m) =
      let rest = digest_lines m in
      let line = concat (
        "GPU"
        ∷ show_ℕ i
        ∷ " max "
        ∷ temp F host.units d.max_temp_c
        ∷ ", "
        ∷ fmt_duration (pos d.hot_secs)
        ∷ " at >= "
        ∷ temp F host.units cfg.thermal_temp_c
        ∷ ", "
        ∷ fmt_duration (pos d.throttled_secs)
        ∷ " thermally throttled"
        ∷ []) in
      if ltb 0 d.hot_secs || ltb 0 d.throttled_secs then line ∷ rest else rest

  unfoldable pub close_digest : Eval F
  unfolding digest_lines
  close_digest e =
      if is_some_and e.digest.window_start (λ s. leb (s + digest_period_secs) o.now)
      then (
        record e { digest = record e.digest { gpus = []; window_start = some o.now } },
        if is_empty (digest_lines e.digest.gpus)
            then []
            else alert o.now "thermal_digest" info false (
                concat (
                  "daily thermal digest (excluded from alerts): "
                  ∷ join "; " (digest_lines e.digest.gpus)
                  ∷ []))
              ∷ [],
      )
      else (e, [])

  -- the seconds since the last evaluation, between 0 and 60
  unfoldable pub elapsed : Digest F → ℕ
  elapsed d = map_or d.last_eval 0 (λ t. min (o.now - t) 60)

  -- the clock of the digest moves on, and a first reading opens its window
  unfoldable pub start_reading : Engine F → Engine F
  start_reading e = record e {
    digest = record e.digest {
      last_eval = some o.now;
      window_start = some (unwrap_or e.digest.window_start o.now);
    };
  }

  unfoldable pub on_reading : Option (List (GpuObs F)) → Eval F
  unfolding on_gpus close_digest elapsed start_reading
  on_reading none e = (record e { digest = record e.digest { last_eval = some o.now } }, [])
  on_reading (some gs) e = (on_gpus (elapsed e.digest) gs ⨟ close_digest) (start_reading e)

  unfoldable pub eval_gpus : Eval F
  unfolding check_missing on_reading
  eval_gpus = check_missing ⨟ on_reading o.gpus
