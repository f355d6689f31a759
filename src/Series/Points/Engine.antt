-- ===== src/Series/Points/Engine.antt =====
-- series.rs, sample_points: what the engine's metrics contribute, and the whole.
use lss.Base.{
  ◌-◌, String, Option, none, some, Bool, not, ◌&&◌, List, [], ◌∷◌, ◌++◌, ltb, leb, if◌then◌else◌,
  any, str_eq,
}
use lss.Base.Float.{F64}
use lss.Gpu.{GpuSample}
use lss.Model.{Sample}
use lss.Prom.Extract.{ServeMetrics, comparable, computed_prompt_tokens_since, kv_usage}
use lss.Series.Points.{Points, put, put_some, bit, count_of, other_points}

-- the closure `reported`
unfoldable pub reported : List String → String → Bool
reported not_reported key = not (any (λ k. str_eq k key) not_reported)

module _ (F : F64) where
  open F use {Float, ratio, plus, minus, times, over, lt, le}

  abbrev pub when : Bool → Points F → Points F
  when b points = if b then points else []

  abbrev pub zero_f : Float
  zero_f = ratio 0 1

  -- the gauges of one poll
  unfoldable pub gauge_points : Sample F → ServeMetrics F → Points F
  unfolding put reported
  gauge_points cur m =
      let r = reported cur.not_reported in
      when (r "decode_tok_s") (put F "decode_tok_s" m.gen_throughput)
      ++ (when (r "running") (
            put F "running" m.running
            ++ (put F "running_public" m.running_public
                ++ put F "running_trusted" m.running_trusted))
          ++ (when (r "queued") (
                put F "queue" m.queue
                ++ (put F "queue_public" m.queue_public
                    ++ (put F "queue_trusted" m.queue_trusted
                        ++ put F "busy_wait" (bit F (lt zero_f m.queue)))))
              ++ (when (r "kv_usage") (put F "kv_usage" (kv_usage F m))
                  ++ (when (r "cache_hit") (put F "cache_hit_rate" m.cache_hit_rate)
                      ++ (when (r "spec") (
                            put F "spec_accept_length" m.spec_accept_length
                            ++ put F "spec_accept_rate" m.spec_accept_rate)
                          ++ (when (ltb 0 cur.slots && r "running" && r "slots")
                                (put F "busy_slots" (bit F (le (count_of F cur.slots) m.running)))
                              ++ put F "kv_retracted" (bit F (lt zero_f m.retracted))))))))

  -- the closures `rate` and `grown`
  unfoldable pub rate : Float → Float → Float → Option Float
  rate dt now before = if le before now then some (over (minus now before) dt) else none

  unfoldable pub grown_by : Bool → Float → Float → Option Float
  grown_by same now before = if same && le before now then some (minus now before) else none

  -- the tokens and the requests of this step, and their rates
  unfoldable pub rate_points : Float → Sample F → ServeMetrics F → ServeMetrics F → Points F
  unfolding put_some rate reported
  rate_points dt cur m pm =
      let r = reported cur.not_reported in
      when (r "tokens") (
        put_some F "prompt_tok_s" (rate dt m.prompt_tokens_total pm.prompt_tokens_total)
        ++ put_some F "gen_tok_s" (rate dt m.generation_tokens_total pm.generation_tokens_total))
      ++ when (r "requests") (
          put_some F "req_per_min" (elim (rate dt m.requests_total pm.requests_total) [
            | none ↦ none
            | some v ↦ some (times v (ratio 60 1))
          ]))

  unfoldable pub growth_points : Sample F → ServeMetrics F → ServeMetrics F → Points F
  unfolding put_some grown_by reported
  growth_points cur m pm =
      let r = reported cur.not_reported in
      let grown = grown_by (comparable F m pm) in
      when (r "tokens") (
        put_some F "tok_gen" (grown m.generation_tokens_total pm.generation_tokens_total)
        ++ put_some F "tok_prompt" (grown m.prompt_tokens_total pm.prompt_tokens_total))
      ++ when (r "cache_hit")
          (put_some F "tok_cached" (grown m.cached_tokens_total pm.cached_tokens_total))

  -- the prompt tokens that the GPUs read
  unfoldable pub read_points : Float → Float → Points F
  unfolding put
  read_points dt read =
      put F "tok_prefill" read ++ when (lt zero_f read) (put F "prefill_tok_s" (over read dt))

  -- `if let (Some(e2e), Some(prefill), true)`
  unfoldable pub time_points : Option Float → Option Float → Points F
  unfolding put
  time_points (some e2e) (some prefill) = put F "sum_e2e_s" e2e ++ put F "sum_prefill_s" prefill
  time_points (some e2e) none = []
  time_points none prefill = []

  unfoldable pub late_points : Float → Sample F → ServeMetrics F → ServeMetrics F → Points F
  unfolding put_some grown_by reported read_points time_points
  late_points dt cur m pm =
      let r = reported cur.not_reported in
      let grown = grown_by (comparable F m pm) in
      when (r "prefill_tok_s") (read_points dt (computed_prompt_tokens_since F m pm))
      ++ (put_some F "tok_evicted" (grown m.evicted_tokens_total pm.evicted_tokens_total)
          ++ (when (r "requests")
                (put_some F "sum_requests" (grown m.requests_total pm.requests_total))
              ++ when (r "e2e") (
                  time_points (grown m.e2e_sum pm.e2e_sum)
                    (grown m.prefill_forward_sum pm.prefill_forward_sum))))

  -- the closure `watts`: the sum of the powers that are known, none where none is
  unfoldable pub watts : Option Float → List (GpuSample F) → Option Float
  watts total [] = total
  watts total (g ∷ gpus) =
      watts
        (elim g.power_w [
          | none ↦ total
          | some p ↦ elim total [ none ↦ some p | some t ↦ some (plus t p) ]
        ])
        gpus

  unfoldable pub energy_points : Float → ServeMetrics F → Option Float → Option Float → Points F
  unfolding put
  energy_points dt m (some a) (some b) =
      let joules = times (over (plus a b) (ratio 2 1)) dt in
      put F "sum_energy_j" joules
      ++ when (le (ratio 1 1) m.running) (put F "sum_energy_serving_j" joules)
  energy_points dt m (some a) none = []
  energy_points dt m none b = []

  -- what the step from the sample before gives: neither a gap nor a step back in time is a rate
  unfoldable pub step_points : Sample F → ServeMetrics F → Sample F → ServeMetrics F → Points F
  unfolding rate_points growth_points late_points energy_points watts
  step_points p pm cur m =
      let secs = cur.ts - p.ts in
      let dt = ratio secs 1 in
      when (ltb p.ts cur.ts && leb secs 60) (
        rate_points dt cur m pm
        ++ (growth_points cur m pm
            ++ (late_points dt cur m pm
                ++ when (leb secs 30)
                    (energy_points dt m (watts none p.gpus) (watts none cur.gpus)))))

  unfoldable pub from_prev : Option (Sample F) → Sample F → ServeMetrics F → Points F
  unfolding step_points
  from_prev none cur m = []
  from_prev (some p) cur m = elim p.metrics [ none ↦ [] | some pm ↦ step_points p pm cur m ]

  unfoldable pub sample_points : Option (Sample F) → Sample F → Points F
  unfolding put gauge_points from_prev
  sample_points prev cur =
      put F "serve_up" (bit F cur.serve_up)
      ++ (elim cur.metrics [ none ↦ [] | some m ↦ gauge_points cur m ++ from_prev prev cur m ]
          ++ other_points F cur)
