-- ===== src/Prom/Extract.antt =====
-- prom.rs: Extractor and ServeMetrics.
use lss.Base.{
  ℕ, String, Bool, not, ◌&&◌, ◌||◌, List, [], ◌∷◌, ◌==◌, if◌then◌else◌, str_eq, filter, any,
  is_some_and, is_none_or, concat,
}
use lss.Base.Float.{F64}
use lss.Prom.{Series, label}

abbrev pub counters_version : ℕ
counters_version = 2

module _ (F : F64) where
  open F use {Float, ratio, plus, minus, over, lt, le, fmax, fmin, is_finite}

  pub record ServeMetrics : Type 0 where
    pub running : Float
    pub queue : Float
    pub running_public : Float
    pub running_trusted : Float
    pub queue_public : Float
    pub queue_trusted : Float
    pub gen_throughput : Float
    pub token_usage : Float
    pub full_token_usage : Float
    pub kv_used_tokens : Float
    pub max_total_tokens : Float
    pub cache_hit_rate : Float
    pub spec_accept_length : Float
    pub spec_accept_rate : Float
    pub retracted : Float
    pub prompt_tokens_total : Float
    pub generation_tokens_total : Float
    pub requests_total : Float
    pub ttft_sum : Float
    pub ttft_count : Float
    pub itl_sum : Float
    pub itl_count : Float
    pub queue_time_sum : Float
    pub queue_time_count : Float
    pub cached_tokens_total : Float
    pub context_len : Float
    pub prefill_compute_tokens_total : Float
    pub evicted_tokens_total : Float
    pub spec_verify_calls_total : Float
    pub e2e_sum : Float
    pub prefill_forward_sum : Float
    pub decode_sum_seq_lens : Float
    pub prefill_inflight_reqs : Float
    pub startup_time_s : Float
    pub counters_v : ℕ

  unfoldable pub comparable : ServeMetrics → ServeMetrics → Bool
  comparable m before = m.counters_v == before.counters_v

  -- `grown`: nothing where the counter went backwards
  unfoldable pub grown : Float → Float → Float
  grown now was = if le was now then minus now was else ratio 0 1

  unfoldable pub computed_prompt_tokens_since : ServeMetrics → ServeMetrics → Float
  unfolding comparable grown
  computed_prompt_tokens_since m before =
      if not (comparable m before)
      then ratio 0 1
      else if lt (ratio 0 1) m.prefill_compute_tokens_total
          || lt (ratio 0 1) before.prefill_compute_tokens_total
      then grown m.prefill_compute_tokens_total before.prefill_compute_tokens_total
      else if lt (ratio 0 1) m.cached_tokens_total || lt (ratio 0 1) before.cached_tokens_total
      then fmax
          (minus (grown m.prompt_tokens_total before.prompt_tokens_total)
            (grown m.cached_tokens_total before.cached_tokens_total))
          (ratio 0 1)
      else ratio 0 1

  unfoldable pub kv_usage : ServeMetrics → Float
  kv_usage m =
      let reported = fmax m.token_usage m.full_token_usage in
      let share = over m.kv_used_tokens m.max_total_tokens in
      if lt (ratio 0 1) reported || le m.max_total_tokens (ratio 0 1)
      then reported
      else if lt share (ratio 0 1)
      then ratio 0 1
      else if lt (ratio 1 1) share
      then ratio 1 1
      else share

  abbrev has_label : Series F → String → String → Bool
  has_label s key value = is_some_and (label F s key) (λ v. str_eq v value)

  -- `Extractor::matching`, with the prefix "sglang:"
  unfoldable pub matching : List (Series F) → String → List (Series F)
  matching series name =
      let full = concat ("sglang:" ∷ name ∷ []) in
      filter
        (λ (s : Series F).
          str_eq s.name full
          && is_none_or (label F s "tp_rank") (λ r. str_eq r "0")
          && is_finite s.value)
        series

  -- `sum::<f64>()` adds from the left, from zero
  unfoldable pub sum_from : Float → List (Series F) → Float
  sum_from acc [] = acc
  sum_from acc (s ∷ series) = sum_from (plus acc s.value) series

  -- an explicit total where there is one, else the sum of the label sets
  unfoldable pub total_of : List (Series F) → Float
  unfolding sum_from
  total_of series =
      let has_explicit_total = any (λ (s : Series F). has_label s "priority" "") series in
      sum_from (ratio 0 1)
        (filter (λ (s : Series F). not has_explicit_total || has_label s "priority" "") series)

  unfoldable pub total : List (Series F) → String → Float
  unfolding matching total_of
  total series name = total_of (matching series name)

  unfoldable pub labelled : List (Series F) → String → String → String → Float
  unfolding matching total_of
  labelled series name key value =
      total_of (filter (λ (s : Series F). has_label s key value) (matching series name))

  unfoldable pub lane : List (Series F) → String → String → Float
  unfolding matching sum_from
  lane series name priority =
      sum_from (ratio 0 1)
        (filter (λ (s : Series F). has_label s "priority" priority) (matching series name))

  unfoldable pub extract_serve_metrics_from : List (Series F) → String → String → ServeMetrics
  unfolding total lane labelled
  extract_serve_metrics_from x public_priority trusted_priority = record {
    running = total x "num_running_reqs";
    queue = total x "num_queue_reqs";
    running_public = lane x "num_running_reqs" public_priority;
    running_trusted = lane x "num_running_reqs" trusted_priority;
    queue_public = lane x "num_queue_reqs" public_priority;
    queue_trusted = lane x "num_queue_reqs" trusted_priority;
    gen_throughput = total x "gen_throughput";
    token_usage = total x "token_usage";
    full_token_usage = total x "full_token_usage";
    kv_used_tokens = total x "kv_used_tokens";
    max_total_tokens = total x "max_total_num_tokens";
    cache_hit_rate = total x "cache_hit_rate";
    spec_accept_length = total x "spec_accept_length";
    spec_accept_rate = total x "spec_accept_rate";
    retracted = total x "num_retracted_reqs";
    prompt_tokens_total = total x "prompt_tokens_total";
    generation_tokens_total = total x "generation_tokens_total";
    requests_total = total x "num_requests_total";
    ttft_sum = total x "time_to_first_token_seconds_sum";
    ttft_count = total x "time_to_first_token_seconds_count";
    itl_sum = total x "inter_token_latency_seconds_sum";
    itl_count = total x "inter_token_latency_seconds_count";
    queue_time_sum = total x "queue_time_seconds_sum";
    queue_time_count = total x "queue_time_seconds_count";
    cached_tokens_total = total x "cached_tokens_total";
    context_len = total x "context_len";
    prefill_compute_tokens_total = labelled x "realtime_tokens_total" "mode" "prefill_compute";
    evicted_tokens_total = total x "evicted_tokens_total";
    spec_verify_calls_total = total x "spec_verify_calls_total";
    e2e_sum = total x "e2e_request_latency_seconds_sum";
    prefill_forward_sum = labelled x "per_stage_req_latency_seconds_sum" "stage" "prefill_forward";
    decode_sum_seq_lens = total x "decode_sum_seq_lens";
    prefill_inflight_reqs = total x "num_prefill_inflight_queue_reqs";
    startup_time_s = total x "startup_time_seconds";
    counters_v = counters_version;
  }
