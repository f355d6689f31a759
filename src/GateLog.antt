-- ===== src/GateLog.antt =====
-- crates/lss-core/src/gatelog.rs: what the gateway's audit log says of its requests.
pub mod Experience
pub mod Lane
pub mod Ingest
pub mod Counts
pub mod Merged
pub mod Resume
pub mod Room
use lss.Base.{
  ℕ, ◌+◌, ◌≡◌, String, Option, none, some, Bool, List, [], ◌∷◌, map, ltb, ◌==◌, if◌then◌else◌,
}
use lss.Base.Float.{F64}

module _ (F : F64) where
  open F use {Float, ratio, plus, over, lt, le, fmax, infinity}

  pub record AuditRecord : Type 0 where
    pub caller : String
    pub key : Option String
    pub method : String
    pub path : String
    pub model : Option String
    pub verdict : String
    pub status : ℕ
    pub ip : Option String
    pub estimated_tokens : Option Float
    pub est_tokens : Option Float
    pub completion_tokens : Option Float
    pub completion_exact : Option Bool
    pub dur_ms : Option Float
    pub ttfb_ms : Option Float
    pub bench : Option Bool

  abbrev pub size_buckets : List (String × Float)
  size_buckets =
      ("<1k", ratio 1000 1)
      ∷ ("1-8k", ratio 8000 1)
      ∷ ("8-32k", ratio 32000 1)
      ∷ ("32-128k", ratio 128000 1)
      ∷ ("128k+", infinity)
      ∷ []

  -- `iter().find(..).map_or("128k+", ..)`
  unfoldable pub bucket_in : List (String × Float) → Float → String
  bucket_in [] prompt_tokens = "128k+"
  bucket_in ((name, upper) ∷ buckets) prompt_tokens =
      let rest = bucket_in buckets prompt_tokens in if lt prompt_tokens upper then name else rest

  unfoldable pub size_bucket : Float → String
  unfolding bucket_in
  size_bucket prompt_tokens = bucket_in size_buckets prompt_tokens

  abbrev pub time_edges_ms : List Float
  time_edges_ms =
      map (λ ms. ratio ms 1) (1000 ∷ 2000 ∷ 3000 ∷ 5000 ∷ 10000 ∷ 20000 ∷ 30000 ∷ 60000 ∷ [])

  pub record TimeAgg : Type 0 where
    pub n : ℕ
    pub sum_ms : Float
    pub max_ms : Float
    -- one count for each edge
    pub counts : List ℕ
    pub le_n : ℕ

  abbrev pub no_times : TimeAgg
  no_times = record {
    n = 0;
    sum_ms = ratio 0 1;
    max_ms = ratio 0 1;
    counts = 0 ∷ 0 ∷ 0 ∷ 0 ∷ 0 ∷ 0 ∷ 0 ∷ 0 ∷ [];
    le_n = 0;
  }

  -- `if let Some(i) = edges.position(|edge| ms <= edge) { self.le[i] += 1 }`
  unfoldable pub count_at : List Float → List ℕ → Float → List ℕ
  count_at [] counts ms = counts
  count_at (edge ∷ edges) [] ms = []
  count_at (edge ∷ edges) (c ∷ counts) ms =
      let later = c ∷ count_at edges counts ms in if le ms edge then (c + 1) ∷ counts else later

  unfoldable pub add_time : TimeAgg → Float → TimeAgg
  unfolding count_at
  add_time t ms = record {
    n = t.n + 1;
    sum_ms = plus t.sum_ms ms;
    max_ms = fmax t.max_ms ms;
    counts = count_at time_edges_ms t.counts ms;
    le_n = t.le_n + 1;
  }

  -- `mine.iter_mut().zip(theirs)`, each `*mine += theirs`
  unfoldable pub add_counts : List ℕ → List ℕ → List ℕ
  add_counts [] theirs = []
  add_counts (m ∷ mine) [] = m ∷ mine
  add_counts (m ∷ mine) (t ∷ theirs) = (m + t) ∷ add_counts mine theirs

  unfoldable pub merge_times : TimeAgg → TimeAgg → TimeAgg
  unfolding add_counts
  merge_times t o = record {
    n = t.n + o.n;
    sum_ms = plus t.sum_ms o.sum_ms;
    max_ms = fmax t.max_ms o.max_ms;
    counts = add_counts t.counts o.counts;
    le_n = t.le_n + o.le_n;
  }

  -- the counts of the edges that are at most `ms`
  unfoldable pub sum_within : List Float → List ℕ → Float → ℕ
  sum_within [] counts ms = 0
  sum_within (edge ∷ edges) [] ms = 0
  sum_within (edge ∷ edges) (c ∷ counts) ms =
      let rest = sum_within edges counts ms in if le edge ms then c + rest else rest

  unfoldable pub within : TimeAgg → Float → ℕ × ℕ
  unfolding sum_within
  within t ms = (t.le_n, sum_within time_edges_ms t.counts ms)

  unfoldable pub avg_ms : TimeAgg → Option Float
  avg_ms t = if ltb 0 t.n then some (over t.sum_ms (ratio t.n 1)) else none

  pub record EstTokens : Type 0 where
    pub n : ℕ
    pub sum : Float
    pub highest : Float

  abbrev pub no_est : EstTokens
  no_est = record { n = 0; sum = ratio 0 1; highest = ratio 0 1 }

  unfoldable pub est_is_empty : EstTokens → Bool
  est_is_empty e = e.n == 0

  unfoldable pub add_est : EstTokens → Float → EstTokens
  add_est e v = record { n = e.n + 1; sum = plus e.sum v; highest = fmax e.highest v }

  unfoldable pub merge_est : EstTokens → EstTokens → EstTokens
  merge_est e o = record {
    n = e.n + o.n;
    sum = plus e.sum o.sum;
    highest = fmax e.highest o.highest;
  }

  unfoldable pub avg_est : EstTokens → Option Float
  avg_est e = if ltb 0 e.n then some (over e.sum (ratio e.n 1)) else none
