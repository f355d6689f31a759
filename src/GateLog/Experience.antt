-- ===== src/GateLog/Experience.antt =====
-- gatelog.rs: UserExp, what one user experienced, in two small histograms.
pub mod Balance
use lss.Base.{
  ℕ, zero, suc, ◌+◌, String, Option, none, some, Bool, true, false, ◌&&◌, List, [], ◌∷◌, ◌++◌, map,
  ltb, ◌==◌, if◌then◌else◌, length, not,
}
use lss.Base.Float.{F64}

-- `counts.resize(n, 0)` of a list that may be longer
unfoldable pub resize : ℕ → List ℕ → List ℕ
resize zero counts = []
resize (suc n) [] = 0 ∷ resize n []
resize (suc n) (c ∷ counts) = c ∷ resize n counts

-- `counts.iter().sum()`
unfoldable pub total : List ℕ → ℕ
total [] = 0
total (c ∷ counts) = c + total counts

module _ (F : F64) where
  open F use {Float, ratio, plus, minus, times, over, lt, le, fmin, fmax}

  abbrev pub exp_ttfb_ms : List Float
  exp_ttfb_ms =
      map (λ ms. ratio ms 1)
        (50 ∷ 100 ∷ 200 ∷ 400 ∷ 800 ∷ 1500 ∷ 3000 ∷ 6000 ∷ 12000 ∷ 30000 ∷ 60000 ∷ [])

  abbrev pub exp_tok_s : List Float
  exp_tok_s = map (λ v. ratio v 1) (5 ∷ 10 ∷ 20 ∷ 30 ∷ 40 ∷ 60 ∷ 80 ∷ 100 ∷ 150 ∷ 200 ∷ 300 ∷ [])

  pub record UserExp : Type 0 where
    pub n : ℕ
    pub ttfb : List ℕ
    pub speed_n : ℕ
    pub tokens : Float
    pub write_secs : Float
    pub speed : List ℕ

  abbrev pub no_exp : UserExp
  no_exp = record {
    n = 0;
    ttfb = [];
    speed_n = 0;
    tokens = ratio 0 1;
    write_secs = ratio 0 1;
    speed = [];
  }

  -- one more at the first edge that is not below the value, else in the open last bucket
  unfoldable pub bump : List Float → List ℕ → Float → List ℕ
  bump edges [] v = []
  bump [] (c ∷ counts) v = (c + 1) ∷ counts
  bump (edge ∷ edges) (c ∷ counts) v =
      let later = c ∷ bump edges counts v in if le v edge then (c + 1) ∷ counts else later

  unfoldable pub bucket_add : List ℕ → List Float → Float → List ℕ
  unfolding bump resize
  bucket_add counts edges v =
      bump edges
        (if not (length counts == length edges + 1)
          then resize (length edges + 1) counts
          else counts)
        v

  -- `x.clamp(0.0, 1.0)`
  unfoldable pub clamp01 : Float → Float
  clamp01 x = if lt x (ratio 0 1) then ratio 0 1 else if lt (ratio 1 1) x then ratio 1 1 else x

  -- the loop of `bucket_quantile`, with the edge below the bucket; past the last count the last
  -- edge is the answer
  unfoldable pub quantile_from :
      List ℕ → List Float → Float → Float → Float → Option Float → Option Float
  unfolding clamp01
  quantile_from [] edges lower rank seen last = last
  quantile_from (n ∷ counts) [] lower rank seen last =
      let c = ratio n 1 in
      let rest = quantile_from counts [] lower rank (plus seen c) last in
      if lt (ratio 0 1) c && le rank (plus seen c) then some lower else rest
  quantile_from (n ∷ counts) (upper ∷ edges) lower rank seen last =
      let c = ratio n 1 in
      let rest = quantile_from counts edges upper rank (plus seen c) last in
      if lt (ratio 0 1) c && le rank (plus seen c)
      then some (plus lower (times (minus upper lower) (clamp01 (over (minus rank seen) c))))
      else rest

  unfoldable pub last_of : List Float → Option Float
  last_of [] = none
  last_of (x ∷ []) = some x
  last_of (x ∷ y ∷ xs) = last_of (y ∷ xs)

  unfoldable pub bucket_quantile : List ℕ → List Float → Float → Option Float
  unfolding total quantile_from last_of clamp01
  bucket_quantile counts edges q =
      if total counts == 0
      then none
      else quantile_from counts edges (ratio 0 1) (times (clamp01 q) (ratio (total counts) 1))
          (ratio 0 1) (last_of edges)

  -- the writing phase, where the request was long enough to have a speed
  unfoldable pub add_speed : UserExp → Float → Option Float → Option Float → UserExp
  unfolding bucket_add
  add_speed e ttfb_ms (some dur) (some tokens) =
      let write_ms = minus dur ttfb_ms in
      let write_s = over write_ms (ratio 1000 1) in
      if le (ratio 16 1) tokens && le (ratio 200 1) write_ms
      then record e {
        speed_n = e.speed_n + 1;
        tokens = plus e.tokens tokens;
        write_secs = plus e.write_secs write_s;
        speed = bucket_add e.speed exp_tok_s (over tokens write_s);
      }
      else e
  add_speed e ttfb_ms (some dur) none = e
  add_speed e ttfb_ms none tokens = e

  unfoldable pub add_exp : UserExp → Float → Option Float → Option Float → UserExp
  unfolding add_speed bucket_add
  add_exp e ttfb_ms dur_ms completion_tokens =
      add_speed record e { n = e.n + 1; ttfb = bucket_add e.ttfb exp_ttfb_ms ttfb_ms } ttfb_ms
        dur_ms completion_tokens

  -- `mine` is grown to the length of `theirs`, and each count is added
  unfoldable pub grow_add : List ℕ → List ℕ → List ℕ
  grow_add mine [] = mine
  grow_add [] (t ∷ theirs) = (0 + t) ∷ grow_add [] theirs
  grow_add (m ∷ mine) (t ∷ theirs) = (m + t) ∷ grow_add mine theirs

  unfoldable pub merge_exp : UserExp → UserExp → UserExp
  unfolding grow_add
  merge_exp e o = record {
    n = e.n + o.n;
    ttfb = grow_add e.ttfb o.ttfb;
    speed_n = e.speed_n + o.speed_n;
    tokens = plus e.tokens o.tokens;
    write_secs = plus e.write_secs o.write_secs;
    speed = grow_add e.speed o.speed;
  }

  unfoldable pub ttfb_quantile_ms : UserExp → Float → Option Float
  unfolding bucket_quantile
  ttfb_quantile_ms e q = bucket_quantile e.ttfb exp_ttfb_ms q

  unfoldable pub speed_quantile : UserExp → Float → Option Float
  unfolding bucket_quantile
  speed_quantile e q = bucket_quantile e.speed exp_tok_s q

  unfoldable pub speed_avg : UserExp → Option Float
  speed_avg e = if lt (ratio 0 1) e.write_secs then some (over e.tokens e.write_secs) else none
