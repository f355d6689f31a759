-- ===== src/Tokens.antt =====
-- crates/lss-core/src/tokens.rs: token totals that survive a restart of the server.
pub mod Ledger
pub mod Peaks
use lss.Base.{
  ℕ, String, Option, none, some, Bool, true, false, not, ◌&&◌, ◌||◌, List, [], ◌∷◌, ltb, ◌==◌,
  if◌then◌else◌, length, unwrap_or,
}
use lss.Base.Float.{F64}
use lss.Base.Map.{BTreeMap, get, insert, string_ord}

abbrev pub peak_days : ℕ
peak_days = 60

-- `while day_peaks.len() > PEAK_DAYS { .. remove(&oldest) }`: the oldest key is the first.
unfoldable pub keep_newest : {V : Type 0} → BTreeMap String V → BTreeMap String V
keep_newest [] = []
keep_newest (p ∷ m) =
    let rest = keep_newest m in if ltb peak_days (length (p ∷ m)) then rest else p ∷ m

module _ (F : F64) where
  open F use {Float, ratio, plus, minus, lt, is_finite}

  pub record CounterTotal : Type 0 where
    pub total : Float
    pub last : Option Float

  abbrev pub no_total : CounterTotal
  no_total = record { total = ratio 0 1; last = none }

  -- what a reading adds, by the reading before it
  unfoldable pub added : Option Float → Float → Bool → Float
  added none value reset = ratio 0 1
  added (some last) value reset = if reset || lt value last then value else minus value last

  unfoldable pub is_valid : Float → Bool
  is_valid value = is_finite value && not (lt value (ratio 0 1))

  unfoldable pub observe : CounterTotal → Float → Bool → CounterTotal × Float
  unfolding added is_valid
  observe c value reset =
      let n = added c.last value reset in
      if is_valid value
      then (record { total = plus c.total n; last = some value }, n)
      else (c, ratio 0 1)

  pub record Peak : Type 0 where
    pub tok_s : Float
    pub ts : ℕ

  abbrev pub no_peak : Peak
  no_peak = record { tok_s = ratio 0 1; ts = 0 }

  pub record AllTime : Type 0 where
    pub since : ℕ
    pub generated : CounterTotal
    pub prompt : CounterTotal
    pub cached : CounterTotal
    pub requests : CounterTotal
    pub epoch : ℕ
    pub peak : Peak
    pub day_peaks : BTreeMap String Peak

  abbrev pub no_tokens : AllTime
  no_tokens = record {
    since = 0;
    generated = no_total;
    prompt = no_total;
    cached = no_total;
    requests = no_total;
    epoch = 0;
    peak = no_peak;
    day_peaks = [];
  }

  -- what `observe` reads of the engine's metrics
  pub record ServeMetrics : Type 0 where
    pub generation_tokens_total : Float
    pub prompt_tokens_total : Float
    pub cached_tokens_total : Float
    pub requests_total : Float
    pub gen_throughput : Float

  -- the higher of a peak and a sample
  unfoldable pub raise : Peak → Float → ℕ → Peak
  raise p tok_s ts = if lt p.tok_s tok_s then record { tok_s = tok_s; ts = ts } else p

  unfoldable pub note_peak : AllTime → ℕ → String → Float → AllTime
  unfolding raise keep_newest
  note_peak a ts day tok_s =
      let d = unwrap_or (get a.day_peaks day) no_peak in
      if is_finite tok_s && lt (ratio 0 1) tok_s
      then record a {
        peak = raise a.peak tok_s ts;
        day_peaks = keep_newest (insert a.day_peaks day (raise d tok_s ts));
      }
      else a

  unfoldable pub observe_all : AllTime → ℕ → String → ℕ → ServeMetrics → AllTime
  unfolding observe note_peak
  observe_all a ts day epoch m =
      let reset = not (epoch == 0) && not (a.epoch == 0) && not (epoch == a.epoch) in
      note_peak
        record a {
          since = if a.since == 0 then ts else a.since;
          epoch = if epoch == 0 then a.epoch else epoch;
          generated = (observe a.generated m.generation_tokens_total reset).0;
          prompt = (observe a.prompt m.prompt_tokens_total reset).0;
          cached = (observe a.cached m.cached_tokens_total reset).0;
          requests = (observe a.requests m.requests_total reset).0;
        }
        ts day m.gen_throughput
