-- ===== src/Series/Gateway.antt =====
-- series.rs: GatewayRow, CodeCoverage and build_gateway, the tables of the gateway's log.
pub mod Coverage
pub mod Lanes
use lss.Base.{
  ℕ, ◌+◌, ◌-◌, ◌/◌, max, String, Option, none, some, Bool, true, false, not, ◌&&◌, ◌||◌, List, [],
  ◌∷◌, ◌++◌, ltb, leb, ◌==◌, if◌then◌else◌, is_some_and, unwrap_or, str_eq, filter, map,
}
use lss.Base.Float.{F64}
use lss.Base.Map.{BTreeMap, get, insert, nat_ord, string_ord}
use lss.Base.Map.Sorted.{sum_where}
use lss.Base.Order.{str_le, nat_lawful}
use lss.Base.Sort.{sort_by, take, sum_of}
use lss.GateLog.{EstTokens, no_est, avg_est}
use lss.GateLog.Lane.{LaneLog, LogDelta}

-- `codes.values().sum()`
unfoldable pub total_codes : BTreeMap ℕ ℕ → ℕ
total_codes codes = sum_where (λ c. true) codes

-- `if let Some(n) = m.get_mut(k) { *n = n.saturating_sub(1) }`
unfoldable pub decrease : {K : Type 0} ⦃o : lss.Base.Map.Ord K⦄ → BTreeMap K ℕ → K → BTreeMap K ℕ
decrease m k = elim (get m k) [ none ↦ m | some n ↦ insert m k (n - 1) ]

abbrev pub no_key : String
no_key = "(no key)"

pub record CodeCoverage : Type 0 where
  pub since : Option ℕ
  pub gap : Bool

abbrev pub no_coverage : CodeCoverage
no_coverage = record { since = none; gap = false }

unfoldable pub coverage_label : CodeCoverage → String
coverage_label c =
    if not c.gap then "full" else elim c.since [ some ts ↦ "partial" | none ↦ "none" ]

unfoldable pub coverage_since : CodeCoverage → Option ℕ
coverage_since c = if c.gap then c.since else none

unfoldable pub covers : CodeCoverage → ℕ → Bool
covers c ts = not c.gap || is_some_and c.since (λ s. leb s ts)

module _ (F : F64) where
  open F use {Float, round}

  -- the requests of a lane that have a status by their key
  unfoldable pub coded_of : LaneLog F → ℕ
  unfolding total_codes
  coded_of l = sum_of (λ (p : String × BTreeMap ℕ ℕ). total_codes p.1) l.by_key_status

  -- the body of the loop of `CodeCoverage::observe`, over the two lanes
  unfoldable pub observe_lane : ℕ → CodeCoverage → LaneLog F → CodeCoverage
  observe_lane ts c l =
      if l.requests == 0
      then c
      else if leb l.requests (coded_of l)
      then record c { since = some (unwrap_or c.since ts) }
      else record { since = none; gap = true }

  unfoldable pub observe_codes : CodeCoverage → ℕ → LogDelta F → CodeCoverage
  unfolding observe_lane
  observe_codes c ts log = observe_lane ts (observe_lane ts c log.public_lane) log.trusted_lane

  pub record GatewayRow : Type 0 where
    pub name : String
    pub lane : String
    pub requests : ℕ
    pub coded_requests : ℕ
    pub c2xx : Option ℕ
    pub c4xx : Option ℕ
    pub c5xx : Option ℕ
    pub s413 : Option ℕ
    pub s429 : Option ℕ
    pub s499 : Option ℕ
    pub s503 : Option ℕ
    pub est_tokens_n : ℕ
    pub est_tokens_avg : Option Float
    pub est_tokens_max : Option Float

  unfoldable pub from_codes : String → String → BTreeMap ℕ ℕ → EstTokens F → GatewayRow
  unfolding total_codes
  from_codes name lane codes est =
      let class = λ (c : ℕ). sum_where (λ code. code / 100 == c) codes in
      let one = λ (c : ℕ). unwrap_or (get codes c) 0 in
      record {
        name = name;
        lane = lane;
        requests = total_codes codes;
        coded_requests = total_codes codes;
        c2xx = some (class 2);
        c4xx = some (class 4);
        c5xx = some (class 5);
        s413 = some (one 413);
        s429 = some (one 429);
        s499 = some (one 499);
        s503 = some (one 503);
        est_tokens_n = est.n;
        est_tokens_avg = elim (avg_est F est) [ none ↦ none | some v ↦ some (round v) ];
        est_tokens_max = if ltb 0 est.n then some est.highest else none;
      }

  unfoldable pub uncoded : String → String → ℕ → GatewayRow
  uncoded name lane requests = record {
    name = name;
    lane = lane;
    requests = requests;
    coded_requests = 0;
    c2xx = none;
    c4xx = none;
    c5xx = none;
    s413 = none;
    s429 = none;
    s499 = none;
    s503 = none;
    est_tokens_n = 0;
    est_tokens_avg = none;
    est_tokens_max = none;
  }

  -- what a probe takes out of the part of the log that has codes and addresses
  unfoldable pub take_covered : Option String → ℕ → LaneLog F → LaneLog F
  unfolding decrease
  take_covered probe_ip code l = record l {
    by_key_status = elim (get l.by_key_status no_key) [
      | none ↦ l.by_key_status
      | some codes ↦ insert l.by_key_status no_key (decrease codes code)
    ];
    by_ip = elim probe_ip [ none ↦ l.by_ip | some ip ↦ decrease l.by_ip ip ];
  }

  -- what it takes out of the whole of it, with so many requests of its status in there
  unfoldable pub take_request : ℕ → ℕ → LaneLog F → LaneLog F
  unfolding decrease
  take_request code n l = record l {
    by_status = insert l.by_status code (n - 1);
    requests = l.requests - 1;
    by_key = decrease l.by_key no_key;
  }

  -- the body of the loop over the probes
  unfoldable pub take_probe : CodeCoverage → Option String → ℕ × ℕ → LaneLog F × ℕ → LaneLog F × ℕ
  unfolding take_request take_covered
  take_probe coverage probe_ip (ts, code) (l, excluded) =
      let n = unwrap_or (get l.by_status code) 0 in
      let taken = take_request code n l in
      if ltb 0 n
      then ((if covers coverage ts then take_covered probe_ip code taken else taken), excluded + 1)
      else (l, excluded)

  unfoldable pub take_probes :
      CodeCoverage → Option String → List (ℕ × ℕ) → LaneLog F × ℕ → LaneLog F × ℕ
  unfolding take_probe
  take_probes coverage probe_ip [] st = st
  take_probes coverage probe_ip (p ∷ probes) st =
      take_probes coverage probe_ip probes (take_probe coverage probe_ip p st)

  -- the row of a key: its codes, or that they are not known
  unfoldable pub key_row : Bool → String → LaneLog F → String → ℕ → GatewayRow
  unfolding total_codes
  key_row full lane l key n =
      let est = unwrap_or (get l.by_key_est key) (no_est F) in
      elim (get l.by_key_status key) [
        | some codes ↦
            if full || ltb 0 (total_codes codes)
            then from_codes key lane codes est
            else uncoded key lane n
        | none ↦ if full then from_codes key lane [] est else uncoded key lane n
      ]

  unfoldable pub key_rows : Bool → String → LaneLog F → BTreeMap String ℕ → List GatewayRow
  unfolding key_row
  key_rows full lane l [] = []
  key_rows full lane l ((key, n) ∷ m) =
      let row = key_row full lane l key n in
      let requests = max row.requests n in
      let rest = key_rows full lane l m in
      if ltb 0 requests then record row { requests = requests } ∷ rest else rest

  unfoldable pub ip_rows : String → BTreeMap String ℕ → List GatewayRow
  unfolding uncoded
  ip_rows lane m =
      map (λ (p : String × ℕ). uncoded p.0 lane p.1) (filter (λ (p : String × ℕ). ltb 0 p.1) m)

  abbrev pub busier : GatewayRow → GatewayRow → Bool
  busier a b = ltb b.requests a.requests || (a.requests == b.requests && str_le a.name b.name)

  pub record GatewayDoc : Type 0 where
    pub v : ℕ
    pub generated_at : ℕ
    pub range_s : ℕ
    pub lanes : List GatewayRow
    pub keys : List GatewayRow
    pub ips : List GatewayRow
    pub probes_excluded : ℕ
    pub codes_coverage : String
    pub codes_since : Option ℕ

  unfoldable pub gateway_of : ℕ → ℕ → LaneLog F → LaneLog F × ℕ → CodeCoverage → GatewayDoc
  unfolding from_codes key_rows ip_rows
  gateway_of now range_s public_lane (trusted, excluded) coverage =
      let full = str_eq (coverage_label coverage) "full" in
      record {
        v = 1;
        generated_at = now;
        range_s = range_s;
        lanes =
            from_codes "public" "public" public_lane.by_status public_lane.est
            ∷ from_codes "trusted" "trusted" trusted.by_status trusted.est
            ∷ [];
        keys = take 50 (
            sort_by busier (
              key_rows full "public" public_lane public_lane.by_key
              ++ key_rows full "trusted" trusted trusted.by_key));
        ips = take 20 (
            sort_by busier (ip_rows "public" public_lane.by_ip ++ ip_rows "trusted" trusted.by_ip));
        probes_excluded = excluded;
        codes_coverage = coverage_label coverage;
        codes_since = coverage_since coverage;
      }

  unfoldable pub build_gateway :
      ℕ → ℕ → LogDelta F → List (ℕ × ℕ) → CodeCoverage → Option String → GatewayDoc
  unfolding take_probes gateway_of
  build_gateway now range_s log probes coverage probe_ip =
      gateway_of now range_s log.public_lane
        (take_probes coverage probe_ip probes (log.trusted_lane, 0)) coverage
