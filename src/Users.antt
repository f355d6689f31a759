-- ===== src/Users.antt =====
-- crates/lss-core/src/users.rs: who is on the server. parse_tailscale_status is the reading of JSON.
pub mod Rows
pub mod Count
use lss.Base.{
  ℕ, zero, suc, ◌+◌, ◌-◌, ◌*◌, ◌%◌, min, String, Option, none, some, Bool, true, false, not, ◌&&◌,
  ◌||◌, List, [], ◌∷◌, ◌++◌, map, filter, ltb, ◌==◌, if◌then◌else◌, str_eq, trim, or_else,
  unwrap_or, is_some_and, length,
}
use lss.Base.Float.{F64}
use lss.Base.Map.{BTreeMap, get, insert, string_ord}
use lss.Base.Order.{str_le}
use lss.Base.Sort.{sort_by, take, sum_of}
use lss.Gate.{GateHealth, GateTotals, no_totals, GateUser, no_user, UpstreamLoad, series_id}
use lss.GateLog.Experience.{UserExp, ttfb_quantile_ms, speed_avg, speed_quantile}
use lss.GateLog.Lane.{Addresses, LogDelta, bench_user}

pub record UserAlias : Type 0 where
  pub ip : String
  pub name : String

-- `alias_for`'s closure `same`: equal addresses, or equal texts where one is no address
unfoldable pub same_ip : Option (ℕ × ℕ) → Option (ℕ × ℕ) → Bool → Bool
same_ip (some (v, x)) (some (w, y)) texts = v == w && x == y
same_ip (some x) none texts = texts
same_ip none y texts = texts

unfoldable pub same : Addresses → String → String → Bool
unfolding same_ip
same std user a =
    same_ip (std.parse_ip (trim a)) (std.parse_ip (trim user)) (str_eq (trim a) (trim user))

unfoldable pub alias_in : (String → Bool) → List UserAlias → Option String
alias_in same [] = none
alias_in same (a ∷ aliases) =
    let rest = alias_in same aliases in
    if same a.ip && not (str_eq a.name "") then some a.name else rest

unfoldable pub tailscale_in : (String → Bool) → BTreeMap String String → Option String
tailscale_in same [] = none
tailscale_in same ((ip, name) ∷ m) =
    let rest = tailscale_in same m in if same ip then some name else rest

unfoldable pub alias_for :
    Addresses → String → String → List UserAlias → BTreeMap String String → Option String
unfolding same alias_in tailscale_in
alias_for std lane user aliases tailscale =
    if not (str_eq lane "trusted")
    then none
    else or_else (alias_in (same std user) aliases) (tailscale_in (same std user) tailscale)

pub record UserPoint : Type 0 where
  pub id : String
  pub inflight : ℕ
  pub rpm : ℕ
  pub by_upstream : BTreeMap String ℕ

abbrev pub probe_user_name : String
probe_user_name = "lss-probe"

-- what the collector knows of its own requests
pub record OwnTraffic : Type 0 where
  pub probe_user : Option String
  pub probes_1h : ℕ
  pub probes_24h : ℕ

pub data UserSort : Type 0 where
  busiest requests_24h output_tokens prompt_tokens last_seen by_name : UserSort

unfoldable pub sort_label : UserSort → String
sort_label busiest = "running now"
sort_label requests_24h = "requests 24h"
sort_label output_tokens = "output tokens"
sort_label prompt_tokens = "prompt tokens"
sort_label last_seen = "last seen"
sort_label by_name = "name"

-- the position in ALL, one on, around
unfoldable pub next_sort : UserSort → UserSort
next_sort busiest = requests_24h
next_sort requests_24h = output_tokens
next_sort output_tokens = prompt_tokens
next_sort prompt_tokens = last_seen
next_sort last_seen = by_name
next_sort by_name = busiest

-- `b.cmp(&a).then(rest)` is not Greater: descending by a number, then by the rest
abbrev pub desc : ℕ → ℕ → Bool → Bool
desc a b rest = if ltb b a then true else if ltb a b then false else rest

module _ (F : F64) where
  open F use {Float, ratio, plus, minus, times, over, lt, le, fmax, round, total_le, as_nat}

  abbrev user_busier : GateUser F → GateUser F → Bool
  user_busier a b = desc a.inflight b.inflight (desc a.rpm_now b.rpm_now (str_le a.user b.user))

  abbrev is_active : GateUser F → Bool
  is_active u = ltb 0 u.inflight || ltb 0 u.rpm_now

  unfoldable pub busy_upstreams : BTreeMap String UpstreamLoad → BTreeMap String ℕ
  busy_upstreams [] = []
  busy_upstreams ((up, l) ∷ m) =
      let rest = busy_upstreams m in if ltb 0 l.inflight then (up, l.inflight) ∷ rest else rest

  unfoldable pub user_points : GateHealth F → List UserPoint
  unfolding busy_upstreams
  user_points gate =
      map
        (λ (u : GateUser F). record {
          id = series_id u.lane u.user;
          inflight = u.inflight;
          rpm = u.rpm_now;
          by_upstream = busy_upstreams u.by_upstream;
        })
        (take 16 (sort_by user_busier (filter is_active (unwrap_or gate.users []))))

  pub record UserExperience : Type 0 where
    pub requests : ℕ
    pub ttft_p50_ms : Option Float
    pub ttft_p95_ms : Option Float
    pub tok_s : Option Float
    pub tok_s_p50 : Option Float

  pub record UserRow : Type 0 where
    pub name : String
    pub series : String
    pub experience : Option UserExperience
    pub secs_since_last_request : Option ℕ
    pub gate : GateUser F

  unfoldable pub secs_since : Float → ℕ → Option ℕ
  secs_since stamp now =
      if lt (ratio 0 1) stamp
      then some (as_nat (round (fmax (minus (ratio now 1) stamp) (ratio 0 1))))
      else none

  abbrev map_option : (Float → Float) → Option Float → Option Float
  map_option f none = none
  map_option f (some v) = some (f v)

  unfoldable pub experience_of : UserExp F → Option UserExperience
  experience_of e =
      let r1 = λ (v : Float). over (round (times v (ratio 10 1))) (ratio 10 1) in
      if ltb 0 e.n
      then some record {
        requests = e.n;
        ttft_p50_ms = map_option round (ttfb_quantile_ms F e (ratio 1 2));
        ttft_p95_ms = map_option round (ttfb_quantile_ms F e (ratio 95 100));
        tok_s = map_option r1 (speed_avg F e);
        tok_s_p50 = map_option r1 (speed_quantile F e (ratio 1 2));
      }
      else none

  pub record UsersStatus : Type 0 where
    pub available : Bool
    pub active_now : ℕ
    pub totals : GateTotals
    pub rows : List UserRow
    pub bench : Option UserRow
    pub probe : Option UserRow

  abbrev pub no_users : UsersStatus
  no_users = record {
    available = false;
    active_now = 0;
    totals = no_totals;
    rows = [];
    bench = none;
    probe = none;
  }

  -- the closure `find` of `attach_experience`
  unfoldable pub find_experience :
      LogDelta F → Option String → String → String → Option UserExperience
  unfolding experience_of
  find_experience log probe_user lane user =
      if str_eq lane "trusted" && is_some_and probe_user (λ p. str_eq p user)
      then none
      else elim (get (if str_eq lane "public" then log.public_lane else log.trusted_lane).by_user
          user) [ none ↦ none | some e ↦ experience_of e ]

  unfoldable pub attach_experience : UsersStatus → LogDelta F → Option String → UsersStatus
  unfolding find_experience
  attach_experience s log probe_user =
      let attach = λ (r : UserRow). record r {
        experience = find_experience log probe_user r.gate.lane r.gate.user;
      } in
      record s {
        rows = map attach s.rows;
        bench = elim s.bench [ none ↦ none | some r ↦ some (attach r) ];
      }

  -- the order of the table: in flight, then requests in 24 h, then the name
  abbrev pub row_busier : UserRow → UserRow → Bool
  row_busier a b =
      desc a.gate.inflight b.gate.inflight
        (desc a.gate.requests_24h b.gate.requests_24h (str_le a.name b.name))

  -- `UserSort::apply`; `lower` is `str::to_lowercase`
  unfoldable pub apply_sort : (String → String) → UserSort → List UserRow → List UserRow
  apply_sort lower busiest rows = sort_by row_busier rows
  apply_sort lower requests_24h rows =
      sort_by
        (λ (a b : UserRow). desc a.gate.requests_24h b.gate.requests_24h (str_le a.name b.name))
        rows
  apply_sort lower output_tokens rows =
      sort_by
        (λ (a b : UserRow).
          desc a.gate.completion_tokens_24h b.gate.completion_tokens_24h (str_le a.name b.name))
        rows
  apply_sort lower prompt_tokens rows =
      sort_by
        (λ (a b : UserRow).
          desc a.gate.prompt_tokens_est_24h b.gate.prompt_tokens_est_24h (str_le a.name b.name))
        rows
  apply_sort lower last_seen rows =
      sort_by
        (λ (a b : UserRow).
          if not (total_le a.gate.last_seen b.gate.last_seen)
          then true
          else if not (total_le b.gate.last_seen a.gate.last_seen)
          then false
          else str_le a.name b.name)
        rows
  apply_sort lower by_name rows =
      sort_by (λ (a b : UserRow). str_le (lower a.name) (lower b.name)) rows
