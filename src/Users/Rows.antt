-- ===== src/Users/Rows.antt =====
-- users.rs: build_users, the user table without the collector's own traffic.
use lss.Base.{
  ℕ, ◌-◌, min, String, Option, none, some, Bool, true, not, ◌&&◌, List, [], ◌∷◌, ◌++◌, filter, ltb,
  ◌==◌, if◌then◌else◌, str_eq, unwrap_or, is_some_and, length,
}
use lss.Base.Float.{F64}
use lss.Base.Map.{BTreeMap, get, insert, string_ord}
use lss.Base.Sort.{sort_by, take, sum_of}
use lss.Gate.{GateHealth, GateTotals, no_totals, GateUser, no_user, UpstreamLoad, series_id}
use lss.GateLog.Lane.{Addresses, bench_user}
use lss.Users.{
  UserAlias, alias_for, OwnTraffic, probe_user_name, UserRow, secs_since, UsersStatus, no_users,
  row_busier,
}

-- `if let Some(n) = split.get_mut(up) { *n = n.saturating_sub(l.inflight) }` for each upstream
unfoldable pub take_out : BTreeMap String UpstreamLoad → BTreeMap String ℕ → BTreeMap String ℕ
take_out [] split = split
take_out ((up, l) ∷ m) split =
    take_out m (elim (get split up) [ none ↦ split | some n ↦ insert split up (n - l.inflight) ])

-- what a user of the bench or of the probe takes out of the gate's counts of users
unfoldable pub forget_user : Bool → GateTotals → GateTotals
forget_user recent t = record t {
  users_24h = t.users_24h - 1;
  users_active_10m = t.users_active_10m - (if recent then 1 else 0);
}

unfoldable pub without_split :
    BTreeMap String UpstreamLoad → Option (BTreeMap String ℕ) → Option (BTreeMap String ℕ)
unfolding take_out
without_split loads none = none
without_split loads (some split) = some (filter (λ p. ltb 0 p.1) (take_out loads split))

module _ (F : F64) (std : Addresses) where
  open F use {Float, ratio, minus, le}

  -- what `build_users` is given besides the gate's report
  pub record Setting : Type 0 where
    pub aliases : List UserAlias
    pub tailscale : BTreeMap String String
    pub own : OwnTraffic
    pub now : ℕ

  unfoldable pub named : Setting → GateUser F → UserRow F
  named s u = record {
    name = unwrap_or (alias_for std u.lane u.user s.aliases s.tailscale) u.user;
    series = series_id u.lane u.user;
    experience = none;
    secs_since_last_request = secs_since F u.last_seen s.now;
    gate = u;
  }

  -- with a request in the last ten minutes
  unfoldable pub is_recent : Setting → GateUser F → Bool
  is_recent s u = le (minus (ratio s.now 1) u.last_seen) (ratio 600 1)

  unfoldable pub is_bench : GateUser F → Bool
  is_bench u = str_eq u.lane "trusted" && str_eq u.user bench_user

  unfoldable pub is_probe_address : Setting → GateUser F → Bool
  is_probe_address s u =
      str_eq u.lane "trusted"
      && is_some_and s.own.probe_user (λ p. str_eq p u.user)
      && ltb 0 s.own.probes_24h

  unfoldable pub without_bench : Setting → GateUser F → GateTotals → GateTotals
  unfolding forget_user without_split is_recent
  without_bench s u t = forget_user (is_recent s u) record t {
    inflight = t.inflight - u.inflight;
    inflight_by_upstream = without_split u.by_upstream t.inflight_by_upstream;
  }

  -- `own.probes_24h.min(u.requests_24h)`
  unfoldable pub mine_24h : Setting → GateUser F → ℕ
  mine_24h s u = min s.own.probes_24h u.requests_24h

  unfoldable pub mine_1h : Setting → GateUser F → ℕ
  mine_1h s u = min s.own.probes_1h u.requests_1h

  unfoldable pub probe_row : Setting → GateUser F → UserRow F
  unfolding mine_24h mine_1h
  probe_row s u = record {
    name = probe_user_name;
    series = series_id u.lane probe_user_name;
    experience = none;
    secs_since_last_request = secs_since F u.last_seen s.now;
    gate = record (no_user F) {
      lane = u.lane;
      user = probe_user_name;
      requests_1h = mine_1h s u;
      requests_24h = mine_24h s u;
      ok_24h = min (mine_24h s u) u.ok_24h;
      completion_tokens_exact = true;
      first_seen = u.first_seen;
      last_seen = u.last_seen;
      last_status = u.last_status;
    };
  }

  -- whatever is left on the probe's address
  unfoldable pub rest_of : Setting → GateUser F → GateUser F
  unfolding mine_24h mine_1h
  rest_of s u = record u {
    requests_24h = u.requests_24h - mine_24h s u;
    requests_1h = u.requests_1h - mine_1h s u;
    ok_24h = u.ok_24h - mine_24h s u;
  }

  unfoldable pub is_nobody : GateUser F → Bool
  is_nobody rest = rest.requests_24h == 0 && rest.inflight == 0

  pub record Acc : Type 0 where
    pub totals : GateTotals
    pub rows : List (UserRow F)
    pub bench : Option (UserRow F)
    pub probe : Option (UserRow F)

  -- the body of the loop over the users
  unfoldable pub add_user : Setting → Acc → GateUser F → Acc
  add_user s a u =
      if is_bench u
      then record a { totals = without_bench s u a.totals; bench = some (named s u) }
      else if not (is_probe_address s u)
      then record a { rows = a.rows ++ (named s u ∷ []) }
      else if is_nobody (rest_of s u)
      then record a { probe = some (probe_row s u); totals = forget_user (is_recent s u) a.totals }
      else record a { probe = some (probe_row s u); rows = a.rows ++ (named s (rest_of s u) ∷ []) }

  unfoldable pub add_users : Setting → Acc → List (GateUser F) → Acc
  add_users s a [] = a
  add_users s a (u ∷ users) = add_users s (add_user s a u) users

  -- the gate's totals, or what its users add up to
  unfoldable pub start_totals : Option GateTotals → List (GateUser F) → GateTotals
  start_totals (some t) users = t
  start_totals none users = record no_totals {
    inflight = sum_of (λ (u : GateUser F). u.inflight) users;
  }

  unfoldable pub start : Option GateTotals → List (GateUser F) → Acc
  unfolding start_totals
  start totals users = record {
    totals = start_totals totals users;
    rows = [];
    bench = none;
    probe = none;
  }

  unfoldable pub status_of : Acc → UsersStatus F
  status_of a =
      let rows = sort_by (row_busier F) a.rows in
      record {
        available = true;
        active_now = length (filter (λ (r : UserRow F). ltb 0 r.gate.inflight) rows);
        totals = a.totals;
        rows = take 50 rows;
        bench = a.bench;
        probe = a.probe;
      }

  -- `gate.and_then(|g| g.users.as_ref())`, else the default
  unfoldable pub build_listed :
      Setting → Option GateTotals → Option (List (GateUser F)) → UsersStatus F
  build_listed s totals none = no_users F
  build_listed s totals (some users) = status_of (add_users s (start totals users) users)

  unfoldable pub build_users : Setting → Option (GateHealth F) → UsersStatus F
  unfolding build_listed
  build_users s none = no_users F
  build_users s (some gate) = build_listed s gate.totals gate.users
