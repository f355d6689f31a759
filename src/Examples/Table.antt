-- ===== src/Examples/Table.antt =====
-- The theorems on the gateway's report and the table of users, at a report of three users.
use lss.Base.{
  not, ◌&&◌, ◌==◌, str_eq, if◌then◌else◌, ◌≡◌, refl, none, some, true, List, [], ◌∷◌, arith,
}
use lss.Base.Sort.{sum_of}
use lss.Gate.{GateUser, no_user, GateHealth, no_admission, this_upstream}
use lss.Gate.Upstream.{how_many, first_with, serves, this_upstream_exact}
use lss.Users.{UserRow, OwnTraffic, row_busier}
use lss.Users.Rows.{Setting, build_listed}
use lss.Users.Count.{real_requests, real_inflight, Consistent, requests_exact, inflight_exact}
use lss.Examples.Data.{milli, addresses}

abbrev acme : GateUser milli
acme = record (no_user milli) { lane = "public"; user = "acme"; inflight = 2; requests_24h = 20 }

-- the address of the probe, with requests of its own
abbrev local : GateUser milli
local = record (no_user milli) {
  lane = "trusted";
  user = "127.0.0.1";
  inflight = 1;
  requests_24h = 300;
  ok_24h = 299;
}

abbrev bench : GateUser milli
bench = record (no_user milli) {
  lane = "trusted";
  user = "lss-bench";
  inflight = 8;
  requests_24h = 40;
}

abbrev users : List (GateUser milli)
users = local ∷ bench ∷ acme ∷ []

abbrev setting : Setting milli addresses
setting = record {
  aliases = [];
  tailscale = [];
  own = record { probe_user = some "127.0.0.1"; probes_1h = 12; probes_24h = 288 };
  now = 1000000;
}

requests_exact_example :
    sum_of
      (λ (r : UserRow milli). r.gate.requests_24h)
      (build_listed milli addresses setting none (some users)).rows
    ≡ sum_of (real_requests milli addresses setting) users
requests_exact_example = requests_exact milli addresses setting none users (omega arith)

real_total : sum_of (real_requests milli addresses setting) users ≡ 32
unfolding sum_of lss.Users.Rows.is_bench lss.Users.Rows.is_probe_address
real_total = refl

in_flight : Consistent milli addresses setting none users
unfolding lss.Users.Rows.start_totals
in_flight = refl

inflight_exact_example :
    ((build_listed milli addresses setting none (some users)).totals.inflight
      ≡ sum_of (real_inflight milli addresses setting) users)
    × (sum_of
          (λ (r : UserRow milli). r.gate.inflight)
          (build_listed milli addresses setting none (some users)).rows
        ≡ sum_of (real_inflight milli addresses setting) users)
inflight_exact_example = inflight_exact milli addresses setting none users in_flight (omega arith)

abbrev report : GateHealth milli
report = record {
  version = "v5.10";
  upstream_ok = true;
  trusted = no_admission;
  public_lane = no_admission;
  shadow = none;
  users = some users;
  totals = none;
  attributed_upstreams = some ("small" ∷ "large" ∷ []);
  upstream_loaded = ("large", "big-model" ∷ []) ∷ ("small", "tiny-model" ∷ []) ∷ [];
}

this_upstream_exact_example : this_upstream milli report (some "big-model") ≡ (
    if not (str_eq "big-model" "")
      && how_many (serves milli report "big-model") ("small" ∷ "large" ∷ []) == 1
    then first_with (serves milli report "big-model") ("small" ∷ "large" ∷ [])
    else some "small")
this_upstream_exact_example =
    this_upstream_exact milli report (some ("small" ∷ "large" ∷ [])) (some "big-model") refl
