-- ===== src/Gate.antt =====
-- crates/lss-core/src/gate.rs: the gateway's own report of its lanes, its users and its charging.
pub mod Upstream
use Prim.Native.Char.{code}
use lss.Base.{
  ℕ, zero, suc, ◌+◌, String, Option, none, some, Bool, true, false, not, ◌&&◌, ◌||◌, List, [], ◌∷◌,
  map, ◌==◌, leb, if◌then◌else◌, concat, str_eq, any, filter, is_some, is_some_and, is_empty, head?,
  unwrap_or,
}
use lss.Base.Float.{F64}
use lss.Base.Map.{BTreeMap, get, insert, string_ord}

abbrev is_true : Option Bool → Bool
is_true none = false
is_true (some b) = b

pub record LaneAdmission : Type 0 where
  pub admitted : ℕ
  pub rejected_413 : ℕ
  pub rejected_429 : ℕ
  pub client_closed : ℕ
  pub upstream_down : ℕ
  pub max_duration : ℕ
  pub inflight_tokens : ℕ
  pub waiters : ℕ
  pub budget_tokens : Option ℕ
  pub max_prompt_tokens : Option ℕ

abbrev pub no_admission : LaneAdmission
no_admission = record {
  admitted = 0;
  rejected_413 = 0;
  rejected_429 = 0;
  client_closed = 0;
  upstream_down = 0;
  max_duration = 0;
  inflight_tokens = 0;
  waiters = 0;
  budget_tokens = none;
  max_prompt_tokens = none;
}

pub record UpstreamLoad : Type 0 where
  pub inflight : ℕ
  pub requests_24h : ℕ
  pub peak_inflight_10m : ℕ
  pub peak_inflight_24h : ℕ

pub record GateTotals : Type 0 where
  pub inflight : ℕ
  pub inflight_by_upstream : Option (BTreeMap String ℕ)
  pub users_active_10m : ℕ
  pub users_24h : ℕ
  pub unauthenticated_24h : ℕ

abbrev pub no_totals : GateTotals
no_totals = record {
  inflight = 0;
  inflight_by_upstream = none;
  users_active_10m = 0;
  users_24h = 0;
  unauthenticated_24h = 0;
}

-- `c.is_ascii_alphanumeric() || matches!(c, '.' | '_' | '-')`
abbrev pub is_safe : ℕ → Bool
is_safe c =
    (leb b'0' c && leb c b'9')
    || (leb b'A' c && leb c b'Z')
    || (leb b'a' c && leb c b'z')
    || c == b'.'
    || c == b'_'
    || c == b'-'

-- the first `n` characters, each made safe
unfoldable pub clean : ℕ → String → String
clean zero s = ""
clean (suc n) String.[] = ""
clean (suc n) (String.◌∷◌ c s) =
    let rest = clean n s in String.◌∷◌ (if is_safe (code c) then c else "_") rest

unfoldable pub series_id : String → String → String
unfolding clean
series_id lane user =
    concat ((if str_eq lane "trusted" then "t" else "p") ∷ "." ∷ clean 40 user ∷ [])

unfoldable pub upstream_series_id : String → String
unfolding clean
upstream_series_id upstream = clean 40 upstream

module _ (F : F64) where
  open F use {Float, ratio}

  pub record GateShadow : Type 0 where
    pub enabled : Bool
    pub scrapes_ok : ℕ
    pub scrapes_failed : ℕ
    pub healthy : Bool
    pub cache_warm : Option Bool
    pub cold_since_age_s : Option Float
    pub charge_errors : ℕ
    pub recent_admissions : ℕ
    pub recent_discounted : ℕ
    pub seconds_to_drain_charged : Option Float

  unfoldable pub discount_inert : GateShadow → ℕ → Bool
  discount_inert sh min_n =
      sh.enabled
      && sh.healthy
      && is_true sh.cache_warm
      && leb min_n sh.recent_admissions
      && sh.recent_discounted == 0

  pub record GateUser : Type 0 where
    pub lane : String
    pub user : String
    pub inflight : ℕ
    pub peak_inflight_10m : ℕ
    pub peak_inflight_24h : ℕ
    pub conc_limit : Option ℕ
    pub rpm_limit : Option ℕ
    pub rpm_now : ℕ
    pub requests_1h : ℕ
    pub requests_24h : ℕ
    pub ok_24h : ℕ
    pub rejected_24h : ℕ
    pub errors_24h : ℕ
    pub client_closed_24h : ℕ
    pub prompt_tokens_est_24h : ℕ
    pub completion_tokens_24h : ℕ
    pub completion_tokens_exact : Bool
    pub inflight_prompt_tokens_est : ℕ
    pub first_seen : Float
    pub last_seen : Float
    pub last_status : Option ℕ
    pub by_upstream : BTreeMap String UpstreamLoad

  abbrev pub no_user : GateUser
  no_user = record {
    lane = "";
    user = "";
    inflight = 0;
    peak_inflight_10m = 0;
    peak_inflight_24h = 0;
    conc_limit = none;
    rpm_limit = none;
    rpm_now = 0;
    requests_1h = 0;
    requests_24h = 0;
    ok_24h = 0;
    rejected_24h = 0;
    errors_24h = 0;
    client_closed_24h = 0;
    prompt_tokens_est_24h = 0;
    completion_tokens_24h = 0;
    completion_tokens_exact = false;
    inflight_prompt_tokens_est = 0;
    first_seen = ratio 0 1;
    last_seen = ratio 0 1;
    last_status = none;
    by_upstream = [];
  }

  pub record GateHealth : Type 0 where
    pub version : String
    pub upstream_ok : Bool
    pub trusted : LaneAdmission
    pub public_lane : LaneAdmission
    pub shadow : Option GateShadow
    pub users : Option (List GateUser)
    pub totals : Option GateTotals
    pub attributed_upstreams : Option (List String)
    pub upstream_loaded : BTreeMap String (List String)

  -- the upstreams that serve the model
  unfoldable pub serving : GateHealth → String → List String → List String
  serving g m ups =
      filter (λ u. is_some_and (get g.upstream_loaded u) (λ loaded. any (λ x. str_eq x m) loaded))
        ups

  -- `if let [one] = hits`, else the first upstream
  unfoldable pub single_or : List String → List String → Option String
  single_or (one ∷ []) ups = some one
  single_or [] ups = head? ups
  single_or (one ∷ two ∷ more) ups = head? ups

  unfoldable pub this_upstream : GateHealth → Option String → Option String
  unfolding serving single_or
  this_upstream g engine_model = elim g.attributed_upstreams [
    | none ↦ none
    | some ups ↦ elim engine_model [
      | none ↦ head? ups
      | some m ↦ if str_eq m "" then head? ups else single_or (serving g m ups) ups
    ]
  ]

  unfoldable pub all_rejected_413 : GateHealth → ℕ
  all_rejected_413 g = g.trusted.rejected_413 + g.public_lane.rejected_413

  unfoldable pub all_rejected_429 : GateHealth → ℕ
  all_rejected_429 g = g.trusted.rejected_429 + g.public_lane.rejected_429

  pub record RawUpstream : Type 0 where
    pub is_ok : Bool
    pub loaded : List String

  -- upstreams in the gate's own order
  pub record RawHealth : Type 0 where
    pub version : String
    pub upstreams : List (String × RawUpstream)
    pub admission : BTreeMap String LaneAdmission
    pub users : Option (List GateUser)
    pub totals : Option GateTotals
    pub shadow : Option GateShadow

  unfoldable pub loaded_map :
      List (String × RawUpstream) → BTreeMap String (List String) → BTreeMap String (List String)
  loaded_map [] m = m
  loaded_map ((k, u) ∷ ups) m = loaded_map ups (insert m k u.loaded)

  unfoldable pub health_of : RawHealth → GateHealth
  unfolding loaded_map
  health_of raw = record {
    version = raw.version;
    upstream_ok = not (is_empty raw.upstreams) && not (any (λ u. not u.1.is_ok) raw.upstreams);
    trusted = unwrap_or (get raw.admission "trusted") no_admission;
    public_lane = unwrap_or (get raw.admission "public") no_admission;
    shadow = raw.shadow;
    users = raw.users;
    totals = raw.totals;
    attributed_upstreams =
        if is_some_and raw.totals (λ t. is_some t.inflight_by_upstream)
        then some (map (λ u. u.0) raw.upstreams)
        else none;
    upstream_loaded = loaded_map raw.upstreams [];
  }

  -- `parse_gate_health`, after serde_json
  unfoldable pub parse_gate_health : (String → Option RawHealth) → String → Option GateHealth
  unfolding health_of
  parse_gate_health from_json text = elim (from_json text) [
    | none ↦ none
    | some raw ↦ some (health_of raw)
  ]
