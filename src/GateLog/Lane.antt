-- ===== src/GateLog/Lane.antt =====
-- gatelog.rs: LaneLog and LogDelta, the counts of the two lanes; mask_ip. How std parses an address
-- is the parameter Addresses.
use lss.Base.{
  ℕ, suc, ◌+◌, ◌/◌, ◌%◌, zero, String, Option, none, some, Bool, true, false, ◌&&◌, ◌||◌, not, List,
  [], ◌∷◌, ltb, leb, ◌==◌, if◌then◌else◌, is_some, is_some_and, or_else, unwrap_or, concat, show_ℕ,
  trim, str_eq, length,
}
use lss.Base.Float.{F64}
use lss.Base.Map.{BTreeMap, get, update, merge_with, contains_key, nat_ord, string_ord}
use lss.GateLog.{
  AuditRecord, size_bucket, TimeAgg, no_times, add_time, merge_times, EstTokens, no_est, add_est,
  merge_est,
}
use lss.GateLog.Experience.{UserExp, no_exp, add_exp, merge_exp}

-- `text.parse::<Ipv4Addr>().ok()` as its first three octets, and `parse::<Ipv6Addr>` as its first
-- three segments; `parse::<IpAddr>` as its version and its bits.
pub record Addresses : Type 0 where
  pub parse_v4 : String → Option (ℕ × ℕ × ℕ)
  pub parse_v6 : String → Option (ℕ × ℕ × ℕ)
  pub parse_ip : String → Option (ℕ × ℕ)

abbrev hex_digit : ℕ → String
hex_digit n =
    if n == 10
    then "a"
    else if n == 11
    then "b"
    else if n == 12
    then "c"
    else if n == 13
    then "d"
    else if n == 14
    then "e"
    else if n == 15
    then "f"
    else show_ℕ n

hex_digits : ℕ → ℕ → String → String
hex_digits zero n acc = acc
hex_digits (suc fuel) n acc =
    let rest = hex_digits fuel (n / 16) (concat (hex_digit (n % 16) ∷ acc ∷ [])) in
    if ltb n 16 then concat (hex_digit n ∷ acc ∷ []) else rest

-- `{:x}` of a segment: it is below 2^16, so it has at most four digits
unfoldable pub show_hex : ℕ → String
unfolding hex_digits
show_hex n = hex_digits 4 n ""

unfoldable pub mask_ip : Addresses → String → String
unfolding show_hex
mask_ip std text =
    let ip = trim text in
    elim (std.parse_v4 ip) [
      | some (a, b, c) ↦ concat (show_ℕ a ∷ "." ∷ show_ℕ b ∷ "." ∷ show_ℕ c ∷ ".x" ∷ [])
      | none ↦ elim (std.parse_v6 ip) [
        | some (a, b, c) ↦ concat (show_hex a ∷ ":" ∷ show_hex b ∷ ":" ∷ show_hex c ∷ "::x" ∷ [])
        | none ↦ "(unknown)"
      ]
    ]

abbrev pub exp_max_users : ℕ
exp_max_users = 64

abbrev pub bench_user : String
bench_user = "lss-bench"

-- `*map.entry(k).or_default() += 1`
unfoldable pub count_status : BTreeMap ℕ ℕ → ℕ → BTreeMap ℕ ℕ
count_status m k = update m k 0 (λ n. n + 1)

unfoldable pub count_name : BTreeMap String ℕ → String → BTreeMap String ℕ
count_name m k = update m k 0 (λ n. n + 1)

-- the sum of two maps of counts
abbrev pub sum_counts :
    {K : Type 0} ⦃o : lss.Base.Map.Ord K⦄ → BTreeMap K ℕ → BTreeMap K ℕ → BTreeMap K ℕ
sum_counts m o = merge_with (λ mine theirs. mine + theirs) 0 m o

module _ (F : F64) where
  open F use {Float, ratio, plus, le, fmax, is_finite}

  pub record LaneLog : Type 0 where
    pub requests : ℕ
    pub other : ℕ
    pub by_status : BTreeMap ℕ ℕ
    pub by_verdict : BTreeMap String ℕ
    pub by_key : BTreeMap String ℕ
    pub by_key_status : BTreeMap String (BTreeMap ℕ ℕ)
    pub est : EstTokens F
    pub by_key_est : BTreeMap String (EstTokens F)
    pub by_ip : BTreeMap String ℕ
    pub ttfb_by_size : BTreeMap String (TimeAgg F)
    pub completion_tokens : Float
    pub completion_estimated : Float
    pub prompt_max : Float
    pub by_user : BTreeMap String (UserExp F)

  abbrev pub no_lane : LaneLog
  no_lane = record {
    requests = 0;
    other = 0;
    by_status = [];
    by_verdict = [];
    by_key = [];
    by_key_status = [];
    est = no_est F;
    by_key_est = [];
    by_ip = [];
    ttfb_by_size = [];
    completion_tokens = ratio 0 1;
    completion_estimated = ratio 0 1;
    prompt_max = ratio 0 1;
    by_user = [];
  }

  unfoldable pub lane_is_empty : LaneLog → Bool
  lane_is_empty l = l.requests == 0 && l.other == 0

  unfoldable pub merge_lane : LaneLog → LaneLog → LaneLog
  merge_lane l o = record {
    requests = l.requests + o.requests;
    other = l.other + o.other;
    by_status = sum_counts l.by_status o.by_status;
    by_verdict = sum_counts l.by_verdict o.by_verdict;
    by_key = sum_counts l.by_key o.by_key;
    by_key_status = merge_with sum_counts [] l.by_key_status o.by_key_status;
    est = merge_est F l.est o.est;
    by_key_est = merge_with (merge_est F) (no_est F) l.by_key_est o.by_key_est;
    by_ip = sum_counts l.by_ip o.by_ip;
    ttfb_by_size = merge_with (merge_times F) (no_times F) l.ttfb_by_size o.ttfb_by_size;
    completion_tokens = plus l.completion_tokens o.completion_tokens;
    completion_estimated = plus l.completion_estimated o.completion_estimated;
    prompt_max = fmax l.prompt_max o.prompt_max;
    by_user = merge_with (merge_exp F) (no_exp F) l.by_user o.by_user;
  }

  unfoldable pub status_count : LaneLog → ℕ → ℕ
  status_count l code = unwrap_or (get l.by_status code) 0

  -- the loop of `classes`
  unfoldable pub classes_of : BTreeMap ℕ ℕ → ℕ × ℕ × ℕ → ℕ × ℕ × ℕ
  classes_of [] c = c
  classes_of ((status, n) ∷ m) (c2, c4, c5) = classes_of m (
      if status / 100 == 2
      then (c2 + n, c4, c5)
      else if status / 100 == 4
      then (c2, c4 + n, c5)
      else if status / 100 == 5
      then (c2, c4, c5 + n)
      else (c2, c4, c5))

  unfoldable pub classes : LaneLog → ℕ × ℕ × ℕ
  unfolding classes_of
  classes l = classes_of l.by_status (0, 0, 0)

  pub record LogDelta : Type 0 where
    -- `public` and `trusted`
    pub public_lane : LaneLog
    pub trusted_lane : LaneLog

  abbrev pub no_delta : LogDelta
  no_delta = record { public_lane = no_lane; trusted_lane = no_lane }

  unfoldable pub delta_is_empty : LogDelta → Bool
  unfolding lane_is_empty
  delta_is_empty d = lane_is_empty d.public_lane && lane_is_empty d.trusted_lane

  -- `filter(|v| v.is_finite() && *v >= 0.0)`
  unfoldable pub sane : Option Float → Option Float
  sane none = none
  sane (some v) = if is_finite v && le (ratio 0 1) v then some v else none

  unfoldable pub finite : Option Float → Option Float
  finite none = none
  finite (some v) = if is_finite v then some v else none

  unfoldable pub answered : AuditRecord F → Bool
  answered r = leb 200 r.status && ltb r.status 300

  unfoldable pub who : AuditRecord F → Option String
  who r =
      if is_some_and r.bench (λ b. b)
      then some bench_user
      else if is_some r.key
      then r.key
      else r.ip

  -- the counts that every request adds to
  unfoldable pub count_request : AuditRecord F → LaneLog → LaneLog
  unfolding count_status count_name
  count_request r l =
      let key = unwrap_or r.key "(no key)" in
      record l {
        requests = l.requests + 1;
        by_status = count_status l.by_status r.status;
        by_verdict = count_name l.by_verdict r.verdict;
        by_key = count_name l.by_key key;
        by_key_status = update l.by_key_status key [] (λ codes. count_status codes r.status);
      }

  unfoldable pub note_est : AuditRecord F → LaneLog → LaneLog
  unfolding sane
  note_est r l =
      let key = unwrap_or r.key "(no key)" in
      elim (sane r.estimated_tokens) [
        | none ↦ l
        | some est ↦ record l {
          est = add_est F l.est est;
          by_key_est = update l.by_key_est key (no_est F) (λ e. add_est F e est);
        }
      ]

  unfoldable pub note_ip : Addresses → AuditRecord F → LaneLog → LaneLog
  unfolding count_name
  note_ip std r l = elim r.ip [
    | none ↦ l
    | some ip ↦ record l { by_ip = count_name l.by_ip (mask_ip std ip) }
  ]

  unfoldable pub note_prompt : AuditRecord F → LaneLog → LaneLog
  unfolding sane answered
  note_prompt r l = elim (if answered r then sane r.est_tokens else none) [
    | none ↦ l
    | some prompt ↦ record l { prompt_max = fmax l.prompt_max prompt }
  ]

  unfoldable pub time_by_size : Option Float → Option Float → LaneLog → LaneLog
  time_by_size none ttfb l = l
  time_by_size (some prompt) none l = l
  time_by_size (some prompt) (some ttfb) l = record l {
    ttfb_by_size =
        update l.ttfb_by_size (size_bucket F prompt) (no_times F) (λ t. add_time F t ttfb);
  }

  unfoldable pub note_size : AuditRecord F → LaneLog → LaneLog
  unfolding sane answered time_by_size
  note_size r l = if answered r then time_by_size (sane r.est_tokens) (sane r.ttfb_ms) l else l

  -- a user is kept if there is room, or it is there already
  unfoldable pub user_exp : AuditRecord F → Float → Option String → LaneLog → LaneLog
  unfolding finite
  user_exp r ttfb none l = l
  user_exp r ttfb (some user) l =
      if not (str_eq user "")
        && (ltb (length l.by_user) exp_max_users || contains_key l.by_user user)
      then record l {
        by_user =
            update l.by_user user (no_exp F)
              (λ e. add_exp F e ttfb (finite r.dur_ms) (finite r.completion_tokens));
      }
      else l

  unfoldable pub note_user : AuditRecord F → LaneLog → LaneLog
  unfolding sane answered user_exp who
  note_user r l = elim (if answered r then sane r.ttfb_ms else none) [
    | none ↦ l
    | some ttfb ↦ user_exp r ttfb (who r) l
  ]

  unfoldable pub note_completion : AuditRecord F → LaneLog → LaneLog
  unfolding sane answered
  note_completion r l = elim (if answered r then sane r.completion_tokens else none) [
    | none ↦ l
    | some out ↦ record l {
      completion_tokens = plus l.completion_tokens out;
      completion_estimated =
          if is_some_and r.completion_exact not
          then plus l.completion_estimated out
          else l.completion_estimated;
    }
  ]

  -- what `add` does to the lane of the record
  unfoldable pub add_to_lane : Addresses → AuditRecord F → LaneLog → LaneLog
  unfolding count_request note_est note_ip note_prompt note_size note_user note_completion
  add_to_lane std r l =
      if not (str_eq r.method "POST")
      then record l { other = l.other + 1 }
      else note_completion r (
          note_user r
            (note_size r (note_prompt r (note_ip std r (note_est r (count_request r l))))))

  unfoldable pub add : Addresses → LogDelta → AuditRecord F → LogDelta
  unfolding add_to_lane
  add std d r =
      if str_eq r.caller "public"
      then record d { public_lane = add_to_lane std r d.public_lane }
      else record d { trusted_lane = add_to_lane std r d.trusted_lane }

  unfoldable pub merge : LogDelta → LogDelta → LogDelta
  unfolding merge_lane
  merge d o = record {
    public_lane = merge_lane d.public_lane o.public_lane;
    trusted_lane = merge_lane d.trusted_lane o.trusted_lane;
  }
