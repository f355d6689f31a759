-- ===== src/Examples/Logs.antt =====
-- The theorems on the gateway's log, at a log of four requests.
use Prim.Native.String.{String}
use lss.Base.{
  ℕ, ◌≤◌, ◌≡◌, refl, inl, inr, none, some, Option, true, false, List, [], ◌∷◌, ◌++◌, if◌then◌else◌,
  str_eq, All, length, trim, concat, show_ℕ,
}
use lss.GateLog.{AuditRecord}
use lss.GateLog.Experience.{no_exp, add_exp, merge_exp}
use lss.GateLog.Experience.Balance.{Built, IsBalanced, Built-IsBalanced}
use lss.GateLog.Lane.{mask_ip, exp_max_users, merge}
use lss.GateLog.Ingest.{lines, split_docker_ts, ingest}
use lss.GateLog.Counts.{log, lane_of, parts, IsCounted}
use lss.GateLog.Merged.{merge_exact}
use lss.GateLog.Resume.{Among, Later, records, resume_exact}
use lss.GateLog.Room.{users_bounded}
use lss.Examples.Data.{milli, addresses}

abbrev request_of : String → Option String → ℕ → AuditRecord milli
request_of caller key status = record {
  caller = caller;
  key = key;
  method = "POST";
  path = "/v1/chat/completions";
  model = none;
  verdict = "pass";
  status = status;
  ip = some " 192.0.2.7 ";
  estimated_tokens = none;
  est_tokens = some 900000;
  completion_tokens = some 100000;
  completion_exact = some false;
  dur_ms = some 2000000;
  ttfb_ms = some 300000;
  bench = none;
}

abbrev pub early : List (AuditRecord milli)
early = request_of "public" (some "acme") 413 ∷ request_of "public" (some "acme") 200 ∷ []

abbrev pub late : List (AuditRecord milli)
late = request_of "trusted" none 200 ∷ request_of "public" none 502 ∷ []

ip_masked : mask_ip addresses " 192.0.2.7 " ≡ "192.0.2.x"
unfolding mask_ip trim concat show_ℕ
ip_masked = refl

merge_exact_example : IsCounted milli addresses true (early ++ late) (
    parts milli addresses (
      lane_of milli addresses true
        (merge milli (log milli addresses early) (log milli addresses late))))
merge_exact_example = merge_exact milli addresses true early late

users_bounded_example :
    length (lane_of milli addresses true (log milli addresses early)).by_user ≤ exp_max_users
users_bounded_example = users_bounded milli addresses true early

Built-IsBalanced_example : IsBalanced milli (
    merge_exp milli
      (add_exp milli (no_exp milli) 300000 (some 2000000) (some 100000))
      (no_exp milli))
Built-IsBalanced_example = Built-IsBalanced milli (
    Built.merged _ _ (Built.added (no_exp milli) 300000 (some 2000000) (some 100000) Built.fresh)
      Built.fresh)

-- a log whose lines are a stamp and the name of a record
abbrev from_json : String → Option (AuditRecord milli)
from_json text =
    if str_eq text "{\"a\"}"
    then some (request_of "public" (some "acme") 200)
    else if str_eq text "{\"b\"}"
    then some (request_of "trusted" none 502)
    else none

abbrev line_a : String
line_a = "2026-09-19T11:41:48Z {\"a\"}"

abbrev line_b : String
line_b = "2026-09-19T11:42:00Z {\"b\"}"

abbrev first_read : String
first_read = "Traceback\n2026-09-19T11:41:48Z {\"a\"}\n"

abbrev second_read : String
second_read = "2026-09-19T11:41:48Z {\"a\"}\n2026-09-19T11:42:00Z {\"b\"}\n"

first_lines : lines first_read ≡ "Traceback" ∷ line_a ∷ []
unfolding lines
first_lines = refl

second_lines : lines second_read ≡ (line_a ∷ []) ++ (line_b ∷ [])
unfolding lines
second_lines = refl

again-Among : All (λ line. Among line (lines first_read)) (line_a ∷ [])
again-Among = rw first_lines (inr (inl refl), tt)

new-Later : All (Later (ingest milli addresses from_json first_read none).1) (line_b ∷ [])
unfolding ingest lines split_docker_ts
new-Later = (refl, tt)

resume_exact_example :
    IsCounted milli addresses false
      (records milli addresses from_json (lines first_read)
        ++ records milli addresses from_json (line_b ∷ []))
      (parts milli addresses (
        lane_of milli addresses false (
          merge milli
            (ingest milli addresses from_json first_read none).0
            (ingest milli addresses from_json second_read
              (ingest milli addresses from_json first_read none).1).0)))
resume_exact_example =
    resume_exact milli addresses from_json first_read second_read (line_a ∷ []) (line_b ∷ [])
      second_lines again-Among new-Later false
