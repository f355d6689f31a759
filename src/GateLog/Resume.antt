-- ===== src/GateLog/Resume.antt =====
-- Reading the gateway's log in two turns: every record is counted once.
use lss.Base.{
  ◌≡◌, refl, ap, ◌∙◌, inl, inr, ◌⊎◌, String, Option, none, some, Bool, true, not, List, [], ◌∷◌,
  ◌++◌, arith, Bool-cases, Option-cases, is_some_and, is_none_or, All,
}
use lss.Base.Float.{F64}
use lss.Base.Order.{str_lt, str_le-eq-not, str_lt_trans, str_lt_irrefl}
use lss.GateLog.{AuditRecord}
use lss.GateLog.Lane.{Addresses, LogDelta, no_delta, merge}
use lss.GateLog.Ingest.{
  lines, ingest, split_docker_ts, parse_audit, add_parsed, newer, ingest_line, ingest_lines,
}
use lss.GateLog.Counts.{log, lane_of, parts, IsCounted}
use lss.GateLog.Merged.{merge_exact}

-- the stamp lies at or before the newest one
abbrev Covers : Option String → String → Type 0
Covers newest ts = is_some_and newest (λ n. not (str_lt n ts)) ≡ true

-- a line of a list
abbrev pub Among : String → List String → Type 0
Among line [] = ⊥
Among line (x ∷ xs) = (line ≡ x) ⊎ Among line xs

-- the stamp of a split line, if it has one, is after the newest one so far
abbrev pub is_later : Option String → Option (String × String) → Bool
is_later newest none = true
is_later newest (some (ts, rest)) = is_none_or newest (λ n. str_lt n ts)

abbrev pub Later : Option String → String → Type 0
Later newest line = is_later newest (split_docker_ts line) ≡ true

module _ (F : F64) (std : Addresses) (from_json : String → Option (AuditRecord F)) where
  -- the records of some lines, newest first, onto earlier ones
  pub record_onto : Option (String × String) → List (AuditRecord F) → List (AuditRecord F)
  record_onto none h = h
  record_onto (some (ts, rest)) h = elim (parse_audit F std from_json rest) [
    | none ↦ h
    | some r ↦ r ∷ h
  ]

  pub records_onto : List String → List (AuditRecord F) → List (AuditRecord F)
  unfolding record_onto
  records_onto [] h = h
  records_onto (line ∷ rest) h = records_onto rest (record_onto (split_docker_ts line) h)

  abbrev pub records : List String → List (AuditRecord F)
  records lines = records_onto lines []

  abbrev pub State : Type 0
  State = LogDelta F × Option String

  abbrev pub read : Option String → List String → State
  read newest lines = ingest_lines F std from_json newest lines (no_delta F, newest)

  Covers-newer :
      (newest : Option String) (ts : String) → Covers (newer F std from_json newest ts) ts
  unfolding newer
  Covers-newer none ts = rw (str_lt_irrefl ts) refl
  Covers-newer (some n) ts = elim (Bool-cases (str_lt n ts)) [
    | inl e ↦ rw e (rw (str_lt_irrefl ts) refl)
    | inr e ↦ rw e (rw e refl)
  ]

  newer-Covers :
      (newest : Option String) (ts old : String)
      → Covers newest old
      → Covers (newer F std from_json newest ts) old
  unfolding newer
  newer-Covers none ts old h = cc
  newer-Covers (some n) ts old h = elim (Bool-cases (str_lt n ts)) [
    | inl e ↦ rw e (elim (Bool-cases (str_lt ts old)) [
      | inl f ↦ absurd (ground (arith, str_lt_trans n ts old e f))
      | inr f ↦ rw f refl
    ])
    | inr e ↦ rw e h
  ]

  -- A first read covers what it has seen.
  line-Covers :
      (old : String) (line : Option (String × String)) (st : State)
      → Covers st.1 old
      → Covers (ingest_line F std from_json none line st).1 old
  unfolding ingest_line
  line-Covers old none st h = h
  line-Covers old (some (ts, rest)) (d, n) h = newer-Covers n ts old h

  lines-Covers :
      (old : String) (lines : List String) (st : State)
      → Covers st.1 old
      → Covers (ingest_lines F std from_json none lines st).1 old
  unfolding ingest_lines
  lines-Covers old [] st h = h
  lines-Covers old (line ∷ rest) st h =
      lines-Covers old rest (ingest_line F std from_json none (split_docker_ts line) st)
        (line-Covers old (split_docker_ts line) st h)

  -- nothing is new in a split line
  abbrev IsStale : Option String → Option (String × String) → Type 0
  IsStale newest none = Unit {0}
  IsStale newest (some (ts, rest)) = Covers newest ts

  first-IsStale :
      (line : Option (String × String)) (st : State)
      → IsStale (ingest_line F std from_json none line st).1 line
  unfolding ingest_line
  first-IsStale none st = tt
  first-IsStale (some (ts, rest)) (d, n) = Covers-newer n ts

  later-IsStale :
      (line : Option (String × String)) (lines : List String) (st : State)
      → IsStale st.1 line
      → IsStale (ingest_lines F std from_json none lines st).1 line
  later-IsStale none lines st h = tt
  later-IsStale (some (ts, rest)) lines st h = lines-Covers ts lines st h

  Among-IsStale :
      (line : String) (lines : List String) (st : State)
      → Among line lines
      → IsStale (ingest_lines F std from_json none lines st).1 (split_docker_ts line)
  unfolding ingest_lines
  Among-IsStale line [] st h = absurd h
  Among-IsStale line (x ∷ xs) st (inl e) =
      let st' = ingest_line F std from_json none (split_docker_ts x) st in
      rw e (later-IsStale (split_docker_ts x) xs st' (first-IsStale (split_docker_ts x) st))
  Among-IsStale line (x ∷ xs) st (inr h) =
      Among-IsStale line xs (ingest_line F std from_json none (split_docker_ts x) st) h

  -- Stale lines change nothing.
  stale_line :
      (newest : Option String) (line : Option (String × String)) (st : State)
      → IsStale newest line
      → ingest_line F std from_json newest line st ≡ st
  unfolding ingest_line
  stale_line newest none st h = refl
  stale_line none (some (ts, rest)) st h = cc
  stale_line (some n) (some (ts, rest)) (d, m) h = rw (str_le-eq-not n ts) (rw h refl)

  stale_lines :
      (newest : Option String) (lines : List String) (st : State)
      → All (λ line. IsStale newest (split_docker_ts line)) lines
      → ingest_lines F std from_json newest lines st ≡ st
  unfolding ingest_lines
  stale_lines newest [] st h = refl
  stale_lines newest (line ∷ rest) st h =
      ap (ingest_lines F std from_json newest rest)
        (stale_line newest (split_docker_ts line) st h.0)
      ∙ stale_lines newest rest st h.1

  add_parsed-log :
      (rest : String) (ts : String) (h : List (AuditRecord F))
      → add_parsed F std from_json (log F std h) (parse_audit F std from_json rest)
        ≡ log F std (record_onto (some (ts, rest)) h)
  unfolding add_parsed record_onto log
  add_parsed-log rest ts h = elim (Option-cases (parse_audit F std from_json rest)) [
    | inl e ↦ rw (e, record_onto) refl
    | inr (r, e) ↦ rw (e, record_onto) refl
  ]

  -- A line that is later adds its record.
  fresh_line :
      (newest : Option String) (line : Option (String × String)) (h : List (AuditRecord F))
      (m : Option String)
      → is_later newest line ≡ true
      → (ingest_line F std from_json newest line (log F std h, m)).0
        ≡ log F std (record_onto line h)
  unfolding ingest_line record_onto
  fresh_line newest none h m e = refl
  fresh_line none (some (ts, rest)) h m e = add_parsed-log rest ts h
  fresh_line (some n) (some (ts, rest)) h m e =
      rw (str_le-eq-not n ts) (rw e (add_parsed-log rest ts h))

  fresh_lines :
      (newest : Option String) (lines : List String) (h : List (AuditRecord F)) (d : LogDelta F)
      (m : Option String)
      → d ≡ log F std h
      → All (Later newest) lines
      → (ingest_lines F std from_json newest lines (d, m)).0 ≡ log F std (records_onto lines h)
  unfolding ingest_lines records_onto
  fresh_lines newest [] h d m e l = e
  fresh_lines newest (line ∷ rest) h d m e l =
      let st = ingest_line F std from_json newest (split_docker_ts line) (d, m) in
      fresh_lines newest rest (record_onto (split_docker_ts line) h) st.0 st.1
        (ap (λ c. (ingest_line F std from_json newest (split_docker_ts line) (c, m)).0) e
          ∙ fresh_line newest (split_docker_ts line) h m l.0)
        l.1

  All-Later : (lines : List String) → All (Later none) lines
  All-Later [] = tt
  All-Later (line ∷ rest) = (anything (split_docker_ts line), All-Later rest)
    where
      anything : (l : Option (String × String)) → is_later none l ≡ true
      anything none = refl
      anything (some (ts, rest)) = refl

  ingest_lines-append :
      (newest : Option String) (again new : List String) (st : State)
      → ingest_lines F std from_json newest (again ++ new) st
        ≡ ingest_lines F std from_json newest new (ingest_lines F std from_json newest again st)
  unfolding ingest_lines
  ingest_lines-append newest [] new st = refl
  ingest_lines-append newest (line ∷ again) new st =
      ingest_lines-append newest again new
        (ingest_line F std from_json newest (split_docker_ts line) st)

  Among-All :
      (old again : List String)
      → All (λ line. Among line old) again
      → All (λ line. IsStale (read none old).1 (split_docker_ts line)) again
  Among-All old [] h = tt
  Among-All old (line ∷ again) h =
      (Among-IsStale line old (no_delta F, none) h.0, Among-All old again h.1)

  second_read :
      (old again new : List String)
      → All (λ line. Among line old) again
      → All (Later (read none old).1) new
      → (read (read none old).1 (again ++ new)).0 ≡ log F std (records new)
  unfolding log
  second_read old again new h l =
      ap (λ (st : State). st.0)
        (ingest_lines-append (read none old).1 again new (no_delta F, (read none old).1))
      ∙ (ap (λ st. (ingest_lines F std from_json (read none old).1 new st).0)
            (stale_lines (read none old).1 again (no_delta F, (read none old).1)
              (Among-All old again h))
          ∙ fresh_lines (read none old).1 new [] (no_delta F) (read none old).1 refl l)

  resume_lines :
      (old again new : List String)
      → All (λ line. Among line old) again
      → All (Later (read none old).1) new
      → (p : Bool)
      → IsCounted F std p (records old ++ records new) (
          parts F std
            (lane_of F std p (merge F (read none old).0 (read (read none old).1 (again ++ new)).0)))
  unfolding log
  resume_lines old again new h l p =
      rw
        (
          fresh_lines none old [] (no_delta F) none refl (All-Later old),
          second_read old again new h l,
        )
        (merge_exact F std p (records old) (records new))

  -- The log is read twice, the second time from the newest stamp of the first read on. If the second
  -- text has lines of the first one again and then only lines that are later or no records, the
  -- merged counts of the two reads are those of each record once: none is counted twice, none is
  -- lost.
  pub resume_exact :
      (first second : String) (again new : List String)
      → lines second ≡ again ++ new
      → All (λ line. Among line (lines first)) again
      → All (Later (ingest F std from_json first none).1) new
      → (p : Bool)
      → IsCounted F std p (records (lines first) ++ records new) (
          parts F std (
            lane_of F std p (
              merge F
                (ingest F std from_json first none).0
                (ingest F std from_json second (ingest F std from_json first none).1).0)))
  unfolding ingest
  resume_exact first second again new e h l p = rw e (resume_lines (lines first) again new h l p)
