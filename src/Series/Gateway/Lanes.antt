-- ===== src/Series/Gateway/Lanes.antt =====
-- build_gateway takes the probes of the collector out of the trusted lane, and nothing else.
use mathlib.Core.Path.{ap₂}
use lss.Base.{
  ap, ◌==◌, ==_iff, ◌&&◌, ℕ, ◌+◌, ◌-◌, ◌≤◌, ◌≡◌, refl, ◌∙◌, inl, inr, String, Option, Bool, true,
  false, List, [], ◌∷◌, arith, ltb, if◌then◌else◌, unwrap_or, Bool-cases, length, map,
}
use lss.Base.Float.{F64}
use lss.Base.Map.{get, insert, get-insert, nat_ord}
use lss.Base.Map.Sorted.{IsSorted, insert-IsSorted, sum_where-insert}
use lss.Base.Order.{nat_lawful}
use lss.GateLog.{AuditRecord}
use lss.GateLog.Lane.{Addresses, LaneLog}
use lss.GateLog.Counts.{lane-IsCounted, log, lane_of, count, request}
use lss.GateLog.Merged.{lane-IsOrdered, status_sum}
use lss.Series.Gateway.{
  CodeCoverage, covers, total_codes, GatewayRow, from_codes, take_request, take_covered, take_probe,
  take_probes, GatewayDoc, gateway_of, build_gateway,
}

module _ (F : F64) (coverage : CodeCoverage) (probe_ip : Option String) where
  -- the requests by status, and those that were taken out
  abbrev whole : LaneLog F × ℕ → ℕ
  whole st = total_codes st.0.by_status + st.1

  taken-status :
      (b : Bool) (code n : ℕ) (l : LaneLog F)
      → (if b
          then take_covered F probe_ip code (take_request F code n l)
          else take_request F code n l).by_status
        ≡ insert l.by_status code (n - 1)
  unfolding take_covered take_request
  taken-status true code n l = refl
  taken-status false code n l = refl

  take_probe-lem :
      (p : ℕ × ℕ) (st : LaneLog F × ℕ)
      → IsSorted st.0.by_status
      → IsSorted (take_probe F coverage probe_ip p st).0.by_status
        × (whole (take_probe F coverage probe_ip p st) ≡ whole st)
        × (st.1 ≤ (take_probe F coverage probe_ip p st).1)
        × ((take_probe F coverage probe_ip p st).1 ≤ st.1 + 1)
  unfolding take_probe total_codes
  take_probe-lem (ts, code) (l, excluded) s =
      let n = unwrap_or (get l.by_status code) 0 in
      elim (Bool-cases (ltb 0 n)) [
        | inr e ↦ rw e (s, refl, omega arith, omega arith)
        | inl e ↦
            rw (e, taken-status (covers coverage ts) code n l)
              (
                insert-IsSorted l.by_status code (n - 1) s,
                ground (arith, e, sum_where-insert (λ c. true) l.by_status code (n - 1) s),
                omega arith,
                omega arith,
              )
      ]

  -- each probe takes out one request of its status, while one is left
  unfoldable pub takes : List (ℕ × ℕ) → (ℕ → ℕ) → ℕ
  takes [] left = 0
  takes ((ts, code) ∷ probes) left =
      (if ltb 0 (left code) then 1 else 0)
      + takes probes (λ c. if code == c then left c - 1 else left c)

  abbrev left_in : LaneLog F → ℕ → ℕ
  left_in l c = unwrap_or (get l.by_status c) 0

  take_probe-left :
      (p : ℕ × ℕ) (st : LaneLog F × ℕ) (c : ℕ)
      → left_in (take_probe F coverage probe_ip p st).0 c
        ≡ (if p.1 == c then left_in st.0 c - 1 else left_in st.0 c)
  unfolding take_probe
  take_probe-left (ts, code) (l, excluded) c = elim (Bool-cases (ltb 0 (left_in l code))) [
    | inr e ↦ rw e (elim (Bool-cases (code == c)) [
      | inl q ↦ rw q (rw (← (==_iff code c).0 q) (ground (arith, e)))
      | inr q ↦ rw q refl
    ])
    | inl e ↦
        rw
          (
            e,
            taken-status (covers coverage ts) code (left_in l code) l,
            get-insert l.by_status code c (left_in l code - 1),
          )
          (elim (Bool-cases (code == c)) [
            | inl q ↦ rw q (ap (λ k. left_in l k - 1) ((==_iff code c).0 q))
            | inr q ↦ rw q refl
          ])
  ]

  take_probe-excluded :
      (p : ℕ × ℕ) (st : LaneLog F × ℕ)
      → (take_probe F coverage probe_ip p st).1 ≡ st.1 + (if ltb 0 (left_in st.0 p.1) then 1 else 0)
  unfolding take_probe
  take_probe-excluded (ts, code) (l, excluded) = elim (Bool-cases (ltb 0 (left_in l code))) [
    | inl e ↦ rw e refl
    | inr e ↦ rw e (omega arith)
  ]

  take_probes-takes :
      (probes : List (ℕ × ℕ)) (st : LaneLog F × ℕ) (left : ℕ → ℕ)
      → ((c : ℕ) → left_in st.0 c ≡ left c)
      → (take_probes F coverage probe_ip probes st).1 ≡ st.1 + takes probes left
  unfolding take_probes takes
  take_probes-takes [] st left h = omega arith
  take_probes-takes ((ts, code) ∷ probes) st left h =
      let after = take_probe F coverage probe_ip (ts, code) st in
      let rest =
        take_probes-takes probes after (λ c. if code == c then left c - 1 else left c)
          (λ c. take_probe-left (ts, code) st c ∙ ap (λ n. if code == c then n - 1 else n) (h c)) in
      let one : after.1 ≡ st.1 + (if ltb 0 (left code) then 1 else 0) =
        take_probe-excluded (ts, code) st ∙ ap (λ n. st.1 + (if ltb 0 n then 1 else 0)) (h code) in
      omega (arith, rest, one)

  take_probes-lem :
      (probes : List (ℕ × ℕ)) (st : LaneLog F × ℕ)
      → IsSorted st.0.by_status
      → (whole (take_probes F coverage probe_ip probes st) ≡ whole st)
        × (st.1 ≤ (take_probes F coverage probe_ip probes st).1)
        × ((take_probes F coverage probe_ip probes st).1 ≤ st.1 + length probes)
  unfolding take_probes
  take_probes-lem [] st s = (refl, omega arith, omega arith)
  take_probes-lem (p ∷ probes) st s =
      let (sorted, same, more, most) = take_probe-lem p st s in
      let (same', more', most') =
        take_probes-lem probes (take_probe F coverage probe_ip p st) sorted in
      (same' ∙ same, omega arith, omega arith)

count-true : {A : Type 0} (p : A → Bool) (xs : List A) → count (λ x. p x && true) xs ≡ count p xs
unfolding count
count-true p [] = refl
count-true p (x ∷ xs) = ground (arith, count-true p xs)

module _ (F : F64) (std : Addresses) where
  -- the lane rows of the document, as their requests
  abbrev pub lane_requests : GatewayDoc F → List ℕ
  lane_requests doc = map (λ (row : GatewayRow F). row.requests) doc.lanes

  total-log :
      (p : Bool) (h : List (AuditRecord F))
      → total_codes (lane_of F std p (log F std h)).by_status ≡ count (request F std p) h
  unfolding total_codes
  total-log p h = status_sum F std (λ c. true) p h ∙ count-true (request F std p) h

  module _ (h : List (AuditRecord F)) (probes : List (ℕ × ℕ)) (coverage : CodeCoverage)
      (probe_ip : Option String) (now range_s : ℕ) where
    -- the document of a log
    abbrev pub doc : GatewayDoc F
    doc = build_gateway F now range_s (log F std h) probes coverage probe_ip

    taken : LaneLog F × ℕ
    taken = take_probes F coverage probe_ip probes ((log F std h).trusted_lane, 0)

    taken-lem :
        (total_codes taken.0.by_status + taken.1 ≡ count (request F std false) h)
        × (taken.1 ≤ length probes)
    unfolding taken lane_of
    taken-lem =
        let l =
          take_probes-lem F coverage probe_ip probes ((log F std h).trusted_lane, 0)
            (lane-IsOrdered F std false h).by_status in
        let logged : total_codes (log F std h).trusted_lane.by_status
            ≡ count (request F std false) h =
          total-log false h in
        (omega (arith, l.0, logged), omega (arith, l.1))

    excluded-takes :
        taken.1
        ≡ takes F coverage probe_ip probes
            (λ c. count (λ r. request F std false r && r.status == c) h)
    unfolding taken lane_of
    excluded-takes =
        let e =
          take_probes-takes F coverage probe_ip probes ((log F std h).trusted_lane, 0)
            (λ c. count (λ r. request F std false r && r.status == c) h)
            (lane-IsCounted F std false h).by_status in
        omega (arith, e)

    -- The document of the gateway shows for the public lane every request that was logged there, and
    -- for the trusted lane every one but those taken out: for each probe in turn, one request of its
    -- status, while one that was logged in the trusted lane is left. No more are taken out than were
    -- logged, and than there are probes.
    pub lanes_exact :
        (lane_requests doc
          ≡ count (request F std true) h
            ∷ (count (request F std false) h - doc.probes_excluded)
            ∷ [])
        × (doc.probes_excluded
            ≡ takes F coverage probe_ip probes
                (λ c. count (λ r. request F std false r && r.status == c) h))
        × (doc.probes_excluded ≤ count (request F std false) h)
        × (doc.probes_excluded ≤ length probes)
    unfolding build_gateway gateway_of from_codes taken lane_of
    lanes_exact =
        let logged : total_codes (log F std h).public_lane.by_status
            ≡ count (request F std true) h =
          total-log true h in
        let trusted : total_codes taken.0.by_status ≡ count (request F std false) h - taken.1 =
          omega (arith, taken-lem) in
        (
          ap₂ (λ a b. a ∷ b ∷ []) logged trusted,
          excluded-takes,
          omega (arith, taken-lem),
          taken-lem.1,
        )
