-- ===== src/GateLog/Merged.antt =====
-- Merged logs, and the status classes: both rely on the order of the maps.
use mathlib.Core.Path.{subst}
use lss.Base.{
  ℕ, ◌+◌, ◌/◌, ◌≡◌, refl, sym, ap, ◌∙◌, inl, inr, String, Bool, true, false, ◌&&◌, List, [], ◌∷◌,
  ◌++◌, arith, ◌==◌, if◌then◌else◌, Bool-cases, Option-cases, unwrap_or, str_eq,
}
use lss.Base.Float.{F64}
use lss.Base.Map.{Ord, BTreeMap, get, update, merge_with, get-update, nat_ord, string_ord}
use lss.Base.Map.Sorted.{IsSorted, update-IsSorted, get-merge_with, sum_where, sum_where-update}
use lss.Base.Order.{LawfulOrd, nat_lawful, string_lawful}
use lss.GateLog.{AuditRecord}
use lss.GateLog.Lane.{
  Addresses, count_status, count_name, sum_counts, LaneLog, classes_of, classes, count_request,
  add_to_lane, merge_lane, merge,
}
use lss.GateLog.Counts.{
  count, log, lane_of, lane_of-add, in_lane, is_post, key_of, request, other_line, Parts, parts,
  status_of, IsCounted, parts-add_post, parts-add_other, lane-IsCounted,
}

count-append :
    {A : Type 0} (p : A → Bool) (xs ys : List A) → count p (xs ++ ys) ≡ count p xs + count p ys
unfolding count
count-append p [] ys = omega arith
count-append p (x ∷ xs) ys = ground (arith, count-append p xs ys)

sum_counts_lem :
    {K : Type 0} ⦃o : Ord K⦄ ⦃l : LawfulOrd K⦄ (m m' : BTreeMap K ℕ) (k : K)
    → IsSorted m'
    → unwrap_or (get (sum_counts m m') k) 0 ≡ unwrap_or (get m k) 0 + unwrap_or (get m' k) 0
sum_counts_lem m m' k s = elim (Option-cases (get m' k)) [
  | inl e ↦ rw (get-merge_with (λ (a b : ℕ). a + b) 0 m m' k s, e) (omega arith)
  | inr (v, e) ↦ rw (get-merge_with (λ (a b : ℕ). a + b) 0 m m' k s, e) refl
]

module _ (F : F64) (std : Addresses) where
  pub record IsOrdered (c : Parts F std) : Type 0 where
    pub by_status : IsSorted c.2
    pub by_verdict : IsSorted c.3
    pub by_key : IsSorted c.4
    pub by_key_status : IsSorted c.5
    pub codes : (k : String) → IsSorted (status_of F std k c.5)

  codes-update :
      (m : BTreeMap String (BTreeMap ℕ ℕ)) (key : String) (s : ℕ)
      → ((k : String) → IsSorted (status_of F std k m))
      → (k : String)
      → IsSorted (status_of F std k (update m key [] (λ codes. count_status codes s)))
  unfolding count_status
  codes-update m key s h k = elim (Bool-cases (str_eq key k)) [
    | inl e ↦
        rw (get-update m key k [] (λ codes. count_status codes s), e)
          (update-IsSorted (status_of F std key m) s 0 (λ n. n + 1) (h key))
    | inr e ↦ rw (get-update m key k [] (λ codes. count_status codes s), e) (h k)
  ]

  count_request-IsOrdered :
      (r : AuditRecord F) (l : LaneLog F)
      → IsOrdered (parts F std l)
      → IsOrdered (parts F std (count_request F r l))
  unfolding count_request count_status count_name
  count_request-IsOrdered r l v = record {
    by_status = update-IsSorted l.by_status r.status 0 (λ n. n + 1) v.by_status;
    by_verdict = update-IsSorted l.by_verdict r.verdict 0 (λ n. n + 1) v.by_verdict;
    by_key = update-IsSorted l.by_key (unwrap_or r.key "(no key)") 0 (λ n. n + 1) v.by_key;
    by_key_status =
        update-IsSorted l.by_key_status (unwrap_or r.key "(no key)") []
          (λ codes. count_status codes r.status) v.by_key_status;
    codes = codes-update l.by_key_status (unwrap_or r.key "(no key)") r.status v.codes;
  }

  add_to_lane-IsOrdered :
      (r : AuditRecord F) (l : LaneLog F)
      → IsOrdered (parts F std l)
      → IsOrdered (parts F std (add_to_lane F std r l))
  add_to_lane-IsOrdered r l v = elim (Bool-cases (is_post F std r)) [
    | inl f ↦ subst IsOrdered (sym (parts-add_post F std r l f)) (count_request-IsOrdered r l v)
    | inr f ↦ subst IsOrdered (sym (parts-add_other F std r l f)) record {
      by_status = v.by_status;
      by_verdict = v.by_verdict;
      by_key = v.by_key;
      by_key_status = v.by_key_status;
      codes = v.codes;
    }
  ]

  abbrev no_parts : Parts F std
  no_parts = (0, 0, [], [], [], [])

  none-IsOrdered : IsOrdered no_parts
  unfolding get
  none-IsOrdered = record {
    by_status = tt;
    by_verdict = tt;
    by_key = tt;
    by_key_status = tt;
    codes = λ k. tt;
  }

  pub lane-IsOrdered :
      (p : Bool) (h : List (AuditRecord F))
      → IsOrdered (parts F std (lane_of F std p (log F std h)))
  unfolding log lane_of
  lane-IsOrdered true [] = none-IsOrdered
  lane-IsOrdered false [] = none-IsOrdered
  lane-IsOrdered p (r ∷ h) =
      subst (λ l. IsOrdered (parts F std l)) (sym (lane_of-add F std p r (log F std h)))
        (elim (Bool-cases (in_lane F std p r)) [
          | inl e ↦
              rw e (add_to_lane-IsOrdered r (lane_of F std p (log F std h)) (lane-IsOrdered p h))
          | inr e ↦ rw e (lane-IsOrdered p h)
        ])

  key_status_sum :
      (k : String) (s : ℕ) (m m' : BTreeMap String (BTreeMap ℕ ℕ))
      → IsSorted m'
      → IsSorted (status_of F std k m')
      → unwrap_or (get (status_of F std k (merge_with sum_counts [] m m')) s) 0
        ≡ unwrap_or (get (status_of F std k m) s) 0 + unwrap_or (get (status_of F std k m') s) 0
  unfolding get
  key_status_sum k s m m' o c = elim (Option-cases (get m' k)) [
    | inl e ↦ rw (get-merge_with sum_counts [] m m' k o, e) (omega arith)
    | inr (v, e) ↦
        rw (get-merge_with sum_counts [] m m' k o, e)
          (sum_counts_lem (status_of F std k m) v s (subst (λ t. IsSorted (unwrap_or t [])) e c))
  ]

  -- The log of some records merged with that of others has the counts of the log of them all.
  pub merge_lane-IsCounted :
      (p : Bool) (h h' : List (AuditRecord F)) (l l' : LaneLog F)
      → IsOrdered (parts F std l')
      → IsCounted F std p h (parts F std l)
      → IsCounted F std p h' (parts F std l')
      → IsCounted F std p (h ++ h') (parts F std (merge_lane F l l'))
  unfolding merge_lane
  merge_lane-IsCounted p h h' l l' o v v' = record {
    requests = omega (arith, v.requests, v'.requests, count-append (request F std p) h h');
    others = omega (arith, v.others, v'.others, count-append (other_line F std p) h h');
    by_status = λ s.
        sum_counts_lem l.by_status l'.by_status s o.by_status
        ∙ omega (
          arith,
          v.by_status s,
          v'.by_status s,
          count-append (λ r. request F std p r && r.status == s) h h',
        );
    by_verdict = λ s.
        sum_counts_lem l.by_verdict l'.by_verdict s o.by_verdict
        ∙ omega (
          arith,
          v.by_verdict s,
          v'.by_verdict s,
          count-append (λ r. request F std p r && str_eq r.verdict s) h h',
        );
    by_key = λ s.
        sum_counts_lem l.by_key l'.by_key s o.by_key
        ∙ omega (
          arith,
          v.by_key s,
          v'.by_key s,
          count-append (λ r. request F std p r && str_eq (key_of F std r) s) h h',
        );
    by_key_status = λ k s.
        key_status_sum k s l.by_key_status l'.by_key_status o.by_key_status (o.codes k)
        ∙ omega (
          arith,
          v.by_key_status k s,
          v'.by_key_status k s,
          count-append (λ r. request F std p r && str_eq (key_of F std r) k && r.status == s) h h',
        );
  }

  -- The logs of two stretches, merged, count what the log of both counts: in either lane, the
  -- requests, the other lines, and the requests by status, by verdict, by key and by key and status.
  pub merge_exact :
      (p : Bool) (h h' : List (AuditRecord F))
      → IsCounted F std p
          (h ++ h')
          (parts F std (lane_of F std p (merge F (log F std h) (log F std h'))))
  unfolding merge lane_of
  merge_exact true h h' =
      merge_lane-IsCounted true h h' (log F std h).public_lane (log F std h').public_lane
        (lane-IsOrdered true h') (lane-IsCounted F std true h) (lane-IsCounted F std true h')
  merge_exact false h h' =
      merge_lane-IsCounted false h h' (log F std h).trusted_lane (log F std h').trusted_lane
        (lane-IsOrdered false h') (lane-IsCounted F std false h) (lane-IsCounted F std false h')

  abbrev in_class : ℕ → ℕ → Bool
  in_class c status = status / 100 == c

  classes_of-sum :
      (m : BTreeMap ℕ ℕ) (a b c : ℕ)
      → classes_of F m (a, b, c)
        ≡ (a + sum_where (in_class 2) m, b + sum_where (in_class 4) m, c + sum_where (in_class 5) m)
  unfolding classes_of sum_where
  classes_of-sum [] a b c = ground arith
  classes_of-sum ((status, n) ∷ m) a b c = ground (
    arith,
    classes_of-sum m (a + n) b c,
    classes_of-sum m a (b + n) c,
    classes_of-sum m a b (c + n),
    classes_of-sum m a b c,
  )

  posted_sum :
      (q : ℕ → Bool) (r : AuditRecord F) (l : LaneLog F)
      → IsOrdered (parts F std l)
      → (n : ℕ) → sum_where q l.by_status ≡ n
      → sum_where q (count_request F r l).by_status ≡ (if q r.status then n + 1 else n)
  unfolding count_request count_status
  posted_sum q r l o n e = ground (arith, sum_where-update q l.by_status r.status o.by_status)

  -- The requests of a lane whose status has a property, as its map of counts says.
  pub status_sum :
      (q : ℕ → Bool) (p : Bool) (h : List (AuditRecord F))
      → sum_where q (lane_of F std p (log F std h)).by_status
        ≡ count (λ r. request F std p r && q r.status) h
  unfolding log lane_of sum_where count
  status_sum q true [] = refl
  status_sum q false [] = refl
  status_sum q p (r ∷ h) =
      let l = lane_of F std p (log F std h) in
      ap (λ d. sum_where q d.by_status) (lane_of-add F std p r (log F std h))
      ∙ elim (Bool-cases (in_lane F std p r)) [
        | inl e ↦ elim (Bool-cases (is_post F std r)) [
          | inl f ↦
              rw (e, f)
                (ap (λ (c : Parts F std). sum_where q c.2) (parts-add_post F std r l f)
                  ∙ posted_sum q r l (lane-IsOrdered p h) _ (status_sum q p h))
          | inr f ↦
              rw (e, f)
                (ap (λ (c : Parts F std). sum_where q c.2) (parts-add_other F std r l f)
                  ∙ status_sum q p h)
        ]
        | inr e ↦ rw e (status_sum q p h)
      ]

  classes_exact :
      (p : Bool) (h : List (AuditRecord F))
      → classes F (lane_of F std p (log F std h)) ≡ (
        count (λ r. request F std p r && r.status / 100 == 2) h,
        count (λ r. request F std p r && r.status / 100 == 4) h,
        count (λ r. request F std p r && r.status / 100 == 5) h,
      )
  unfolding classes
  classes_exact p h =
      classes_of-sum (lane_of F std p (log F std h)).by_status 0 0 0
      ∙ ground (
        arith,
        status_sum (in_class 2) p h,
        status_sum (in_class 4) p h,
        status_sum (in_class 5) p h,
      )
