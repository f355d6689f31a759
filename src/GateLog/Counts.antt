-- ===== src/GateLog/Counts.antt =====
-- The counts of the gateway's log over the records that were added, newest first.
use mathlib.Core.Path.{subst}
use lss.Base.{
  ℕ, ◌+◌, ◌≡◌, refl, sym, ap, ◌∙◌, inl, inr, String, Option, none, some, Bool, true, false, not,
  ◌&&◌, List, [], ◌∷◌, arith, ◌==◌, if◌then◌else◌, Bool-cases, Option-cases, unwrap_or, str_eq,
  eq_iff,
}
use lss.Base.Float.{F64}
use lss.Base.Map.{Ord, BTreeMap, get, update, get-update, nat_ord, string_ord}
use lss.Base.Order.{nat_lawful, string_lawful}
use lss.GateLog.{AuditRecord}
use lss.GateLog.Lane.{
  Addresses, count_status, count_name, LaneLog, LogDelta, no_delta, sane, answered, who,
  count_request, note_est, note_ip, note_prompt, time_by_size, note_size, user_exp, note_user,
  note_completion, add_to_lane, add,
}

abbrev bumped : Bool → ℕ → ℕ
bumped b n = if b then n + 1 else n

-- how many elements pass a test
unfoldable pub count : {A : Type 0} → (A → Bool) → List A → ℕ
count p [] = 0
count p (x ∷ xs) = let rest = count p xs in if p x then rest + 1 else rest

count_or :
    {K : Type 0} ⦃o : Ord K⦄ (m : BTreeMap K ℕ) (k j : K)
    → unwrap_or (get (update m k 0 (λ n. n + 1)) j) 0 ≡ bumped (o.beq k j) (unwrap_or (get m j) 0)
count_or ⦃o⦄ m k j = elim (Bool-cases (o.beq k j)) [
  | inl e ↦ rw (get-update m k j 0 (λ n. n + 1), e, (o.beq_iff k j).0 e) refl
  | inr e ↦ rw (get-update m k j 0 (λ n. n + 1), e) refl
]

module _ (F : F64) (std : Addresses) where
  unfoldable pub log : List (AuditRecord F) → LogDelta F
  log [] = no_delta F
  log (r ∷ h) = add F std (log h) r

  -- true: the public lane
  unfoldable pub lane_of : Bool → LogDelta F → LaneLog F
  lane_of true d = d.public_lane
  lane_of false d = d.trusted_lane

  abbrev pub in_lane : Bool → AuditRecord F → Bool
  in_lane public_lane r =
      if public_lane then str_eq r.caller "public" else not (str_eq r.caller "public")

  abbrev pub is_post : AuditRecord F → Bool
  is_post r = str_eq r.method "POST"

  abbrev pub key_of : AuditRecord F → String
  key_of r = unwrap_or r.key "(no key)"

  -- the counts of a lane
  abbrev pub Parts : Type 0
  Parts =
      ℕ × ℕ × BTreeMap ℕ ℕ × BTreeMap String ℕ × BTreeMap String ℕ × BTreeMap String (BTreeMap ℕ ℕ)

  abbrev pub parts : LaneLog F → Parts
  parts l = (l.requests, l.other, l.by_status, l.by_verdict, l.by_key, l.by_key_status)

  parts-est : (r : AuditRecord F) (l : LaneLog F) → parts (note_est F r l) ≡ parts l
  unfolding note_est
  parts-est r l = elim (Option-cases (sane F r.estimated_tokens)) [
    | inl e ↦ rw (e, note_est) refl
    | inr (v, e) ↦ rw (e, note_est) refl
  ]

  parts-ip : (r : AuditRecord F) (l : LaneLog F) → parts (note_ip F std r l) ≡ parts l
  unfolding note_ip
  parts-ip r l = elim (Option-cases r.ip) [ inl e ↦ rw e refl | inr (v, e) ↦ rw e refl ]

  parts-prompt : (r : AuditRecord F) (l : LaneLog F) → parts (note_prompt F r l) ≡ parts l
  unfolding note_prompt
  parts-prompt r l = elim (Option-cases (if answered F r then sane F r.est_tokens else none)) [
    | inl e ↦ rw (e, note_prompt) refl
    | inr (v, e) ↦ rw (e, note_prompt) refl
  ]

  parts-by_size : (p t : Option F.Float) (l : LaneLog F) → parts (time_by_size F p t l) ≡ parts l
  unfolding time_by_size
  parts-by_size none t l = refl
  parts-by_size (some p) none l = refl
  parts-by_size (some p) (some t) l = refl

  parts-size : (r : AuditRecord F) (l : LaneLog F) → parts (note_size F r l) ≡ parts l
  unfolding note_size
  parts-size r l = elim (Bool-cases (answered F r)) [
    | inl e ↦ rw e (parts-by_size (sane F r.est_tokens) (sane F r.ttfb_ms) l)
    | inr e ↦ rw e refl
  ]

  parts-user_exp :
      (r : AuditRecord F) (t : F.Float) (u : Option String) (l : LaneLog F)
      → parts (user_exp F r t u l) ≡ parts l
  unfolding user_exp
  parts-user_exp r t none l = refl
  parts-user_exp r t (some u) l = ground arith

  parts-user : (r : AuditRecord F) (l : LaneLog F) → parts (note_user F r l) ≡ parts l
  unfolding note_user
  parts-user r l = elim (Option-cases (if answered F r then sane F r.ttfb_ms else none)) [
    | inl e ↦ rw (e, note_user) refl
    | inr (v, e) ↦ rw (e, note_user) (parts-user_exp r v (who F r) l)
  ]

  parts-completion : (r : AuditRecord F) (l : LaneLog F) → parts (note_completion F r l) ≡ parts l
  unfolding note_completion
  parts-completion r l =
      elim (Option-cases (if answered F r then sane F r.completion_tokens else none)) [
        | inl e ↦ rw (e, note_completion) refl
        | inr (v, e) ↦ rw (e, note_completion) refl
      ]

  -- Of a POST only the first step counts.
  pub parts-add_post :
      (r : AuditRecord F) (l : LaneLog F)
      → is_post r ≡ true
      → parts (add_to_lane F std r l) ≡ parts (count_request F r l)
  unfolding add_to_lane
  parts-add_post r l e = rw e (
      parts-completion r _
      ∙ parts-user r _
      ∙ parts-size r _
      ∙ parts-prompt r _
      ∙ parts-ip r _
      ∙ parts-est r _)

  pub parts-add_other :
      (r : AuditRecord F) (l : LaneLog F)
      → is_post r ≡ false
      → parts (add_to_lane F std r l) ≡ parts (record l { other = l.other + 1 })
  unfolding add_to_lane
  parts-add_other r l e = rw e refl

  -- a POST of a lane, and anything else that the lane logged
  abbrev pub request : Bool → AuditRecord F → Bool
  request p r = in_lane p r && is_post r

  abbrev pub other_line : Bool → AuditRecord F → Bool
  other_line p r = in_lane p r && not (is_post r)

  abbrev pub status_of : String → BTreeMap String (BTreeMap ℕ ℕ) → BTreeMap ℕ ℕ
  status_of k m = unwrap_or (get m k) []

  -- The specification: every count is the number of the records that it names.
  pub record IsCounted (p : Bool) (h : List (AuditRecord F)) (c : Parts) : Type 0 where
    pub requests : c.0 ≡ count (request p) h
    pub others : c.1 ≡ count (other_line p) h
    pub by_status : (s : ℕ) → unwrap_or (get c.2 s) 0 ≡ count (λ r. request p r && r.status == s) h
    pub by_verdict :
        (v : String) → unwrap_or (get c.3 v) 0 ≡ count (λ r. request p r && str_eq r.verdict v) h
    pub by_key :
        (k : String) → unwrap_or (get c.4 k) 0 ≡ count (λ r. request p r && str_eq (key_of r) k) h
    pub by_key_status :
        (k : String) (s : ℕ)
        → unwrap_or (get (status_of k c.5) s) 0
          ≡ count (λ r. request p r && str_eq (key_of r) k && r.status == s) h

  count_key_status :
      (m : BTreeMap String (BTreeMap ℕ ℕ)) (key k : String) (s c : ℕ)
      → unwrap_or (get (status_of k (update m key [] (λ codes. count_status codes s))) c) 0
        ≡ bumped (str_eq key k && s == c) (unwrap_or (get (status_of k m) c) 0)
  unfolding count_status
  count_key_status m key k s c = elim (Bool-cases (str_eq key k)) [
    | inl e ↦
        rw (get-update m key k [] (λ codes. count_status codes s), e, (eq_iff key k).0 e)
          (count_or (status_of k m) s c)
    | inr e ↦ rw (get-update m key k [] (λ codes. count_status codes s), e) refl
  ]

  module _ (p : Bool) (r : AuditRecord F) (h : List (AuditRecord F)) where
    abbrev Post : Type 0
    Post = (in_lane p r ≡ true) × (is_post r ≡ true)

    count_request-IsCounted :
        (l : LaneLog F)
        → Post
        → IsCounted p h (parts l)
        → IsCounted p (r ∷ h) (parts (count_request F r l))
    unfolding count_request count_status count_name count
    count_request-IsCounted l (e, f) v = record {
      requests = rw (e, f) (omega (arith, v.requests));
      others = rw (e, f) v.others;
      by_status = λ s.
          rw (e, f) (count_or l.by_status r.status s ∙ ap (bumped (r.status == s)) (v.by_status s));
      by_verdict = λ s.
          rw (e, f)
            (count_or l.by_verdict r.verdict s ∙ ap (bumped (str_eq r.verdict s)) (v.by_verdict s));
      by_key = λ s.
          rw (e, f)
            (count_or l.by_key (key_of r) s ∙ ap (bumped (str_eq (key_of r) s)) (v.by_key s));
      by_key_status = λ k s.
          rw (e, f)
            (count_key_status l.by_key_status (key_of r) k r.status s
              ∙ ap (bumped (str_eq (key_of r) k && r.status == s)) (v.by_key_status k s));
    }

    other-IsCounted :
        (l : LaneLog F)
        → in_lane p r ≡ true
        → is_post r ≡ false
        → IsCounted p h (parts l)
        → IsCounted p (r ∷ h) (parts (record l { other = l.other + 1 }))
    unfolding count
    other-IsCounted l e f v = record {
      requests = rw (e, f) v.requests;
      others = rw (e, f) (omega (arith, v.others));
      by_status = λ s. rw (e, f) (v.by_status s);
      by_verdict = λ s. rw (e, f) (v.by_verdict s);
      by_key = λ s. rw (e, f) (v.by_key s);
      by_key_status = λ k s. rw (e, f) (v.by_key_status k s);
    }

    skip-IsCounted : (c : Parts) → in_lane p r ≡ false → IsCounted p h c → IsCounted p (r ∷ h) c
    unfolding count
    skip-IsCounted c e v = record {
      requests = rw e v.requests;
      others = rw e v.others;
      by_status = λ s. rw e (v.by_status s);
      by_verdict = λ s. rw e (v.by_verdict s);
      by_key = λ s. rw e (v.by_key s);
      by_key_status = λ k s. rw e (v.by_key_status k s);
    }

    add_to_lane-IsCounted :
        (l : LaneLog F)
        → in_lane p r ≡ true
        → IsCounted p h (parts l)
        → IsCounted p (r ∷ h) (parts (add_to_lane F std r l))
    add_to_lane-IsCounted l e v = elim (Bool-cases (is_post r)) [
      | inl f ↦
          subst (IsCounted p (r ∷ h)) (sym (parts-add_post r l f))
            (count_request-IsCounted l (e, f) v)
      | inr f ↦ subst (IsCounted p (r ∷ h)) (sym (parts-add_other r l f)) (other-IsCounted l e f v)
    ]

  -- A lane of the log after one more record.
  pub lane_of-add :
      (p : Bool) (r : AuditRecord F) (d : LogDelta F)
      → lane_of p (add F std d r)
        ≡ (if in_lane p r then add_to_lane F std r (lane_of p d) else lane_of p d)
  unfolding lane_of add
  lane_of-add true r d = ground arith
  lane_of-add false r d = ground arith

  pub lane-IsCounted :
      (p : Bool) (h : List (AuditRecord F)) → IsCounted p h (parts (lane_of p (log h)))
  unfolding log lane_of count get
  lane-IsCounted true [] = record {
    requests = refl;
    others = refl;
    by_status = λ s. refl;
    by_verdict = λ s. refl;
    by_key = λ s. refl;
    by_key_status = λ k s. refl;
  }
  lane-IsCounted false [] = record {
    requests = refl;
    others = refl;
    by_status = λ s. refl;
    by_verdict = λ s. refl;
    by_key = λ s. refl;
    by_key_status = λ k s. refl;
  }
  lane-IsCounted p (r ∷ h) =
      let v = lane-IsCounted p h in
      subst (λ l. IsCounted p (r ∷ h) (parts l)) (sym (lane_of-add p r (log h)))
        (elim (Bool-cases (in_lane p r)) [
          | inl e ↦ rw e (add_to_lane-IsCounted p r h (lane_of p (log h)) e v)
          | inr e ↦ rw e (skip-IsCounted p r h (parts (lane_of p (log h))) e v)
        ])
