-- ===== src/Users/Count.antt =====
-- The user table accounts for every user and every request that the gate reports.
use mathlib.Core.List.{append-nil, append_assoc}
use lss.Base.{
  ℕ, ◌+◌, ◌-◌, ◌≤◌, ◌≡◌, refl, sym, ap, ◌∙◌, inl, inr, min, Option, some, Bool, true, false, not,
  ◌&&◌, List, [], ◌∷◌, ◌++◌, arith, filter, ltb, if◌then◌else◌, Bool-cases, length, length-append,
}
use lss.Base.Float.{F64}
use lss.Base.Order.{str_le_trans, str_le_total}
use lss.Base.Sort.{
  sort_by, take, take_all, length-take-le, take-IsOrdered, sum_of, IsOrdered, TotalOrder,
  sum-sort_by, length-sort_by, sort_by-IsOrdered,
}
use lss.Gate.{GateTotals, GateUser}
use lss.GateLog.Lane.{Addresses}
use lss.Users.{UserRow, row_busier, desc}
use lss.Users.Rows.{
  forget_user, Setting, named, is_bench, is_probe_address, without_bench, mine_24h, rest_of,
  is_nobody, Acc, add_user, add_users, start_totals, start, status_of, build_listed,
}

desc_trans :
    (a b c : ℕ) (r s t : Bool)
    → (r ≡ true → s ≡ true → t ≡ true)
    → desc a b r ≡ true
    → desc b c s ≡ true
    → desc a c t ≡ true
desc_trans a b c r s t k h i = ground arith

desc_total :
    (a b : ℕ) (r s : Bool) → (r ≡ false → s ≡ true) → desc a b r ≡ false → desc b a s ≡ true
desc_total a b r s k h = ground arith

length-filter :
    {A : Type 0} (p : A → Bool) (xs : List A)
    → length (filter p xs) ≡ sum_of (λ x. if p x then 1 else 0) xs
unfolding sum_of
length-filter p [] = refl
length-filter p (x ∷ xs) = ground (arith, length-filter p xs)

sum-append :
    {A : Type 0} (f : A → ℕ) (xs ys : List A) → sum_of f (xs ++ ys) ≡ sum_of f xs + sum_of f ys
unfolding sum_of
sum-append f [] ys = omega arith
sum-append f (x ∷ xs) ys = omega (arith, sum-append f xs ys)

module _ (F : F64) where
  row_busier-TotalOrder : TotalOrder (row_busier F)
  row_busier-TotalOrder = record {
    le_trans = λ a b c h i.
        desc_trans a.gate.inflight b.gate.inflight c.gate.inflight _ _ _
          (desc_trans a.gate.requests_24h b.gate.requests_24h c.gate.requests_24h _ _ _
            (str_le_trans a.name b.name c.name))
          h i;
    le_total = λ a b h.
        desc_total a.gate.inflight b.gate.inflight _ _
          (desc_total a.gate.requests_24h b.gate.requests_24h _ _ (str_le_total a.name b.name)) h;
  }

  module _ (std : Addresses) (s : Setting F std) where
    -- The row of a user, if it is neither the bench nor the probe alone.
    pub row_of : GateUser F → List (UserRow F)
    row_of u =
        if is_bench F std u
        then []
        else if not (is_probe_address F std s u)
        then named F std s u ∷ []
        else if is_nobody F std (rest_of F std s u)
        then []
        else named F std s (rest_of F std s u) ∷ []

    pub rows_of : List (GateUser F) → List (UserRow F)
    unfolding row_of
    rows_of [] = []
    rows_of (u ∷ users) = row_of u ++ rows_of users

    add_user-rows :
        (a : Acc F std) (u : GateUser F) → (add_user F std s a u).rows ≡ a.rows ++ row_of u
    unfolding add_user row_of
    add_user-rows a u = elim (Bool-cases (is_bench F std u)) [
      | inl e ↦ rw (e, append-nil a.rows) refl
      | inr e ↦ rw e (elim (Bool-cases (is_probe_address F std s u)) [
        | inr f ↦ rw f refl
        | inl f ↦ rw f (elim (Bool-cases (is_nobody F std (rest_of F std s u))) [
          | inl g ↦ rw (g, append-nil a.rows) refl
          | inr g ↦ rw g refl
        ])
      ])
    ]

    add_users-rows :
        (a : Acc F std) (users : List (GateUser F))
        → (add_users F std s a users).rows ≡ a.rows ++ rows_of users
    unfolding add_users rows_of
    add_users-rows a [] = sym (append-nil a.rows)
    add_users-rows a (u ∷ users) =
        add_users-rows (add_user F std s a u) users
        ∙ (ap (λ rows. rows ++ rows_of users) (add_user-rows a u)
            ∙ append_assoc a.rows (row_of u) (rows_of users))

    -- The table before it is cut.
    abbrev table : Option GateTotals → List (GateUser F) → List (UserRow F)
    table totals users =
        sort_by (row_busier F) (add_users F std s (start F std totals users) users).rows

    sum-table :
        (f : UserRow F → ℕ) (totals : Option GateTotals) (users : List (GateUser F))
        → sum_of f (table totals users) ≡ sum_of f (rows_of users)
    unfolding start
    sum-table f totals users =
        sum-sort_by (row_busier F) f (add_users F std s (start F std totals users) users).rows
        ∙ ap (sum_of f) (add_users-rows (start F std totals users) users)

    -- What a user is in flight with shows in the row, if it is not the bench.
    abbrev pub is_busy : GateUser F → ℕ
    is_busy u = if not (is_bench F std u) && ltb 0 u.inflight then 1 else 0

    abbrev row_is_busy : UserRow F → ℕ
    row_is_busy r = if ltb 0 r.gate.inflight then 1 else 0

    row_of-busy : (u : GateUser F) → sum_of row_is_busy (row_of u) ≡ is_busy u
    unfolding row_of sum_of named rest_of is_nobody
    row_of-busy u = ground arith

    sum-rows_of :
        (f : UserRow F → ℕ) (g : GateUser F → ℕ)
        → ((u : GateUser F) → sum_of f (row_of u) ≡ g u)
        → (users : List (GateUser F)) → sum_of f (rows_of users) ≡ sum_of g users
    unfolding rows_of sum_of
    sum-rows_of f g h [] = refl
    sum-rows_of f g h (u ∷ users) =
        omega (arith, sum-append f (row_of u) (rows_of users), h u, sum-rows_of f g h users)

    -- Active users are those with a request in flight that are not the bench; nobody is lost when
    -- the probe's share is taken out of an address, and the cut to fifty rows comes after the count.
    pub active_exact :
        (totals : Option GateTotals) (users : List (GateUser F))
        → (build_listed F std s totals (some users)).active_now ≡ sum_of is_busy users
    unfolding build_listed status_of
    active_exact totals users =
        length-filter (λ (r : UserRow F). ltb 0 r.gate.inflight) (table totals users)
        ∙ (sum-table row_is_busy totals users ∙ sum-rows_of row_is_busy is_busy row_of-busy users)

    -- The requests of a user that are not the probe's own, if it is not the bench.
    abbrev pub real_requests : GateUser F → ℕ
    real_requests u =
        if is_bench F std u
        then 0
        else if is_probe_address F std s u
        then u.requests_24h - min s.own.probes_24h u.requests_24h
        else u.requests_24h

    row_of-requests :
        (u : GateUser F)
        → sum_of (λ (r : UserRow F). r.gate.requests_24h) (row_of u) ≡ real_requests u
    unfolding row_of sum_of named rest_of mine_24h is_nobody
    row_of-requests u = ground arith

    length-row_of : (u : GateUser F) → length (row_of u) ≤ 1
    unfolding row_of
    length-row_of u = ground arith

    length-rows_of : (users : List (GateUser F)) → length (rows_of users) ≤ length users
    unfolding rows_of
    length-rows_of [] = omega arith
    length-rows_of (u ∷ users) =
        omega
          (arith, length-append (row_of u) (rows_of users), length-row_of u, length-rows_of users)

    table-short :
        (totals : Option GateTotals) (users : List (GateUser F))
        → length users ≤ 50
        → take 50 (table totals users) ≡ table totals users
    unfolding start
    table-short totals users h = take_all 50 (table totals users) (
        omega (
          arith,
          length-sort_by (row_busier F) (add_users F std s (start F std totals users) users).rows,
          ap length (add_users-rows (start F std totals users) users),
          length-rows_of users,
        ))

    -- With at most fifty users, the rows of the table show together exactly the requests of the day
    -- that are neither of the bench nor the probes of the collector.
    pub requests_exact :
        (totals : Option GateTotals) (users : List (GateUser F))
        → length users ≤ 50
        → sum_of
            (λ (r : UserRow F). r.gate.requests_24h)
            (build_listed F std s totals (some users)).rows
          ≡ sum_of real_requests users
    unfolding build_listed status_of
    requests_exact totals users h =
        ap (sum_of (λ (r : UserRow F). r.gate.requests_24h)) (table-short totals users h)
        ∙ (sum-table (λ (r : UserRow F). r.gate.requests_24h) totals users
            ∙ sum-rows_of (λ (r : UserRow F). r.gate.requests_24h) real_requests row_of-requests
                users)

    -- The rows are in order, busiest first, and there are at most fifty.
    pub rows-IsOrdered :
        (totals : Option GateTotals) (users : List (GateUser F))
        → IsOrdered (row_busier F) (build_listed F std s totals (some users)).rows
          × (length (build_listed F std s totals (some users)).rows ≤ 50)
    unfolding build_listed status_of
    rows-IsOrdered totals users = (
      take-IsOrdered (row_busier F) 50 (table totals users) (
          sort_by-IsOrdered (row_busier F) row_busier-TotalOrder
            (add_users F std s (start F std totals users) users).rows),
      length-take-le 50 (table totals users),
    )

    -- What the gate's total of requests in flight becomes.
    bench_inflight : GateUser F → ℕ
    bench_inflight u = if is_bench F std u then u.inflight else 0

    add_user-inflight :
        (a : Acc F std) (u : GateUser F)
        → (add_user F std s a u).totals.inflight ≡ a.totals.inflight - bench_inflight u
    unfolding add_user without_bench forget_user bench_inflight
    add_user-inflight a u = ground arith

    add_users-inflight :
        (a : Acc F std) (users : List (GateUser F))
        → (add_users F std s a users).totals.inflight
          ≡ a.totals.inflight - sum_of bench_inflight users
    unfolding add_users sum_of
    add_users-inflight a [] = omega arith
    add_users-inflight a (u ∷ users) =
        omega (arith, add_users-inflight (add_user F std s a u) users, add_user-inflight a u)

    abbrev pub real_inflight : GateUser F → ℕ
    real_inflight u = if is_bench F std u then 0 else u.inflight

    split_inflight :
        (users : List (GateUser F))
        → sum_of (λ (u : GateUser F). u.inflight) users
          ≡ sum_of bench_inflight users + sum_of real_inflight users
    unfolding sum_of bench_inflight
    split_inflight [] = omega arith
    split_inflight (u ∷ users) = ground (arith, split_inflight users)

    row_of-inflight :
        (u : GateUser F) → sum_of (λ (r : UserRow F). r.gate.inflight) (row_of u) ≡ real_inflight u
    unfolding row_of sum_of named rest_of is_nobody
    row_of-inflight u = ground arith

    -- the gate's total, given or summed, is what its users have in flight
    abbrev pub Consistent : Option GateTotals → List (GateUser F) → Type 0
    Consistent totals users =
        (start_totals F std totals users).inflight ≡ sum_of (λ (u : GateUser F). u.inflight) users

    -- With at most fifty users, if the total of the gate is what its users have in flight, the total
    -- shown and the sum of the rows are both what the users but the bench have in flight, the requests
    -- at the address of the probe among them.
    pub inflight_exact :
        (totals : Option GateTotals) (users : List (GateUser F))
        → Consistent totals users
        → length users ≤ 50
        → ((build_listed F std s totals (some users)).totals.inflight ≡ sum_of real_inflight users)
          × (sum_of
                (λ (r : UserRow F). r.gate.inflight)
                (build_listed F std s totals (some users)).rows
              ≡ sum_of real_inflight users)
    unfolding build_listed status_of start
    inflight_exact totals users c h = (
      omega (arith, add_users-inflight (start F std totals users) users, split_inflight users),
      ap (sum_of (λ (r : UserRow F). r.gate.inflight)) (table-short totals users h)
          ∙ (sum-table (λ (r : UserRow F). r.gate.inflight) totals users
              ∙ sum-rows_of (λ (r : UserRow F). r.gate.inflight) real_inflight row_of-inflight
                  users),
    )
