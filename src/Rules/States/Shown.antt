-- ===== src/Rules/States/Shown.antt =====
-- rules.rs: the rows of rule_states that are shown as firing.
use mathlib.Core.Path.{subst}
use mathlib.Core.List.{Memᴰ}
use mathlib.Core.List.Memᴰ
use lss.Base.{
  ℕ, ◌≡◌, refl, sym, ap, ◌∙◌, inl, inr, String, some, Bool, true, false, List, [], ◌∷◌, ◌++◌, arith,
  leb, ◌==◌, ==_iff, if◌then◌else◌, str_eq, unwrap_or, Bool-cases, ltb, All, All-at, concat, show_ℕ,
  map,
}
use lss.Base.Float.{F64}
use lss.Base.Map.{BTreeMap, get, nat_ord}
use lss.Base.Map.Sorted.{IsSorted}
use lss.Base.Sort.{place, sort_by}
use lss.Config.{RulesConfig}
use lss.Rules.Sustained.{Sustained, idle}
use lss.Rules.Types.{Severity, warn, Host}
use lss.Rules.State.{Engine}
use lss.Rules.Evaluate.{add, add_gpus}
use lss.Rules.States.{RuleState, state_of, sustained_row, timer_rows, disk_rows}
use lss.Rules.States.Rows.{dedup, gpu_indices, gpu_pair, gpu_rows, rule_states}

-- the names of the rows that are shown as firing
unfoldable pub shown_firing : List RuleState → List String
shown_firing [] = []
shown_firing (r ∷ rows) =
    let rest = shown_firing rows in if str_eq r.state "firing" then r.rule ∷ rest else rest

pub there :
    (n : String) (r : RuleState) (rows : List RuleState)
    → Memᴰ n (shown_firing rows)
    → Memᴰ n (shown_firing (r ∷ rows))
unfolding shown_firing
there n r rows m = elim (Bool-cases (str_eq r.state "firing")) [
  | inl e ↦ rw e (Memᴰ.tail m)
  | inr e ↦ rw e m
]

pub here :
    (r : RuleState) (rows : List RuleState)
    → str_eq r.state "firing" ≡ true
    → Memᴰ r.rule (shown_firing (r ∷ rows))
unfolding shown_firing
here r rows e = rw e (Memᴰ.head refl)

pub firing_state : (s : Sustained) → s.announced ≡ true → str_eq (state_of s) "firing" ≡ true
unfolding state_of
firing_state s e = rw e refl

pub announced_here :
    (cooldown now : ℕ) (rule : String) (sev : Severity) (s : Sustained) (threshold value : String)
    (rows : List RuleState)
    → s.announced ≡ true
    → Memᴰ rule (shown_firing (sustained_row cooldown now rule sev s threshold value ∷ rows))
unfolding sustained_row
announced_here cooldown now rule sev s threshold value rows e = here _ rows (firing_state s e)

shown_firing-append :
    (xs ys : List RuleState) → shown_firing (xs ++ ys) ≡ shown_firing xs ++ shown_firing ys
unfolding shown_firing
shown_firing-append [] ys = refl
shown_firing-append (r ∷ xs) ys = elim (Bool-cases (str_eq r.state "firing")) [
  | inl e ↦ rw e (ap (λ l. r.rule ∷ l) (shown_firing-append xs ys))
  | inr e ↦ rw e (shown_firing-append xs ys)
]

pub left :
    (n : String) (xs ys : List RuleState)
    → Memᴰ n (shown_firing xs)
    → Memᴰ n (shown_firing (xs ++ ys))
left n xs ys m = rw (shown_firing-append xs ys) (Memᴰ.append_left (shown_firing ys) m)

pub right :
    (n : String) (xs ys : List RuleState)
    → Memᴰ n (shown_firing ys)
    → Memᴰ n (shown_firing (xs ++ ys))
right n xs ys m = rw (shown_firing-append xs ys) (Memᴰ.append_right (shown_firing xs) m)

-- The indices of the GPUs.
place-has : (i : ℕ) (x : ℕ) (xs : List ℕ) → Memᴰ i (x ∷ xs) → Memᴰ i (place leb x xs)
unfolding place
place-has i x [] m = m
place-has i x (y ∷ ys) m = elim (Bool-cases (leb x y)) [
  | inl e ↦ rw e m
  | inr e ↦ rw e (elim m [
    | Memᴰ.head p ↦ Memᴰ.tail (place-has i x ys (Memᴰ.head p))
    | Memᴰ.tail (Memᴰ.head p) ↦ Memᴰ.head p
    | Memᴰ.tail (Memᴰ.tail q) ↦ Memᴰ.tail (place-has i x ys (Memᴰ.tail q))
  ])
]

sort-has : (i : ℕ) (xs : List ℕ) → Memᴰ i xs → Memᴰ i (sort_by leb xs)
unfolding sort_by
sort-has i [] m = m
sort-has i (x ∷ xs) (Memᴰ.head p) = place-has i x (sort_by leb xs) (Memᴰ.head p)
sort-has i (x ∷ xs) (Memᴰ.tail q) = place-has i x (sort_by leb xs) (Memᴰ.tail (sort-has i xs q))

dedup-has : (i : ℕ) (xs : List ℕ) → Memᴰ i xs → Memᴰ i (dedup xs)
unfolding dedup
dedup-has i [] m = m
dedup-has i (x ∷ []) m = m
dedup-has i (x ∷ y ∷ ys) m = elim (Bool-cases (x == y)) [
  | inr e ↦
      rw e (elim m [ Memᴰ.head p ↦ Memᴰ.head p | Memᴰ.tail q ↦ Memᴰ.tail (dedup-has i (y ∷ ys) q) ])
  | inl e ↦ rw e (elim m [
    | Memᴰ.head p ↦ dedup-has i (y ∷ ys) (Memᴰ.head (p ∙ (==_iff x y).0 e))
    | Memᴰ.tail q ↦ dedup-has i (y ∷ ys) q
  ])
]

get-has :
    (m : BTreeMap ℕ Sustained) (i : ℕ) (s : Sustained)
    → IsSorted m
    → Memᴰ (i, s) m
    → get m i ≡ some s
unfolding get
get-has [] i s o m = elim m [ ]
get-has ((j, t) ∷ l) i s o (Memᴰ.head p) =
    rw (← ap (λ (q : ℕ × Sustained). q.0) p, (==_iff i i).1 refl)
      (ap some (sym (ap (λ (q : ℕ × Sustained). q.1) p)))
get-has ((j, t) ∷ l) i s o (Memᴰ.tail q) = elim (Bool-cases (j == i)) [
  | inl e ↦
      let above = All-at (λ (p : ℕ × Sustained). ltb j p.0 ≡ true) l (i, s) q o.0 in
      absurd (ground (arith, above, e))
  | inr e ↦ rw e (get-has l i s o.1 q)
]

module _ (F : F64) (host : Host) (cfg : RulesConfig F) where
  -- the table shows the rule as firing
  abbrev pub Shown : Engine F → ℕ → String → Type 0
  Shown e now n = Memᴰ n (shown_firing (rule_states F host cfg e now))

  gpu-here :
      (e : Engine F) (now i : ℕ) (is : List ℕ) (n : String)
      → Memᴰ i is
      → Memᴰ n (shown_firing (gpu_pair F host cfg e now i))
      → Memᴰ n (shown_firing (gpu_rows F host cfg e now is))
  unfolding gpu_rows
  gpu-here e now i [] n m h = elim m [ ]
  gpu-here e now i (j ∷ is) n (Memᴰ.head p) h =
      left n (gpu_pair F host cfg e now j) (gpu_rows F host cfg e now is)
        (subst (λ k. Memᴰ n (shown_firing (gpu_pair F host cfg e now k))) p h)
  gpu-here e now i (j ∷ is) n (Memᴰ.tail m) h =
      right n (gpu_pair F host cfg e now j) (gpu_rows F host cfg e now is)
        (gpu-here e now i is n m h)

  gpu-Shown :
      (e : Engine F) (now i : ℕ) (n : String)
      → Memᴰ i (gpu_indices F host cfg e)
      → Memᴰ n (shown_firing (gpu_pair F host cfg e now i))
      → Shown e now n
  unfolding rule_states
  gpu-Shown e now i n m h = right n (timer_rows F cfg e now) _ (
      right n (disk_rows F cfg e now) _ (
        left n (gpu_rows F host cfg e now (gpu_indices F host cfg e)) _
          (gpu-here e now i (gpu_indices F host cfg e) n m h)))

  pub temp-Shown :
      (e : Engine F) (now i : ℕ) (s : Sustained)
      → IsSorted e.thermal_temp
      → Memᴰ (i, s) e.thermal_temp
      → s.announced ≡ true
      → Shown e now (concat ("thermal_temp:gpu" ∷ show_ℕ i ∷ []))
  unfolding gpu_indices gpu_pair
  temp-Shown e now i s o m a =
      gpu-Shown e now i _
        (dedup-has i _
          (sort-has i _ (Memᴰ.append_left _ (Memᴰ.map (λ (p : ℕ × Sustained). p.0) m))))
        (announced_here cfg.cooldown_secs now _ warn (unwrap_or (get e.thermal_temp i) idle) _ _ _
          (rw (get-has e.thermal_temp i s o m) a))

  pub throttle-Shown :
      (e : Engine F) (now i : ℕ) (s : Sustained)
      → IsSorted e.thermal_throttle
      → Memᴰ (i, s) e.thermal_throttle
      → s.announced ≡ true
      → Shown e now (concat ("thermal_throttle:gpu" ∷ show_ℕ i ∷ []))
  unfolding gpu_indices gpu_pair
  throttle-Shown e now i s o m a =
      gpu-Shown e now i _
        (dedup-has i _ (
          sort-has i _ (
            Memᴰ.append_right (map (λ (p : ℕ × Sustained). p.0) e.thermal_temp)
              (Memᴰ.append_left _ (Memᴰ.map (λ (p : ℕ × Sustained). p.0) m)))))
        (there _ _ _ (
          announced_here cfg.cooldown_secs now _ warn (unwrap_or (get e.thermal_throttle i) idle) _
            _ _ (rw (get-has e.thermal_throttle i s o m) a)))

  pub if-All :
      (P : String → Type 0) (n : String) (b : Bool)
      → (b ≡ true → P n)
      → All P (if b then n ∷ [] else [])
  if-All P n false h = tt
  if-All P n true h = (h refl, tt)

  pub add-All :
      (P : String → Type 0) (n : String) (s : Sustained)
      → (s.announced ≡ true → P n)
      → All P (add F n s)
  unfolding add
  add-All P n s h = if-All P n s.announced h

  pub add_gpus-All :
      (P : String → Type 0) (rule : String) (m : BTreeMap ℕ Sustained)
      → ((i : ℕ) (s : Sustained)
          → Memᴰ (i, s) m
          → s.announced ≡ true
          → P (concat (rule ∷ show_ℕ i ∷ [])))
      → All P (add_gpus F rule m)
  unfolding add_gpus
  add_gpus-All P rule [] h = tt
  add_gpus-All P rule ((i, s) ∷ m) h =
      let rest = add_gpus-All P rule m (λ j t q. h j t (Memᴰ.tail q)) in
      elim (Bool-cases s.announced) [
        | inl e ↦ rw e (h i s (Memᴰ.head refl) e, rest)
        | inr e ↦ rw e rest
      ]
