-- ===== src/Gate/Upstream.antt =====
-- gate.rs: which upstream is this machine, and the names of series.
use Prim.Native.Char.{Char, code}
use text.Mathlib.TextLemmas.{append-nil, cons-append, nil-append}
use lss.Base.{
  Option, none, not, ◌&&◌, ◌==◌, arith, length, head?, AllChars, ℕ, zero, suc, ◌≡◌, refl, inl, inr,
  String, some, Bool, true, false, List, [], ◌∷◌, if◌then◌else◌, Bool-cases, filter, any,
  is_some_and, str_eq, concat,
}
use lss.Base.Float.{F64}
use lss.Base.Map.{get, string_ord}
use lss.Gate.{is_safe, clean, series_id, GateHealth, serving, single_or, this_upstream}

pub how_many : {A : Type 0} → (A → Bool) → List A → ℕ
how_many p [] = 0
how_many p (x ∷ xs) = let rest = how_many p xs in if p x then suc rest else rest

pub first_with : {A : Type 0} → (A → Bool) → List A → Option A
first_with p [] = none
first_with p (x ∷ xs) = let rest = first_with p xs in if p x then some x else rest

module _ (F : F64) where
  -- the upstream has loaded the model
  abbrev pub serves : GateHealth F → String → String → Bool
  serves g m u = is_some_and (get g.upstream_loaded u) (λ loaded. any (λ x. str_eq x m) loaded)

  none_serve : {A : Type 0} (p : A → Bool) (xs : List A) → how_many p xs ≡ 0 → filter p xs ≡ []
  unfolding how_many
  none_serve p [] h = refl
  none_serve p (x ∷ xs) h = elim (Bool-cases (p x)) [
    | inl e ↦ absurd (ground (arith, (rw e at h)))
    | inr e ↦ rw e (none_serve p xs (rw e at h))
  ]

  how_many-filter : {A : Type 0} (p : A → Bool) (xs : List A) → how_many p xs ≡ length (filter p xs)
  unfolding how_many
  how_many-filter p [] = refl
  how_many-filter p (x ∷ xs) = ground (arith, how_many-filter p xs)

  first_with-filter :
      {A : Type 0} (p : A → Bool) (xs : List A) → first_with p xs ≡ head? (filter p xs)
  unfolding first_with
  first_with-filter p [] = refl
  first_with-filter p (x ∷ xs) = ground (arith, first_with-filter p xs)

  single_or-lem :
      (hits ups : List String)
      → single_or F hits ups ≡ (if length hits == 1 then head? hits else head? ups)
  unfolding single_or
  single_or-lem [] ups = ground arith
  single_or-lem (one ∷ []) ups = ground arith
  single_or-lem (one ∷ two ∷ more) ups = ground arith

  -- Without attributed upstreams no upstream is this machine. With them it is the one that has loaded
  -- the model of the engine, if the model is named and exactly one of them has loaded it, and in every
  -- other case the first of them.
  pub this_upstream_exact :
      (g : GateHealth F) (ups : Option (List String)) (model : Option String)
      → g.attributed_upstreams ≡ ups
      → this_upstream F g model ≡ elim ups [
        | none ↦ none
        | some us ↦ elim model [
          | none ↦ head? us
          | some m ↦
              if not (str_eq m "") && how_many (serves g m) us == 1
              then first_with (serves g m) us
              else head? us
        ]
      ]
  unfolding this_upstream serving
  this_upstream_exact g none model e = rw e refl
  this_upstream_exact g (some us) none e = rw e refl
  this_upstream_exact g (some us) (some m) e = rw e (elim (Bool-cases (str_eq m "")) [
    | inl n ↦ rw n refl
    | inr n ↦ rw (n, how_many-filter, first_with-filter) (single_or-lem (filter (serves g m) us) us)
  ])

-- at most n characters
abbrev pub AtMost : ℕ → String → Type 0
AtMost n String.[] = Unit {0}
AtMost zero (String.◌∷◌ c s) = ⊥
AtMost (suc n) (String.◌∷◌ c s) = AtMost n s

abbrev pub Safe : Char → Type 0
Safe c = is_safe (code c) ≡ true

clean-Safe : (n : ℕ) (s : String) → AllChars Safe (clean n s) × AtMost n (clean n s)
unfolding clean
clean-Safe zero s = (tt, tt)
clean-Safe (suc n) String.[] = (tt, tt)
clean-Safe (suc n) (String.◌∷◌ c s) = elim (Bool-cases (is_safe (code c))) [
  | inl e ↦ rw e ((e, (clean-Safe n s).0), (clean-Safe n s).1)
  | inr e ↦ rw e ((refl, (clean-Safe n s).0), (clean-Safe n s).1)
]

series_id-chars :
    (lane user : String)
    → series_id lane user
      ≡ String.◌∷◌ (if str_eq lane "trusted" then "t" else "p") (String.◌∷◌ "." (clean 40 user))
unfolding series_id concat
series_id-chars lane user = elim (Bool-cases (str_eq lane "trusted")) [
  | inl e ↦
      rw
        (
          e,
          append-nil (clean 40 user),
          cons-append "." String.[] (clean 40 user),
          nil-append (clean 40 user),
          cons-append "t" String.[] (String.◌∷◌ "." (clean 40 user)),
          nil-append (String.◌∷◌ "." (clean 40 user)),
        )
        refl
  | inr e ↦
      rw
        (
          e,
          append-nil (clean 40 user),
          cons-append "." String.[] (clean 40 user),
          nil-append (clean 40 user),
          cons-append "p" String.[] (String.◌∷◌ "." (clean 40 user)),
          nil-append (String.◌∷◌ "." (clean 40 user)),
        )
        refl
]

-- A series id has only letters, digits, `.`, `_` and `-`, and at most 42 characters, whatever the
-- user is called.
pub series_id-Safe :
    (lane user : String) → AllChars Safe (series_id lane user) × AtMost 42 (series_id lane user)
series_id-Safe lane user =
    rw (series_id-chars lane user)
      ((lane_safe (str_eq lane "trusted"), (refl, (clean-Safe 40 user).0)), (clean-Safe 40 user).1)
  where
    lane_safe : (b : Bool) → Safe (if b then "t" else "p")
    lane_safe true = refl
    lane_safe false = refl
