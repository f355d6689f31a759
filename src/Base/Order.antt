-- ===== src/Base/Order.antt =====
-- The order of texts and numbers that a `BTreeMap` and a comparison of stamps rely on.
use Prim.Native.Nat.{ℕ, Ordering, compare as compare_ℕ}
use Prim.Native.Char.{code}
use Prim.Native.String.compare
use Prim.Native.String.{String, compare, then}
use text.Mathlib.Text.{is_eq, is_lt, is_le, ◌==◌ as str_eq}
use text.Mathlib.TextPositions.{compare_refl}
use mathlib.Core.Path.{◌≡◌, refl, ap, sym, ◌∙◌}
use mathlib.Core.Bool.{Bool, true, false, not}
use native.Mathlib.Omega.{arith}
use mathlib.Core.Logic.{inl, inr}
use text.Mathlib.TextEquality.{eq_iff}
use lss.Base.Tests.{ltb, ◌==◌, Bool-cases}
use lss.Base.Map.{Ord, nat_ord, string_ord}

-- `a < b` and `a <= b` of texts
abbrev pub str_lt : String → String → Bool
str_lt a b = is_lt (compare a b)

abbrev pub str_le : String → String → Bool
str_le a b = is_le (compare a b)

flip : Ordering → Ordering
flip Ordering.lt = Ordering.gt
flip Ordering.eq = Ordering.eq
flip Ordering.gt = Ordering.lt

flip-then : (o p : Ordering) → flip (then o p) ≡ then (flip o) (flip p)
unfolding flip
flip-then Ordering.lt p = refl
flip-then Ordering.eq p = refl
flip-then Ordering.gt p = refl

flip_of : (o p o' p' : Ordering) → o' ≡ flip o → p' ≡ flip p → then o' p' ≡ flip (then o p)
flip_of o p o' p' e e' = rw (e, e', flip-then) refl

flip-compare_ℕ : (m n : ℕ) → compare_ℕ n m ≡ flip (compare_ℕ m n)
unfolding flip
flip-compare_ℕ m n = ground arith

flip-compare : (s t : String) → compare t s ≡ flip (compare s t)
unfolding flip
flip-compare String.[] String.[] = rw compare.nil-nil refl
flip-compare String.[] (String.◌∷◌ d t) = rw (compare.nil-cons d t, compare.cons-nil d t) refl
flip-compare (String.◌∷◌ c s) String.[] = rw (compare.nil-cons c s, compare.cons-nil c s) refl
flip-compare (String.◌∷◌ c s) (String.◌∷◌ d t) =
    rw (compare.cons-cons c d s t, compare.cons-cons d c t s)
      (flip_of _ _ _ _ (flip-compare_ℕ (code c) (code d)) (flip-compare s t))

is_lt_trans_of :
    (a b c : ℕ) (o p q : Ordering)
    → (is_lt o ≡ true → is_lt p ≡ true → is_lt q ≡ true)
    → is_lt (then (compare_ℕ a b) o) ≡ true
    → is_lt (then (compare_ℕ b c) p) ≡ true
    → is_lt (then (compare_ℕ a c) q) ≡ true
is_lt_trans_of a b c o p q t h k = ground arith

not_lt : (o : Ordering) → o ≡ Ordering.eq → is_lt o ≡ true → ⊥
not_lt o e h = ground arith

gt_not_lt : (o : Ordering) → o ≡ Ordering.gt → is_lt o ≡ true → ⊥
gt_not_lt o e h = ground arith

pub str_lt_trans : (s t u : String) → str_lt s t ≡ true → str_lt t u ≡ true → str_lt s u ≡ true
str_lt_trans s String.[] String.[] h k = absurd (not_lt _ compare.nil-nil k)
str_lt_trans s (String.◌∷◌ d t) String.[] h k = absurd (gt_not_lt _ (compare.cons-nil d t) k)
str_lt_trans String.[] t (String.◌∷◌ e u) h k = rw (compare.nil-cons e u) refl
str_lt_trans (String.◌∷◌ c s) String.[] (String.◌∷◌ e u) h k =
    absurd (gt_not_lt _ (compare.cons-nil c s) h)
str_lt_trans (String.◌∷◌ c s) (String.◌∷◌ d t) (String.◌∷◌ e u) h k =
    rw (compare.cons-cons c e s u) (
      is_lt_trans_of _ _ _ _ _ _ (str_lt_trans s t u)
        (ap is_lt (sym (compare.cons-cons c d s t)) ∙ h)
        (ap is_lt (sym (compare.cons-cons d e t u)) ∙ k))

pub str_lt_irrefl : (s : String) → str_lt s s ≡ false
str_lt_irrefl s = rw (compare_refl s) refl

is_le-flip : (o : Ordering) → is_le (flip o) ≡ not (is_lt o)
unfolding flip
is_le-flip Ordering.lt = refl
is_le-flip Ordering.eq = refl
is_le-flip Ordering.gt = refl

pub str_le-eq-not : (s t : String) → str_le t s ≡ not (str_lt s t)
str_le-eq-not s t = rw (flip-compare s t) (is_le-flip (compare s t))

connex_of : (o : Ordering) → is_eq o ≡ false → is_lt o ≡ false → is_lt (flip o) ≡ true
unfolding flip
connex_of Ordering.lt e l = cc
connex_of Ordering.eq e l = cc
connex_of Ordering.gt e l = refl

pub str_connex : (s t : String) → str_eq s t ≡ false → str_lt s t ≡ false → str_lt t s ≡ true
str_connex s t e l = rw (flip-compare s t) (connex_of (compare s t) e l)

-- What a sorted map relies on: the keys are in a strict linear order.
pub record LawfulOrd (K : Type 0) ⦃o : Ord K⦄ : Type 0 where
  pub less_trans : (a b c : K) → o.less a b ≡ true → o.less b c ≡ true → o.less a c ≡ true
  pub less_irrefl : (a : K) → o.less a a ≡ false
  pub less_connex : (a b : K) → o.beq a b ≡ false → o.less a b ≡ false → o.less b a ≡ true

pub ltb_trans : (a b c : ℕ) → ltb a b ≡ true → ltb b c ≡ true → ltb a c ≡ true
ltb_trans a b c h k = ground arith

pub ltb_irrefl : (a : ℕ) → ltb a a ≡ false
ltb_irrefl a = ground arith

pub ltb_connex : (a b : ℕ) → (a == b) ≡ false → ltb a b ≡ false → ltb b a ≡ true
ltb_connex a b e l = ground arith

instance abbrev pub nat_lawful : LawfulOrd ℕ
nat_lawful = record { less_trans = ltb_trans; less_irrefl = ltb_irrefl; less_connex = ltb_connex }

instance abbrev pub string_lawful : LawfulOrd String
string_lawful = record {
  less_trans = str_lt_trans;
  less_irrefl = str_lt_irrefl;
  less_connex = str_connex;
}

pub str_le_total : (a b : String) → str_le a b ≡ false → str_le b a ≡ true
str_le_total a b h = rw (str_le-eq-not a b) (elim (Bool-cases (str_lt a b)) [
  | inl e ↦ absurd (ground (arith, str_le-eq-not b a, str_lt_irrefl a, str_lt_trans a b a e))
  | inr e ↦ rw e refl
])

pub str_le_trans : (a b c : String) → str_le a b ≡ true → str_le b c ≡ true → str_le a c ≡ true
str_le_trans a b c h k = rw (str_le-eq-not c a) (elim (Bool-cases (str_lt c a)) [
  | inr e ↦ rw e refl
  | inl e ↦ absurd (elim (Bool-cases (str_eq c b)) [
    | inl f ↦ ground (arith, ap (λ t. str_le a t) ((eq_iff c b).0 f), str_le-eq-not c a)
    | inr f ↦
        ground (arith, str_le-eq-not b a, str_le-eq-not c b, str_connex c b f, str_lt_trans b c a)
  ])
])
