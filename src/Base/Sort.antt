-- ===== src/Base/Sort.antt =====
-- `slice::sort_by`, the stable sort: insertion into the sorted rest. `le a b` is
-- `cmp(a, b) != Greater`.
use Prim.Native.Nat.{ℕ, zero, suc, ◌+◌, ◌≤◌}
use mathlib.Core.Path.{◌≡◌, refl}
use mathlib.Core.Bool.{Bool, true, false}
use mathlib.Core.Logic.{inl, inr}
use mathlib.Core.List.{List, [], ◌∷◌}
use native.Mathlib.Omega.{arith}
use lss.Base.Tests.{if◌then◌else◌, Bool-cases}
use lss.Base.Lists.{All, length}

module _ {A : Type 0} (le : A → A → Bool) where
  unfoldable pub place : A → List A → List A
  place x [] = x ∷ []
  place x (y ∷ ys) = let later = y ∷ place x ys in if le x y then x ∷ y ∷ ys else later

  unfoldable pub sort_by : List A → List A
  unfolding place
  sort_by [] = []
  sort_by (x ∷ xs) = place x (sort_by xs)

-- `truncate(n)` and `take(n)`
module _ {A : Type 0} where
  unfoldable pub take : ℕ → List A → List A
  take zero xs = []
  take (suc n) [] = []
  take (suc n) (x ∷ xs) = x ∷ take n xs

  pub take_all : (n : ℕ) (xs : List A) → length xs ≤ n → take n xs ≡ xs
  unfolding take
  take_all zero [] h = refl
  take_all zero (x ∷ xs) h = absurd (omega arith)
  take_all (suc n) [] h = refl
  take_all (suc n) (x ∷ xs) h = ground (arith, take_all n xs (omega arith))

  pub length-take-le : (n : ℕ) (xs : List A) → length (take n xs) ≤ n
  unfolding take
  length-take-le zero xs = omega arith
  length-take-le (suc n) [] = omega arith
  length-take-le (suc n) (x ∷ xs) = omega (arith, length-take-le n xs)

  pub All-take {κ} : (P : A → Type κ) (n : ℕ) (xs : List A) → All P xs → All P (take n xs)
  unfolding take
  All-take P zero xs h = tt
  All-take P (suc n) [] h = tt
  All-take P (suc n) (x ∷ xs) h = (h.0, All-take P n xs h.1)

  -- the sum of a number over a list
  unfoldable pub sum_of : (A → ℕ) → List A → ℕ
  sum_of f [] = 0
  sum_of f (x ∷ xs) = f x + sum_of f xs

  -- each element is in order with all that follow
  abbrev pub IsOrdered : (A → A → Bool) → List A → Type 0
  IsOrdered le [] = Unit
  IsOrdered le (x ∷ xs) = All (λ y. le x y ≡ true) xs × IsOrdered le xs

  pub take-IsOrdered :
      (le : A → A → Bool) (n : ℕ) (xs : List A) → IsOrdered le xs → IsOrdered le (take n xs)
  unfolding take
  take-IsOrdered le zero xs h = tt
  take-IsOrdered le (suc n) [] h = tt
  take-IsOrdered le (suc n) (x ∷ xs) h =
      (All-take (λ y. le x y ≡ true) n xs h.0, take-IsOrdered le n xs h.1)

-- What a comparison is.
pub record TotalOrder {A : Type 0} (le : A → A → Bool) : Type 0 where
  pub le_trans : (a b c : A) → le a b ≡ true → le b c ≡ true → le a c ≡ true
  pub le_total : (a b : A) → le a b ≡ false → le b a ≡ true

module _ {A : Type 0} (le : A → A → Bool) where
  sum-place : (f : A → ℕ) (x : A) (ys : List A) → sum_of f (place le x ys) ≡ f x + sum_of f ys
  unfolding place sum_of
  sum-place f x [] = refl
  sum-place f x (y ∷ ys) = ground (arith, sum-place f x ys)

  pub sum-sort_by : (f : A → ℕ) (xs : List A) → sum_of f (sort_by le xs) ≡ sum_of f xs
  unfolding sort_by sum_of
  sum-sort_by f [] = refl
  sum-sort_by f (x ∷ xs) = omega (arith, sum-place f x (sort_by le xs), sum-sort_by f xs)

  length-place : (x : A) (ys : List A) → length (place le x ys) ≡ length ys + 1
  unfolding place
  length-place x [] = omega arith
  length-place x (y ∷ ys) = ground (arith, length-place x ys)

  pub length-sort_by : (xs : List A) → length (sort_by le xs) ≡ length xs
  unfolding sort_by
  length-sort_by [] = refl
  length-sort_by (x ∷ xs) = omega (arith, length-place x (sort_by le xs), length-sort_by xs)

  module _ {κ} (P : A → Type κ) where
    All-place : (x : A) (ys : List A) → P x → All P ys → All P (place le x ys)
    unfolding place
    All-place x [] h k = (h, tt)
    All-place x (y ∷ ys) h k = elim (Bool-cases (le x y)) [
      | inl e ↦ rw e (h, (k.0, k.1))
      | inr e ↦ rw e (k.0, All-place x ys h k.1)
    ]

    pub All-sort_by : (xs : List A) → All P xs → All P (sort_by le xs)
    unfolding sort_by
    All-sort_by [] h = tt
    All-sort_by (x ∷ xs) h = All-place x (sort_by le xs) h.0 (All-sort_by xs h.1)

  module _ (t : TotalOrder le) where
    above :
        (x y : A) (ys : List A)
        → le x y ≡ true
        → All (λ z. le y z ≡ true) ys
        → All (λ z. le x z ≡ true) ys
    above x y [] e h = tt
    above x y (z ∷ ys) e h = (t.le_trans x y z e h.0, above x y ys e h.1)

    place-IsOrdered : (x : A) (ys : List A) → IsOrdered le ys → IsOrdered le (place le x ys)
    unfolding place
    place-IsOrdered x [] h = (tt, tt)
    place-IsOrdered x (y ∷ ys) h = elim (Bool-cases (le x y)) [
      | inl e ↦ rw e ((e, above x y ys e h.0), (h.0, h.1))
      | inr e ↦
          rw e
            (All-place (λ z. le y z ≡ true) x ys (t.le_total x y e) h.0, place-IsOrdered x ys h.1)
    ]

    pub sort_by-IsOrdered : (xs : List A) → IsOrdered le (sort_by le xs)
    unfolding sort_by
    sort_by-IsOrdered [] = tt
    sort_by-IsOrdered (x ∷ xs) = place-IsOrdered x (sort_by le xs) (sort_by-IsOrdered xs)
