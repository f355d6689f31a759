-- ===== src/Base/Map/Sorted.antt =====
-- A `BTreeMap` keeps its keys in order and apart: what `entry` and iteration rely on.
use Prim.Native.Nat.{ℕ, ◌+◌}
use mathlib.Core.Path.{◌≡◌, refl}
use mathlib.Core.Logic.{inl, inr}
use mathlib.Core.Bool.{Bool, true, false}
use mathlib.Core.Option.{Option, none, some}
use mathlib.Core.List.{[], ◌∷◌}
use native.Mathlib.Omega.{arith}
use lss.Base.Tests.{if◌then◌else◌, Bool-cases, unwrap_or, is_some}
use lss.Base.Lists.{All, length}
use lss.Base.Map.{Ord, BTreeMap, get, insert, update, merge_with, get-update}
use lss.Base.Order.{LawfulOrd}

module _ {K V : Type 0} ⦃o : Ord K⦄ where
  -- every key is greater than `k`
  abbrev pub Above : K → BTreeMap K V → Type 0
  Above k m = All (λ p. o.less k p.0 ≡ true) m

  abbrev pub IsSorted : BTreeMap K V → Type 0
  IsSorted [] = Unit
  IsSorted ((k, v) ∷ m) = Above k m × IsSorted m

-- what `get` finds in a merged map
abbrev pub merged : {V : Type 0} → (V → V → V) → V → Option V → Option V → Option V
merged f d mine none = mine
merged f d mine (some theirs) = some (f (unwrap_or mine d) theirs)

module _ {K : Type 0} ⦃o : Ord K⦄ where
  beq_flip : (a b : K) → o.beq a b ≡ false → o.beq b a ≡ false
  beq_flip a b e = elim (Bool-cases (o.beq b a)) [
    | inl f ↦ ground (arith, o.beq_iff a b, (o.beq_iff b a).0 f)
    | inr f ↦ f
  ]

  beq_of_less : ⦃l : LawfulOrd K⦄ (j k : K) → o.less j k ≡ true → o.beq k j ≡ false
  beq_of_less ⦃l⦄ j k h = elim (Bool-cases (o.beq k j)) [
    | inl e ↦ ground (arith, l.less_irrefl j, (o.beq_iff k j).0 e)
    | inr e ↦ e
  ]

module _ {K V : Type 0} ⦃o : Ord K⦄ ⦃l : LawfulOrd K⦄ where
  Above-trans : (j k : K) (m : BTreeMap K V) → o.less j k ≡ true → Above k m → Above j m
  Above-trans j k [] h a = tt
  Above-trans j k ((i, v) ∷ m) h a = (l.less_trans j k i h a.0, Above-trans j k m h a.1)

  pub get-Above : (k : K) (m : BTreeMap K V) → Above k m → get m k ≡ none
  unfolding get
  get-Above k [] a = refl
  get-Above k ((i, v) ∷ m) a = rw (beq_of_less k i a.0) (get-Above k m a.1)

  Above-insert :
      (j k : K) (v : V) (m : BTreeMap K V) → o.less j k ≡ true → Above j m → Above j (insert m k v)
  unfolding insert
  Above-insert j k v [] h a = (h, tt)
  Above-insert j k v ((i, w) ∷ m) h a = elim (Bool-cases (o.beq i k)) [
    | inl e ↦ rw e (h, a.1)
    | inr e ↦ rw e (elim (Bool-cases (o.less k i)) [
      | inl f ↦ rw f (h, (a.0, a.1))
      | inr f ↦ rw f (a.0, Above-insert j k v m h a.1)
    ])
  ]

  pub insert-IsSorted : (m : BTreeMap K V) (k : K) (v : V) → IsSorted m → IsSorted (insert m k v)
  unfolding insert
  insert-IsSorted [] k v s = (tt, tt)
  insert-IsSorted ((i, w) ∷ m) k v s = elim (Bool-cases (o.beq i k)) [
    | inl e ↦ rw e (let p = (o.beq_iff i k).0 e in rw (← p) (s.0, s.1))
    | inr e ↦ rw e (elim (Bool-cases (o.less k i)) [
      | inl f ↦ rw f ((f, Above-trans k i m f s.0), (s.0, s.1))
      | inr f ↦ rw f (
        Above-insert i k v m (l.less_connex k i (beq_flip i k e) f) s.0,
        insert-IsSorted m k v s.1,
      )
    ])
  ]

  pub update-IsSorted :
      (m : BTreeMap K V) (k : K) (d : V) (f : V → V) → IsSorted m → IsSorted (update m k d f)
  unfolding update
  update-IsSorted m k d f s = insert-IsSorted m k (f (unwrap_or (get m k) d)) s

  pub merge_with-IsSorted :
      (f : V → V → V) (d : V) (m m' : BTreeMap K V) → IsSorted m → IsSorted (merge_with f d m m')
  unfolding merge_with
  merge_with-IsSorted f d m [] s = s
  merge_with-IsSorted f d m ((k, v) ∷ m') s =
      merge_with-IsSorted f d (update m k d (λ w. f w v)) m' (update-IsSorted m k d (λ w. f w v) s)

  pub get-merge_with :
      (f : V → V → V) (d : V) (m m' : BTreeMap K V) (j : K)
      → IsSorted m'
      → get (merge_with f d m m') j ≡ merged f d (get m j) (get m' j)
  unfolding merge_with get
  get-merge_with f d m [] j s = refl
  get-merge_with f d m ((k, v) ∷ m') j s = elim (Bool-cases (o.beq k j)) [
    | inl e ↦
        rw
          (
            get-merge_with f d (update m k d (λ w. f w v)) m' j s.1,
            get-update m k j d (λ w. f w v),
            e,
            ← (o.beq_iff k j).0 e,
            get-Above k m' s.0,
          )
          refl
    | inr e ↦
        rw
          (
            get-merge_with f d (update m k d (λ w. f w v)) m' j s.1,
            get-update m k j d (λ w. f w v),
            e,
          )
          refl
  ]

  -- a new key makes the map longer by one, a present one does not
  pub length-insert :
      (m : BTreeMap K V) (k : K) (v : V)
      → IsSorted m
      → length (insert m k v) ≡ (if is_some (get m k) then length m else length m + 1)
  unfolding insert get
  length-insert [] k v s = omega arith
  length-insert ((i, w) ∷ m) k v s = elim (Bool-cases (o.beq i k)) [
    | inl e ↦ rw e refl
    | inr e ↦ rw e (elim (Bool-cases (o.less k i)) [
      | inl f ↦ rw (f, get-Above k m (Above-trans k i m f s.0)) (omega arith)
      | inr f ↦ rw f (ground (arith, length-insert m k v s.1))
    ])
  ]

module _ {K : Type 0} ⦃o : Ord K⦄ ⦃l : LawfulOrd K⦄ where
  -- the sum of the counts of the keys with a property
  unfoldable pub sum_where : (K → Bool) → BTreeMap K ℕ → ℕ
  sum_where p [] = 0
  sum_where p ((k, n) ∷ m) = (if p k then n else 0) + sum_where p m

  pub sum_where-insert :
      (p : K → Bool) (m : BTreeMap K ℕ) (k : K) (v : ℕ)
      → IsSorted m
      → sum_where p (insert m k v) + (if p k then unwrap_or (get m k) 0 else 0)
        ≡ sum_where p m + (if p k then v else 0)
  unfolding insert get sum_where
  sum_where-insert p [] k v s = ground arith
  sum_where-insert p ((i, w) ∷ m) k v s = elim (Bool-cases (o.beq i k)) [
    | inl e ↦ rw (e, (o.beq_iff i k).0 e) (ground arith)
    | inr e ↦ rw e (elim (Bool-cases (o.less k i)) [
      | inl f ↦ rw (f, get-Above k m (Above-trans k i m f s.0)) (ground arith)
      | inr f ↦ rw f (ground (arith, sum_where-insert p m k v s.1))
    ])
  ]

  pub sum_where-update :
      (p : K → Bool) (m : BTreeMap K ℕ) (k : K)
      → IsSorted m
      → sum_where p (update m k 0 (λ n. n + 1)) ≡ sum_where p m + (if p k then 1 else 0)
  unfolding update
  sum_where-update p m k s = ground (arith, sum_where-insert p m k (unwrap_or (get m k) 0 + 1) s)
