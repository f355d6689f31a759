-- ===== src/Base/Map.antt =====
-- `BTreeMap`: an association list in the order of its keys.
pub mod Sorted
use Prim.Native.Nat.{ℕ}
use Prim.Native.String.{String, compare as str_compare}
use text.Mathlib.Text.{◌==◌ as str_eq, is_lt}
use text.Mathlib.TextEquality.{eq_iff}
use mathlib.Core.Path.{◌≡◌, refl}
use mathlib.Core.Logic.{◌↔◌}
use mathlib.Core.Bool.{Bool, true}
use mathlib.Core.Option.{Option, none, some}
use mathlib.Core.List.{List, [], ◌∷◌}
use native.Mathlib.Omega.{arith}
use lss.Base.Tests.{ltb, ◌==◌ as nat_beq, ==_iff, if◌then◌else◌, is_some, unwrap_or}

-- The order of a key type.
pub record Ord (K : Type 0) : Type 0 where
  pub beq : K → K → Bool
  pub less : K → K → Bool
  pub beq_iff : (a b : K) → (beq a b ≡ true) ↔ (a ≡ b)

instance abbrev pub nat_ord : Ord ℕ
nat_ord = record { beq = nat_beq; less = ltb; beq_iff = ==_iff }

instance abbrev pub string_ord : Ord String
string_ord = record { beq = str_eq; less = λ a b. is_lt (str_compare a b); beq_iff = eq_iff }

abbrev pub BTreeMap : Type 0 → Type 0 → Type 0
BTreeMap K V = List (K × V)

module _ {K V : Type 0} ⦃o : Ord K⦄ where
  unfoldable pub get : BTreeMap K V → K → Option V
  get [] k = none
  get ((j, v) ∷ m) k = if o.beq j k then some v else get m k

  -- a present key is overwritten, an absent one goes to its place in the order
  unfoldable pub insert : BTreeMap K V → K → V → BTreeMap K V
  insert [] k v = (k, v) ∷ []
  insert ((j, w) ∷ m) k v =
      let rest = insert m k v in
      if o.beq j k then (k, v) ∷ m else if o.less k j then (k, v) ∷ (j, w) ∷ m else (j, w) ∷ rest

  unfoldable pub remove : BTreeMap K V → K → BTreeMap K V
  remove [] k = []
  remove ((j, w) ∷ m) k = let rest = remove m k in if o.beq j k then rest else (j, w) ∷ rest

  unfoldable pub contains_key : BTreeMap K V → K → Bool
  unfolding get
  contains_key m k = is_some (get m k)

  pub get-insert :
      (m : BTreeMap K V) (k j : K) (v : V)
      → get (insert m k v) j ≡ (if o.beq k j then some v else get m j)
  unfolding get insert
  get-insert [] k j v = refl
  get-insert ((i, w) ∷ m) k j v =
      ground (arith, get-insert m k j v, o.beq_iff i k, o.beq_iff i j, o.beq_iff k j)

  pub get-remove :
      (m : BTreeMap K V) (k j : K) → get (remove m k) j ≡ (if o.beq k j then none else get m j)
  unfolding get remove
  get-remove [] k j = ground arith
  get-remove ((i, w) ∷ m) k j =
      ground (arith, get-remove m k j, o.beq_iff i k, o.beq_iff i j, o.beq_iff k j)

  -- `f(map.entry(k).or_default())`, with the default d
  unfoldable pub update : BTreeMap K V → K → V → (V → V) → BTreeMap K V
  update m k d f = insert m k (f (unwrap_or (get m k) d))

  -- `for (k, v) in o { f(map.entry(k).or_default(), v) }`
  unfoldable pub merge_with : (V → V → V) → V → BTreeMap K V → BTreeMap K V → BTreeMap K V
  unfolding update
  merge_with f d m [] = m
  merge_with f d m ((k, v) ∷ m') = merge_with f d (update m k d (λ w. f w v)) m'

  pub get-update :
      (m : BTreeMap K V) (k j : K) (d : V) (f : V → V)
      → get (update m k d f) j ≡ (if o.beq k j then some (f (unwrap_or (get m k) d)) else get m j)
  unfolding update
  get-update m k j d f = get-insert m k j (f (unwrap_or (get m k) d))
