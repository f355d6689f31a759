-- ===== src/Base/Float.antt =====
-- The interface of Rust's `f64`: the type, and the operations that the code calls. Nothing is
-- assumed of them here; a theorem that relies on a law of the operations takes it as a hypothesis.
use Prim.Native.Nat.{ℕ}
use Prim.Native.String.{String}
use mathlib.Core.Bool.{Bool}
use mathlib.Core.Option.{Option}

pub record F64 : Type 1 where
  pub Float : Type 0
  -- the value nearest to numerator / denominator: a literal, or an integer `as f64`
  pub ratio : ℕ → ℕ → Float
  pub plus : Float → Float → Float
  pub minus : Float → Float → Float
  pub times : Float → Float → Float
  pub over : Float → Float → Float
  -- `a < b` and `a <= b`; both are false when a side is NaN
  pub lt : Float → Float → Bool
  pub le : Float → Float → Bool
  pub fmax : Float → Float → Float
  pub fmin : Float → Float → Float
  pub fabs : Float → Float
  pub round : Float → Float
  -- `a == b`
  pub feq : Float → Float → Bool
  -- `f64::INFINITY`, `f64::NEG_INFINITY` and `f64::NAN`
  pub infinity : Float
  pub neg_infinity : Float
  pub nan : Float
  -- `a as u64`, of a value that is not negative
  pub as_nat : Float → ℕ
  -- `text.parse::<f64>().ok()`
  pub parse_float : String → Option Float
  -- `a.total_cmp(b).is_le()`
  pub total_le : Float → Float → Bool
  pub is_finite : Float → Bool
  -- `{:.n}` and `{}`
  pub show_fixed : ℕ → Float → String
  pub show_float : Float → String
