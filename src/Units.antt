-- ===== src/Units.antt =====
-- crates/lss-core/src/units.rs: temperatures in the configured units. The process-wide setting of
-- the source is an argument here.
use lss.Base.{String, [], ◌∷◌, concat}
use lss.Base.Float.{F64}

pub data TempUnits : Type 0 where
  both c f : TempUnits

pub data TempStyle : Type 0 where
  full compact bare : TempStyle

module _ (F : F64) where
  open F use {Float, ratio, plus, times, over, show_fixed}

  unfoldable pub c_to_f : Float → Float
  c_to_f x = plus (over (times x (ratio 9 1)) (ratio 5 1)) (ratio 32 1)

  unfoldable pub fmt_temp_with : Float → TempUnits → TempStyle → String
  fmt_temp_with x TempUnits.both TempStyle.full =
      concat (show_fixed 0 x ∷ "°C / " ∷ show_fixed 0 (c_to_f x) ∷ "°F" ∷ [])
  fmt_temp_with x TempUnits.both TempStyle.compact =
      concat (show_fixed 0 x ∷ "C/" ∷ show_fixed 0 (c_to_f x) ∷ "F" ∷ [])
  fmt_temp_with x TempUnits.both TempStyle.bare =
      concat (show_fixed 0 x ∷ "/" ∷ show_fixed 0 (c_to_f x) ∷ [])
  fmt_temp_with x TempUnits.c TempStyle.full = concat (show_fixed 0 x ∷ "°C" ∷ [])
  fmt_temp_with x TempUnits.c TempStyle.compact = concat (show_fixed 0 x ∷ "C" ∷ [])
  fmt_temp_with x TempUnits.c TempStyle.bare = show_fixed 0 x
  fmt_temp_with x TempUnits.f TempStyle.full = concat (show_fixed 0 (c_to_f x) ∷ "°F" ∷ [])
  fmt_temp_with x TempUnits.f TempStyle.compact = concat (show_fixed 0 (c_to_f x) ∷ "F" ∷ [])
  fmt_temp_with x TempUnits.f TempStyle.bare = show_fixed 0 (c_to_f x)

  unfoldable pub temp : TempUnits → Float → String
  temp units x = fmt_temp_with x units TempStyle.full
