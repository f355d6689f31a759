-- ===== src/Series/Rollup.antt =====
-- The roller over all the points that were added, newest first.
use lss.Base.{
  ℕ, String, Option, none, some, Bool, not, List, [], ◌∷◌, ◌==◌, if◌then◌else◌, is_some_and, str_eq,
}
use lss.Base.Float.{F64}
use lss.Base.Map.{string_ord}
use lss.Series.{Agg, Roller, new_roller, merge_point, bucket_start, roll}

module _ (F : F64) where
  open F use {Float}

  abbrev pub Points : Type 0
  Points = List (String × Float)

  -- the values of a name in some points, put on top of the values before them
  pub add_values : String → Points → List Float → List Float
  add_values name [] before = before
  add_values name ((k, v) ∷ ps) before =
      add_values name ps (if str_eq k name then v ∷ before else before)

  -- what one bucket aggregates of the values of a name
  pub aggregate : List Float → Option (Agg F)
  aggregate [] = none
  aggregate (v ∷ vs) = some (merge_point F (aggregate vs) v)

  module _ (res : ℕ) where
    unfoldable pub run : List (ℕ × Points) → Roller F
    run [] = new_roller F res
    run ((ts, ps) ∷ h) = (roll F (run h) ts ps).0

    -- the start of the bucket of the newest addition
    pub newest_start : List (ℕ × Points) → Option ℕ
    newest_start [] = none
    newest_start ((ts, ps) ∷ h) = some (bucket_start F res ts)

    -- an addition at `ts` opens another bucket than the addition before it
    pub turns : ℕ → List (ℕ × Points) → Bool
    unfolding newest_start
    turns ts h = is_some_and (newest_start h) (λ b. not (b == bucket_start F res ts))

    -- the values of a name since the current bucket began, newest first
    pub values : String → List (ℕ × Points) → List Float
    unfolding turns
    values name [] = []
    values name ((ts, ps) ∷ h) =
        let before = values name h in add_values name ps (if turns ts h then [] else before)
