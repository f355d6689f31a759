-- ===== src/Examples/Answers.antt =====
-- The theorems on the rollup and the layout of answers, at concrete inputs.
use lss.Base.{arith, ℕ, ◌≡◌, String, none, some, List, [], ◌∷◌}
use lss.Base.Map.{string_ord}
use lss.Series.{RollupBatch, Plan, plan, HistPlan, hist_plan}
use lss.Series.Rollup.{run}
use lss.Base.{ltb, if◌then◌else◌, get_elem?, map, pos}
use lss.Series.{Agg, raw}
use lss.Series.Builder.{AggKind, Token}
use lss.Series.Builder.Cells as Cells
use lss.Series.Builder.Cells.{Addition, row_after, folded, collected, is_seen, cells_exact}
use lss.Examples.Data.{milli}

-- two samples of one minute, then one of the next
abbrev minute : List (ℕ × List (String × ℕ))
minute = (115, ("q", 3000) ∷ []) ∷ (65, ("q", 1000) ∷ []) ∷ []

abbrev batch : RollupBatch milli
batch = record { res = 60; ts = 60; rows = (run milli 60 minute).acc }

abbrev hour : Plan
hour = plan 1000003 3600 none (7200, (86400, 604800))

abbrev strip : HistPlan
strip = hist_plan 1000003 3600 86400

-- two points of five seconds from 1000 on
abbrev small : Plan
small = record { tier = raw; range_s = 10; step_s = 5; start_ts = pos 1000; points = 2 }

abbrev queue_max : Token
queue_max = ("queue:max", ("queue", AggKind.highest))

abbrev value : ℕ → Agg milli
value v = record { sum = v; lowest = v; highest = v; n = 1000 }

abbrev add_queue : ℕ → ℕ → Addition milli
add_queue ts v = record { metric = "queue"; ts = ts; agg = value v }

abbrev additions : List (Addition milli)
additions = add_queue 1010 9000 ∷ add_queue 1007 4000 ∷ add_queue 1005 2000 ∷ []

cells_exact_example :
    ((Cells.run milli small (queue_max ∷ []) additions).rows
      ≡ map (λ t. row_after milli small t additions) (queue_max ∷ []))
    × ((t : Token) (i : ℕ)
        → get_elem? (row_after milli small t additions).cells i ≡ (
            if ltb i 2
            then some (folded milli small (collected milli small t.1.0 i additions))
            else none))
    × ((t : Token) → (row_after milli small t additions).token ≡ t)
    × ((t : Token) → (row_after milli small t additions).seen ≡ is_seen milli small t.1.0 additions)
cells_exact_example = cells_exact milli small (omega arith) (queue_max ∷ []) additions
