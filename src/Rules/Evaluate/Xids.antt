-- ===== src/Rules/Evaluate/Xids.antt =====
-- The hardware alerts of one evaluation: at most one for each GPU in a cooldown.
use lss.Base.{ℕ, suc, String, Bool, ◌&&◌, List, [], ◌∷◌, any, str_eq, if◌then◌else◌}
use lss.Base.Float.{F64}
use lss.Base.Map.{string_ord}
use lss.Config.{RulesConfig}
use lss.Xid.{XidEvent}
use lss.Rules.Types.{AlertEvent, Observation}
use lss.Rules.State.{Engine, event_cooled}
use lss.Rules.Eval.Events.{xid_key}

-- How many of the events carry this rule name.
pub count_of : String → List AlertEvent → ℕ
count_of key [] = 0
count_of key (a ∷ l) = let rest = count_of key l in if str_eq a.rule key then suc rest else rest

pub concerns : String → List XidEvent → Bool
unfolding xid_key
concerns key xs = any (λ x. str_eq (xid_key x) key) xs

module _ (F : F64) (cfg : RulesConfig F) (o : Observation F) (key : String) where
  -- an alert is due for `key`
  pub due : List XidEvent → Engine F → Bool
  unfolding event_cooled concerns
  due xs e = event_cooled F e key o.now cfg.cooldown_secs && concerns key xs
