-- ===== src/Rules/Evaluate/Emits.antt =====
-- Predicates on the events that a step pushes, and on the states that it keeps, with a rule for
-- each way to build a step.
use lss.Base.{Bool, true, false, List, [], ◌∷◌, ◌++◌, All, All-append, if◌then◌else◌}
use lss.Rules.Types.{AlertEvent}
use lss.Rules.State.{◌⨟◌}

-- `All`, as a record: `search` applies its rules by their form.
pub record Each (P : AlertEvent → Type 0) (xs : List AlertEvent) : Type 0 where
  pub all : All P xs

module _ {P : AlertEvent → Type 0} where
  pub Each-nil : Each P []
  Each-nil = record { all = tt }

  pub Each-cons : {a : AlertEvent} {xs : List AlertEvent} → P a → Each P xs → Each P (a ∷ xs)
  Each-cons h k = record { all = (h, k.all) }

  pub Each-append : {xs ys : List AlertEvent} → Each P xs → Each P ys → Each P (xs ++ ys)
  Each-append {xs} {ys} h k = record { all = All-append P xs ys h.all k.all }

  pub Each-if :
      (b : Bool) {xs ys : List AlertEvent} → Each P xs → Each P ys → Each P (if b then xs else ys)
  Each-if true h k = h
  Each-if false h k = k

pub ruleset each_rules = (Each-nil, Each-cons, Each-append, Each-if)

module _ {S : Type 0} where
  pub record Emits (P : AlertEvent → Type 0) (m : S → S × List AlertEvent) : Type 0 where
    pub at : (e : S) → Each P (m e).1

  pub record Keeps (I : S → Type 0) (m : S → S × List AlertEvent) : Type 0 where
    pub at : (e : S) → I e → I (m e).0

  pub Emits-seq :
      {P : AlertEvent → Type 0} {a b : S → S × List AlertEvent}
      → Emits P a
      → Emits P b
      → Emits P (a ⨟ b)
  Emits-seq {a = a} h k = record { at = λ e. Each-append (h.at e) (k.at (a e).0) }

  pub Emits-if :
      {P : AlertEvent → Type 0} (b : Bool) {m : S → S × List AlertEvent}
      → Emits P m
      → (e : S) → Each P (if b then m e else (e, [])).1
  Emits-if true h e = h.at e
  Emits-if false h e = Each-nil

  pub Keeps-seq :
      {I : S → Type 0} {a b : S → S × List AlertEvent} → Keeps I a → Keeps I b → Keeps I (a ⨟ b)
  Keeps-seq {a = a} h k = record { at = λ e i. k.at (a e).0 (h.at e i) }

-- A test that chooses between two results of a step.
pub Each-if-pair :
    {S : Type 0} {P : AlertEvent → Type 0} (b : Bool) (r t : S × List AlertEvent)
    → Each P r.1
    → Each P t.1
    → Each P (if b then r else t).1
Each-if-pair true r t h k = h
Each-if-pair false r t h k = k
