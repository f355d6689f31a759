-- ===== src/Prom.antt =====
-- crates/lss-core/src/prom.rs: the Prometheus text format, and what is read of a scrape.
pub mod Parse
pub mod Extract
pub mod Escape
pub mod Labels
pub mod Rounds
use lss.Base.{ℕ, String, Option, none, some, List, [], ◌∷◌, if◌then◌else◌, str_eq}
use lss.Base.Float.{F64}

-- the value of the first label with this key
unfoldable pub find_label : List (String × String) → String → Option String
find_label [] key = none
find_label ((k, v) ∷ labels) key =
    let rest = find_label labels key in if str_eq k key then some v else rest

module _ (F : F64) where
  pub record Series : Type 0 where
    pub name : String
    pub labels : List (String × String)
    pub value : F.Float

  unfoldable pub label : Series → String → Option String
  unfolding find_label
  label s key = find_label s.labels key
