-- ===== src/GateLog/Ingest.antt =====
-- gatelog.rs: split_docker_ts, parse_audit and ingest. serde_json is the parameter from_json.
use Prim.Native.Char.{Char, code}
use Prim.Native.String.{len}
use lss.Base.{
  ℕ, ◌+◌, ◌/◌, ◌%◌, String, Option, none, some, Bool, false, ◌&&◌, List, [], ◌∷◌, ◌++◌, ltb, leb,
  ◌==◌, if◌then◌else◌, is_some_and, is_none_or, get_elem?, trim,
}
use lss.Base.Float.{F64}
use lss.Base.Order.{str_lt, str_le}
use lss.GateLog.{AuditRecord}
use lss.GateLog.Lane.{Addresses, LogDelta, no_delta, add}

-- the UTF-8 of a character, and `str::as_bytes`
abbrev bytes_of : ℕ → List ℕ
bytes_of c =
    if ltb c 0x80
    then c ∷ []
    else if ltb c 0x800
    then (0xc0 + c / 64) ∷ (0x80 + c % 64) ∷ []
    else if ltb c 0x10000
    then (0xe0 + c / 4096) ∷ (0x80 + c / 64 % 64) ∷ (0x80 + c % 64) ∷ []
    else (0xf0 + c / 262144) ∷ (0x80 + c / 4096 % 64) ∷ (0x80 + c / 64 % 64) ∷ (0x80 + c % 64) ∷ []

pub as_bytes : String → List ℕ
as_bytes String.[] = []
as_bytes (String.◌∷◌ c s) = bytes_of (code c) ++ as_bytes s

before_too : Char → Option (String × String) → Option (String × String)
before_too c none = none
before_too c (some (before, after)) = some (String.◌∷◌ c before, after)

-- `line.split_once(' ')`
unfoldable pub split_space : String → Option (String × String)
unfolding before_too
split_space String.[] = none
split_space (String.◌∷◌ c s) =
    let rest = split_space s in if code c == b' ' then some ("", s) else before_too c rest

ends_with_z : String → Bool
ends_with_z String.[] = false
ends_with_z (String.◌∷◌ c String.[]) = code c == b'Z'
ends_with_z (String.◌∷◌ c (String.◌∷◌ d s)) = ends_with_z (String.◌∷◌ d s)

abbrev has_byte : List ℕ → ℕ → ℕ → Bool
has_byte bytes i b = is_some_and (get_elem? bytes i) (λ x. x == b)

unfoldable pub is_stamp : String → Bool
unfolding as_bytes ends_with_z
is_stamp ts =
    leb 20 (len ts)
    && has_byte (as_bytes ts) 4 b'-'
    && has_byte (as_bytes ts) 10 b'T'
    && ends_with_z ts

unfoldable pub split_docker_ts : String → Option (String × String)
unfolding split_space is_stamp
split_docker_ts line = elim (split_space line) [
  | none ↦ none
  | some (ts, rest) ↦ if is_stamp ts then some (ts, rest) else none
]

begins_brace : String → Bool
begins_brace String.[] = false
begins_brace (String.◌∷◌ c s) = code c == b'{'

-- `str::lines`: pieces between line feeds, with one carriage return before a line feed taken off;
-- no empty last line
drop_cr : List Char → List Char
drop_cr [] = []
drop_cr (c ∷ cs) = if code c == 13 then cs else c ∷ cs

text_of : List Char → String → String
text_of [] s = s
text_of (c ∷ cs) s = text_of cs (String.◌∷◌ c s)

-- with the characters of the current line in reverse
lines_from : List Char → String → List String
unfolding drop_cr text_of
lines_from [] String.[] = []
lines_from (c ∷ cs) String.[] = text_of (c ∷ cs) "" ∷ []
lines_from cs (String.◌∷◌ c s) =
    let line = text_of (drop_cr cs) "" ∷ lines_from [] s in
    let on = lines_from (c ∷ cs) s in if code c == 10 then line else on

unfoldable pub lines : String → List String
unfolding lines_from
lines text = lines_from [] text

module _ (F : F64) (std : Addresses) (from_json : String → Option (AuditRecord F)) where
  unfoldable pub parse_audit : String → Option (AuditRecord F)
  unfolding begins_brace
  parse_audit text = let rest = trim text in if begins_brace rest then from_json rest else none

  -- `if let Some(rec) = .. { delta.add(&rec) }`
  unfoldable pub add_parsed : LogDelta F → Option (AuditRecord F) → LogDelta F
  add_parsed delta none = delta
  add_parsed delta (some rec) = add F std delta rec

  unfoldable pub newer : Option String → String → Option String
  newer newest ts = if is_none_or newest (λ n. str_lt n ts) then some ts else newest

  -- the body of the loop of `ingest`, on a line that is split
  unfoldable pub ingest_line :
      Option String
      → Option (String × String)
      → LogDelta F × Option String
      → LogDelta F × Option String
  unfolding newer add_parsed
  ingest_line after_ts none st = st
  ingest_line after_ts (some (ts, rest)) (delta, newest) =
      if is_some_and after_ts (λ a. str_le ts a)
      then (delta, newest)
      else (add_parsed delta (parse_audit rest), newer newest ts)

  unfoldable pub ingest_lines :
      Option String → List String → LogDelta F × Option String → LogDelta F × Option String
  unfolding ingest_line
  ingest_lines after_ts [] st = st
  ingest_lines after_ts (line ∷ rest) st =
      ingest_lines after_ts rest (ingest_line after_ts (split_docker_ts line) st)

  unfoldable pub ingest : String → Option String → LogDelta F × Option String
  unfolding ingest_lines
  ingest text after_ts = ingest_lines after_ts (lines text) (no_delta F, after_ts)
