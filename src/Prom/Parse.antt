-- ===== src/Prom/Parse.antt =====
-- prom.rs: parse, parse_line and parse_labels; promout.rs: esc, and the labels of a sample. The
-- scan of the source goes by bytes; every byte it looks for is ASCII, so this one goes by
-- characters, and an escaped character that is not ASCII, which leaves the source between two
-- character boundaries, fails here as it does there.
use Prim.Native.Char.{Char, code}
use lss.Base.{
  ℕ, zero, suc, String, Option, none, some, Bool, false, ◌&&◌, ◌||◌, List, [], ◌∷◌, ltb, ◌==◌,
  if◌then◌else◌, str_eq, trim, trim_start, is_white, concat,
}
use lss.Base.Float.{F64}
use lss.GateLog.Ingest.{lines}
use lss.Prom.{Series}

-- past commas and blanks
unfoldable pub skip_separators : String → String
skip_separators String.[] = ""
skip_separators (String.◌∷◌ c s) =
    let rest = skip_separators s in
    if code c == b',' || code c == b' ' then rest else String.◌∷◌ c s

abbrev pub cons_first : Char → String × String → String × String
cons_first c (before, after) = (String.◌∷◌ c before, after)

-- up to the equals sign, and what is from it on
unfoldable pub split_key : String → String × String
split_key String.[] = ("", "")
split_key (String.◌∷◌ c s) =
    let rest = cons_first c (split_key s) in if code c == b'=' then ("", String.◌∷◌ c s) else rest

abbrev pub cons_value : Char → Option (String × String) → Option (String × String)
cons_value c none = none
cons_value c (some p) = some (cons_first c p)

abbrev pub two_first : Char → Char → Option (String × String) → Option (String × String)
two_first c d m = cons_value c (cons_value d m)

-- the value up to its closing quote, and what is after it
unfoldable pub read_value : String → Option (String × String)
read_value String.[] = none
read_value (String.◌∷◌ c String.[]) = if code c == b'"' then some ("", "") else none
read_value (String.◌∷◌ c (String.◌∷◌ d s)) =
    let escaped = read_value s in
    let plain = cons_value c (read_value (String.◌∷◌ d s)) in
    if code c == b'\\'
    then (if code d == b'n'
        then cons_value "\n" escaped
        else if code d == b'"'
        then cons_value "\"" escaped
        else if code d == b'\\'
        then cons_value "\\" escaped
        else if ltb (code d) 128
        then two_first "\\" d escaped
        else none)
    else if code c == b'"'
    then some ("", String.◌∷◌ d s)
    else plain

-- past `="`
unfoldable pub after_equals : String → Option String
after_equals String.[] = none
after_equals (String.◌∷◌ c String.[]) = none
after_equals (String.◌∷◌ c (String.◌∷◌ d s)) =
    if code c == b'=' && code d == b'"' then some s else none

abbrev pub Labels : Type 0
Labels = List (String × String)

abbrev pub cons_label : String × String → Option (Labels × String) → Option (Labels × String)
cons_label l none = none
cons_label l (some (labels, rest)) = some (l ∷ labels, rest)

abbrev pub with_key : String → Option (String × String) → Option ((String × String) × String)
with_key key none = none
with_key key (some (val, after)) = some ((trim key, val), after)

-- one label, before the next round
unfoldable pub label_after : String × String → Option ((String × String) × String)
unfolding after_equals
label_after (key, rest) = elim (after_equals rest) [
  | none ↦ none
  | some text ↦ with_key key (read_value text)
]

unfoldable pub next_label : String → Option ((String × String) × String)
unfolding label_after
next_label body = label_after (split_key body)

-- at a closing brace the labels end; `labels_from` is the loop of `parse_labels`, with one round of
-- fuel for each character
abbrev pub at_brace : String → Option String
at_brace String.[] = none
at_brace (String.◌∷◌ c s) = if code c == b'}' then some s else none

unfoldable pub text_length : String → ℕ
text_length String.[] = 0
text_length (String.◌∷◌ c s) = suc (text_length s)

abbrev pub and_more :
    (String → Option (Labels × String))
    → Option ((String × String) × String)
    → Option (Labels × String)
and_more more none = none
and_more more (some (l, after)) = cons_label l (more after)

-- one round, past the separators
unfoldable pub round_at :
    (String → Option (Labels × String)) → Option String → String → Option (Labels × String)
round_at more (some rest) at = some ([], rest)
round_at more none at = and_more more (next_label at)

unfoldable pub labels_from : ℕ → String → Option (Labels × String)
unfolding round_at skip_separators
labels_from zero body = none
labels_from (suc fuel) body =
    let at = skip_separators body in round_at (labels_from fuel) (at_brace at) at

unfoldable pub parse_labels : String → Option (Labels × String)
unfolding labels_from text_length
parse_labels body = labels_from (suc (text_length body)) body

-- `line.find(['{', ' '])`: the name, and the line from the mark on
unfoldable pub split_name : String → Option (String × String)
split_name String.[] = none
split_name (String.◌∷◌ c s) =
    let rest = cons_value c (split_name s) in
    if code c == b'{' || code c == b' ' then some ("", String.◌∷◌ c s) else rest

word_from : String → String
word_from String.[] = ""
word_from (String.◌∷◌ c s) =
    let rest = String.◌∷◌ c (word_from s) in if is_white (code c) then "" else rest

-- `split_whitespace().next()`
unfoldable pub first_word : String → Option String
unfolding word_from
first_word text =
    let word = word_from (trim_start text) in if str_eq word "" then none else some word

-- the labels after an opening brace, and what follows them
labels_of : String → Option (Labels × String)
unfolding parse_labels
labels_of String.[] = some ([], "")
labels_of (String.◌∷◌ c s) = if code c == b'{' then parse_labels s else some ([], String.◌∷◌ c s)

begins_hash : String → Bool
begins_hash String.[] = false
begins_hash (String.◌∷◌ c s) = code c == b'#'

module _ (F : F64) where
  unfoldable pub parse_value : String → Option F.Float
  parse_value v =
      if str_eq v "NaN"
      then some F.nan
      else if str_eq v "+Inf" || str_eq v "Inf"
      then some F.infinity
      else if str_eq v "-Inf"
      then some F.neg_infinity
      else F.parse_float v

  unfoldable pub series_of : String → Option (Labels × String) → Option (Series F)
  unfolding first_word parse_value
  series_of name none = none
  series_of name (some (labels, text)) = elim (first_word text) [
    | none ↦ none
    | some word ↦ elim (parse_value word) [
      | none ↦ none
      | some value ↦ some record { name = name; labels = labels; value = value }
    ]
  ]

  unfoldable pub parse_line : String → Option (Series F)
  unfolding split_name labels_of series_of begins_hash
  parse_line text =
      let line = trim text in
      if str_eq line "" || begins_hash line then none else elim (split_name line) [
        | none ↦ none
        | some (name, rest) ↦ if str_eq name "" then none else series_of name (labels_of rest)
      ]

  unfoldable pub parse_lines : List String → List (Series F)
  unfolding parse_line
  parse_lines [] = []
  parse_lines (l ∷ rest) = elim (parse_line l) [
    | none ↦ parse_lines rest
    | some s ↦ s ∷ parse_lines rest
  ]

  unfoldable pub parse : String → List (Series F)
  unfolding parse_lines
  parse text = parse_lines (lines text)

-- `v.replace(c, with)` of one character; `by` puts what replaces it before the rest
unfoldable pub replace_char : ℕ → (String → String) → String → String
replace_char old by String.[] = ""
replace_char old by (String.◌∷◌ c s) =
    let rest = replace_char old by s in if code c == old then by rest else String.◌∷◌ c rest

abbrev pub backslash_and : Char → String → String
backslash_and c s = String.◌∷◌ "\\" (String.◌∷◌ c s)

-- promout.rs, `esc`
unfoldable pub esc : String → String
unfolding replace_char
esc v =
    replace_char 10 (backslash_and "n")
      (replace_char b'"' (backslash_and "\"") (replace_char b'\\' (backslash_and "\\") v))

-- promout.rs, `Out::sample`: `k="v"` of each label, with commas between them
unfoldable pub show_labels : Labels → String
unfolding esc
show_labels [] = ""
show_labels ((k, v) ∷ []) = concat (k ∷ "=\"" ∷ esc v ∷ "\"" ∷ [])
show_labels ((k, v) ∷ l ∷ labels) =
    concat (k ∷ "=\"" ∷ esc v ∷ "\"," ∷ show_labels (l ∷ labels) ∷ [])

module _ (F : F64) where
  -- the line of a sample, its host first; the host is escaped where `Out` is made
  unfoldable pub show_sample : String → String → Labels → F.Float → String
  unfolding show_labels
  show_sample host name labels value =
      concat
        (name ∷ "{" ∷ show_labels (("host", host) ∷ labels) ∷ "} " ∷ F.show_float value ∷ "\n" ∷ [])
