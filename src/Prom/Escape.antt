-- ===== src/Prom/Escape.antt =====
-- promout.rs, esc, and prom.rs, the value of a label: what is escaped is read back.
use Prim.Native.Char.{Char, code}
use Prim.Native.String.{◌++◌ as append}
use text.Mathlib.TextEquality.{codes_equal}
use text.Mathlib.TextLemmas.{cons-append, nil-append}
use lss.Base.{
  ◌≡◌, refl, ap, ◌∙◌, inl, inr, String, some, true, false, arith, ◌==◌, if◌then◌else◌, Bool-cases,
}
use lss.Prom.Parse.{read_value, replace_char, backslash_and, esc, cons_value}

-- one character, escaped, before the rest
unfoldable pub escape : Char → String → String
escape c s =
    if code c == b'\\'
    then backslash_and "\\" s
    else if code c == b'"'
    then backslash_and "\"" s
    else if code c == 10
    then backslash_and "n" s
    else String.◌∷◌ c s

unfoldable pub escaped : String → String → String
unfolding escape
escaped String.[] rest = rest
escaped (String.◌∷◌ c v) rest = escape c (escaped v rest)

esc-cons : (c : Char) (v : String) → esc (String.◌∷◌ c v) ≡ escape c (esc v)
unfolding esc replace_char escape
esc-cons c v = elim (Bool-cases (code c == b'\\')) [
  | inl e ↦ rw e refl
  | inr e ↦ rw e (elim (Bool-cases (code c == b'"')) [
    | inl f ↦ rw f refl
    | inr f ↦ rw f (elim (Bool-cases (code c == 10)) [ inl g ↦ rw g refl | inr g ↦ rw g refl ])
  ])
]

append-escape : (c : Char) (s t : String) → append (escape c s) t ≡ escape c (append s t)
unfolding escape
append-escape c s t = elim (Bool-cases (code c == b'\\')) [
  | inl e ↦ rw (e, cons-append "\\" (String.◌∷◌ "\\" s) t, cons-append "\\" s t) refl
  | inr e ↦ rw e (elim (Bool-cases (code c == b'"')) [
    | inl f ↦ rw (f, cons-append "\\" (String.◌∷◌ "\"" s) t, cons-append "\"" s t) refl
    | inr f ↦ rw f (elim (Bool-cases (code c == 10)) [
      | inl g ↦ rw (g, cons-append "\\" (String.◌∷◌ "n" s) t, cons-append "n" s t) refl
      | inr g ↦ rw (g, cons-append c s t) refl
    ])
  ])
]

esc-nil : esc "" ≡ ""
unfolding esc replace_char
esc-nil = refl

pub append-esc : (v rest : String) → append (esc v) rest ≡ escaped v rest
unfolding escaped
append-esc String.[] rest = rw esc-nil (nil-append rest)
append-esc (String.◌∷◌ c v) rest =
    ap (λ s. append s rest) (esc-cons c v)
    ∙ (append-escape c (esc v) rest ∙ ap (escape c) (append-esc v rest))

read_value-plain :
    (c : Char) (s : String)
    → (code c == b'\\') ≡ false
    → (code c == b'"') ≡ false
    → read_value (String.◌∷◌ c s) ≡ cons_value c (read_value s)
unfolding read_value
read_value-plain c String.[] e f = rw f refl
read_value-plain c (String.◌∷◌ d s) e f = rw (e, f) refl

char_of_code : (c d : Char) → (code c == code d) ≡ true → c ≡ d
char_of_code c d e = codes_equal c d (ground arith)

read_value-quote : (rest : String) → read_value (String.◌∷◌ "\"" rest) ≡ some ("", rest)
unfolding read_value
read_value-quote String.[] = refl
read_value-quote (String.◌∷◌ d s) = refl

read_value-escape : (c : Char) (s : String) → read_value (escape c s) ≡ cons_value c (read_value s)
unfolding escape read_value
read_value-escape c s = elim (Bool-cases (code c == b'\\')) [
  | inl e ↦ rw (e, char_of_code c "\\" e) refl
  | inr e ↦ rw e (elim (Bool-cases (code c == b'"')) [
    | inl f ↦ rw (f, char_of_code c "\"" f) refl
    | inr f ↦ rw f (elim (Bool-cases (code c == 10)) [
      | inl g ↦ rw (g, char_of_code c "\n" g) refl
      | inr g ↦ rw g (read_value-plain c s e f)
    ])
  ])
]

-- The value that was escaped is read back, up to its quote.
pub read_value-escaped :
    (v rest : String) → read_value (escaped v (String.◌∷◌ "\"" rest)) ≡ some (v, rest)
unfolding escaped
read_value-escaped String.[] rest = read_value-quote rest
read_value-escaped (String.◌∷◌ c v) rest =
    read_value-escape c (escaped v (String.◌∷◌ "\"" rest))
    ∙ ap (cons_value c) (read_value-escaped v rest)
