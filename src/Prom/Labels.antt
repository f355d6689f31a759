-- ===== src/Prom/Labels.antt =====
-- What promout.rs writes as the labels of a sample, prom.rs reads back.
use Prim.Native.Char.{code}
use Prim.Native.String.{◌++◌ as append}
use text.Mathlib.TextLemmas.{append-nil, cons-append, nil-append, append_assoc}
use lss.Base.{
  AllChars, trim-eq, ℕ, zero, suc, ◌+◌, ◌<◌, ◌≤◌, ◌≡◌, refl, ap, ◌∙◌, inl, inr, String, none, some,
  Bool, true, false, not, ◌&&◌, ◌||◌, [], ◌∷◌, arith, ◌==◌, Bool-cases, length, All, is_white,
  concat,
}
use lss.Prom.Parse.{
  skip_separators, split_key, next_label, Labels, labels_from, parse_labels, text_length,
  label_after, with_key, and_more, round_at, show_labels, at_brace, cons_label,
}
use lss.Prom.Escape.{escape, escaped, append-esc, read_value-escaped}

-- A character that a key may have.
abbrev pub is_key_char : ℕ → Bool
is_key_char c = not (is_white c) && not (c == b',') && not (c == b'}') && not (c == b'=')

-- A key: not empty, and none of its characters ends it.
abbrev pub IsKey : String → Type 0
IsKey String.[] = ⊥
IsKey (String.◌∷◌ c s) = AllChars (λ d. is_key_char (code d) ≡ true) (String.◌∷◌ c s)

-- A key, its mark and its escaped value before the rest.
prepend : String → String → String
prepend String.[] rest = rest
prepend (String.◌∷◌ c s) rest = String.◌∷◌ c (prepend s rest)

marked : String → String
marked s = String.◌∷◌ "=" (String.◌∷◌ "\"" s)

one_label : String × String → String → String
unfolding prepend marked
one_label (k, v) rest = prepend k (marked (escaped v (String.◌∷◌ "\"" rest)))

all_labels : Labels → String → String
unfolding one_label
all_labels [] rest = rest
all_labels (l ∷ []) rest = one_label l rest
all_labels (l ∷ l' ∷ labels) rest = one_label l (String.◌∷◌ "," (all_labels (l' ∷ labels) rest))

append-prepend : (k rest : String) → append k rest ≡ prepend k rest
unfolding prepend
append-prepend String.[] rest = nil-append rest
append-prepend (String.◌∷◌ c s) rest =
    cons-append c s rest ∙ ap (String.◌∷◌ c) (append-prepend s rest)

append-marked : (s : String) → append "=\"" s ≡ marked s
unfolding marked
append-marked s = rw (cons-append "=" "\"" s, cons-append "\"" "" s, nil-append s) refl

append-quote : (s : String) → append "\"" s ≡ String.◌∷◌ "\"" s
append-quote s = rw (cons-append "\"" "" s, nil-append s) refl

append-quote_comma : (s : String) → append "\"," s ≡ String.◌∷◌ "\"" (String.◌∷◌ "," s)
append-quote_comma s = rw (cons-append "\"" "," s, cons-append "," "" s, nil-append s) refl

show_labels-all :
    (labels : Labels) (rest : String) → append (show_labels labels) rest ≡ all_labels labels rest
unfolding show_labels concat all_labels one_label
show_labels-all [] rest = nil-append rest
show_labels-all ((k, v) ∷ []) rest =
    simp (append_assoc, append-nil)
      (rw
        (
          append-quote rest,
          append-esc v (String.◌∷◌ "\"" rest),
          append-marked (escaped v (String.◌∷◌ "\"" rest)),
        )
        (append-prepend k (marked (escaped v (String.◌∷◌ "\"" rest)))))
show_labels-all ((k, v) ∷ l ∷ labels) rest =
    let tail = String.◌∷◌ "," (all_labels (l ∷ labels) rest) in
    simp (append_assoc, append-nil)
      (rw
        (
          show_labels-all (l ∷ labels) rest,
          append-quote_comma (all_labels (l ∷ labels) rest),
          append-esc v (String.◌∷◌ "\"" tail),
          append-marked (escaped v (String.◌∷◌ "\"" tail)),
        )
        (append-prepend k (marked (escaped v (String.◌∷◌ "\"" tail)))))

abbrev KeyChars : String → Type 0
KeyChars = AllChars (λ d. is_key_char (code d) ≡ true)

split_key-prepend : (k s : String) → KeyChars k → split_key (prepend k (marked s)) ≡ (k, marked s)
unfolding split_key prepend marked
split_key-prepend String.[] s h = refl
split_key-prepend (String.◌∷◌ c k) s h =
    let e : (code c == b'=') ≡ false = ground arith in rw (e, split_key-prepend k s h.1) refl

no_white : (k : String) → KeyChars k → AllChars (λ d. is_white (code d) ≡ false) k
no_white String.[] h = tt
no_white (String.◌∷◌ c k) h = (not_white (code c) h.0, no_white k h.1)
  where
    not_white : (n : ℕ) → is_key_char n ≡ true → is_white n ≡ false
    not_white n e = elim (Bool-cases (is_white n)) [ inl f ↦ ground (arith, f) | inr f ↦ f ]

next_label-one :
    (k v rest : String) → IsKey k → next_label (one_label (k, v) rest) ≡ some ((k, v), rest)
unfolding next_label one_label marked
next_label-one String.[] v rest h = absurd h
next_label-one (String.◌∷◌ c k) v rest h =
    let text = escaped v (String.◌∷◌ "\"" rest) in
    ap label_after (split_key-prepend (String.◌∷◌ c k) text h)
    ∙ (ap (with_key (String.◌∷◌ c k)) (read_value-escaped v rest)
        ∙ ap (λ (t : String). some ((t, v), rest))
            (trim-eq (String.◌∷◌ c k) (no_white (String.◌∷◌ c k) h)))

-- A label is not read as the end, and nothing of it is skipped.
skip_separators-one :
    (k v rest : String)
    → IsKey k
    → (skip_separators (one_label (k, v) rest) ≡ one_label (k, v) rest)
      × (at_brace (one_label (k, v) rest) ≡ none)
unfolding skip_separators one_label prepend
skip_separators-one String.[] v rest h = absurd h
skip_separators-one (String.◌∷◌ c k) v rest h =
    let e : (code c == b',' || code c == b' ') ≡ false = no_separator (code c) h.0 in
    let f : (code c == b'}') ≡ false = ground (arith, h.0) in (rw e refl, rw f refl)
  where
    no_separator : (n : ℕ) → is_key_char n ≡ true → (n == b',' || n == b' ') ≡ false
    no_separator n e = ground arith

-- one round of the loop
labels_from-one :
    (f : ℕ) (k v rest : String)
    → IsKey k
    → labels_from (suc f) (one_label (k, v) rest) ≡ cons_label (k, v) (labels_from f rest)
unfolding labels_from round_at
labels_from-one f k v rest h =
    let s = skip_separators-one k v rest h in
    ap (λ at. round_at (labels_from f) (at_brace at) at) s.0
    ∙ (ap (λ b. round_at (labels_from f) b (one_label (k, v) rest)) s.1
        ∙ ap (and_more (labels_from f)) (next_label-one k v rest h))

-- A comma before the next label is skipped.
labels_from-comma : (f : ℕ) (s : String) → labels_from f (String.◌∷◌ "," s) ≡ labels_from f s
unfolding labels_from skip_separators
labels_from-comma zero s = refl
labels_from-comma (suc f) s = refl

labels_from-end :
    (f : ℕ) (rest : String) → labels_from (suc f) (String.◌∷◌ "}" rest) ≡ some ([], rest)
unfolding labels_from skip_separators round_at
labels_from-end f rest = refl

labels_from-all_labels :
    (f : ℕ) (labels : Labels) (rest : String)
    → All (λ l. IsKey l.0) labels
    → length labels < f
    → labels_from f (all_labels labels (String.◌∷◌ "}" rest)) ≡ some (labels, rest)
unfolding all_labels
labels_from-all_labels zero labels rest h n = absurd (omega arith)
labels_from-all_labels (suc f) [] rest h n = labels_from-end f rest
labels_from-all_labels (suc f) ((k, v) ∷ []) rest h n =
    labels_from-one f k v (String.◌∷◌ "}" rest) h.0
    ∙ ap (cons_label (k, v)) (labels_from-all_labels f [] rest tt (omega arith))
labels_from-all_labels (suc f) ((k, v) ∷ l ∷ labels) rest h n =
    labels_from-one f k v (String.◌∷◌ "," (all_labels (l ∷ labels) (String.◌∷◌ "}" rest))) h.0
    ∙ ap (cons_label (k, v)) (
        labels_from-comma f (all_labels (l ∷ labels) (String.◌∷◌ "}" rest))
        ∙ labels_from-all_labels f (l ∷ labels) rest h.1 (omega arith))

text_length-escaped : (v rest : String) → text_length rest ≤ text_length (escaped v rest)
unfolding escaped escape text_length
text_length-escaped String.[] rest = omega arith
text_length-escaped (String.◌∷◌ c v) rest = ground (arith, text_length-escaped v rest)

text_length-prepend : (k rest : String) → text_length rest ≤ text_length (prepend k rest)
unfolding prepend text_length
text_length-prepend String.[] rest = omega arith
text_length-prepend (String.◌∷◌ c k) rest = omega (arith, text_length-prepend k rest)

text_length-one :
    (l : String × String) (rest : String) → text_length rest + 1 ≤ text_length (one_label l rest)
unfolding one_label marked text_length
text_length-one (k, v) rest = omega (
  arith,
  text_length-prepend k (marked (escaped v (String.◌∷◌ "\"" rest))),
  text_length-escaped v (String.◌∷◌ "\"" rest),
)

-- There are no more labels than characters: the fuel is enough.
text_length-all :
    (labels : Labels) (rest : String) → length labels ≤ text_length (all_labels labels rest)
unfolding all_labels text_length
text_length-all [] rest = omega arith
text_length-all (l ∷ []) rest = omega (arith, text_length-one l rest)
text_length-all (l ∷ l' ∷ labels) rest = omega (
  arith,
  text_length-one l (String.◌∷◌ "," (all_labels (l' ∷ labels) rest)),
  text_length-all (l' ∷ labels) rest,
)

-- The labels of a sample, with any values, are read back as they were printed, and what follows the
-- closing brace is left over; each key is not empty and has no blank, comma, brace or equals sign.
pub parse_labels-show_labels :
    (labels : Labels) (rest : String)
    → All (λ l. IsKey l.0) labels
    → parse_labels (append (show_labels labels) (String.◌∷◌ "}" rest)) ≡ some (labels, rest)
unfolding parse_labels
parse_labels-show_labels labels rest h =
    let text = String.◌∷◌ "}" rest in
    ap (λ s. labels_from (suc (text_length s)) s) (show_labels-all labels text)
    ∙ labels_from-all_labels (suc (text_length (all_labels labels text))) labels rest h
        (omega (arith, text_length-all labels text))
