-- ===== src/Prom/Rounds.antt =====
-- prom.rs, parse_labels: the loop over the labels ends, and a round for each character is enough.
use Prim.Native.Char.{Char, code}
use Prim.Native.String.{String}
use lss.Base.{
  ℕ, zero, suc, ◌≤◌, ◌<◌, ◌≡◌, refl, inl, inr, Option, none, some, true, false, arith,
  if◌then◌else◌, Bool, Bool-cases, ◌&&◌, ◌==◌, ltb, ap,
}
use lss.Prom.Parse.{
  skip_separators, split_key, cons_value, read_value, after_equals, Labels, cons_label, with_key,
  label_after, next_label, at_brace, and_more, text_length, round_at, labels_from, parse_labels,
}

text_length-skip_separators : (s : String) → text_length (skip_separators s) ≤ text_length s
unfolding text_length skip_separators
text_length-skip_separators String.[] = omega arith
text_length-skip_separators (String.◌∷◌ c s) = ground (arith, text_length-skip_separators s)

text_length-split_key : (s : String) → text_length (split_key s).1 ≤ text_length s
unfolding text_length split_key
text_length-split_key String.[] = omega arith
text_length-split_key (String.◌∷◌ c s) = ground (arith, text_length-split_key s)

-- what is left, if anything is read, has at most `n` characters
data LeavesAtMost {A : Type 0} (n : ℕ) : Option (A × String) → Type 0 where
  failed : LeavesAtMost n none
  left : (a : A) (s : String) → text_length s ≤ n → LeavesAtMost n (some (a, s))

LeavesAtMost-if :
    {A : Type 0} {n : ℕ} (b : Bool) {x y : Option (A × String)}
    → LeavesAtMost n x
    → LeavesAtMost n y
    → LeavesAtMost n (if b then x else y)
LeavesAtMost-if true h k = h
LeavesAtMost-if false h k = k

LeavesAtMost-le :
    {A : Type 0} {m n : ℕ} (x : Option (A × String)) → m ≤ n → LeavesAtMost m x → LeavesAtMost n x
LeavesAtMost-le none e failed = failed
LeavesAtMost-le (some p) e (left a s h) = left a s (omega arith)

cons_value-leaves :
    {n : ℕ} (c : Char) (m : Option (String × String))
    → LeavesAtMost n m
    → LeavesAtMost n (cons_value c m)
cons_value-leaves c none failed = failed
cons_value-leaves c (some p) (left a s h) = left _ s h

read_value-leaves : (s : String) → LeavesAtMost (text_length s) (read_value s)
unfolding text_length read_value
read_value-leaves String.[] = failed
read_value-leaves (String.◌∷◌ c String.[]) =
    LeavesAtMost-if (code c == b'"') (left "" "" (omega arith)) failed
read_value-leaves (String.◌∷◌ c (String.◌∷◌ d s)) =
    let rest : LeavesAtMost (suc (suc (text_length s))) (read_value s) =
      LeavesAtMost-le (read_value s) (omega arith) (read_value-leaves s) in
    let plain : LeavesAtMost (suc (suc (text_length s))) (read_value (String.◌∷◌ d s)) =
      LeavesAtMost-le (read_value (String.◌∷◌ d s)) (omega arith)
        (read_value-leaves (String.◌∷◌ d s)) in
    LeavesAtMost-if (code c == b'\\')
      (LeavesAtMost-if (code d == b'n') (cons_value-leaves "\n" (read_value s) rest) (
        LeavesAtMost-if (code d == b'"') (cons_value-leaves "\"" (read_value s) rest) (
          LeavesAtMost-if (code d == b'\\') (cons_value-leaves "\\" (read_value s) rest) (
            LeavesAtMost-if (ltb (code d) 128)
              (cons_value-leaves "\\" (cons_value d (read_value s))
                (cons_value-leaves d (read_value s) rest))
              failed))))
      (LeavesAtMost-if (code c == b'"') (left "" (String.◌∷◌ d s) (omega arith))
        (cons_value-leaves c (read_value (String.◌∷◌ d s)) plain))

-- A label takes at least the equals sign and the two quotes.
with_key-leaves :
    {n : ℕ} (key : String) (m : Option (String × String))
    → LeavesAtMost n m
    → LeavesAtMost n (with_key key m)
with_key-leaves key none failed = failed
with_key-leaves key (some p) (left a s h) = left _ s h

label_after-leaves :
    (n : ℕ) (key rest : String)
    → text_length rest ≤ suc n
    → LeavesAtMost n (label_after (key, rest))
unfolding text_length label_after after_equals
label_after-leaves n key String.[] h = failed
label_after-leaves n key (String.◌∷◌ c String.[]) h = failed
label_after-leaves n key (String.◌∷◌ c (String.◌∷◌ d s)) h =
    elim (Bool-cases (code c == b'=' && code d == b'"')) [
      | inl e ↦
          rw (e, label_after)
            (with_key-leaves key (read_value s)
              (LeavesAtMost-le (read_value s) (omega arith) (read_value-leaves s)))
      | inr e ↦ rw (e, label_after) failed
    ]

next_label-leaves : (n : ℕ) (s : String) → text_length s ≤ suc n → LeavesAtMost n (next_label s)
unfolding next_label
next_label-leaves n s h =
    label_after-leaves n (split_key s).0 (split_key s).1 (omega (arith, text_length-split_key s))

and_more-steady :
    (f g : String → Option (Labels × String)) (n : ℕ) (m : Option ((String × String) × String))
    → ((s : String) → text_length s ≤ n → f s ≡ g s)
    → LeavesAtMost n m
    → and_more f m ≡ and_more g m
and_more-steady f g n none e failed = refl
and_more-steady f g n (some p) e (left l after h) = ap (cons_label l) (e after h)

round_at-steady :
    (f g : String → Option (Labels × String)) (at : String)
    → ((t : String) → text_length t < text_length at → f t ≡ g t)
    → round_at f (at_brace at) at ≡ round_at g (at_brace at) at
unfolding round_at text_length next_label label_after split_key after_equals
round_at-steady f g String.[] e = refl
round_at-steady f g (String.◌∷◌ c s) e =
    let steady =
      and_more-steady f g (text_length s) (next_label (String.◌∷◌ c s)) (λ t k. e t (omega arith))
        (next_label-leaves (text_length s) (String.◌∷◌ c s) (omega arith)) in
    elim (Bool-cases (code c == b'}')) [ inl b ↦ rw b refl | inr b ↦ rw b steady ]

labels_from-steady :
    (n m : ℕ) (s : String)
    → text_length s < n
    → text_length s < m
    → labels_from n s ≡ labels_from m s
unfolding labels_from
labels_from-steady zero m s h k = absurd (omega arith)
labels_from-steady (suc n) zero s h k = absurd (omega arith)
labels_from-steady (suc n) (suc m) s h k =
    round_at-steady (labels_from n) (labels_from m) (skip_separators s) (λ t b.
      labels_from-steady n m t (omega (arith, text_length-skip_separators s))
        (omega (arith, text_length-skip_separators s)))

-- The loop of parse_labels never stops for want of rounds: with any number of rounds above the
-- length of the text it gives the result of parse_labels.
pub rounds_suffice :
    (n : ℕ) (body : String) → text_length body < n → labels_from n body ≡ parse_labels body
unfolding parse_labels
rounds_suffice n body h = labels_from-steady n (suc (text_length body)) body h (omega arith)
