-- ===== src/Base/Text.antt =====
-- Texts: what `format!` puts together, and the decimal form of an unsigned integer.
use Prim.Native.Nat.{ℕ, zero, suc, ◌/◌, ◌%◌}
use Prim.Native.String.{String, ◌++◌ as append}
use mathlib.Core.Path.{◌≡◌, refl}
use mathlib.Core.List.{List, [], ◌∷◌}
use Prim.Native.Char.{Char, code}
use mathlib.Core.Bool.{Bool, false, ◌&&◌, ◌||◌}
use text.Mathlib.Text.{◌==◌ as str_eq}
use lss.Base.Tests.{leb, ◌==◌, ltb, if◌then◌else◌}

-- The pieces of a format string and its arguments, in order.
unfoldable pub concat : List String → String
concat [] = ""
concat (s ∷ ss) = append s (concat ss)

-- `lines.join(sep)`
unfoldable pub join : String → List String → String
join sep [] = ""
join sep (s ∷ []) = s
join sep (s ∷ t ∷ ss) = append s (append sep (join sep (t ∷ ss)))

digit : ℕ → String
digit zero = "0"
digit (suc zero) = "1"
digit (suc (suc zero)) = "2"
digit (suc (suc (suc zero))) = "3"
digit (suc (suc (suc (suc zero)))) = "4"
digit (suc (suc (suc (suc (suc zero))))) = "5"
digit (suc (suc (suc (suc (suc (suc zero)))))) = "6"
digit (suc (suc (suc (suc (suc (suc (suc zero))))))) = "7"
digit (suc (suc (suc (suc (suc (suc (suc (suc zero)))))))) = "8"
digit (suc (suc (suc (suc (suc (suc (suc (suc (suc n))))))))) = "9"

digits : ℕ → ℕ → String → String
digits zero n acc = acc
digits (suc fuel) n acc =
    let rest = digits fuel (n / 10) (append (digit (n % 10)) acc) in
    if ltb n 10 then append (digit n) acc else rest

-- `{}` of an unsigned integer: a number below 2^64 has at most 20 digits.
unfoldable pub show_ℕ : ℕ → String
unfolding digits digit
show_ℕ n = digits 20 n ""

-- `{:02}`
unfoldable pub show_pad2 : ℕ → String
unfolding show_ℕ
show_pad2 n = if ltb n 10 then append "0" (show_ℕ n) else show_ℕ n

show_max : show_ℕ 18446744073709551615 ≡ "18446744073709551615"
unfolding show_ℕ
show_max = refl

-- Rust's `char::is_whitespace`, by code point.
abbrev pub is_white : ℕ → Bool
is_white c =
    (leb 9 c && leb c 13)
    || c == 32
    || c == 0x85
    || c == 0xa0
    || c == 0x1680
    || (leb 0x2000 c && leb c 0x200a)
    || c == 0x2028
    || c == 0x2029
    || c == 0x202f
    || c == 0x205f
    || c == 0x3000

unfoldable pub trim_start : String → String
trim_start String.[] = ""
trim_start (String.◌∷◌ c s) =
    let rest = trim_start s in if is_white (code c) then rest else String.◌∷◌ c s

unfoldable pub trim_end : String → String
trim_end String.[] = ""
trim_end (String.◌∷◌ c s) =
    let rest = trim_end s in if is_white (code c) && str_eq rest "" then "" else String.◌∷◌ c rest

-- `str::trim`
unfoldable pub trim : String → String
unfolding trim_start trim_end
trim s = trim_end (trim_start s)

trim_test : trim "  planned swap " ≡ "planned swap"
unfolding trim
trim_test = refl

-- every character of a text
abbrev pub AllChars {ℓ} : (Char → Type ℓ) → String → Type ℓ
AllChars P String.[] = Unit
AllChars P (String.◌∷◌ c s) = P c × AllChars P s

trim_end-eq : (s : String) → AllChars (λ c. is_white (code c) ≡ false) s → trim_end s ≡ s
unfolding trim_end
trim_end-eq String.[] h = refl
trim_end-eq (String.◌∷◌ c s) h = rw (h.0, trim_end-eq s h.1) refl

-- a text with no white space
pub trim-eq : (s : String) → AllChars (λ c. is_white (code c) ≡ false) s → trim s ≡ s
unfolding trim trim_start
trim-eq String.[] h = refl
trim-eq (String.◌∷◌ c s) h = rw h.0 (trim_end-eq (String.◌∷◌ c s) h)
