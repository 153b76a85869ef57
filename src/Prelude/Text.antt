-- ===== src/Prelude/Text.antt =====
-- JavaScript's number and text formatting, as far as the sources use it.
use Prim.Native.Char.{code}
use Prim.Native.String.{◌++◌ as str_append, count, [] as empty, ◌∷◌ as text_cons}
use attesta_ai_powered_soc.Prelude.{
  ℕ, zero, suc, ◌-◌, ◌/◌, ◌%◌, String, List, [], ◌∷◌, ltb, if◌then◌else◌, get_or,
}

infixr 65 ◌<>◌
-- `${s}${t}`
abbrev pub ◌<>◌ : String → String → String
s <> t = str_append s t

abbrev digit_texts : List String
digit_texts =
    "0" ∷ "1" ∷ "2" ∷ "3" ∷ "4" ∷ "5" ∷ "6" ∷ "7" ∷ "8" ∷ "9" ∷ "a" ∷ "b" ∷ "c" ∷ "d" ∷ "e" ∷ "f"
    ∷ "g" ∷ "h" ∷ "i" ∷ "j" ∷ "k" ∷ "l" ∷ "m" ∷ "n" ∷ "o" ∷ "p" ∷ "q" ∷ "r" ∷ "s" ∷ "t" ∷ "u" ∷ "v"
    ∷ "w" ∷ "x" ∷ "y" ∷ "z" ∷ []

-- At most `fuel` digits; a number below 2 ^ 53 has at most 53 in any radix from 2 on.
to_digits : ℕ → ℕ → ℕ → String → String
to_digits zero radix n rest = rest
to_digits (suc fuel) radix n rest =
    let here = get_or digit_texts (n % radix) "" <> rest in
    let more = to_digits fuel radix (n / radix) here in if ltb n radix then here else more

-- `n.toString(radix)` of a natural number below 2 ^ 53
unfoldable pub to_string : ℕ → ℕ → String
unfolding to_digits
to_string radix n = to_digits 53 radix n ""

-- `String(n)`, and `${n}`
abbrev pub decimal : ℕ → String
decimal n = to_string 10 n

repeat : ℕ → String → String
repeat zero s = ""
repeat (suc n) s = s <> repeat n s

-- `s.padStart(width, fill)` for a `fill` of one character
unfoldable pub pad_start : String → ℕ → String → String
unfolding repeat
pad_start s width fill = repeat (width - count s) fill <> s

abbrev pub concat : List String → String
concat [] = ""
concat (s ∷ ss) = s <> concat ss

abbrev small_letters : List String
small_letters =
    "a" ∷ "b" ∷ "c" ∷ "d" ∷ "e" ∷ "f" ∷ "g" ∷ "h" ∷ "i" ∷ "j" ∷ "k" ∷ "l" ∷ "m" ∷ "n" ∷ "o" ∷ "p"
    ∷ "q" ∷ "r" ∷ "s" ∷ "t" ∷ "u" ∷ "v" ∷ "w" ∷ "x" ∷ "y" ∷ "z" ∷ []

-- `s.toLowerCase()` of an ASCII text
unfoldable pub to_lower : String → String
to_lower empty = ""
to_lower (text_cons c s) =
    if ltb (code c) 65
    then text_cons c (to_lower s)
    else if ltb 90 (code c)
    then text_cons c (to_lower s)
    else get_or small_letters (code c - 65) "" <> to_lower s

-- `s.slice(0, n)`
unfoldable pub take_text : ℕ → String → String
take_text zero s = ""
take_text (suc n) empty = ""
take_text (suc n) (text_cons c s) = text_cons c (take_text n s)
