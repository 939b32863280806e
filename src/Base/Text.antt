-- ===== src/Base/Text.antt =====
-- Text: concatenation, hexadecimal (encoding/hex, and fmt's `%x` of bytes) and decimal (`%d`).
use Prim.Native.Nat.{ℕ, zero, suc, ◌/◌, ◌%◌}
use Prim.Native.Char.{Char, code}
use Prim.Native.String.{String, ◌++◌}
use mathlib.Core.List.{List, [], ◌∷◌}
use mathlib.Core.Path.{◌≡◌}
use mathlib.Core.Logic.{◌≢◌}
use mathlib.Core.Bool.{Bool, true, false, ◌&&◌, ◌||◌}
use native.Mathlib.Omega.{arith}
use text.Mathlib.Text.{◌==◌ as str_eq}
use text.Mathlib.TextEquality.{eq_iff}
use ldndrc.Base.Tests.{ltb, leb, ◌==◌, if◌then◌else◌}
use ldndrc.Base.Int.{ℤ, pos, negsuc}

-- The pieces of a `fmt.Sprintf`, joined.
abbrev pub concat : List String → String
concat [] = ""
concat (s ∷ ss) = s ++ concat ss

unfoldable pub digit_of : List String → ℕ → String
digit_of [] n = ""
digit_of (d ∷ ds) zero = d
digit_of (d ∷ ds) (suc n) = digit_of ds n

abbrev pub digits : List String
digits =
    "0" ∷ "1" ∷ "2" ∷ "3" ∷ "4" ∷ "5" ∷ "6" ∷ "7" ∷ "8" ∷ "9" ∷ "a" ∷ "b" ∷ "c" ∷ "d" ∷ "e" ∷ "f"
    ∷ []

unfoldable pub hex_encode : List ℕ → String
unfolding digit_of
hex_encode [] = ""
hex_encode (b ∷ bs) = digit_of digits (b / 16) ++ (digit_of digits (b % 16) ++ hex_encode bs)

-- A number below 10 ^ fuel is printed whole.
decimal : ℕ → ℕ → String
unfolding digit_of
decimal zero n = ""
decimal (suc fuel) n =
    let more = decimal fuel (n / 10) in
    if ltb n 10 then digit_of digits n else more ++ digit_of digits (n % 10)

unfoldable pub itoa : ℤ → String
unfolding decimal
itoa (pos n) = decimal (suc n) n
itoa (negsuc n) = "-" ++ decimal (suc (suc n)) (suc n)

-- Two texts that the test tells apart are different.
pub ne_of_str_eq : (a b : String) → str_eq a b ≡ false → a ≢ b
ne_of_str_eq a b h e = ground (arith, eq_iff a b)

push_front : Char → List String → List String
push_front d [] = String.◌∷◌ d String.[] ∷ []
push_front d (s ∷ ss) = String.◌∷◌ d s ∷ ss

-- strings.Split at one ASCII character, given by its code
unfoldable pub split : ℕ → String → List String
unfolding push_front
split c String.[] = "" ∷ []
split c (String.◌∷◌ d s) =
    let parts = split c s in if code d == c then "" ∷ parts else push_front d parts

-- strings.HasSuffix
unfoldable pub has_suffix : String → String → Bool
has_suffix String.[] t = str_eq "" t
has_suffix (String.◌∷◌ c s) t = str_eq (String.◌∷◌ c s) t || has_suffix s t

-- The element 0 of what strings.Split returns, which is never empty
abbrev pub head_text : List String → String
head_text [] = ""
head_text (s ∷ ss) = s

-- unicode.IsSpace
abbrev is_space : ℕ → Bool
is_space c =
    (leb 9 c && leb c 13)
    || c == 32
    || c == 133
    || c == 160
    || c == 5760
    || (leb 8192 c && leb c 8202)
    || c == 8232
    || c == 8233
    || c == 8239
    || c == 8287
    || c == 12288

-- strings.TrimSpace(s) == ""
unfoldable pub is_blank : String → Bool
is_blank String.[] = true
is_blank (String.◌∷◌ c s) = is_space (code c) && is_blank s
