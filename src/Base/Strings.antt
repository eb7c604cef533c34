-- ===== src/Base/Strings.antt =====
-- Rust's strings as lists of Unicode scalar values, with the character tests and the operations on
-- `str` that the source calls. Byte lengths are those of the UTF-8 encoding.
use Prim.Native.Char.{code}
use Prim.Native.Nat.{ℕ, ◌+◌, ◌/◌, ◌%◌}
use Prim.Native.String.{String}
use mathlib.Core.Path.{refl, ap}
use mathlib.Core.Logic.{ite}
use mathlib.Core.Bool.{Bool, true, false, ◌&&◌, ◌||◌}
use mathlib.Core.List.{List, [], ◌∷◌, ◌++◌, map, reverse}
use native.Mathlib.Decide.{ℕ_discrete}
use rendermesh.Base.Tests.{ltb, leb, ◌==◌ as code_eq, if◌then◌else◌}
use rendermesh.Base.Lists.{drop_while}

abbrev pub Text : Type 0
Text = List ℕ

-- A string literal.
abbrev pub text : String → Text
text String.[] = []
text (String.◌∷◌ c s) = code c ∷ text s

abbrev head_of : Text → ℕ
head_of [] = 0
head_of (c ∷ s) = c

abbrev tail_of : Text → Text
tail_of [] = []
tail_of (c ∷ s) = s

unfoldable pub text_dec : Discrete Text
unfolding ℕ_discrete
text_dec [] [] = yes refl
text_dec [] (d ∷ t) = no (λ e. cc)
text_dec (c ∷ s) [] = no (λ e. cc)
text_dec (c ∷ s) (d ∷ t) = elim (ℕ_discrete c d) [
  | yes p ↦ elim (text_dec s t) [ yes q ↦ yes (λ i. p i ∷ q i) | no n ↦ no (λ e. n (ap tail_of e)) ]
  | no n ↦ no (λ e. n (ap head_of e))
]

-- `a == b` on strings. `text_dec` stays shut in proofs, where a split gives the equation.
infix 50 ◌===◌
abbrev pub ◌===◌ : Text → Text → Bool
s === t = ite (text_dec s t) true false

-- The length in bytes of the UTF-8 encoding, `str::len`.
abbrev pub utf8_width : ℕ → ℕ
utf8_width c = if ltb c 0x80 then 1 else if ltb c 0x800 then 2 else if ltb c 0x10000 then 3 else 4

abbrev pub byte_len : Text → ℕ
byte_len [] = 0
byte_len (c ∷ s) = utf8_width c + byte_len s

-- `char::is_whitespace`: the Unicode property White_Space.
unfoldable pub is_whitespace : ℕ → Bool
is_whitespace c =
    leb 9 c && leb c 13
    || code_eq c 32
    || code_eq c 0x85
    || code_eq c 0xa0
    || code_eq c 0x1680
    || leb 0x2000 c && leb c 0x200a
    || code_eq c 0x2028
    || code_eq c 0x2029
    || code_eq c 0x202f
    || code_eq c 0x205f
    || code_eq c 0x3000

-- `char::is_control`: the Unicode category Cc.
unfoldable pub is_control : ℕ → Bool
is_control c = ltb c 32 || leb 127 c && ltb c 160

unfoldable pub is_ascii_digit : ℕ → Bool
is_ascii_digit c = leb b'0' c && leb c b'9'

unfoldable pub is_ascii_uppercase : ℕ → Bool
is_ascii_uppercase c = leb b'A' c && leb c b'Z'

unfoldable pub is_ascii_alphanumeric : ℕ → Bool
unfolding is_ascii_digit is_ascii_uppercase
is_ascii_alphanumeric c = is_ascii_digit c || is_ascii_uppercase c || leb b'a' c && leb c b'z'

unfoldable pub lower_code : ℕ → ℕ
unfolding is_ascii_uppercase
lower_code c = if is_ascii_uppercase c then c + 32 else c

unfoldable pub to_ascii_lowercase : Text → Text
unfolding lower_code
to_ascii_lowercase = map lower_code

unfoldable pub trim_start : Text → Text
unfolding is_whitespace
trim_start = drop_while is_whitespace

unfoldable pub trim_end : Text → Text
unfolding is_whitespace
trim_end s = reverse (drop_while is_whitespace (reverse s))

unfoldable pub trim : Text → Text
unfolding trim_start trim_end
trim s = trim_end (trim_start s)

unfoldable pub trim_start_matches : ℕ → Text → Text
trim_start_matches c = drop_while (code_eq c)

unfoldable pub trim_end_matches : ℕ → Text → Text
trim_end_matches c s = reverse (drop_while (code_eq c) (reverse s))

-- The UTF-8 encoding, `String::into_bytes`.
abbrev pub utf8_code : ℕ → List ℕ
utf8_code c =
    if ltb c 0x80
    then c ∷ []
    else if ltb c 0x800
    then (0xc0 + c / 64) ∷ (0x80 + c % 64) ∷ []
    else if ltb c 0x10000
    then (0xe0 + c / 4096) ∷ (0x80 + c / 64 % 64) ∷ (0x80 + c % 64) ∷ []
    else (0xf0 + c / 262144) ∷ (0x80 + c / 4096 % 64) ∷ (0x80 + c / 64 % 64) ∷ (0x80 + c % 64) ∷ []

unfoldable pub utf8 : Text → List ℕ
utf8 [] = []
utf8 (c ∷ s) = utf8_code c ++ utf8 s
