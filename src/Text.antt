-- ===== src/Text.antt =====
-- What the programs use of Go's `strings` and `fmt`, on texts as lists of characters:
-- TrimSpace, Fields, Split at a comma, Join, ToLower and the decimal `%d`.
pub mod Fields
use Prim.Native.Char.{Char, code}
use Prim.Native.String.{String, [], ◌∷◌, ◌++◌, char_at}
use Prim.Native.Nat.{◌/◌, ◌%◌, ◌-◌, ◌+◌}
use go_distributed_system_de.Base.{
  ℕ, zero, suc, ltb, leb, ◌==◌, Bool, true, false, ◌&&◌, ◌||◌, List, if◌then◌else◌, ℤ, pos, negsuc,
}

-- unicode.IsSpace
abbrev pub is_space_code : ℕ → Bool
is_space_code n =
    (leb 9 n && leb n 13)
    || n == 32
    || n == 133
    || n == 160
    || n == 5760
    || (leb 8192 n && leb n 8202)
    || n == 8232
    || n == 8233
    || n == 8239
    || n == 8287
    || n == 12288

unfoldable pub is_space : Char → Bool
is_space c = is_space_code (code c)

unfoldable pub trim_left : String → String
trim_left [] = []
trim_left (c ∷ s) = elim (is_space c) [ true ↦ trim_left s | false ↦ c ∷ s ]

-- A space goes when nothing is left behind it.
unfoldable pub trim_onto : Char → String → String
trim_onto c [] = if is_space c then [] else c ∷ []
trim_onto c (d ∷ s) = c ∷ d ∷ s

unfoldable pub trim_right : String → String
trim_right [] = []
trim_right (c ∷ s) = trim_onto c (trim_right s)

unfoldable pub trim_space : String → String
trim_space s = trim_right (trim_left s)

-- A word that has come to its end.
unfoldable pub end_word : String → List String → List String
end_word [] words = words
end_word (c ∷ s) words = List.◌∷◌ (c ∷ s) words

-- The words of the text, after the beginning of one.
unfoldable pub fields_from : String → String → List String
fields_from word [] = end_word word List.[]
fields_from word (c ∷ s) = elim (is_space c) [
  | true ↦ end_word word (fields_from [] s)
  | false ↦ fields_from (word ++ c ∷ []) s
]

abbrev pub fields : String → List String
fields = fields_from []

-- Split(s, ","): the parts between the commas, empty ones too.
unfoldable pub split_from : String → String → List String
split_from part [] = List.◌∷◌ part List.[]
split_from part (c ∷ s) = elim (code c == 44) [
  | true ↦ List.◌∷◌ part (split_from [] s)
  | false ↦ split_from (part ++ c ∷ []) s
]

abbrev pub split_comma : String → List String
split_comma = split_from []

-- Join(words, " ")
unfoldable pub join_from : String → List String → String
join_from word List.[] = word
join_from word (List.◌∷◌ next words) = word ++ " " ++ join_from next words

abbrev pub join : List String → String
join List.[] = []
join (List.◌∷◌ word words) = join_from word words

-- unicode.ToLower, as far as its answer is an ASCII letter: the ASCII capitals, the dotted I and the
-- Kelvin sign. Any other character is kept.
abbrev pub lower_char : Char → Char
lower_char c =
    if leb 65 (code c) && leb (code c) 90
    then char_at "abcdefghijklmnopqrstuvwxyz" (code c - 65)
    else if code c == 304
    then char_at "i" 0
    else if code c == 8490
    then char_at "k" 0
    else c

unfoldable pub to_lower : String → String
to_lower [] = []
to_lower (c ∷ s) = lower_char c ∷ to_lower s

abbrev digit : ℕ → String
digit d = char_at "0123456789" d ∷ []

-- The digits of a number before the text `rest`; a number has at most as many digits as it counts.
unfoldable pub digits : ℕ → ℕ → String → String
digits zero n rest = rest
digits (suc fuel) n rest = elim (ltb n 10) [
  | true ↦ digit n ++ rest
  | false ↦ digits fuel (n / 10) (digit (n % 10) ++ rest)
]

unfoldable pub decimal : ℤ → String
decimal (pos n) = digits (suc n) n []
decimal (negsuc n) = "-" ++ digits (suc (suc n)) (suc n) []
