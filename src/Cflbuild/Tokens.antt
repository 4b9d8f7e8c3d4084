-- ===== src/Cflbuild/Tokens.antt =====
-- soft/cmd/cflbuild: the text that the program reads, lines of its files and answers of the user.
pub mod File
use mnetsoft.Base.{
  ℕ, zero, suc, ◌+◌, ◌-◌, ◌*◌, ◌%◌, ◌^◌, Bool, true, false, not, ◌&&◌, ◌||◌, Option, none, some,
  List, [], ◌∷◌, ◌++◌, ◌==◌, leb, if◌then◌else◌, length, take,
}
use mnetsoft.Base.Text.{Text, is_digit, skip_space, digits_value, long_max, fgets}

abbrev pub is_blank : ℕ → Bool
is_blank c = (c == 13 || c == b'\n') || ((c == 0 || c == b'\t') || c == b' ')

unfoldable pub isblank : Text → Bool
isblank [] = true
isblank (c ∷ cs) = is_blank c && isblank cs

abbrev pub is_separator : ℕ → Bool
is_separator c = (c == b' ' || c == b',') || c == b'\t'

unfoldable pub skip_separators : Text → Text
skip_separators [] = []
skip_separators (c ∷ cs) = if is_separator c then skip_separators cs else c ∷ cs

unfoldable pub token : Text → Text
token [] = []
token (c ∷ cs) = let rest = token cs in if is_separator c then [] else c ∷ rest

unfoldable pub after_token : Text → Text
after_token [] = []
after_token (c ∷ cs) = let rest = after_token cs in if is_separator c then c ∷ cs else rest

-- ExtractTokens from an index on: what it puts in ConfBuf, and the text from the new index on.
unfoldable pub extract_tokens : Text → Text × Text
extract_tokens buf = let s = skip_separators buf in (token s, skip_separators (after_token s))

-- The loops `while (Index < Len)` around ExtractTokens, on fuel.
unfoldable pub tokens : ℕ → Text → List Text
tokens zero buf = []
tokens (suc n) [] = []
tokens (suc n) (c ∷ cs) = let t = extract_tokens (c ∷ cs) in t.0 ∷ tokens n t.1

-- main, lines 50-62: a line that is not blank loses its last byte.
unfoldable pub line_tokens : Text → List Text
line_tokens line =
    let buf = take (length line - 1) line in if isblank line then [] else tokens (length buf) buf

unfoldable pub read_cflist : ℕ → Text → List Text
read_cflist zero file = []
read_cflist (suc n) file = elim (fgets 128 file) [
  | none ↦ []
  | some (line, rest) ↦ line_tokens line ++ read_cflist n rest
]

-- GetString, with room for `room` bytes more: the string and the input left; none where the program
-- ends, at the end of the input and at a byte that is negative as a char.
unfoldable pub get_string : ℕ → Text → Option (Text × Text)
get_string room [] = none
get_string zero (c ∷ cs) = if leb 128 c then none else some ([], cs)
get_string (suc room) (c ∷ cs) =
    let kept = get_string room cs in
    let passed = get_string (suc room) cs in
    if leb 128 c
    then none
    else if c == 13 || c == b'\n'
    then some ([], cs)
    else if is_digit c || (c == b' ' || c == b'q')
    then elim kept [ none ↦ none | some (s, rest) ↦ some (c ∷ s, rest) ]
    else passed

-- The value of a long as an int, by its 32 bits.
abbrev to_int : ℕ → ℕ
to_int v = (if leb v long_max then v else long_max) % 2 ^ 32

-- atoi of a string without a sign
unfoldable pub atoi : Text → ℕ
atoi s = to_int (digits_value 0 (skip_space s))

unfoldable after_digits : Text → Text
after_digits [] = []
after_digits (c ∷ cs) = if is_digit c then after_digits cs else c ∷ cs

abbrev starts_number : Text → Bool
starts_number [] = false
starts_number (c ∷ cs) = is_digit c

-- sscanf(s, "%d %d", ...), where it gives 2
unfoldable pub scan_two : Text → Option (ℕ × ℕ)
unfolding after_digits
scan_two s =
    let a = skip_space s in
    let b = skip_space (after_digits a) in
    if starts_number a && starts_number b
    then some (to_int (digits_value 0 a), to_int (digits_value 0 b))
    else none
