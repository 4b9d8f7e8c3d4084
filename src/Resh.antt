-- ===== src/Resh.antt =====
-- The words of a command line of the restricted shell, soft/apps/resh/token.c and resh.c.
pub mod RoundTrip
pub mod Fuel
mod Examples
use mnetsoft.Base.{
  ℕ, zero, suc, ◌-◌, Bool, true, false, not, ◌&&◌, ◌||◌, Option, none, some, List, [], ◌∷◌, ◌==◌,
  if◌then◌else◌, length,
}
use mnetsoft.Base.Text.{Text, is_space, skip_space}

abbrev pub is_quote : ℕ → Bool
is_quote c = c == b'\'' || c == b'\\'

-- unquote: a quote or a backslash goes, and the byte behind it stays.
unfoldable pub unquote : Text → Text
unquote [] = []
unquote (c ∷ []) = if is_quote c then [] else c ∷ []
unquote (c ∷ d ∷ cs) =
    let rest = unquote cs in
    let next = unquote (d ∷ cs) in if is_quote c then d ∷ rest else c ∷ next

unfoldable pub put_before : ℕ → Option (Text × Text) → Option (Text × Text)
put_before c none = none
put_before c (some (s, rest)) = some (c ∷ s, rest)

-- quotedtoken: the text before the closing quote and what is behind it; none where the loop goes
-- past the terminator. A backslash takes two more bytes with it.
unfoldable pub quotedtoken : Text → Option (Text × Text)
unfolding put_before
quotedtoken [] = some ([], [])
quotedtoken (c ∷ []) = if c == b'\'' then some ([], []) else some (c ∷ [], [])
quotedtoken (c ∷ d ∷ []) =
    let next = quotedtoken (d ∷ []) in
    if c == b'\''
    then if d == b'\'' then some (c ∷ d ∷ [], []) else some ([], d ∷ [])
    else if c == b'\\'
    then none
    else put_before c next
quotedtoken (c ∷ d ∷ e ∷ cs) =
    let next = quotedtoken (d ∷ e ∷ cs) in
    let second = quotedtoken (e ∷ cs) in
    let third = quotedtoken cs in
    if c == b'\''
    then if d == b'\'' then put_before c (put_before d second) else some ([], d ∷ e ∷ cs)
    else if c == b'\\'
    then put_before c (put_before d (put_before e third))
    else put_before c next

abbrev pub is_bare : ℕ → Bool
is_bare c = not (c == b'\'' || is_space c)

-- simpletoken: the token, if its end is overwritten later, and the text from there on.
unfoldable pub simpletoken : Text → Text
simpletoken [] = []
simpletoken (c ∷ cs) = let rest = simpletoken cs in if is_bare c then c ∷ rest else []

unfoldable pub after_simpletoken : Text → Text
after_simpletoken [] = []
after_simpletoken (c ∷ cs) = let rest = after_simpletoken cs in if is_bare c then rest else c ∷ cs

-- The tokens; -1; or an access past the end of the string.
pub data Tokens : Type 0 where
  tokens : List Text → Tokens
  invalid : Tokens
  fault : Tokens

unfoldable pub one_more : Text → Tokens → Tokens
one_more t (tokens ts) = tokens (t ∷ ts)
one_more t invalid = invalid
one_more t fault = fault

-- The token in quotes that begins behind an opening quote, its first byte not being looked at.
unfoldable pub from_quote : Text → Option (Text × Text)
from_quote [] = none
from_quote (c ∷ cs) = elim (quotedtoken cs) [
  | none ↦ none
  | some (s, rest) ↦ some (unquote (c ∷ s), rest)
]

-- The loop of tokenizeq on fuel, with room for `room` tokens more. The last token that there is room
-- for ends, if it is a simple one, at the end of the string.
unfoldable pub tokenize : ℕ → ℕ → Text → Tokens
tokenize zero room str = tokens []
tokenize (suc n) room str = elim (skip_space str) [
  | [] ↦ tokens []
  | c ∷ cs ↦
      if c == b'\''
      then elim (from_quote cs) [
        | none ↦ fault
        | some (t, rest) ↦
            let more = tokenize n (room - 1) rest in
            if room == 1 then tokens (t ∷ []) else one_more t more
      ]
      else (let more = tokenize n (room - 1) (after_simpletoken (c ∷ cs)) in
          if room == 1 then tokens ((c ∷ cs) ∷ []) else one_more (simpletoken (c ∷ cs)) more)
]

-- The fuel is the length of the line.
unfoldable pub tokenizeq : Text → ℕ → Tokens
unfolding tokenize
tokenizeq str maxtoks = if maxtoks == 0 then invalid else tokenize (length str) maxtoks str

-- resh_parse: argv has 17 entries, the last one for NULL.
unfoldable pub resh_parse : Text → Tokens
unfolding tokenizeq
resh_parse str = tokenizeq str 16
