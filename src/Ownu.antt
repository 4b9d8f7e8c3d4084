-- ===== src/Ownu.antt =====
-- The form data of soft/apps/ownu/cgi-decode.c: a query is decoded into names and values.
pub mod RoundTrip
pub mod Wrap
pub mod Keys
mod Examples
use mnetsoft.Base.{
  ℕ, ◌+◌, ◌-◌, ◌*◌, ◌/◌, ◌%◌, ◌≡◌, refl, Bool, true, false, Option, none, some, List, [], ◌∷◌,
  if◌then◌else◌, ◌==◌, leb,
}
use mnetsoft.Base.Text.{Text, codes, same_text}

-- struct entstr; the list of entries is a list.
pub record Entry : Type 0 where
  pub name : Text
  pub value : Text

unfoldable pub plustospace : Text → Text
plustospace [] = []
plustospace (c ∷ cs) = (if c == b'+' then b' ' else c) ∷ plustospace cs

-- The value of one digit as a `char`, whose bytes from 128 on are negative: `& 0xdf` takes 32 away
-- where that bit is set.
unfoldable pub digit_of : ℕ → ℕ
digit_of c =
    if leb 128 c
    then (c + 256 - b'0') % 256
    else if leb b'A' c
    then (if (c / 32) % 2 == 1 then c - 32 else c) + 10 - b'A'
    else (c + 256 - b'0') % 256

unfoldable pub x2c : ℕ → ℕ → ℕ
unfolding digit_of
x2c a b = (digit_of a * 16 + digit_of b) % 256

abbrev cons : ℕ → Option Text → Option Text
cons c none = none
cons c (some cs) = some (c ∷ cs)

-- The loop of `unescape_url`; `none` where it reads behind the end of the string, since fewer than
-- two characters follow a percent sign.
unfoldable pub unescape : Text → Option Text
unfolding x2c
unescape [] = some []
unescape (c ∷ []) = if c == b'%' then none else some (c ∷ [])
unescape (c ∷ a ∷ []) = if c == b'%' then none else cons c (unescape (a ∷ []))
unescape (c ∷ a ∷ b ∷ cs) = elim (c == b'%') [
  | true ↦ cons (x2c a b) (unescape cs)
  | false ↦ cons c (unescape (a ∷ b ∷ cs))
]

-- A string ends at its first zero byte.
abbrev pub upto_zero : Text → Text
upto_zero [] = []
upto_zero (c ∷ cs) = if c == 0 then [] else c ∷ upto_zero cs

abbrev pub ended : Option Text → Option Text
ended none = none
ended (some url) = some (upto_zero url)

unfoldable pub unescape_url : Text → Option Text
unfolding unescape
unescape_url url = ended (unescape url)

-- In front of the first of a character, and behind it.
unfoldable pub before : ℕ → Text → Text
before ch [] = []
before ch (c ∷ cs) = if c == ch then [] else c ∷ before ch cs

unfoldable pub behind : ℕ → Text → Text
behind ch [] = []
behind ch (c ∷ cs) = if c == ch then cs else behind ch cs

-- The name and the value of a decoded entry.
abbrev pub entry_of : Option Text → Option Entry
entry_of none = none
entry_of (some p) = some (record { name = before b'=' p; value = behind b'=' p })

unfoldable pub load_entry : Text → Option Entry
unfolding unescape_url plustospace before behind
load_entry p = entry_of (unescape_url (plustospace p))

-- The parts of a query between the `&`.
abbrev pub extend : ℕ → List Text → List Text
extend c [] = (c ∷ []) ∷ []
extend c (p ∷ ps) = (c ∷ p) ∷ ps

unfoldable pub parts : Text → List Text
parts [] = [] ∷ []
parts (c ∷ cs) = if c == b'&' then [] ∷ parts cs else extend c (parts cs)

-- The loop of `load_query`, with the list made so far.
unfoldable pub load_parts : List Text → List Entry → Option (List Entry)
unfolding load_entry
load_parts [] head = some head
load_parts (p ∷ ps) head = elim (load_entry p) [
  | none ↦ none
  | some new ↦ load_parts ps (new ∷ head)
]

unfoldable pub load_query : Text → Option (List Entry)
unfolding load_parts parts
load_query [] = some []
load_query (c ∷ cs) = load_parts (parts (c ∷ cs)) []

unfoldable pub getvar : Text → List Entry → Option Text
getvar name [] = none
getvar name (v ∷ vs) = if same_text name v.name then some v.value else getvar name vs

-- What `firstvar` and `nextvar` return: the new `curr`, as the entries from it on, and its entry.
abbrev first_of : List Entry → Option Entry
first_of [] = none
first_of (v ∷ vs) = some v

abbrev pub firstvar : List Entry → List Entry × Option Entry
firstvar head = (head, first_of head)

abbrev pub nextvar : List Entry → List Entry × Option Entry
nextvar [] = ([], none)
nextvar (v ∷ vs) = (vs, first_of vs)
