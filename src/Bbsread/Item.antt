-- ===== src/Bbsread/Item.antt =====
-- The display of an item (soft/cmd/bbsread/readitem.c).
pub mod Responses
use mnetsoft.Base.{
  ℕ, zero, suc, ◌+◌, ◌-◌, ◌≡◌, refl, Bool, true, false, not, ◌&&◌, ◌||◌, Option, none, some, List,
  [], ◌∷◌, ◌++◌, if◌then◌else◌, ◌==◌, leb, length, drop,
}
use mnetsoft.Base.Int.{ℤ, pos, negsuc, ltb_ℤ, ◌+ℤ◌, ◌-ℤ◌}
use mnetsoft.Base.Long.{wrap}
use mnetsoft.Base.Text.{Text, codes, fgets, same_text, atol}
use mnetsoft.Bbsread.Parse.{minus_one, is_minus_one, head, tail, firstin, atolh}
use mnetsoft.Bbsread.Part.{int_max}
use mnetsoft.Bbsread.PartFile.{bfsz}

-- What is printed: the heads of the item and of a response with number, name, login, title and
-- date, the number of responses (all, or the new ones of all), and a line of text behind a space.
pub data Shown : Type 0 where
  item_head : ℕ → Text → Text → Text → ℤ → Bool → Shown
  resp_head : ℕ → Text → Text → ℤ → Bool → Shown
  no_responses : Shown
  all_responses : ℤ → Shown
  new_of : ℤ → ℤ → Shown
  text_line : Text → Shown

abbrev one_for_zero : ℤ → ℤ
one_for_zero (pos n) = if n == 0 then pos 1 else pos n
one_for_zero (negsuc n) = negsuc n

abbrev is_zero : ℤ → Bool
is_zero (pos n) = n == 0
is_zero (negsuc n) = false

unfoldable pub new_responses : ℤ → ℤ → Bool → Shown
new_responses first max printing =
    if is_zero max
    then no_responses
    else if printing
    then all_responses max
    else new_of (max -ℤ (one_for_zero first -ℤ pos 1)) max

-- `copyto a b ch n`: what is in `a` behind it. The end of `b` is its zero byte; what the loop copies
-- from behind it is no part of the string `a`.
unfoldable pub copyto : Text → ℕ → ℕ → Text
copyto [] ch n = []
copyto (c ∷ cs) ch zero = []
copyto (c ∷ cs) ch (suc n) = if c == ch then [] else c ∷ copyto cs ch n

-- The arguments of `dispitem`, with INT_MAX for a `last_resp` of -1.
pub record Request : Type 0 where
  pub item_no : ℕ
  pub first_resp : ℤ
  pub last_resp : ℤ
  pub max_resp : ℤ
  pub show_header : ℕ
  pub prefer_html : Bool

-- The local variables of `dispitem`; `buf` holds the line and, behind its zero byte, older ones.
pub record Page : Type 0 where
  pub buf : Text
  pub title : Text
  pub fullname : Text
  pub login : Text
  pub uid : ℤ
  pub date : ℤ
  pub resp : ℕ
  pub printing : Bool
  pub scribbled : Bool
  pub thisversion : Bool
  pub gotversion : Bool
  pub did_e : Bool
  pub shown : List Shown

-- A line is worked off, or the function returns behind the header, or `weird_item` ends the program.
pub data Line : Type 0 where
  goes_on : Page → Line
  header_done : List Shown → Line
  weird : Line

abbrev pub byte : ℕ → Text → ℕ
byte k [] = 0
byte zero (c ∷ cs) = c
byte (suc k) (c ∷ cs) = byte k cs

-- `fgets` on the buffer.
abbrev pub overlay : Text → Text → Text
overlay line old = line ++ (0 ∷ drop (length line + 1) old)

-- The three places that print a line of text.
unfoldable pub print_text : Text → Page → Page
print_text t p =
    if p.printing && (not p.scribbled && p.thisversion)
    then record p { shown = p.shown ++ (text_line t ∷ []); gotversion = true }
    else p

-- `,U`
unfoldable pub user_line : Text → Page → Line
unfolding firstin copyto
user_line arg p =
    if head (firstin arg (codes ",")) == b','
    then goes_on
        (record p { uid = atol arg; login = copyto (tail (firstin arg (codes ","))) b'\n' 9 })
    else weird

-- `,D`
unfoldable pub date_line : Request → Text → Page → Line
unfolding atolh wrap
date_line q arg p =
    let date = wrap (pos (atolh arg)) in
    let heads = p.shown ++ (item_head q.item_no p.fullname p.login p.title date p.scribbled ∷ []) in
    let shown = if q.show_header == 0 then p.shown else heads in
    if p.resp == 0
    then (if q.show_header == 2
        then header_done shown
        else goes_on (record p {
          date = date;
          shown = shown;
          printing = not (ltb_ℤ (pos 0) q.first_resp);
          thisversion = q.prefer_html;
          gotversion = false;
        }))
    else goes_on (record p {
      date = date;
      shown = p.shown ++ (resp_head p.resp p.fullname p.login date p.scribbled ∷ []);
      thisversion = q.prefer_html;
      gotversion = false;
    })

abbrev pub is_int_max : ℤ → Bool
is_int_max (pos n) = n == int_max
is_int_max (negsuc n) = false

abbrev pub in_range : Request → ℕ → Bool
in_range q resp = not (ltb_ℤ (pos resp) q.first_resp) && not (ltb_ℤ q.last_resp (pos resp))

-- `,E`, and `,R` where no `,E` has come
unfoldable pub end_line : Request → Page → Page
unfolding new_responses
end_line q p =
    let counted =
      p.shown
      ++ (new_responses q.first_resp q.max_resp (p.printing || not (q.show_header == 0)) ∷ []) in
    let named = not (is_minus_one p.uid) in
    record p {
      did_e = true;
      shown = if p.resp == 0 && is_int_max q.last_resp then counted else p.shown;
      fullname = if named then [] else p.fullname;
      login = if named then [] else p.login;
      uid = minus_one;
      date = if named then minus_one else p.date;
      resp = p.resp + 1;
      printing = in_range q (p.resp + 1);
    }

-- `,R`
unfoldable pub flags_line : Request → Page → Page
unfolding end_line
flags_line q p =
    let p' = record p { scribbled = byte 5 p.buf == b'3' } in if p.did_e then p' else end_line q p'

-- The `switch` over the byte behind the comma.
unfoldable pub mark_line : Request → ℕ → Text → Page → Line
unfolding copyto user_line date_line flags_line end_line print_text
mark_line q mark line p =
    let arg = drop 2 line in
    if mark == b'H'
    then goes_on (if p.printing then record p { title = copyto arg b'\n' bfsz } else p)
    else if mark == b'A'
    then goes_on (if p.printing then record p { fullname = copyto arg b'\n' bfsz } else p)
    else if mark == b'U'
    then (if p.printing then user_line arg p else goes_on p)
    else if mark == b'D'
    then (if p.printing then date_line q arg p else goes_on p)
    else if mark == b'T'
    then goes_on (record p { thisversion = not p.gotversion; did_e = false })
    else if mark == b'R'
    then goes_on (flags_line q p)
    else if mark == b'E'
    then goes_on (end_line q p)
    else if mark == b':'
    then goes_on (print_text arg p)
    else if mark == b','
    then goes_on (print_text (tail line) p)
    else weird

-- One round of the loop.
unfoldable pub item_line : Request → Text → Page → Line
unfolding mark_line print_text
item_line q line p =
    let p' = record p { buf = overlay line p.buf } in
    if head line == b','
    then mark_line q (head (tail line)) line p'
    else goes_on (print_text line p')

-- What is done behind a line.
abbrev pub behind_line : (Page → Option (ℤ × List Shown)) → Line → Option (ℤ × List Shown)
behind_line f (goes_on p) = f p
behind_line f (header_done shown) = some (minus_one, shown)
behind_line f weird = none

-- What `dispitem` returns, and what it prints; `none` where it ends the program.
unfoldable pub item_loop : Request → List Text → Page → Option (ℤ × List Shown)
unfolding item_line
item_loop q [] p = some (pos p.resp -ℤ pos 1, p.shown)
item_loop q (line ∷ lines) p = behind_line (item_loop q lines) (item_line q line p)

-- The lines that `fgets` reads; each has at least one byte, so the length is fuel enough.
unfoldable pub lines_within : ℕ → Text → List Text
lines_within zero file = []
lines_within (suc fuel) file = elim (fgets bfsz file) [
  | none ↦ []
  | some (line, rest) ↦ line ∷ lines_within fuel rest
]

abbrev pub item_magic : Text
item_magic = codes "!<ps02>\n"

abbrev pub start_page : Page
start_page = record {
  buf = item_magic;
  title = [];
  fullname = [];
  login = [];
  uid = minus_one;
  date = pos 0;
  resp = 0;
  printing = true;
  scribbled = false;
  thisversion = false;
  gotversion = false;
  did_e = true;
  shown = [];
}

-- `dispitem`, where the file of the item is `none` if it cannot be opened.
unfoldable pub dispitem : Request → Option Text → Option (ℤ × List Shown)
unfolding item_loop lines_within
dispitem q none = none
dispitem q (some file) = elim (fgets bfsz file) [
  | none ↦ none
  | some (line, rest) ↦ elim (same_text line item_magic) [
    | false ↦ none
    | true ↦ item_loop q (lines_within (length rest) rest) start_page
  ]
]
