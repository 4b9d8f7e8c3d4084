-- ===== src/Bbsread/Parse.antt =====
-- The low-level parsing of soft/cmd/bbsread: `firstin` and `firstout` (parse.c), `match` (match.c),
-- `atolh` (atoh.c) and `parse_range` (range.c).
pub mod Abbreviations
use mnetsoft.Base.{
  ℕ, zero, suc, ◌+◌, ◌-◌, ◌*◌, ◌%◌, ◌^◌, ◌≡◌, refl, Bool, true, false, not, ◌&&◌, ◌||◌, Option,
  none, some, List, [], ◌∷◌, if◌then◌else◌, ◌==◌, ltb, leb,
}
use mnetsoft.Base.Int.{ℤ, pos, negsuc, ltb_ℤ}
use mnetsoft.Base.Numerals.{is_xdigit, xdigit_value}
use mnetsoft.Base.Text.{Text, codes, is_digit, atol}

abbrev pub elem : ℕ → Text → Bool
elem c [] = false
elem c (x ∷ xs) = c == x || elem c xs

-- The rest of the string from the first character on that is in `l`, or is not in `l`.
unfoldable pub firstin : Text → Text → Text
firstin [] l = []
firstin (c ∷ cs) l = if elem c l then c ∷ cs else firstin cs l

unfoldable pub firstout : Text → Text → Text
firstout [] l = []
firstout (c ∷ cs) l = if elem c l then firstout cs l else c ∷ cs

-- The loop of `match`, over the pattern, with `passed_dash`. A `_` in the pattern is passed over
-- while there is some name left.
unfoldable pub match_loop : Text → Text → Bool → Bool
match_loop [] [] passed_dash = true
match_loop [] (p ∷ pat) passed_dash = if p == b':' then true else passed_dash || p == b'_'
match_loop (c ∷ name) [] passed_dash = false
match_loop (c ∷ name) (p ∷ pat) passed_dash =
    let dash = match_loop (c ∷ name) pat true in
    let rest = match_loop name pat passed_dash in
    if p == b':' then false else if p == b'_' then dash else if c == p then rest else false

unfoldable pub match : Text → Text → Bool
unfolding match_loop
match name pat = match_loop name pat false

-- The value of a hexadecimal digit in `atolh` is `xdigit_value`.
unfoldable pub atolh_loop : ℕ → Text → ℕ
atolh_loop n [] = n
atolh_loop n (c ∷ cs) =
    let rest = atolh_loop ((n * 16 + xdigit_value c) % 2 ^ 64) cs in if is_xdigit c then rest else n

unfoldable pub atolh : Text → ℕ
unfolding atolh_loop
atolh str = atolh_loop 0 str

-- struct range; -1 as the last number means the end
pub record Range : Type 0 where
  pub first : ℤ
  pub last : ℤ

abbrev pub minus_one : ℤ
minus_one = negsuc 0

abbrev pub is_minus_one : ℤ → Bool
is_minus_one (pos n) = false
is_minus_one (negsuc n) = n == 0

-- The end of `parse_range`: the numbers in ascending order.
abbrev pub in_order : Range → Range
in_order r =
    if not (is_minus_one r.last) && ltb_ℤ r.last r.first
    then record { first = r.last; last = r.first }
    else r

abbrev pub head : Text → ℕ
head [] = 0
head (c ∷ cs) = c

abbrev pub tail : Text → Text
tail [] = []
tail (c ∷ cs) = cs

-- `parse_range`: the range, and whether it is a single number; `none` where it calls `usage`, which
-- ends the program. `atoi` keeps the value of `strtol` here, which is right for an `int`.
unfoldable pub range_end : ℤ → Text → Option (Range × Bool)
range_end first rest =
    if head rest == 0
    then some (record { first = first; last = first }, true)
    else if not (head rest == b'-')
    then none
    else if head (tail rest) == b'$' || head (tail rest) == 0
    then some (in_order (record { first = first; last = minus_one }), false)
    else if is_digit (head (tail rest))
    then some (in_order (record { first = first; last = atol (tail rest) }), false)
    else none

unfoldable pub parse_range : Text → Option (Range × Bool)
unfolding firstout range_end
parse_range arg = range_end (atol arg) (firstout arg (codes "0123456789"))
