-- ===== src/Bbsread/PartFile.antt =====
-- The text of the participation file (soft/cmd/bbsread/pf.c): `pfread` and `pfwrite`.
pub mod RoundTrip
pub mod Whole
use mnetsoft.Base.{
  ℕ, zero, suc, ◌+◌, ◌-◌, ◌^◌, Bool, true, false, not, ◌&&◌, Option, none, some, List, [], ◌∷◌,
  ◌++◌, if◌then◌else◌, ◌==◌, ltb, length,
}
use mnetsoft.Base.Int.{ℤ, pos, negsuc, pos_part, sub_ℕ}
use mnetsoft.Base.Numerals.{decimal, hexadecimal, is_xdigit, hex_value}
use mnetsoft.Base.Text.{Text, codes, fgets, same_text, is_digit, skip_space, atol, digits_value}
use mnetsoft.Bbsread.Parse.{firstin, firstout, head, tail}
use mnetsoft.Bbsread.Part.{Pfe}

abbrev pub bfsz : ℕ
bfsz = 1024

-- Behind the digits.
unfoldable pub skip_digits : Text → Text
skip_digits [] = []
skip_digits (c ∷ cs) = if is_digit c then skip_digits cs else c ∷ cs

-- "%d": the number and what is behind it. Numbers are taken to fit an `int`.
unfoldable pub scan_unsigned : Text → Option (ℕ × Text)
unfolding skip_digits
scan_unsigned s = if is_digit (head s) then some (digits_value 0 s, skip_digits s) else none

abbrev pub signed : Bool → Option (ℕ × Text) → Option (ℤ × Text)
signed minus none = none
signed true (some (n, rest)) = some (sub_ℕ 0 n, rest)
signed false (some (n, rest)) = some (pos n, rest)

unfoldable pub scan_int : Text → Option (ℤ × Text)
unfolding scan_unsigned
scan_int s =
    let t = skip_space s in
    if head t == b'-'
    then signed true (scan_unsigned (tail t))
    else if head t == b'+'
    then signed false (scan_unsigned (tail t))
    else signed false (scan_unsigned t)

-- "%lx". A sign or a 0x before the digits, which `pfwrite` does not write, is not modelled.
unfoldable pub scan_hex : Text → Option ℕ
scan_hex s = let t = skip_space s in if is_xdigit (head t) then some (hex_value 0 t) else none

-- The rest of a line behind the item number: the sign for a forgotten item, the responses, the date.
unfoldable pub read_rest : ℕ → Bool → Text → Option Pfe
unfolding scan_int scan_hex
read_rest item forgotten t = elim (scan_int t) [
  | none ↦ none
  | some (resp, t') ↦ elim (scan_hex t') [
    | none ↦ none
    | some date ↦ some (record {
      item_no = item;
      resp_no = resp;
      forgotten = forgotten;
      old_resp_no = resp;
      date = date;
      deleted = false;
    })
  ]
]

-- Behind the space: a minus sign is that of a forgotten item.
unfoldable pub read_behind : ℕ → Text → Option Pfe
unfolding read_rest
read_behind item t = if head t == b'-' then read_rest item true (tail t) else read_rest item false t

-- One line; `none` where `weird_pf` ends the program.
unfoldable pub read_line : Text → Option Pfe
unfolding read_behind
read_line buf =
    if is_digit (head buf)
    then read_behind (pos_part (atol buf)) (firstout (firstin buf (codes " ")) (codes " "))
    else none

-- The loop over the lines, on fuel: each `fgets` reads at least one byte.
unfoldable pub read_entries : ℕ → Text → Option (List Pfe)
unfolding read_line
read_entries zero file = some []
read_entries (suc fuel) file = elim (fgets bfsz file) [
  | none ↦ some []
  | some (buf, rest) ↦ elim (read_line buf) [
    | none ↦ none
    | some pf ↦ elim (read_entries fuel rest) [ none ↦ none | some pfs ↦ some (pf ∷ pfs) ]
  ]
]

abbrev pub magic : Text
magic = codes "!<pr03>\n"

abbrev pub upto_newline : Text → Text
upto_newline [] = []
upto_newline (c ∷ cs) = if c == b'\n' then [] else c ∷ upto_newline cs

-- `pfread` of a file that can be opened: the alias and the list.
unfoldable pub pfread : Text → Option (Text × List Pfe)
unfolding read_entries
pfread file = elim (fgets bfsz file) [
  | none ↦ none
  | some (buf, rest) ↦ elim (same_text buf magic) [
    | false ↦ none
    | true ↦ elim (fgets bfsz rest) [
      | none ↦ none
      | some (alias, rest') ↦ elim (read_entries (length rest') rest') [
        | none ↦ none
        | some pfs ↦ some (upto_newline alias, pfs)
      ]
    ]
  ]
]

-- "%d"
unfoldable pub show_int : ℤ → Text
show_int (pos n) = decimal n
show_int (negsuc n) = b'-' ∷ decimal (n + 1)

-- The line of an entry, without its newline.
unfoldable pub pf_line : Pfe → Text
unfolding show_int
pf_line pf =
    decimal pf.item_no
    ++ (b' '
        ∷ ((if pf.forgotten then b'-' ∷ [] else [])
            ++ (show_int pf.resp_no ++ (b' ' ∷ hexadecimal pf.date))))

unfoldable pub write_entries : List Pfe → Text
unfolding pf_line
write_entries [] = []
write_entries (pf ∷ pfs) =
    if pf.deleted then write_entries pfs else pf_line pf ++ (b'\n' ∷ write_entries pfs)

-- `pfwrite`: the text of the new file.
unfoldable pub pfwrite : Text → List Pfe → Text
unfolding write_entries
pfwrite alias pfs = magic ++ (alias ++ (b'\n' ∷ write_entries pfs))
