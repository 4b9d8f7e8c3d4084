-- ===== src/Cflbuild/Public.antt =====
-- soft/cmd/cflbuild/cflsub.c: the table of the public conferences, read from public.txt.
pub mod Table
pub mod Lookup
use mnetsoft.Base.{
  ℕ, zero, suc, ◌+◌, ◌-◌, Bool, false, not, ◌&&◌, ◌||◌, Option, none, some, List, [], ◌∷◌, ◌++◌,
  ◌==◌, leb, if◌then◌else◌, length,
}
use mnetsoft.Base.Text.{Text, fgets}
use mnetsoft.Cflbuild.Tokens.{isblank}

-- What ExtractConfName tells of a line: 0, 1 or 2 with the name.
pub data Line : Type 0 where
  other : Line
  category_line : Text → Line
  conf_line : Text → Line

unfoldable has_colon : Text → Bool
has_colon [] = false
has_colon (c ∷ cs) = c == b':' || has_colon cs

unfoldable skip_indent : Text → Text
skip_indent [] = []
skip_indent (c ∷ cs) = if c == b' ' || c == b'\t' then skip_indent cs else c ∷ cs

unfoldable title : Text → Text
title [] = []
title (c ∷ cs) = let rest = title cs in if c == b':' || c == b'\n' then [] else c ∷ rest

-- The name before a blank; none where the loop goes past the end of the string.
unfoldable pub conf_word : Text → Option Text
conf_word [] = none
conf_word (c ∷ cs) =
    let rest = conf_word cs in
    if c == b' ' || c == b'\t' then some [] else elim rest [ none ↦ none | some s ↦ some (c ∷ s) ]

-- A name that is stored with its terminator in an array of `size` bytes.
abbrev stored : ℕ → Text → (Text → Line) → Option Line
stored size s line = if leb size (length s) then none else some (line s)

abbrev stored_word : ℕ → Option Text → Option Line
stored_word size none = none
stored_word size (some s) = stored size s conf_line

-- ExtractConfName, with ConfName an array of `size` bytes; none where it leaves an array.
unfoldable pub extract_conf_name : ℕ → Text → Option Line
unfolding has_colon skip_indent title conf_word
extract_conf_name size [] = some other
extract_conf_name size (c ∷ cs) =
    let s = skip_indent (c ∷ cs) in
    if not (c == b' ') && not (has_colon (c ∷ cs))
    then some other
    else if isblank (c ∷ cs)
    then some other
    else if c == b' '
    then stored_word size (conf_word s)
    else stored size (title s) category_line

pub record PublicConf : Type 0 where
  pub conf_name : Text
  pub conf_num : ℕ
  pub serial_num : ℕ

pub record Category : Type 0 where
  pub category : Text
  pub cat_num : ℕ
  pub conf_pub : List PublicConf

-- FindCat and the tail of WriteToPublicConf: the conference goes to the end of the first category
-- of that number, if there is one.
unfoldable pub add_conf : ℕ → PublicConf → List Category → List Category
add_conf num pub_conf [] = []
add_conf num pub_conf (cat ∷ cats) =
    let rest = add_conf num pub_conf cats in
    if cat.cat_num == num
    then record cat { conf_pub = cat.conf_pub ++ pub_conf ∷ [] } ∷ cats
    else cat ∷ rest

-- The variables of ReadPublicTxt; the conferences of the categories read, with CatList's NextRecord.
pub record Reading : Type 0 where
  pub cats : List Category
  pub next_cat : ℕ
  pub next_conf : ℕ
  pub next_serial : ℕ

-- WriteToPublicConf with a line of a conference: FindCat(CatNum - 1) finds none before a category.
unfoldable pub write_conf : Text → Reading → List Category
unfolding add_conf
write_conf buffer r =
    if r.next_cat == 0
    then r.cats
    else add_conf (r.next_cat - 1)
        (record { conf_name = buffer; conf_num = r.next_conf; serial_num = r.next_serial }) r.cats

-- The loop's body, lines 19-32.
unfoldable pub take_line : Text → Line → Reading → Reading
unfolding write_conf
take_line buffer other r = r
take_line buffer (category_line name) r = record {
  cats = r.cats ++ record { category = name; cat_num = r.next_cat; conf_pub = [] } ∷ [];
  next_cat = r.next_cat + 1;
  next_conf = 0;
  next_serial = r.next_serial;
}
take_line buffer (conf_line name) r = record r {
  cats = write_conf buffer r;
  next_conf = r.next_conf + 1;
  next_serial = r.next_serial + 1;
}

abbrev take_extracted : Text → Option Line → Reading → Option Reading
take_extracted buffer none r = none
take_extracted buffer (some line) r = some (take_line buffer line r)

abbrev pub empty_reading : Reading
empty_reading = record { cats = []; next_cat = 0; next_conf = 0; next_serial = 0 }

-- ReadPublicTxt's loop over the first `n` lines of the file's text, or all if there are no more; none
-- where a line makes ExtractConfName leave an array.
unfoldable pub read_public : ℕ → Text → Reading → Option Reading
unfolding take_line extract_conf_name
read_public zero file r = some r
read_public (suc n) file r = elim (fgets 128 file) [
  | none ↦ some r
  | some (line, rest) ↦ elim (take_extracted line (extract_conf_name 30 line) r) [
    | none ↦ none
    | some r₁ ↦ read_public n rest r₁
  ]
]

-- GetConfFromPublicTxt's loop over one list, the number being SerialNum or ConfNum.
unfoldable pub conf_in : (PublicConf → ℕ) → ℕ → List PublicConf → Option PublicConf
conf_in number num [] = none
conf_in number num (p ∷ ps) = if number p == num then some p else conf_in number num ps

unfoldable pub conf_in_cats : ℕ → List Category → Option PublicConf
unfolding conf_in
conf_in_cats num [] = none
conf_in_cats num (cat ∷ cats) = elim (conf_in (λ p. p.serial_num) num cat.conf_pub) [
  | none ↦ conf_in_cats num cats
  | some p ↦ some p
]

-- Pub is NULL or a category's list.
unfoldable pub which_conf : List Category → Option (List PublicConf) → ℕ → Option PublicConf
unfolding conf_in_cats
which_conf cats none num = conf_in_cats num cats
which_conf cats (some pubs) num = conf_in (λ p. p.conf_num) num pubs

-- GetConfFromPublicTxt with ConfName an array of `size` bytes: what ExtractConfName tells, `other`
-- where there is no such number.
unfoldable pub get_conf_from_public_txt :
    ℕ → List Category → Option (List PublicConf) → ℕ → Option Line
unfolding which_conf
get_conf_from_public_txt size cats pubs num = elim (which_conf cats pubs num) [
  | none ↦ some other
  | some p ↦ extract_conf_name size p.conf_name
]

-- DispPublicConf: the category's conferences; none is NULL, also where the category has none.
unfoldable pub disp_public_conf : ℕ → List Category → Option (List PublicConf)
disp_public_conf num [] = none
disp_public_conf num (cat ∷ cats) =
    let rest = disp_public_conf num cats in
    if cat.cat_num == num then elim cat.conf_pub [ [] ↦ none | p ∷ ps ↦ some (p ∷ ps) ] else rest
