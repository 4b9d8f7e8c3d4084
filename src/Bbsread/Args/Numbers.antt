-- ===== src/Bbsread/Args/Numbers.antt =====
-- What `parse_arg` of soft/cmd/bbsread/arg.c does with numbers.
use mnetsoft.Base.{
  ℕ, ◌≡◌, refl, Bool, true, false, none, List, [], ◌∷◌, ◌&&◌, leb, arith, Option-cases, inl, inr,
}
use mnetsoft.Base.Text.{Text, is_digit}
use mnetsoft.Bbsread.Parse.{match, match_loop}
use mnetsoft.Bbsread.Args.{Options, arg_table, find_arg, numeric_arg, parse_arg}

match-digit :
    (c p : ℕ) (name pat : Text)
    → is_digit c ≡ true
    → leb b'a' p ≡ true
    → leb p b'z' ≡ true
    → match (c ∷ name) (p ∷ pat) ≡ false
unfolding match match_loop
match-digit c p name pat d l u = ground arith

-- The patterns of a table that begin with small letters.
is_lettered : Text → Bool
is_lettered [] = false
is_lettered (p ∷ _) = leb b'a' p && leb p b'z'

all_lettered : List (Text × (Options → Options)) → Bool
unfolding is_lettered
all_lettered [] = true
all_lettered ((pat, _) ∷ table) = is_lettered pat && all_lettered table

match-lettered :
    (c : ℕ) (name pat : Text)
    → is_digit c ≡ true
    → is_lettered pat ≡ true
    → match (c ∷ name) pat ≡ false
unfolding is_lettered
match-lettered c name [] d l = ground arith
match-lettered c name (p ∷ pat) d l = ground (arith, match-digit c p name pat d)

find_arg-lettered :
    (table : List (Text × (Options → Options))) (c : ℕ) (name : Text) (o : Options)
    → is_digit c ≡ true
    → all_lettered table ≡ true
    → find_arg table (c ∷ name) o ≡ none
unfolding find_arg all_lettered
find_arg-lettered [] c name o d l = refl
find_arg-lettered ((pat, f) ∷ table) c name o d l =
    ground (arith, match-lettered c name pat d, find_arg-lettered table c name o d)

arg_table-lettered : all_lettered arg_table ≡ true
unfolding all_lettered
arg_table-lettered = refl

-- An argument that begins with a digit always ends the program with the usage message, also when it is a correct range of items: `parse_arg` goes on to look the number up among the words.
parse_arg-digit :
    (c : ℕ) (name : Text) (o : Options) → is_digit c ≡ true → parse_arg (c ∷ name) o ≡ none
unfolding parse_arg
parse_arg-digit c name o d = elim (Option-cases (numeric_arg (c ∷ name) o)) [
  | inl e ↦ ground (arith, e, d)
  | inr (o', e) ↦ ground (arith, e, d, find_arg-lettered arg_table c name o' d arg_table-lettered)
]
