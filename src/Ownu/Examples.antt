-- ===== src/Ownu/Examples.antt =====
-- The theorems on soft/apps/ownu/cgi-decode.c at concrete inputs.
use mathlib.Core.List.{reverse}
use mnetsoft.Base.{◌≡◌, refl, none, some, List, [], ◌∷◌, ◌++◌, replicate, arith}
use mnetsoft.Base.Text.{codes, same_text}
use mnetsoft.Ownu.{x2c, digit_of, Entry, load_query, getvar}
use mnetsoft.Ownu.Wrap.{wrap_text, clean_text}
use mnetsoft.Ownu.Wrap.Blanks.{levelled, levelled-wrap_text}
use mnetsoft.Ownu.Keys.{start_keyval, check_key, final_key_check, illegal_key, same_key}
use mnetsoft.Ownu.RoundTrip.{encode_query, load_query-encode_query}

-- A value with a byte above 127 and the signs of the encoding.
abbrev entries : List Entry
entries =
    record { name = codes "login"; value = codes "a+b&c" }
    ∷ record { name = []; value = 200 ∷ codes "= %" }
    ∷ []

load_query-encode_query_example : load_query (encode_query entries) ≡ some (reverse entries)
load_query-encode_query_example = load_query-encode_query entries (
  record { name_bytes = ground arith; value_bytes = ground arith; name_free = ground arith },
  (record { name_bytes = tt; value_bytes = ground arith; name_free = tt }, tt),
)

-- Digits that are not hexadecimal: the backquote counts as 9.
x2c_test :
    x2c b'`' b'0' ∷ x2c b'0' b'`' ∷ x2c b'~' b'~' ∷ x2c b'/' b':' ∷ [] ≡ 144 ∷ 9 ∷ 151 ∷ 250 ∷ []
unfolding x2c digit_of
x2c_test = refl

-- A percent sign at the end of an entry: two bytes behind it are read.
load_query_test_percent : load_query (codes "a=5%&b=7") ≡ none
unfolding load_query
load_query_test_percent = refl

-- An equals sign that was encoded in a name ends the name.
load_query_test_equals :
    load_query (codes "a%3Db=7") ≡ some (record { name = codes "a"; value = codes "b=7" } ∷ [])
unfolding load_query
load_query_test_equals = refl

-- The last of two values of a name is found.
getvar_test :
    getvar (codes "a") (
      record { name = codes "a"; value = codes "2" }
      ∷ record { name = codes "a"; value = codes "1" }
      ∷ [])
    ≡ some (codes "2")
unfolding getvar same_text
getvar_test = refl

levelled-wrap_text_example :
    levelled (wrap_text (codes "one\ttwo three")) ≡ levelled (codes "one\ttwo three")
levelled-wrap_text_example = levelled-wrap_text (codes "one\ttwo three")

-- A line of 75 letters behind a word and a space.
wrap_text_test : wrap_text (codes "a " ++ replicate 75 b'x') ≡ codes "a\n" ++ replicate 75 b'x'
unfolding wrap_text
wrap_text_test = refl

clean_text_test : clean_text (codes " \r\n  one \r\n two \n\n ") ≡ some (codes "  one \n two\n")
unfolding clean_text
clean_text_test = refl

-- An empty answer: the result is a pointer behind its zero byte.
clean_text_test_empty : clean_text [] ≡ none
unfolding clean_text
clean_text_test_empty = refl

check_key_test : check_key (codes "^u") 2 start_keyval ≡ (8 ∷ 3 ∷ 21 ∷ 4 ∷ [], none)
unfolding check_key
check_key_test = refl

check_key_test_reserved :
    check_key (codes "^S") 1 start_keyval ≡ (8 ∷ 19 ∷ 24 ∷ 4 ∷ [], some (illegal_key 1))
unfolding check_key
check_key_test_reserved = refl

final_key_check_test : final_key_check (8 ∷ 3 ∷ 3 ∷ 4 ∷ []) ≡ some (same_key 1 2)
unfolding final_key_check
final_key_check_test = refl
