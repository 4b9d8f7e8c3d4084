-- ===== src/Grexhash/Password.antt =====
-- What `kg_bin_to_str` and `grexhash_r` of soft/libgrex/grexhash.c return.
use mnetsoft.Base.{
  ◌⊎◌, ltb→lt, ℕ, zero, suc, ◌+◌, ◌-◌, ◌≤◌, ◌<◌, ◌≡◌, refl, sym, ◌∙◌, ap, true, false, Option, none,
  some, List, [], ◌∷◌, if◌then◌else◌, arith, length, length-take, ltb, ◌++◌, take, drop, Bool-cases,
  inl, inr,
}
use mathlib.Core.Path.{subst}
use mathlib.Core.List.{append-nil}
use Prim.Native.Nat.{min}
use mnetsoft.Base.Text.{Text, codes, strlcpy}
use mnetsoft.Grexhash.{
  bytes_text, text_len, kg_str_to_bin, kg_bin_to_str, kg_pwhash, grexhash_r, div_bytes, digit_char,
  kg_string_to_key, tagged,
}
use mnetsoft.Grexhash.Digits.{AreBytes}
use mnetsoft.Grexhash.Realm.{local_is_cyberspace}
use mnetsoft.Grexhash.RoundTrip.{kg_str_to_bin-bytes_text}

length-bytes_text :
    (size : ℕ) (temp : List ℕ) (acc : Text) → length (bytes_text size temp acc) ≡ size + length acc
unfolding bytes_text
length-bytes_text zero temp acc = omega arith
length-bytes_text (suc size) temp acc =
    let (temp', r) = div_bytes 0 temp in
    length-bytes_text size temp' (digit_char r ∷ acc) ∙ omega arith

take_whole : (xs : Text) (n : ℕ) → length xs ≤ n → take n xs ≡ xs
take_whole [] zero h = refl
take_whole [] (suc n) h = refl
take_whole (x ∷ xs) zero h = absurd (omega arith)
take_whole (x ∷ xs) (suc n) h = ap (λ t. x ∷ t) (take_whole xs n (omega arith))

drop_whole : (n : ℕ) (xs : List ℕ) → length xs ≤ n → drop n xs ≡ []
drop_whole zero [] h = refl
drop_whole zero (x ∷ xs) h = absurd (omega arith)
drop_whole (suc n) [] h = refl
drop_whole (suc n) (x ∷ xs) h = drop_whole n xs (omega arith)

kg_bin_to_str-fits :
    (temp key : List ℕ) (ksize strsize : ℕ)
    → ltb strsize (text_len ksize) ≡ false
    → kg_bin_to_str temp key ksize strsize ≡ (
      0,
      strlcpy (bytes_text (text_len ksize) (take ksize temp) []) strsize,
      take ksize temp ++ drop ksize key,
    )
unfolding kg_bin_to_str
kg_bin_to_str-fits temp key ksize strsize e = rw e

kg_bin_to_str-full :
    (temp key : List ℕ) (ksize strsize : ℕ)
    → ltb strsize (text_len ksize) ≡ true
    → kg_bin_to_str temp key ksize strsize ≡ (1, [], key)
unfolding kg_bin_to_str
kg_bin_to_str-full temp key ksize strsize e = rw e

-- With room for the text and its terminator, and memory of its own that holds bytes, the function
-- succeeds. The string is the text of the first `ksize` bytes of that memory, and `kg_str_to_bin`
-- reads them back from it; the key takes no part in it, and is itself written over with them.
kg_bin_to_str-memory :
    (temp key : List ℕ) (ksize strsize : ℕ)
    → AreBytes (take ksize temp)
    → ksize ≤ length temp
    → length key ≡ ksize
    → ksize ≤ 64
    → text_len ksize < strsize
    → (str : Text) × (kg_bin_to_str temp key ksize strsize ≡ (0, str, take ksize temp))
      × (kg_str_to_bin str ksize ≡ some (take ksize temp))
kg_bin_to_str-memory temp key ksize strsize bytes room len small fits =
    let str = bytes_text (text_len ksize) (take ksize temp) [] in
    let whole =
      take_whole str (strsize - 1)
        (omega (arith, length-bytes_text (text_len ksize) (take ksize temp) [])) in
    let gone = drop_whole ksize key (omega arith) in
    let size : length (take ksize temp) ≡ ksize = length-take ksize temp ∙ omega arith in
    (
      str,
      kg_bin_to_str-fits temp key ksize strsize (ground arith) ∙ rw (whole, gone, append-nil),
      subst
          (λ n.
            kg_str_to_bin (bytes_text (text_len n) (take ksize temp) []) n ≡ some (take ksize temp))
          size (kg_str_to_bin-bytes_text (take ksize temp) bytes (omega arith)),
    )

pwhash-tagged :
    (sha1 : List ℕ → List ℕ) (temp : List ℕ) (pass user : Text) (n : ℕ)
    → 3 ≤ n
    → (key : List ℕ) × (kg_pwhash sha1 temp pass user n
        ≡ tagged n (kg_bin_to_str temp key 20 (n - 2)))
unfolding kg_pwhash
pwhash-tagged sha1 temp pass user n h =
    let long : ltb n 3 ≡ false = ground arith in
    (
      kg_string_to_key sha1 pass user [] (codes "CYBERSPACE.ORG"),
      rw (long, local_is_cyberspace, kg_pwhash),
    )

-- The tag and the text of the memory's first twenty bytes, as far as they have room.
abbrev hash_of : List ℕ → ℕ → Option Text
hash_of temp reslen =
    if ltb reslen 28
    then none
    else some (codes "%!" ++ take (reslen - 3) (bytes_text 26 (take 20 temp) []))

tagged-hash_of :
    (temp key : List ℕ) (n : ℕ)
    → 26 ≤ n
    → tagged n (kg_bin_to_str temp key 20 (n - 2)) ≡ hash_of temp n
tagged-hash_of temp key n h = elim (Bool-cases (ltb n 28)) [
  | inl short ↦ rw (kg_bin_to_str-full temp key 20 (n - 2) (ground arith), short)
  | inr long ↦
      let sizes : n - 2 - 1 ≡ n - 3 = omega arith in
      let tag = take_whole (codes "%!") (n - 1) (omega arith) in
      rw (kg_bin_to_str-fits temp key 20 (n - 2) (ground arith), long, tag, sizes)
]

grexhash_r-hash_of :
    (sha1 : List ℕ → List ℕ) (temp : List ℕ) (pass user : Text) (n : ℕ)
    → grexhash_r sha1 temp pass user n ≡ hash_of temp n
unfolding grexhash_r
grexhash_r-hash_of sha1 temp pass user n = elim (Bool-cases (ltb n 26)) [
  | inl short ↦ let short' : ltb n 28 ≡ true = ground arith in rw (short, short')
  | inr long ↦
      let (key, e) = pwhash-tagged sha1 temp pass user n (ground arith) in
      rw long (e ∙ tagged-hash_of temp key n (ground arith))
]

-- The password and the user take no part in the hash: it depends on what the memory of
-- `kg_bin_to_str` held before, and on the length of the result.
pub grexhash_r-password :
    (sha1 : List ℕ → List ℕ) (temp : List ℕ) (pass user pass' user' : Text) (reslen : ℕ)
    → grexhash_r sha1 temp pass user reslen ≡ grexhash_r sha1 temp pass' user' reslen
grexhash_r-password sha1 temp pass user pass' user' reslen =
    grexhash_r-hash_of sha1 temp pass user reslen
    ∙ sym (grexhash_r-hash_of sha1 temp pass' user' reslen)

-- A result is returned exactly from a length of 28 on, in which its 28 characters and the
-- terminator have room from 29 on: at 28 it is cut to 27 characters.
length-grexhash_r :
    (sha1 : List ℕ → List ℕ) (temp : List ℕ) (pass user : Text) (reslen : ℕ)
    → ((reslen < 28) × (grexhash_r sha1 temp pass user reslen ≡ none))
      ⊎ (28 ≤ reslen)
        × ((r : Text) × (grexhash_r sha1 temp pass user reslen ≡ some r)
            × (length r ≡ min 28 (reslen - 1)))
length-grexhash_r sha1 temp pass user reslen =
    let e = grexhash_r-hash_of sha1 temp pass user reslen in
    let text = bytes_text 26 (take 20 temp) [] in
    elim (Bool-cases (ltb reslen 28)) [
      | inl short ↦ inl (ltb→lt reslen 28 short, e ∙ ground (arith, short))
      | inr long ↦
          let room : 28 ≤ reslen = ground (arith, long) in
          inr (
            room,
            (
              codes "%!" ++ take (reslen - 3) text,
              e ∙ ground (arith, room),
              omega (arith, length-take (reslen - 3) text, length-bytes_text 26 (take 20 temp) []),
            ),
          )
    ]
