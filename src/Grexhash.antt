-- ===== src/Grexhash.antt =====
-- soft/libgrex/grexhash.c: the text of a key in base 85 and back, and the hash of a password.
pub mod Realm
pub mod Digits
pub mod RoundTrip
pub mod Password
mod Examples
use mnetsoft.Base.{
  ℕ, zero, suc, ◌+◌, ◌-◌, ◌*◌, ◌/◌, ◌%◌, ◌^◌, Bool, true, false, Option, none, some, List, [], ◌∷◌,
  ◌++◌, if◌then◌else◌, ◌==◌, ltb, leb, length, take, drop, replicate,
}
use mnetsoft.Base.Text.{Text, codes, strlcpy}
use mnetsoft.Grexhash.Realm.{kg_localrealm}

-- One inner loop of `kg_bin_to_str`: the bytes divided by 85, from the first on, and the remainder.
unfoldable pub div_bytes : ℕ → List ℕ → List ℕ × ℕ
div_bytes r [] = ([], r)
div_bytes r (up ∷ ups) =
    let v = r * 256 + up in let (rest, last) = div_bytes (v % 85) ups in (v / 85 ∷ rest, last)

-- The character of a digit: four of the printable characters are passed over.
unfoldable pub digit_char : ℕ → ℕ
digit_char d =
    let a = d + 0x21 in
    let b = if leb 0x2c a then a + 1 else a in
    let c = if leb 0x3a b then b + 1 else b in
    let e = if leb 0x3b c then c + 1 else c in if leb 0x5c e then e + 1 else e

-- The outer loop, `size` rounds of it: each character goes before those that are there.
unfoldable pub bytes_text : ℕ → List ℕ → Text → Text
unfolding div_bytes digit_char
bytes_text zero temp acc = acc
bytes_text (suc size) temp acc =
    let (temp', r) = div_bytes 0 temp in bytes_text size temp' (digit_char r ∷ acc)

abbrev pub text_len : ℕ → ℕ
text_len ksize = 1 + (ksize * 81800 + 65535) / 2 ^ 16

-- `kg_bin_to_str`: its result, the string, and what it leaves in `key`. `temp` is the memory that
-- the function takes for itself, with what is in it; `memmove(key, temp, ksize)` copies from it.
-- (The last character is stored over a byte of `temp` that is read no more.)
unfoldable pub kg_bin_to_str : List ℕ → List ℕ → ℕ → ℕ → ℕ × Text × List ℕ
unfolding bytes_text
kg_bin_to_str temp key ksize strsize = if ltb strsize (text_len ksize) then (1, [], key) else (
  0,
  strlcpy (bytes_text (text_len ksize) (take ksize temp) []) strsize,
  take ksize temp ++ drop ksize key,
)

-- The value of a character in `kg_str_to_bin`; `none` where it returns 1. Subtraction wraps.
unfoldable pub char_digit : ℕ → Option ℕ
char_digit r₀ =
    if r₀ == 0x5c
    then none
    else let r₁ = if ltb 0x5c r₀ then r₀ - 1 else r₀ in
      if r₁ == 0x3b
      then none
      else if r₁ == 0x3a
      then none
      else let r₂ = if ltb 0x3a r₁ then r₁ - 2 else r₁ in
        if r₂ == 0x2c
        then none
        else let r₃ = if ltb 0x2c r₂ then r₂ - 1 else r₂ in
          let r = (r₃ + 2 ^ 32 - 0x21) % 2 ^ 32 in if leb 85 r then none else some r

-- The inner loop of `kg_str_to_bin`, from the last byte on: the new bytes and what is carried out.
unfoldable pub mul_bytes : ℕ → List ℕ → List ℕ × ℕ
mul_bytes r [] = ([], r)
mul_bytes r (up ∷ ups) =
    let (rest, carry) = mul_bytes r ups in let v = carry + up * 85 in (v % 256 ∷ rest, v / 256)

-- `kg_str_to_bin` from a key that is partly read; `none` where it returns 1.
unfoldable pub text_bytes : Text → List ℕ → Option (List ℕ)
text_bytes [] key = some key
text_bytes (c ∷ cs) key = elim (char_digit c) [
  | none ↦ none
  | some r ↦
      let (key', carry) = mul_bytes r key in
      let rest = text_bytes cs key' in if carry == 0 then rest else none
]

unfoldable pub kg_str_to_bin : Text → ℕ → Option (List ℕ)
unfolding text_bytes
kg_str_to_bin str ksize = text_bytes str (replicate ksize 0)

-- The message of `kg_string_to_key`, and the key. `sha1` is the library's digest of 20 bytes.
abbrev pub with_nul : Text → List ℕ
with_nul t = t ++ 0 ∷ []

unfoldable pub kg_string_to_key : (List ℕ → List ℕ) → Text → Text → Text → Text → List ℕ
kg_string_to_key sha1 clear user inst realm =
    let len = length clear + 1 in
    let inner = sha1 (
      replicate (128 - len % 64) b'\\'
      ++ with_nul clear
      ++ with_nul user
      ++ with_nul inst
      ++ with_nul realm) in
    sha1 (with_nul clear ++ replicate (128 - len % 64) b'6' ++ inner)

-- The last lines of `kg_pwhash`: the tag and the text of the key.
abbrev pub tagged : ℕ → ℕ × Text × List ℕ → Option Text
tagged rsize (i, str, _) = if i == 0 then some (strlcpy (codes "%!") rsize ++ str) else none

unfoldable pub kg_pwhash : (List ℕ → List ℕ) → List ℕ → Text → Text → ℕ → Option Text
unfolding kg_string_to_key kg_bin_to_str
kg_pwhash sha1 temp clear user rsize = if ltb rsize 3 then none else elim (kg_localrealm 64) [
  | none ↦ none
  | some realm ↦
      tagged rsize (kg_bin_to_str temp (kg_string_to_key sha1 clear user [] realm) 20 (rsize - 2))
]

unfoldable pub grexhash_r : (List ℕ → List ℕ) → List ℕ → Text → Text → ℕ → Option Text
unfolding kg_pwhash
grexhash_r sha1 temp pass user reslen =
    if ltb reslen 26 then none else kg_pwhash sha1 temp pass user reslen
