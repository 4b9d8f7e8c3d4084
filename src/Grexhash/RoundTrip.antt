-- ===== src/Grexhash/RoundTrip.antt =====
-- `kg_str_to_bin` reads what `kg_bin_to_str` of soft/libgrex/grexhash.c writes.
use mnetsoft.Base.{
  ℕ, zero, suc, ◌+◌, ◌*◌, ◌≤◌, ◌<◌, ◌≡◌, refl, sym, ◌∙◌, ap, Bool, true, ◌&&◌, some, List, [], ◌∷◌,
  arith, length, replicate, length-replicate, leb,
}
use mathlib.Core.Path.{ap₂}
use mnetsoft.Base.Text.{Text}
use mnetsoft.Grexhash.{
  digit_char, div_bytes, mul_bytes, bytes_text, text_bytes, text_len, kg_str_to_bin,
}
use mnetsoft.Grexhash.Digits.{
  AreBytes, scale, value, value-lt-scale, value_injective, scale_same, length-div_bytes,
  length-mul_bytes, mul_bytes-AreBytes, div_bytes-AreBytes, div_bytes-lt, div_bytes-value,
  mul_bytes-value, char_digit-digit_char,
}

-- 85 ^ n
unfoldable limit : ℕ → ℕ
limit zero = 1
limit (suc n) = 85 * limit n

zeros-AreBytes : (n : ℕ) → AreBytes (replicate n 0)
zeros-AreBytes zero = tt
zeros-AreBytes (suc n) = (omega arith, zeros-AreBytes n)

value-zeros : (n : ℕ) → value (replicate n 0) ≡ 0
unfolding value
value-zeros zero = refl
value-zeros (suc n) = let ih = value-zeros n in grind arith

no_multiple : (c n x : ℕ) → x + c * n < n → c ≡ 0
no_multiple zero n x h = refl
no_multiple (suc c) n x h = absurd (grind arith)

-- One digit that was taken out is put back, and nothing is carried out.
mul-div_bytes :
    (temp : List ℕ)
    → AreBytes temp
    → mul_bytes (div_bytes 0 temp).1 (div_bytes 0 temp).0 ≡ (temp, 0)
mul-div_bytes temp bytes =
    let (q, r) = div_bytes 0 temp in
    let (m, c) = mul_bytes r q in
    let sum : value m + c * scale q ≡ value temp =
      omega (arith, mul_bytes-value r q, div_bytes-value 0 temp) in
    let same : scale q ≡ scale temp = scale_same q temp (length-div_bytes 0 temp) in
    let none_out : c ≡ 0 =
      no_multiple c (scale q) (value m) (omega (arith, sum, same, value-lt-scale temp bytes)) in
    let product : c * scale q ≡ 0 = ap (λ (t : ℕ). t * scale q) none_out ∙ omega arith in
    let back : m ≡ temp =
      value_injective m temp (mul_bytes-AreBytes r q) bytes
        (length-mul_bytes r q ∙ length-div_bytes 0 temp) (omega (arith, sum, product)) in
    ap₂ (λ (a : List ℕ) (b : ℕ). (a, b)) back none_out

text_bytes-digit :
    (d : ℕ) (cs : Text) (key key' : List ℕ)
    → d < 85
    → mul_bytes d key ≡ (key', 0)
    → text_bytes (digit_char d ∷ cs) key ≡ text_bytes cs key'
unfolding text_bytes
text_bytes-digit d cs key key' h e = rw (char_digit-digit_char d h, e, text_bytes)

text_bytes-bytes_text :
    (size : ℕ) (temp : List ℕ) (acc : Text)
    → AreBytes temp
    → value temp < limit size
    → text_bytes (bytes_text size temp acc) (replicate (length temp) 0) ≡ text_bytes acc temp
unfolding bytes_text limit
text_bytes-bytes_text zero temp acc bytes lt = ap (text_bytes acc) (
    value_injective (replicate (length temp) 0) temp (zeros-AreBytes (length temp)) bytes
      (length-replicate (length temp) 0) (value-zeros (length temp) ∙ omega arith))
text_bytes-bytes_text (suc size) temp acc bytes lt =
    let (temp', r) = div_bytes 0 temp in
    let sum = div_bytes-value 0 temp in
    let small = div_bytes-lt 0 temp (omega arith) in
    ap (λ n. text_bytes (bytes_text size temp' (digit_char r ∷ acc)) (replicate n 0))
      (sym (length-div_bytes 0 temp))
    ∙ text_bytes-bytes_text size temp' (digit_char r ∷ acc)
        (div_bytes-AreBytes 0 temp (omega arith) bytes) (omega arith)
    ∙ text_bytes-digit r acc temp' temp small (mul-div_bytes temp bytes)

-- The length that `kg_bin_to_str` computes is enough for up to 64 bytes.
power : ℕ → ℕ
power zero = 1
power (suc n) = 256 * power n

enough : ℕ → Bool
unfolding power limit
enough zero = true
enough (suc k) = leb (power k) (limit (text_len k)) && enough k

all_enough : enough 65 ≡ true
unfolding enough
all_enough = refl

enough_below : (n k : ℕ) → enough n ≡ true → k < n → power k ≤ limit (text_len k)
unfolding enough
enough_below zero k h lt = absurd (omega arith)
enough_below (suc n) k h lt = ground (arith, enough_below n k)

scale-power : (bs : List ℕ) → scale bs ≡ power (length bs)
unfolding scale power
scale-power [] = refl
scale-power (b ∷ bs) = ap (λ (t : ℕ). 256 * t) (scale-power bs)

-- Up to 64 bytes are read back from the text that is made of them.
pub kg_str_to_bin-bytes_text :
    (temp : List ℕ)
    → AreBytes temp
    → length temp ≤ 64
    → kg_str_to_bin (bytes_text (text_len (length temp)) temp []) (length temp) ≡ some temp
unfolding kg_str_to_bin text_bytes
kg_str_to_bin-bytes_text temp bytes le =
    text_bytes-bytes_text (text_len (length temp)) temp [] bytes (
      omega (
        arith,
        value-lt-scale temp bytes,
        scale-power temp,
        enough_below 65 (length temp) all_enough (omega arith),
      ))
