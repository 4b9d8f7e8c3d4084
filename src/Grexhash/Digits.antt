-- ===== src/Grexhash/Digits.antt =====
-- Characters and digits of base 85 in soft/libgrex/grexhash.c, and numbers as their bytes, the
-- most significant first.
use mnetsoft.Base.{
  ℕ, suc, ◌+◌, ◌*◌, ◌/◌, ◌%◌, ◌≤◌, ◌<◌, ◌≡◌, ◌≢◌, refl, sym, ◌∙◌, ap, some, List, [], ◌∷◌, arith,
  length, Bool-cases, ltb, ltb→lt, inl, inr, ℕ_discrete,
}
use mathlib.Core.Path.{ap₂}
use mnetsoft.Grexhash.{digit_char, char_digit, div_bytes, mul_bytes}

pub char_digit-digit_char : (d : ℕ) → d < 85 → char_digit (digit_char d) ≡ some d
unfolding char_digit digit_char
char_digit-digit_char d h = ground arith

-- Every element is a byte.
abbrev pub AreBytes : List ℕ → Type 0
AreBytes [] = Unit {0}
AreBytes (b ∷ bs) = (b < 256) × AreBytes bs

-- 256 to the length
unfoldable pub scale : List ℕ → ℕ
scale [] = 1
scale (b ∷ bs) = 256 * scale bs

unfoldable pub value : List ℕ → ℕ
unfolding scale
value [] = 0
value (b ∷ bs) = b * scale bs + value bs

pub value-lt-scale : (bs : List ℕ) → AreBytes bs → value bs < scale bs
unfolding value
value-lt-scale [] h = omega arith
value-lt-scale (b ∷ bs) h = let ih = value-lt-scale bs h.1 in grind arith

pub scale_same : (xs ys : List ℕ) → length xs ≡ length ys → scale xs ≡ scale ys
unfolding scale
scale_same [] [] e = refl
scale_same [] (b ∷ ys) e = absurd (omega arith)
scale_same (a ∷ xs) [] e = absurd (omega arith)
scale_same (a ∷ xs) (b ∷ ys) e = ap (λ t. 256 * t) (scale_same xs ys (omega arith))

no_carry : (a b n x y : ℕ) → x < n → a < b → a * n + x ≢ b * n + y
no_carry a b n x y lt less e = let gap : suc a * n ≤ b * n = grind arith in omega (arith, e, gap)

digits_unique : (a b n x y : ℕ) → x < n → y < n → a * n + x ≡ b * n + y → (a ≡ b) × (x ≡ y)
digits_unique a b n x y hx hy e = elim (ℕ_discrete a b) [
  | yes same ↦ let products : a * n ≡ b * n = ap (λ (t : ℕ). t * n) same in (same, omega arith)
  | no differ ↦ elim (Bool-cases (ltb a b)) [
    | inl less ↦ absurd (no_carry a b n x y hx (ltb→lt a b less) e)
    | inr more ↦ absurd (no_carry b a n y x hy (ground arith) (sym e))
  ]
]

-- Bytes of one length are told by their value.
pub value_injective :
    (xs ys : List ℕ)
    → AreBytes xs
    → AreBytes ys
    → length xs ≡ length ys
    → value xs ≡ value ys
    → xs ≡ ys
unfolding value
value_injective [] [] ha hb len e = refl
value_injective [] (b ∷ ys) ha hb len e = absurd (omega arith)
value_injective (a ∷ xs) [] ha hb len e = absurd (omega arith)
value_injective (a ∷ xs) (b ∷ ys) ha hb len e =
    let n = scale_same xs ys (omega arith) in
    let low = value-lt-scale xs ha.1 in
    let same =
      digits_unique a b (scale ys) (value xs) (value ys) (omega (arith, n, low))
        (value-lt-scale ys hb.1) (ap (λ (t : ℕ). a * t + value xs) (sym n) ∙ e) in
    ap₂ ◌∷◌ same.0 (value_injective xs ys ha.1 hb.1 (omega arith) same.1)

pub length-div_bytes : (r : ℕ) (bs : List ℕ) → length (div_bytes r bs).0 ≡ length bs
unfolding div_bytes
length-div_bytes r [] = refl
length-div_bytes r (b ∷ bs) = ap suc (length-div_bytes ((r * 256 + b) % 85) bs)

pub length-mul_bytes : (r : ℕ) (bs : List ℕ) → length (mul_bytes r bs).0 ≡ length bs
unfolding mul_bytes
length-mul_bytes r [] = refl
length-mul_bytes r (b ∷ bs) = ap suc (length-mul_bytes r bs)

pub mul_bytes-AreBytes : (r : ℕ) (bs : List ℕ) → AreBytes (mul_bytes r bs).0
unfolding mul_bytes
mul_bytes-AreBytes r [] = tt
mul_bytes-AreBytes r (b ∷ bs) = (omega arith, mul_bytes-AreBytes r bs)

pub div_bytes-AreBytes : (r : ℕ) (bs : List ℕ) → r < 85 → AreBytes bs → AreBytes (div_bytes r bs).0
unfolding div_bytes
div_bytes-AreBytes r [] h bytes = tt
div_bytes-AreBytes r (b ∷ bs) h bytes =
    (omega (arith, bytes.0), div_bytes-AreBytes ((r * 256 + b) % 85) bs (omega arith) bytes.1)

pub div_bytes-lt : (r : ℕ) (bs : List ℕ) → r < 85 → (div_bytes r bs).1 < 85
unfolding div_bytes
div_bytes-lt r [] h = h
div_bytes-lt r (b ∷ bs) h = div_bytes-lt ((r * 256 + b) % 85) bs (omega arith)

pub div_bytes-value :
    (r : ℕ) (bs : List ℕ)
    → value (div_bytes r bs).0 * 85 + (div_bytes r bs).1 ≡ r * scale bs + value bs
unfolding div_bytes value
div_bytes-value r [] = omega arith
div_bytes-value r (b ∷ bs) =
    let ih = div_bytes-value ((r * 256 + b) % 85) bs in
    let q = (r * 256 + b) / 85 in
    let same =
      ap (λ (t : ℕ). q * t)
        (scale_same (div_bytes ((r * 256 + b) % 85) bs).0 bs
          (length-div_bytes ((r * 256 + b) % 85) bs)) in
    let split : (r * 256 + b) / 85 * 85 + (r * 256 + b) % 85 ≡ r * 256 + b = omega arith in
    omega (arith, ih, ap (λ (t : ℕ). t * scale bs) split, same)

pub mul_bytes-value :
    (r : ℕ) (bs : List ℕ)
    → value (mul_bytes r bs).0 + (mul_bytes r bs).1 * scale bs ≡ 85 * value bs + r
unfolding mul_bytes value
mul_bytes-value r [] = omega arith
mul_bytes-value r (b ∷ bs) =
    let ih = mul_bytes-value r bs in
    let v = (mul_bytes r bs).1 + b * 85 in
    let same =
      ap (λ (t : ℕ). v % 256 * t) (scale_same (mul_bytes r bs).0 bs (length-mul_bytes r bs)) in
    let split : v / 256 * 256 + v % 256 ≡ v = omega arith in
    omega (arith, ih, ap (λ (t : ℕ). t * scale bs) split, same)
