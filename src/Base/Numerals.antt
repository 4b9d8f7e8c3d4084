-- ===== src/Base/Numerals.antt =====
-- Numbers in decimal and hexadecimal digits: what `printf` writes and `strtol` reads back.
use Prim.Native.Nat.{ℕ, zero, suc, ◌+◌, ◌-◌, ◌*◌, ◌/◌, ◌%◌, ◌≤◌, ◌<◌}
use mathlib.Core.Path.{◌≡◌, refl, ◌∙◌, ap, sym, subst}
use mathlib.Core.Bool.{Bool, true, false, ◌||◌, ◌&&◌}
use mathlib.Core.List.{[], ◌∷◌, ◌++◌}
use native.Mathlib.Omega.{arith}
use mnetsoft.Base.Tests.{ltb, leb, ◌==◌, if◌then◌else◌, Bool-cases, ==_iff}
use mathlib.Core.Logic.{inl, inr}
use mnetsoft.Base.Text.{Text, is_digit, digits_value}

-- "%d" of a positive number in front of a text, on fuel: each round divides it by ten.
unfoldable pub emit : ℕ → ℕ → Text → Text
emit zero v out = out
emit (suc fuel) v out =
    let rest = emit fuel (v / 10) ((b'0' + v % 10) ∷ out) in if v == 0 then out else rest

unfoldable pub decimal : ℕ → Text
unfolding emit
decimal v = if v == 0 then b'0' ∷ [] else emit v v []

-- "%lX"
abbrev pub hex_digit : ℕ → ℕ
hex_digit d = if ltb d 10 then b'0' + d else b'A' + (d - 10)

unfoldable pub emit_hex : ℕ → ℕ → Text → Text
emit_hex zero v out = out
emit_hex (suc fuel) v out =
    let rest = emit_hex fuel (v / 16) (hex_digit (v % 16) ∷ out) in if v == 0 then out else rest

unfoldable pub hexadecimal : ℕ → Text
unfolding emit_hex
hexadecimal v = if v == 0 then b'0' ∷ [] else emit_hex v v []

abbrev pub AreDigits : Text → Type 0
AreDigits [] = Unit {0}
AreDigits (c ∷ cs) = (is_digit c ≡ true) × AreDigits cs

-- What follows the digits is not one of them.
abbrev pub IsPlain : Text → Type 0
IsPlain [] = Unit {0}
IsPlain (c ∷ cs) = is_digit c ≡ false

digits_value-plain : (acc : ℕ) (x : Text) → IsPlain x → digits_value acc x ≡ acc
unfolding digits_value
digits_value-plain acc [] h = refl
digits_value-plain acc (c ∷ cs) h = rw h refl

emit-append : (fuel v : ℕ) (out rest : Text) → emit fuel v out ++ rest ≡ emit fuel v (out ++ rest)
unfolding emit
emit-append zero v out rest = refl
emit-append (suc fuel) v out rest =
    ground (arith, emit-append fuel (v / 10) ((b'0' + v % 10) ∷ out) rest)

drop_zero : (acc d : ℕ) → acc * 10 + (b'0' + d - b'0') ≡ acc * 10 + d
drop_zero acc d = omega arith

digits_value-digit :
    (acc d : ℕ) (out : Text)
    → d < 10
    → digits_value acc ((b'0' + d) ∷ out) ≡ digits_value (acc * 10 + d) out
unfolding digits_value
digits_value-digit acc d out h = ground (arith, ap (λ n. digits_value n out) (drop_zero acc d))

digits_value-emit :
    (fuel v : ℕ) (out : Text) → v ≤ fuel → digits_value 0 (emit fuel v out) ≡ digits_value v out
unfolding emit digits_value
digits_value-emit zero v out h = ap (λ n. digits_value n out) (omega arith)
digits_value-emit (suc fuel) v out h =
    let step = digits_value-digit (v / 10) (v % 10) out (omega arith) in
    let ih = digits_value-emit fuel (v / 10) ((b'0' + v % 10) ∷ out) (omega arith) in
    let back : v / 10 * 10 + v % 10 ≡ v = omega arith in
    elim (Bool-cases (v == 0)) [
      | inl done ↦ rw (done, emit) (ap (λ n. digits_value n out) (sym ((==_iff v 0).0 done)))
      | inr more ↦ rw (more, emit) (ih ∙ step ∙ ap (λ n. digits_value n out) back)
    ]

emit-cons : (fuel v x : ℕ) (out : Text) → (c : ℕ) × (cs : Text) × (emit fuel v (x ∷ out) ≡ c ∷ cs)
unfolding emit
emit-cons zero v x out = (x, out, refl)
emit-cons (suc fuel) v x out =
    let (c, cs, e) = emit-cons fuel (v / 10) (b'0' + v % 10) (x ∷ out) in
    elim (Bool-cases (v == 0)) [
      | inl done ↦ (x, out, rw (done, emit) refl)
      | inr more ↦ (c, cs, rw (more, emit) e)
    ]

emit-AreDigits : (fuel v : ℕ) (out : Text) → AreDigits out → AreDigits (emit fuel v out)
unfolding emit
emit-AreDigits zero v out h = h
emit-AreDigits (suc fuel) v out h =
    let ih = emit-AreDigits fuel (v / 10) ((b'0' + v % 10) ∷ out) (ground arith, h) in
    elim (Bool-cases (v == 0)) [ inl done ↦ rw (done, emit) h | inr more ↦ rw (more, emit) ih ]

pub decimal-cons : (v : ℕ) → (c : ℕ) × (cs : Text) × (decimal v ≡ c ∷ cs) × AreDigits (c ∷ cs)
unfolding decimal emit
decimal-cons zero = (b'0', [], refl, (refl, tt))
decimal-cons (suc v) =
    let out : Text = (b'0' + suc v % 10) ∷ [] in
    let (c, cs, e) = emit-cons v (suc v / 10) (b'0' + suc v % 10) [] in
    (
      c,
      cs,
      ground (arith, e),
      subst AreDigits e (emit-AreDigits v (suc v / 10) out (ground arith, tt)),
    )

-- Digits are read back up to the first byte that is none.
pub digits_value-decimal :
    (v : ℕ) (rest : Text) → IsPlain rest → digits_value 0 (decimal v ++ rest) ≡ v
unfolding decimal
digits_value-decimal v rest h = elim (Bool-cases (v == 0)) [
  | inl none_left ↦
      rw (none_left, decimal)
        (digits_value-digit 0 0 rest (omega arith)
          ∙ digits_value-plain 0 rest h
          ∙ sym ((==_iff v 0).0 none_left))
  | inr more ↦
      rw (more, decimal, emit-append v v [] rest)
        (digits_value-emit v v rest (omega arith) ∙ digits_value-plain v rest h)
]

-- Hexadecimal digits, and the number that they stand for.
abbrev pub is_xdigit : ℕ → Bool
is_xdigit c = is_digit c || leb b'A' c && leb c b'F' || leb b'a' c && leb c b'f'

abbrev pub xdigit_value : ℕ → ℕ
xdigit_value c =
    if is_digit c
    then c - b'0'
    else if leb b'A' c && leb c b'Z'
    then c - b'A' + 10
    else c - b'a' + 10

unfoldable pub hex_value : ℕ → Text → ℕ
hex_value acc [] = acc
hex_value acc (c ∷ cs) =
    let rest = hex_value (acc * 16 + xdigit_value c) cs in if is_xdigit c then rest else acc

abbrev pub IsPlainHex : Text → Type 0
IsPlainHex [] = Unit {0}
IsPlainHex (c ∷ cs) = is_xdigit c ≡ false

hex_value-plain : (acc : ℕ) (x : Text) → IsPlainHex x → hex_value acc x ≡ acc
unfolding hex_value
hex_value-plain acc [] h = refl
hex_value-plain acc (c ∷ cs) h = rw h refl

hex_digit_lem :
    (d : ℕ) → d < 16 → (is_xdigit (hex_digit d) ≡ true) × (xdigit_value (hex_digit d) ≡ d)
hex_digit_lem d h = (ground arith, ground arith)

hex_value-digit :
    (acc d : ℕ) (out : Text)
    → d < 16
    → hex_value acc (hex_digit d ∷ out) ≡ hex_value (acc * 16 + d) out
unfolding hex_value
hex_value-digit acc d out h = let (x, e) = hex_digit_lem d h in rw (x, e) refl

emit_hex-append :
    (fuel v : ℕ) (out rest : Text) → emit_hex fuel v out ++ rest ≡ emit_hex fuel v (out ++ rest)
unfolding emit_hex
emit_hex-append zero v out rest = refl
emit_hex-append (suc fuel) v out rest =
    let ih = emit_hex-append fuel (v / 16) (hex_digit (v % 16) ∷ out) rest in
    elim (Bool-cases (v == 0)) [
      | inl done ↦ rw (done, emit_hex) refl
      | inr more ↦ rw (more, emit_hex) ih
    ]

hex_value-emit_hex :
    (fuel v : ℕ) (out : Text) → v ≤ fuel → hex_value 0 (emit_hex fuel v out) ≡ hex_value v out
unfolding emit_hex
hex_value-emit_hex zero v out h = ap (λ n. hex_value n out) (omega arith)
hex_value-emit_hex (suc fuel) v out h =
    let step = hex_value-digit (v / 16) (v % 16) out (omega arith) in
    let ih = hex_value-emit_hex fuel (v / 16) (hex_digit (v % 16) ∷ out) (omega arith) in
    let back : v / 16 * 16 + v % 16 ≡ v = omega arith in
    elim (Bool-cases (v == 0)) [
      | inl done ↦ rw (done, emit_hex) (ap (λ n. hex_value n out) (sym ((==_iff v 0).0 done)))
      | inr more ↦ rw (more, emit_hex) (ih ∙ step ∙ ap (λ n. hex_value n out) back)
    ]

pub hex_value-hexadecimal :
    (v : ℕ) (rest : Text) → IsPlainHex rest → hex_value 0 (hexadecimal v ++ rest) ≡ v
unfolding hexadecimal
hex_value-hexadecimal v rest h = elim (Bool-cases (v == 0)) [
  | inl none_left ↦
      rw (none_left, hexadecimal)
        (hex_value-digit 0 0 rest (omega arith)
          ∙ hex_value-plain 0 rest h
          ∙ sym ((==_iff v 0).0 none_left))
  | inr more ↦
      rw (more, hexadecimal, emit_hex-append v v [] rest)
        (hex_value-emit_hex v v rest (omega arith) ∙ hex_value-plain v rest h)
]

abbrev pub AreXdigits : Text → Type 0
AreXdigits [] = Unit {0}
AreXdigits (c ∷ cs) = (is_xdigit c ≡ true) × AreXdigits cs

emit_hex-cons :
    (fuel v x : ℕ) (out : Text) → (c : ℕ) × (cs : Text) × (emit_hex fuel v (x ∷ out) ≡ c ∷ cs)
unfolding emit_hex
emit_hex-cons zero v x out = (x, out, refl)
emit_hex-cons (suc fuel) v x out =
    let (c, cs, e) = emit_hex-cons fuel (v / 16) (hex_digit (v % 16)) (x ∷ out) in
    elim (Bool-cases (v == 0)) [
      | inl done ↦ (x, out, rw (done, emit_hex) refl)
      | inr more ↦ (c, cs, rw (more, emit_hex) e)
    ]

emit_hex-AreXdigits : (fuel v : ℕ) (out : Text) → AreXdigits out → AreXdigits (emit_hex fuel v out)
unfolding emit_hex
emit_hex-AreXdigits zero v out h = h
emit_hex-AreXdigits (suc fuel) v out h =
    let ih =
      emit_hex-AreXdigits fuel (v / 16) (hex_digit (v % 16) ∷ out)
        ((hex_digit_lem (v % 16) (omega arith)).0, h) in
    elim (Bool-cases (v == 0)) [
      | inl done ↦ rw (done, emit_hex) h
      | inr more ↦ rw (more, emit_hex) ih
    ]

pub hexadecimal-cons :
    (v : ℕ) → (c : ℕ) × (cs : Text) × (hexadecimal v ≡ c ∷ cs) × AreXdigits (c ∷ cs)
unfolding hexadecimal emit_hex
hexadecimal-cons zero = (b'0', [], refl, (refl, tt))
hexadecimal-cons (suc v) =
    let out : Text = hex_digit (suc v % 16) ∷ [] in
    let (c, cs, e) = emit_hex-cons v (suc v / 16) (hex_digit (suc v % 16)) [] in
    (
      c,
      cs,
      ground (arith, e),
      subst AreXdigits e (
          emit_hex-AreXdigits v (suc v / 16) out
            ((hex_digit_lem (suc v % 16) (omega arith)).0, tt)),
    )
