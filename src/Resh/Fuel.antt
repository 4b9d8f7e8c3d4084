-- ===== src/Resh/Fuel.antt =====
-- soft/apps/resh/token.c: the fuel of the loop of tokenizeq.
use mnetsoft.Base.{
  ◌⊎◌, ap, ℕ, zero, suc, ◌-◌, ◌≤◌, ◌≡◌, refl, sym, ◌∙◌, inl, inr, Bool, true, false, Option, none,
  some, [], ◌∷◌, arith, ◌==◌, leb, if◌then◌else◌, length, Bool-cases, Option-cases,
}
use mnetsoft.Base.Text.{Text, is_space, skip_space}
use mnetsoft.Resh.{put_before, quotedtoken, after_simpletoken, from_quote, tokenize}

-- What is left is no longer than `n`.
abbrev leaves : ℕ → Option (Text × Text) → Bool
leaves n none = true
leaves n (some (s, rest)) = leb (length rest) n

leaves-put_before : (n c : ℕ) (o : Option (Text × Text)) → leaves n (put_before c o) ≡ leaves n o
unfolding put_before
leaves-put_before n c none = refl
leaves-put_before n c (some (s, rest)) = refl

leaves-later : (n m : ℕ) (o : Option (Text × Text)) → n ≤ m → leaves n o ≡ true → leaves m o ≡ true
leaves-later n m none l h = refl
leaves-later n m (some (s, rest)) l h = ground arith

if-leaves :
    (n : ℕ) (b : Bool) (x y : Option (Text × Text))
    → leaves n x ≡ true
    → leaves n y ≡ true
    → leaves n (if b then x else y) ≡ true
if-leaves n true x y h k = h
if-leaves n false x y h k = k

put-leaves :
    (n m c : ℕ) (o : Option (Text × Text))
    → n ≤ m
    → leaves n o ≡ true
    → leaves m (put_before c o) ≡ true
put-leaves n m c o l h = rw (leaves-put_before m c o) (leaves-later n m o l h)

quotedtoken-leaves : (s : Text) → leaves (length s) (quotedtoken s) ≡ true
unfolding quotedtoken
quotedtoken-leaves [] = refl
quotedtoken-leaves (c ∷ []) = if-leaves 1 (c == b'\'') (some ([], [])) (some (c ∷ [], [])) refl refl
quotedtoken-leaves (c ∷ d ∷ []) = ground arith
quotedtoken-leaves (c ∷ d ∷ e ∷ cs) =
    let n = length (c ∷ d ∷ e ∷ cs) in
    let next = quotedtoken (d ∷ e ∷ cs) in
    let second = put_before d (quotedtoken (e ∷ cs)) in
    let third = put_before d (put_before e (quotedtoken cs)) in
    let l =
      put-leaves (length cs) (length cs) e (quotedtoken cs) (omega arith) (quotedtoken-leaves cs) in
    if-leaves n (c == b'\'') (if d == b'\'' then put_before c second else some ([], d ∷ e ∷ cs))
      (if c == b'\\' then put_before c third else put_before c next)
      (if-leaves n (d == b'\'') (put_before c second) (some ([], d ∷ e ∷ cs))
        (put-leaves (length (e ∷ cs)) n c second (omega arith) (
          put-leaves (length (e ∷ cs)) (length (e ∷ cs)) d (quotedtoken (e ∷ cs)) (omega arith)
            (quotedtoken-leaves (e ∷ cs))))
        (ground arith))
      (if-leaves n (c == b'\\') (put_before c third) (put_before c next)
        (put-leaves (length cs) n c third (omega arith)
          (put-leaves (length cs) (length cs) d (put_before e (quotedtoken cs)) (omega arith) l))
        (put-leaves (length (d ∷ e ∷ cs)) n c next (omega arith) (quotedtoken-leaves (d ∷ e ∷ cs))))

length-skip_space : (s : Text) → length (skip_space s) ≤ length s
unfolding skip_space
length-skip_space [] = omega arith
length-skip_space (c ∷ cs) = ground (arith, length-skip_space cs)

length-after_simpletoken : (s : Text) → length (after_simpletoken s) ≤ length s
unfolding after_simpletoken
length-after_simpletoken [] = omega arith
length-after_simpletoken (c ∷ cs) = ground (arith, length-after_simpletoken cs)

from_quote-rest : (cs t rest : Text) → from_quote cs ≡ some (t, rest) → length rest ≤ length cs
unfolding from_quote
from_quote-rest [] t rest h = absurd (ground arith)
from_quote-rest (c ∷ cs) t rest h = elim (Option-cases (quotedtoken cs)) [
  | inl e ↦ absurd (ground (arith, (rw (from_quote, e) at h)))
  | inr ((s, r), e) ↦
      let k : leaves (length cs) (some (s, r)) ≡ true =
        sym (ap (leaves (length cs)) e) ∙ quotedtoken-leaves cs in
      ground (arith, (rw (from_quote, e) at h))
]

after_bare :
    (c : ℕ) (cs : Text)
    → (c == b'\'') ≡ false
    → is_space c ≡ false
    → length (after_simpletoken (c ∷ cs)) ≤ length cs
unfolding after_simpletoken
after_bare c cs h k = rw (h, k) (length-after_simpletoken cs)

List-cases : (s : Text) → (s ≡ []) ⊎ ((c : ℕ) × ((cs : Text) × (s ≡ c ∷ cs)))
List-cases [] = inl refl
List-cases (c ∷ cs) = inr (c, (cs, refl))

skip_space-head : (s : Text) (c : ℕ) (cs : Text) → skip_space s ≡ c ∷ cs → is_space c ≡ false
unfolding skip_space
skip_space-head [] c cs h = absurd (ground arith)
skip_space-head (b ∷ bs) c cs h = elim (Bool-cases (is_space b)) [
  | inl e ↦ skip_space-head bs c cs (rw (skip_space, e) at h)
  | inr e ↦ ground (arith, (rw (skip_space, e) at h))
]

-- Any two amounts of fuel of at least the length of the line give the same tokens.
pub tokenize-fuel :
    (n m room : ℕ) (str : Text)
    → length str ≤ n
    → length str ≤ m
    → tokenize n room str ≡ tokenize m room str
unfolding tokenize skip_space
tokenize-fuel zero zero room str h k = refl
tokenize-fuel zero (suc m) room [] h k = refl
tokenize-fuel zero (suc m) room (c ∷ cs) h k = absurd (omega (arith, h))
tokenize-fuel (suc n) zero room [] h k = refl
tokenize-fuel (suc n) zero room (c ∷ cs) h k = absurd (omega (arith, k))
tokenize-fuel (suc n) (suc m) room str h k = elim (List-cases (skip_space str)) [
  | inl e ↦ rw (tokenize, e) refl
  | inr (c, (cs, e)) ↦
      let l : suc (length cs) ≤ length str = omega (arith, length-skip_space str, ap length e) in
      elim (Bool-cases (c == b'\'')) [
        | inl q ↦ elim (Option-cases (from_quote cs)) [
          | inl f ↦ rw (tokenize, e, q, f) refl
          | inr ((t, rest), f) ↦
              let i =
                tokenize-fuel n m (room - 1) rest (omega (arith, from_quote-rest cs t rest f))
                  (omega (arith, from_quote-rest cs t rest f)) in
              rw (tokenize, e, q, f, i) refl
        ]
        | inr q ↦
            let b = after_bare c cs q (skip_space-head str c cs e) in
            let i =
              tokenize-fuel n m (room - 1) (after_simpletoken (c ∷ cs)) (omega (arith, b))
                (omega (arith, b)) in
            rw (tokenize, e, q, i) refl
      ]
]
