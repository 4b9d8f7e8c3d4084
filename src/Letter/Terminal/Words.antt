-- ===== src/Letter/Terminal/Words.antt =====
-- What `readword` of soft/games/letter/letter.c reads.
use mnetsoft.Base.{
  sym, lt→ltb, Bool-cases, ltb→lt, inl, inr, ◌⊎◌, ◌∙◌, ℕ, zero, suc, ◌+◌, ◌-◌, ◌≤◌, ◌<◌, ◌≡◌, refl,
  ap, true, some, List, [], ◌∷◌, ◌++◌, ◌==◌, ltb, set, get_elem?, length, take, map, arith,
  length-set, get_elem?-set_self,
}
use mathlib.Core.Path.{subst}
use mathlib.Core.List.{append-nil, append_assoc}
use mnetsoft.Base.Text.{Text, is_lower, to_lower}
use mnetsoft.Letter.Terminal.{
  Keys, Step, goes_on, complete, leaves, newline, press_lower, Reading, entered, quit,
  readword_loop, readword,
}

abbrev pub IsLower : Text → Type 0
IsLower [] = Unit {0}
IsLower (c ∷ cs) = (is_lower c ≡ true) × IsLower cs

-- The letters typed so far.
record Typing (n size : ℕ) (bf : List ℕ) (i : ℕ) : Type 0 where
  room : length bf ≡ size
  most : i ≤ n
  lower : IsLower (take i bf)

abbrev GoodStep : ℕ → ℕ → Step → Type 0
GoodStep n size (goes_on bf i) = Typing n size bf i
GoodStep n size (complete bf) = (length bf ≡ size) × IsLower (take n bf) × (get_elem? bf n ≡ some 0)
GoodStep n size leaves = Unit {0}

-- What may be said of the buffer after `readword`.
abbrev pub GoodReading : ℕ → ℕ → Reading → Type 0
GoodReading n size (entered bf rest) =
    (length bf ≡ size) × IsLower (take n bf) × (get_elem? bf n ≡ some 0)
GoodReading n size (quit rest) = Unit {0}

pub Step-cases :
    (s : Step)
    → ((bf : List ℕ) × (i : ℕ) × (s ≡ goes_on bf i))
      ⊎ ((bf : List ℕ) × (s ≡ complete bf))
      ⊎ (s ≡ leaves)
Step-cases (goes_on bf i) = inl (bf, i, refl)
Step-cases (complete bf) = inr (inl (bf, refl))
Step-cases leaves = inr (inr refl)

take-set_le : (bf : List ℕ) (i j c : ℕ) → i ≤ j → take i (set bf j c) ≡ take i bf
take-set_le bf zero j c h = refl
take-set_le [] (suc i) j c h = refl
take-set_le (x ∷ xs) (suc i) zero c h = elim h [ ]
take-set_le (x ∷ xs) (suc i) (suc j) c h = ap (λ t. x ∷ t) (take-set_le xs i j c (omega arith))

IsLower-take : (bf : List ℕ) (i j : ℕ) → j ≤ i → IsLower (take i bf) → IsLower (take j bf)
IsLower-take bf i zero h l = tt
IsLower-take [] i (suc j) h l = tt
IsLower-take (x ∷ xs) zero (suc j) h l = elim h [ ]
IsLower-take (x ∷ xs) (suc i) (suc j) h l = (l.0, IsLower-take xs i j (omega arith) l.1)

IsLower-set :
    (bf : List ℕ) (i c : ℕ)
    → is_lower c ≡ true
    → IsLower (take i bf)
    → IsLower (take (suc i) (set bf i c))
IsLower-set [] i c e l = tt
IsLower-set (x ∷ xs) zero c e l = (e, tt)
IsLower-set (x ∷ xs) (suc i) c e l = (l.0, IsLower-set xs i c e l.1)

typed :
    (n size : ℕ) (bf : List ℕ) (i c : ℕ)
    → is_lower c ≡ true
    → i < n
    → Typing n size bf i
    → Typing n size (set bf i c) (i + 1)
typed n size bf i c e lt t = record {
  room = length-set bf i c ∙ t.room;
  most = omega arith;
  lower =
      (let shift : suc i ≡ i + 1 = omega arith in
        subst (λ k. IsLower (take k (set bf i c))) shift (IsLower-set bf i c e t.lower));
}

erased : (n size : ℕ) (bf : List ℕ) (i j : ℕ) → j ≤ i → Typing n size bf i → Typing n size bf j
erased n size bf i j le t = record {
  room = t.room;
  most = omega (arith, t.most);
  lower = IsLower-take bf i j le t.lower;
}

finished :
    (n size : ℕ) (bf : List ℕ)
    → n < size
    → Typing n size bf n
    → GoodStep n size (complete (set bf n 0))
finished n size bf lt t = (
  length-set bf n 0 ∙ t.room,
  rw (take-set_le bf n n 0 (omega arith)) t.lower,
  get_elem?-set_self bf n 0 (omega (arith, t.room)),
)

newline-GoodStep :
    (n size : ℕ) (bf : List ℕ) (i : ℕ)
    → n < size
    → Typing n size bf i
    → GoodStep n size (newline n bf i)
unfolding newline
newline-GoodStep n size bf i lt t = elim (Bool-cases (i == n)) [
  | inl e ↦ rw e (
      let t' : Typing n size bf n = subst (Typing n size bf) (ground arith) t in
      subst (λ k. GoodStep n size (complete (set bf k 0))) (ground arith)
        (finished n size bf lt t'))
  | inr ne ↦ ground (arith, ne, erased n size bf i 0 (omega arith) t)
]

press-GoodStep :
    (keys : Keys) (n size ch : ℕ) (bf : List ℕ) (i : ℕ)
    → n < size
    → Typing n size bf i
    → GoodStep n size (press_lower keys n ch bf i)
unfolding press_lower
press-GoodStep keys n size ch bf i lt t = elim (Bool-cases (is_lower ch)) [
  | inl e ↦ rw e (elim (Bool-cases (ltb i n)) [
    | inl less ↦ rw less (typed n size bf i ch e (ltb→lt i n less) t)
    | inr more ↦ rw more t
  ])
  | inr ne ↦ rw ne (
      ground (
        arith,
        erased n size bf i 0 (omega arith) t,
        erased n size bf i (i - 1) (omega arith) t,
        newline-GoodStep n size bf i lt t,
      ))
]

readword_loop-GoodReading :
    (keys : Keys) (n size : ℕ) (input : Text) (bf : List ℕ) (i : ℕ)
    → n < size
    → Typing n size bf i
    → GoodReading n size (readword_loop keys n input bf i)
unfolding readword_loop
readword_loop-GoodReading keys n size [] bf i lt t = tt
readword_loop-GoodReading keys n size (ch ∷ rest) bf i lt t =
    let good = press-GoodStep keys n size (to_lower ch) bf i lt t in
    elim (Step-cases (press_lower keys n (to_lower ch) bf i)) [
      | inl (bf', i', e) ↦
          rw (e, readword_loop)
            (readword_loop-GoodReading keys n size rest bf' i' lt (subst (GoodStep n size) e good))
      | inr (inl (bf', e)) ↦ rw (e, readword_loop) (subst (GoodStep n size) e good)
      | inr (inr e) ↦ rw (e, readword_loop) tt
    ]

-- Where `readword` returns 0 and its buffer has more than n bytes, the first n bytes are lower-case
-- letters, a 0 is behind them, and the buffer has kept its size.
pub readword-GoodReading :
    (keys : Keys) (n : ℕ) (input : Text) (bf : List ℕ)
    → n < length bf
    → GoodReading n (length bf) (readword keys n input bf)
unfolding readword
readword-GoodReading keys n input bf lt =
    readword_loop-GoodReading keys n (length bf) input bf 0 lt
      (record { room = refl; most = omega arith; lower = tt })

abbrev pub AreLetters : Text → Type 0
AreLetters [] = Unit {0}
AreLetters (c ∷ cs) = (is_lower (to_lower c) ≡ true) × AreLetters cs

take-set_self :
    (bf : List ℕ) (i c : ℕ) → i < length bf → take (suc i) (set bf i c) ≡ take i bf ++ c ∷ []
take-set_self [] i c h = elim h [ ]
take-set_self (x ∷ xs) zero c h = refl
take-set_self (x ∷ xs) (suc i) c h = ap (λ t. x ∷ t) (take-set_self xs i c (omega arith))

press-letter :
    (keys : Keys) (n c : ℕ) (bf : List ℕ) (i : ℕ)
    → is_lower c ≡ true
    → i < n
    → press_lower keys n c bf i ≡ goes_on (set bf i c) (suc i)
unfolding press_lower
press-letter keys n c bf i e lt = rw (e, lt→ltb i n lt) (ap (goes_on (set bf i c)) (omega arith))

readword_loop-typed :
    (keys : Keys) (n : ℕ) (w rest : Text) (bf : List ℕ) (i : ℕ)
    → AreLetters w
    → i + length w ≡ n
    → n < length bf
    → (bf' : List ℕ) × (readword_loop keys n (w ++ b'\n' ∷ rest) bf i ≡ entered bf' rest)
      × (take n bf' ≡ take i bf ++ map to_lower w)
unfolding readword_loop press_lower newline
readword_loop-typed keys n [] rest bf i h e lt = (
  set bf i 0,
  ground arith,
  let here : i ≡ n = omega (arith, e) in
      rw (here, take-set_le bf n n 0 (omega arith)) (sym (append-nil (take n bf))),
)
readword_loop-typed keys n (c ∷ w) rest bf i h e lt =
    let (bf', e₁, e₂) =
      readword_loop-typed keys n w rest (set bf i (to_lower c)) (suc i) h.1 (omega arith)
        (rw (length-set bf i (to_lower c)) lt) in
    (
      bf',
      rw (press-letter keys n (to_lower c) bf i h.0 (omega arith), readword_loop) e₁,
      e₂
          ∙ ap (λ t. t ++ map to_lower w) (take-set_self bf i (to_lower c) (omega arith))
          ∙ append_assoc (take i bf) (to_lower c ∷ []) (map to_lower w),
    )

-- Letters, as many as the game's words have, and a newline make `readword` return 0 with these
-- letters in lower case, if the buffer has more than n bytes.
readword-typed :
    (keys : Keys) (w rest : Text) (bf : List ℕ)
    → AreLetters w
    → length w < length bf
    → (bf' : List ℕ) × (readword keys (length w) (w ++ b'\n' ∷ rest) bf ≡ entered bf' rest)
      × (take (length w) bf' ≡ map to_lower w)
unfolding readword
readword-typed keys w rest bf h lt =
    readword_loop-typed keys (length w) w rest bf 0 h (omega arith) lt
