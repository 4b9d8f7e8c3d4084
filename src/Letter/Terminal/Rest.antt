-- ===== src/Letter/Terminal/Rest.antt =====
-- What `readword` and `yes` of soft/games/letter/letter.c leave of the input.
use mnetsoft.Base.{
  ◌⊎◌, inl, inr, ℕ, suc, ◌≤◌, ◌<◌, ◌≡◌, refl, Bool, true, false, ◌||◌, List, [], ◌∷◌, ◌==◌, length,
  arith,
}
use mnetsoft.Base.Text.{Text, to_lower}
use mnetsoft.Letter.Terminal.Words.{Step-cases}
use mnetsoft.Letter.Terminal.{
  Keys, Reading, entered, quit, press_lower, readword_loop, readword, yes_loop, yes,
}

-- What is left after a word is less than there was.
abbrev pub Consumes : ℕ → Reading → Type 0
Consumes k (entered bf rest) = length rest < k
Consumes k (quit rest) = length rest ≤ k

weaker : (k : ℕ) (r : Reading) → Consumes k r → Consumes (suc k) r
weaker k (entered bf rest) h = omega (arith, h)
weaker k (quit rest) h = omega (arith, h)

readword_loop-Consumes :
    (keys : Keys) (n : ℕ) (input : Text) (bf : List ℕ) (i : ℕ)
    → Consumes (length input) (readword_loop keys n input bf i)
unfolding readword_loop
readword_loop-Consumes keys n [] bf i = omega arith
readword_loop-Consumes keys n (ch ∷ rest) bf i =
    elim (Step-cases (press_lower keys n (to_lower ch) bf i)) [
      | inl (bf', i', e) ↦
          rw (e, readword_loop)
            (weaker (length rest) (readword_loop keys n rest bf' i')
              (readword_loop-Consumes keys n rest bf' i'))
      | inr (inl (bf', e)) ↦ rw (e, readword_loop) (omega arith)
      | inr (inr e) ↦ rw (e, readword_loop) (omega arith)
    ]

pub readword-Consumes :
    (keys : Keys) (n : ℕ) (input : Text) (bf : List ℕ)
    → Consumes (length input) (readword keys n input bf)
unfolding readword
readword-Consumes keys n input bf = readword_loop-Consumes keys n input bf 0

yes_loop-rest :
    (keys : Keys) (input : Text) (got rc : Bool)
    → length (yes_loop keys input got rc).1 ≤ length input
unfolding yes_loop
yes_loop-rest keys [] got rc = omega arith
yes_loop-rest keys (ch ∷ rest) got rc = ground (
  arith,
  yes_loop-rest keys rest true (ch == b'Y' || ch == b'y'),
  yes_loop-rest keys rest false rc,
  yes_loop-rest keys rest got rc,
)

pub Reading-cases :
    (r : Reading)
    → ((bf : List ℕ) × (rest : Text) × (r ≡ entered bf rest)) ⊎ ((rest : Text) × (r ≡ quit rest))
Reading-cases (entered bf rest) = inl (bf, rest, refl)
Reading-cases (quit rest) = inr (rest, refl)

pub yes-rest : (keys : Keys) (input : Text) → length (yes keys input).1 ≤ length input
unfolding yes
yes-rest keys input = yes_loop-rest keys input false false
