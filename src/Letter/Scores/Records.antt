-- ===== src/Letter/Scores/Records.antt =====
-- The record of a word behind `save_score` of soft/games/letter/letter.c.
use mnetsoft.Base.{
  ==_iff, leb→le, ℕ, zero, suc, ◌+◌, ◌-◌, ◌*◌, ◌/◌, ◌%◌, ◌≤◌, ◌<◌, ◌≡◌, refl, ap, ◌∙◌, true, false,
  ◌⊎◌, some, [], ◌∷◌, ◌++◌, ◌==◌, leb, length, get_or, take, drop, replicate, length-append,
  length-take, arith, Bool-cases, inl, inr,
}
use mnetsoft.Base.Int.{pos}
use mathlib.Core.List.{append_assoc}
use mnetsoft.Base.Text.{
  Text, fgets, same_prefix, is_digit, strlcpy, atol, signed_value, digits_value, skip_space,
}
use mnetsoft.Letter.Words.{bfsz, Game}
use mnetsoft.Letter.Scores.{
  positive_int, slot_score, more_digits, three_digits, score_line, write_at, write_score,
  beat_score, save_score,
}
use mnetsoft.Letter.Scores.Slots.{drop-append_left}

-- What follows the digits begins with another byte.
abbrev pub IsPlain : Text → Type 0
IsPlain [] = Unit {0}
IsPlain (c ∷ cs) = is_digit c ≡ false

digits_value-plain : (acc : ℕ) (x : Text) → IsPlain x → digits_value acc x ≡ acc
unfolding digits_value
digits_value-plain acc [] h = refl
digits_value-plain acc (c ∷ cs) h = rw h refl

atol-three :
    (a b c : ℕ) (x : Text)
    → a < 10
    → b < 10
    → c < 10
    → IsPlain x
    → atol ((b'0' + a) ∷ (b'0' + b) ∷ (b'0' + c) ∷ x) ≡ pos (a * 100 + b * 10 + c)
unfolding atol skip_space signed_value digits_value
atol-three a b c x ha hb hc h = ground (arith, digits_value-plain (a * 100 + b * 10 + c) x h)

three_digits_lem :
    (v : ℕ)
    → v < 1000
    → three_digits v ≡ (b'0' + v / 100) ∷ (b'0' + v / 10 % 10) ∷ (b'0' + v % 10) ∷ []
unfolding three_digits more_digits
three_digits_lem zero h = refl
three_digits_lem (suc v) h = ground arith

-- The score in a line, read back.
slot_score-three :
    (n v : ℕ) (word x : Text)
    → length word ≡ n
    → v < 1000
    → IsPlain x
    → slot_score n (word ++ three_digits v ++ x) ≡ v
unfolding positive_int
slot_score-three n v word x e h p =
    let digits : Text = (b'0' + v / 100) ∷ (b'0' + v / 10 % 10) ∷ (b'0' + v % 10) ∷ [] in
    let there : drop n (word ++ digits ++ x) ≡ digits ++ x =
      ap (drop n) (append_assoc word digits x) ∙ drop-append_left word (digits ++ x) n e in
    rw
      (
        three_digits_lem v h,
        there,
        atol-three (v / 100) (v / 10 % 10) (v % 10) x (omega (arith, h)) (omega arith) (omega arith)
            p,
      )
      (ground (arith, h))

take-append_over : (a b : Text) (m k : ℕ) → m ≡ length a + k → take m (a ++ b) ≡ a ++ take k b
take-append_over [] b m k e = ap (λ j. take j b) (omega (arith, e))
take-append_over (x ∷ xs) b zero k e = absurd (omega (arith, e))
take-append_over (x ∷ xs) b (suc m) k e =
    ap (λ t. x ∷ t) (take-append_over xs b m k (omega (arith, e)))

IsPlain-take :
    (j k : ℕ) (user y : Text) → IsPlain user → IsPlain y → IsPlain (take j (take k user) ++ y)
IsPlain-take zero k user y p q = q
IsPlain-take (suc j) zero user y p q = q
IsPlain-take (suc j) (suc k) [] y p q = q
IsPlain-take (suc j) (suc k) (c ∷ cs) y p q = p

IsPlain-stars : (m : ℕ) (y : Text) → IsPlain (replicate m b'*' ++ (b'\n' ∷ y))
IsPlain-stars zero y = refl
IsPlain-stars (suc m) y = refl

length-three_digits : (v : ℕ) → v < 1000 → length (three_digits v) ≡ 3
length-three_digits v h = ap length (three_digits_lem v h)

-- The line that is written begins with the word and the digits.
score_line-digits :
    (n v : ℕ) (word user tail : Text)
    → length word ≡ n
    → v < 1000
    → n + 12 < bfsz
    → IsPlain user
    → (x : Text) × (score_line n (strlcpy (word ++ three_digits v ++ user) bfsz) ++ tail
        ≡ word ++ three_digits v ++ x)
      × IsPlain x
unfolding score_line
score_line-digits n v word user tail e h room p =
    let key : Text = word ++ three_digits v in
    let size : length key ≡ n + 3 =
      omega (arith, length-append word (three_digits v), length-three_digits v h, e) in
    let s : Text = strlcpy (key ++ user) bfsz in
    let stars : Text = replicate (n + 11 - length s) b'*' in
    let first : s ≡ key ++ take (1020 - n) user =
      take-append_over key user 1023 (1020 - n) (omega (arith, size, room)) in
    let name : Text = take 8 (take (1020 - n) user) in
    let line : take (n + 11) s ≡ key ++ name =
      ap (take (n + 11)) first
      ∙ take-append_over key (take (1020 - n) user) (n + 11) 8 (omega (arith, size)) in
    (
      name ++ (stars ++ (b'\n' ∷ tail)),
      ap (λ t. t ++ stars ++ b'\n' ∷ [] ++ tail) line
          ∙ append_assoc (key ++ name ++ stars) (b'\n' ∷ []) tail
          ∙ append_assoc (key ++ name) stars (b'\n' ∷ tail)
          ∙ append_assoc key name (stars ++ (b'\n' ∷ tail)),
      IsPlain-take 8 (1020 - n) user (stars ++ (b'\n' ∷ tail)) p
          (IsPlain-stars (n + 11 - length s) tail),
    )

write_score-digits :
    (g : Game) (file word : Text) (offset guesses : ℕ) (user : Text)
    → length word ≡ g.n
    → guesses < 1000
    → g.n + 12 < bfsz
    → IsPlain user
    → offset ≤ length file
    → slot_score g.n (drop offset (write_score g file word offset guesses (some user)).0) ≡ guesses
unfolding write_score
write_score-digits g file word offset guesses user e h room p le =
    let line : Text = score_line g.n (strlcpy (word ++ three_digits guesses ++ user) bfsz) in
    let tail : Text = drop (offset + length line) file in
    let (x, same, plain) = score_line-digits g.n guesses word user tail e h room p in
    let there : drop offset (write_at file offset line) ≡ word ++ three_digits guesses ++ x =
      ap (drop offset) (append_assoc (take offset file) line tail)
      ∙ drop-append_left (take offset file) (line ++ tail) offset
          (omega (arith, length-take offset file, le))
      ∙ same in
    ap (slot_score g.n) there ∙ slot_score-three g.n guesses word x e h plain

abbrev pub Improves : Game → Text → ℕ → ℕ → ℕ → Text → Type 0
Improves g file offset old guesses file' =
    ((0 < old) × (old ≤ guesses) × (file' ≡ file))
    ⊎ ((old ≡ 0) ⊎ (guesses < old)) × (slot_score g.n (drop offset file') ≡ guesses)

beat_score-Improves :
    (g : Game) (file bf word : Text) (offset guesses : ℕ) (user : Text)
    → length word ≡ g.n
    → guesses < 1000
    → g.n + 12 < bfsz
    → IsPlain user
    → offset ≤ length file
    → Improves g file offset
        (slot_score g.n bf)
        guesses
        (beat_score g file bf word offset guesses (some user)).0
unfolding beat_score
beat_score-Improves g file bf word offset guesses user e h room p le =
    let written = write_score-digits g file word offset guesses user e h room p le in
    elim (Bool-cases (slot_score g.n bf == 0)) [
      | inl new ↦ rw (new, beat_score) (inr (inl ((==_iff (slot_score g.n bf) 0).0 new), written))
      | inr old ↦ elim (Bool-cases (leb (slot_score g.n bf) guesses)) [
        | inl more ↦
            rw (old, more, beat_score)
              (inl (ground (arith, old), leb→le (slot_score g.n bf) guesses more, refl))
        | inr fewer ↦ rw (old, fewer, beat_score) (inr (inr (ground (arith, fewer)), written))
      ]
    ]

-- Where the line of a word is found and has a score slot, and the user's name does not begin with a
-- digit, `save_score` with less than 1000 guesses keeps the file if the line has a score that is not
-- above the guesses; otherwise the score that is read from the line behind it is the guesses.
pub save_score-Improves :
    (g : Game) (file word : Text) (wordno guesses : ℕ) (user bf rest : Text)
    → length word ≡ g.n
    → guesses < 1000
    → g.n + 12 < bfsz
    → IsPlain user
    → wordno * (g.n + 12) + g.line1 ≤ length file
    → fgets bfsz (drop (wordno * (g.n + 12) + g.line1) file) ≡ some (bf, rest)
    → same_prefix g.n word bf ≡ true
    → is_digit (get_or bf g.n 0) ≡ true
    → Improves g file
        (wordno * (g.n + 12) + g.line1)
        (slot_score g.n bf)
        guesses
        (save_score g file word wordno guesses (some user)).0
unfolding save_score
save_score-Improves g file word wordno guesses user bf rest e h room p le line same slot =
    rw (line, save_score, same, slot)
      (beat_score-Improves g file bf word (wordno * (g.n + 12) + g.line1) guesses user e h room p
        le)
