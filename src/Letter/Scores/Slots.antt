-- ===== src/Letter/Scores/Slots.antt =====
-- What `save_score` of soft/games/letter/letter.c may change in the data file.
use mnetsoft.Base.{
  ℕ, zero, suc, ◌+◌, ◌-◌, ◌*◌, ◌≤◌, ◌≡◌, refl, ap, ◌∙◌, Option, none, some, [], ◌∷◌, ◌++◌, ◌==◌,
  leb, length, get_or, take, drop, replicate, length-append, length-take, length-drop,
  length-replicate, arith, Bool-cases, Option-cases, inl, inr,
}
use mathlib.Core.List.{append_assoc}
use mnetsoft.Base.Text.{Text, fgets, same_prefix, is_digit, strlcpy}
use mnetsoft.Letter.Words.{bfsz, Game}
use mnetsoft.Letter.Scores.{
  slot_score, three_digits, score_line, write_at, write_score, beat_score, save_score,
}

-- The line that is written has the length of every line.
length-score_line : (n : ℕ) (s : Text) → length (score_line n s) ≡ n + 12
unfolding score_line
length-score_line n s =
    let stars : Text = replicate (n + 11 - length s) b'*' in
    omega (
      arith,
      length-append (take (n + 11) s ++ stars) (b'\n' ∷ []),
      length-append (take (n + 11) s) stars,
      length-take (n + 11) s,
      length-replicate {A = ℕ} (n + 11 - length s) b'*',
    )

-- A text that was laid over the file at an offset.
pub record IsPatch (file file' : Text) (offset size : ℕ) : Type 0 where
  pub same_size : length file' ≡ length file
  pub same_before : take offset file' ≡ take offset file
  pub same_behind : drop (offset + size) file' ≡ drop (offset + size) file

IsPatch-none : (file : Text) (offset size : ℕ) → IsPatch file file offset size
IsPatch-none file offset size = record { same_size = refl; same_before = refl; same_behind = refl }

take-append_left : (a b : Text) (k : ℕ) → length a ≡ k → take k (a ++ b) ≡ a
take-append_left [] b zero e = refl
take-append_left [] b (suc k) e = absurd (omega (arith, e))
take-append_left (x ∷ xs) b zero e = absurd (omega (arith, e))
take-append_left (x ∷ xs) b (suc k) e = ap (λ t. x ∷ t) (take-append_left xs b k (omega (arith, e)))

pub drop-append_left : (a b : Text) (k : ℕ) → length a ≡ k → drop k (a ++ b) ≡ b
drop-append_left [] b zero e = refl
drop-append_left [] b (suc k) e = absurd (omega (arith, e))
drop-append_left (x ∷ xs) b zero e = absurd (omega (arith, e))
drop-append_left (x ∷ xs) b (suc k) e = drop-append_left xs b k (omega (arith, e))

write_at-IsPatch :
    (file text : Text) (offset size : ℕ)
    → length text ≡ size
    → offset + size ≤ length file
    → IsPatch file (write_at file offset text) offset size
write_at-IsPatch file text offset size e h =
    let before : length (take offset file) ≡ offset = omega (arith, length-take offset file, h) in
    let rest = drop (offset + length text) file in
    let through : length (take offset file ++ text) ≡ offset + size =
      omega (arith, length-append (take offset file) text, before, e) in
    record {
      same_size = omega (
        arith,
        length-append (take offset file ++ text) rest,
        length-drop (offset + length text) file,
        through,
        e,
        h,
      );
      same_before =
          ap (take offset) (append_assoc (take offset file) text rest)
          ∙ take-append_left (take offset file) (text ++ rest) offset before;
      same_behind =
          drop-append_left (take offset file ++ text) rest (offset + size) through
          ∙ ap (λ k. drop (offset + k) file) e;
    }

write_score-IsPatch :
    (g : Game) (file word : Text) (offset guesses : ℕ) (login : Option Text)
    → offset + (g.n + 12) ≤ length file
    → IsPatch file (write_score g file word offset guesses login).0 offset (g.n + 12)
unfolding write_score
write_score-IsPatch g file word offset guesses none h = IsPatch-none file offset (g.n + 12)
write_score-IsPatch g file word offset guesses (some user) h =
    let s = strlcpy (word ++ three_digits guesses ++ user) bfsz in
    write_at-IsPatch file (score_line g.n s) offset (g.n + 12) (length-score_line g.n s) h

beat_score-IsPatch :
    (g : Game) (file bf word : Text) (offset guesses : ℕ) (login : Option Text)
    → offset + (g.n + 12) ≤ length file
    → IsPatch file (beat_score g file bf word offset guesses login).0 offset (g.n + 12)
unfolding beat_score
beat_score-IsPatch g file bf word offset guesses login h =
    let written = write_score-IsPatch g file word offset guesses login h in
    let kept = IsPatch-none file offset (g.n + 12) in
    elim (Bool-cases (slot_score g.n bf == 0)) [
      | inl new ↦ rw (new, beat_score) written
      | inr old ↦ elim (Bool-cases (leb (slot_score g.n bf) guesses)) [
        | inl more ↦ rw (old, more, beat_score) kept
        | inr fewer ↦ rw (old, fewer, beat_score) written
      ]
    ]

-- Where the line of a word lies in the file, `save_score` keeps the size of the file and every byte
-- outside this line, on each of its paths.
pub save_score-IsPatch :
    (g : Game) (file word : Text) (wordno guesses : ℕ) (login : Option Text)
    → wordno * (g.n + 12) + g.line1 + (g.n + 12) ≤ length file
    → IsPatch file
        (save_score g file word wordno guesses login).0
        (wordno * (g.n + 12) + g.line1)
        (g.n + 12)
unfolding save_score
save_score-IsPatch g file word wordno guesses login h =
    let offset = wordno * (g.n + 12) + g.line1 in
    let kept = IsPatch-none file offset (g.n + 12) in
    elim (Option-cases (fgets bfsz (drop offset file))) [
      | inl e ↦ rw (e, save_score) kept
      | inr ((bf, rest), e) ↦
          rw (e, save_score)
            (elim (Bool-cases (same_prefix g.n word bf)) [
              | inr changed ↦ rw changed kept
              | inl same ↦ rw same (elim (Bool-cases (is_digit (get_or bf g.n 0))) [
                | inr lacks ↦ rw lacks kept
                | inl slot ↦ rw slot (beat_score-IsPatch g file bf word offset guesses login h)
              ])
            ])
    ]
