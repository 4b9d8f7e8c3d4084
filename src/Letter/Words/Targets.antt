-- ===== src/Letter/Words/Targets.antt =====
-- Which word `choose_word` of soft/games/letter/letter.c chooses.
use mnetsoft.Base.{
  ℕ, zero, suc, ◌+◌, ◌-◌, ◌%◌, ◌≤◌, ◌<◌, ◌≡◌, refl, ap, ◌∙◌, true, some, List, [], ◌∷◌,
  if◌then◌else◌, ◌==◌, get_or, get_elem?, take, arith, Bool-cases, inl, inr,
}
use native.Mathlib.Nat.{mod-lt}
use mnetsoft.Base.Text.{Text, is_digit}
use mnetsoft.Letter.Words.{Game, lines_from, choose_line, choose_word}

-- The number of lines that have a score slot, which makes a word a target.
abbrev pub targets_in : ℕ → List (Text × ℕ) → ℕ
targets_in n [] = 0
targets_in n ((bf, _) ∷ ls) = (if is_digit (get_or bf n 0) then 1 else 0) + targets_in n ls

-- The line with number `k` is the target with number `i`, and has the word `w`.
pub record IsTarget (n : ℕ) (ls : List (Text × ℕ)) (i k : ℕ) (w : Text) : Type 0 where
  pub line : Text × ℕ
  pub at_k : get_elem? ls k ≡ some line
  pub has_slot : is_digit (get_or line.0 n 0) ≡ true
  pub has_word : w ≡ take n line.0
  pub has_number : targets_in n (take k ls) ≡ i

choose_line-IsTarget :
    (n : ℕ) (ls : List (Text × ℕ)) (i wordno : ℕ)
    → i < targets_in n ls
    → (w : Text) × (k : ℕ) × (choose_line n ls i wordno ≡ (some w, wordno + k))
      × IsTarget n ls i k w
unfolding choose_line
choose_line-IsTarget n [] i wordno h = elim h [ ]
choose_line-IsTarget n ((bf, after) ∷ ls) i wordno h =
    elim (Bool-cases (is_digit (get_or bf n 0))) [
      | inr plain ↦
          let (w, k, e, t) = choose_line-IsTarget n ls i (wordno + 1) (ground (arith, plain, h)) in
          (
            w,
            suc k,
            rw (plain, choose_line) (e ∙ ap (λ j. (some w, j)) (omega arith)),
            record {
              line = t.line;
              at_k = t.at_k;
              has_slot = t.has_slot;
              has_word = t.has_word;
              has_number = rw plain (omega (arith, t.has_number));
            },
          )
      | inl slot ↦ elim (Bool-cases (i == 0)) [
        | inl here ↦ (
          take n bf,
          zero,
          rw (slot, here, choose_line) (ap (λ j. (some (take n bf), j)) (omega arith)),
          record {
            line = (bf, after);
            at_k = refl;
            has_slot = slot;
            has_word = refl;
            has_number = ground arith;
          },
        )
        | inr later ↦
            let (w, k, e, t) =
              choose_line-IsTarget n ls (i - 1) (wordno + 1) (ground (arith, slot, h, later)) in
            (
              w,
              suc k,
              rw (slot, later, choose_line) (e ∙ ap (λ j. (some w, j)) (omega arith)),
              record {
                line = t.line;
                at_k = t.at_k;
                has_slot = t.has_slot;
                has_word = t.has_word;
                has_number = rw slot (ground (arith, later, t.has_number));
              },
            )
      ]
    ]

-- If the file has as many lines with a score slot as the header says, and more than none,
-- `choose_word` finds a word: it stands in the line with the number that is returned, this line has
-- a score slot, and the number of such lines before it is `random() % targets`.
pub choose_word-IsTarget :
    (g : Game) (file : Text) (r : ℕ)
    → 0 < g.targets
    → g.targets ≤ targets_in g.n (lines_from file g.line1)
    → (w : Text) × (k : ℕ) × (choose_word g file r ≡ (some w, k))
      × IsTarget g.n (lines_from file g.line1) (r % g.targets) k w
unfolding choose_word
choose_word-IsTarget g file r h enough =
    let (w, k, e, t) =
      choose_line-IsTarget g.n (lines_from file g.line1) (r % g.targets) 0
        (ground (arith, mod-lt r h, enough)) in
    (w, k, e ∙ ap (λ j. (some w, j)) (omega arith), t)
