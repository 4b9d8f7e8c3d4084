-- ===== src/Letter/Words.antt =====
-- The words of soft/games/letter/letter.c: the table of offsets, the lookup, the score of a guess,
-- the choice of a target, and the list of guesses.
pub mod Guess
pub mod Targets
use mnetsoft.Base.{
  ℕ, zero, suc, ◌+◌, ◌-◌, ◌%◌, Bool, true, false, ◌&&◌, ◌||◌, Option, none, some, List, [], ◌∷◌,
  ◌++◌, map, if◌then◌else◌, ◌==◌, ltb, leb, length, set, get_or, take, drop, replicate,
}
use mnetsoft.Base.Text.{Text, fgets, same_prefix, is_lower, is_digit}

abbrev pub bfsz : ℕ
bfsz = 1024

-- The lines that `fgets` reads from an open file, each with the offset behind it, on fuel: each
-- `fgets` reads at least one byte.
unfoldable pub read_lines : ℕ → ℕ → Text → List (Text × ℕ)
read_lines zero pos input = []
read_lines (suc fuel) pos input = elim (fgets bfsz input) [
  | none ↦ []
  | some (bf, rest) ↦ (bf, pos + length bf) ∷ read_lines fuel (pos + length bf) rest
]

-- fseek(fp, pos, SEEK_SET), and then the lines
abbrev pub lines_from : Text → ℕ → List (Text × ℕ)
lines_from file pos = read_lines (length file) pos (drop pos file)

-- What the header of the data file gives, and the rest of the globals.
pub record Game : Type 0 where
  pub n : ℕ
  pub targets : ℕ
  pub line1 : ℕ

-- hash[i] = 0 for `count` indexes from `i` on
unfoldable pub clear_gap : ℕ → ℕ → List ℕ → List ℕ
clear_gap zero i hash = hash
clear_gap (suc count) i hash = clear_gap count (i + 1) (set hash i 0)

-- A new first letter `c`: the letters that were passed over get 0, and `c` the offset.
unfoldable pub new_letter : ℕ → ℕ → ℕ → List ℕ → List ℕ
unfolding clear_gap
new_letter offset lastchar c hash =
    let i = lastchar + 1 - b'a' in set (clear_gap (c - b'a' - i) i hash) (c - b'a') offset

-- The `while` loop of `hash_file`: `none` where it ends the program.
unfoldable pub hash_lines : ℕ → List (Text × ℕ) → ℕ → List ℕ → Option (List ℕ)
hash_lines n [] lastchar hash = some hash
hash_lines n ((bf, pos) ∷ ls) lastchar hash =
    let c = get_or bf 0 0 in
    let rest =
      hash_lines n ls c
        (if c == lastchar then hash else new_letter (pos - (n + 12)) lastchar c hash) in
    if length bf == n + 12 && (c == lastchar || is_lower c) then rest else none

unfoldable pub hash_file : Game → Text → Option (List ℕ)
unfolding hash_lines
hash_file g file = hash_lines g.n (lines_from file g.line1) (b'a' - 1) (replicate 26 0)

-- strncmp(a, b, n) < 0
unfoldable pub before : ℕ → Text → Text → Bool
before zero a b = false
before (suc n) [] [] = false
before (suc n) [] (y ∷ ys) = true
before (suc n) (x ∷ xs) [] = false
before (suc n) (x ∷ xs) (y ∷ ys) =
    let rest = before n xs ys in if ltb x y then true else x == y && rest

-- The `while` loop of `find_word`. Behind the last line the function ends without a `return`:
-- `none`.
unfoldable pub find_line : ℕ → Text → List (Text × ℕ) → Option ℕ
find_line n word [] = none
find_line n word ((bf, pos) ∷ ls) =
    let rest = find_line n word ls in
    if same_prefix n word bf
    then some (pos - (n + 12))
    else if before n word bf
    then some 0
    else rest

-- `find_word`; `hash` is what `hash_file` left.
unfoldable pub find_word : Game → Text → List ℕ → Text → Option ℕ
unfolding find_line
find_word g file hash word =
    let offset = get_or hash (get_or word 0 0 - b'a') 0 in
    if offset == 0 then some 0 else find_line g.n word (lines_from file offset)

-- A guess; its score is `none` for -1.
pub record Hist : Type 0 where
  pub score : Option ℕ
  pub word : Text

pub data Notice : Type 0 where
  is_right : ℕ → Notice
  not_in_dictionary : Text → Notice
  agrees : Text → ℕ → Notice
  again : Notice
  word_chosen : Notice
  word_was : Text → Notice
  got_it : ℕ → Notice
  data_file_change no_score_slot who_are_you no_line : Notice
  record_was : Bool → Text → ℕ → Notice
  bad_file : Notice

-- show_hist
unfoldable pub show_hist : List Hist → List Notice
show_hist [] = []
show_hist (h ∷ hs) = elim h.score [
  | none ↦ not_in_dictionary h.word ∷ show_hist hs
  | some s ↦ agrees h.word s ∷ show_hist hs
]

-- The loop that scores a guess.
unfoldable pub count_same : ℕ → Text → Text → ℕ
count_same zero target guess = 0
count_same (suc n) [] guess = 0
count_same (suc n) (x ∷ xs) [] = 0
count_same (suc n) (x ∷ xs) (y ∷ ys) =
    let rest = count_same n xs ys in if x == y then rest + 1 else rest

-- `check_word`: its result, the guesses (the list from `firsthist` on), and what it prints. `junk` is
-- the value of a `find_word` that returns none.
unfoldable pub check_word :
    Game → Text → List ℕ → ℕ → Text → Text → List Hist → Bool × List Hist × Notice
unfolding find_word count_same
check_word g file hash junk guess target hist =
    if same_prefix g.n guess target
    then (true, hist, is_right g.n)
    else let found : ℕ = elim (find_word g file hash guess) [
      | none ↦ junk
      | some offset ↦ offset
    ] in
      let s = count_same g.n target guess in
      if found == 0
      then (
        false,
        hist ++ record { score = none; word = take g.n guess } ∷ [],
        not_in_dictionary guess,
      )
      else (false, hist ++ record { score = some s; word = take g.n guess } ∷ [], agrees guess s)

-- The loop of `choose_word`, with `i` and the number of the line; where no line is left, the target
-- stays as it was: `none`.
unfoldable pub choose_line : ℕ → List (Text × ℕ) → ℕ → ℕ → Option Text × ℕ
choose_line n [] i wordno = (none, wordno)
choose_line n ((bf, _) ∷ ls) i wordno =
    let digit = is_digit (get_or bf n 0) in
    let rest = choose_line n ls (if digit then i - 1 else i) (wordno + 1) in
    if digit && (i == 0) then (some (take n bf), wordno) else rest

-- `choose_word`; `r` is `random()`, and `targets` is not 0.
unfoldable pub choose_word : Game → Text → ℕ → Option Text × ℕ
unfolding choose_line
choose_word g file r = choose_line g.n (lines_from file g.line1) (r % g.targets) 0
