-- ===== src/Letter/Scores.antt =====
-- The scores of soft/games/letter/letter.c: the record that is kept with each word, and the table
-- of the users. A byte behind the end of a line reads as 0.
pub mod Tally
pub mod Table
pub mod Slots
pub mod Records
use mnetsoft.Base.{
  ℕ, zero, suc, ◌+◌, ◌-◌, ◌*◌, ◌/◌, ◌%◌, ◌^◌, Bool, true, false, not, ◌&&◌, Option, none, some,
  List, [], ◌∷◌, ◌++◌, if◌then◌else◌, ◌==◌, ltb, leb, length, get_or, take, drop, replicate,
}
use mnetsoft.Base.Int.{ℤ, pos, negsuc, pos_part}
use mnetsoft.Base.Text.{Text, fgets, same_prefix, is_digit, atol, strlcpy}
use mnetsoft.Letter.Words.{
  bfsz, Game, Notice, data_file_change, no_score_slot, who_are_you, no_line, record_was, before,
  lines_from,
}

-- What an `int` with the value of `atoi` is if it is above 0, and 0 if it is not.
unfoldable pub positive_int : ℤ → ℕ
positive_int (pos v) = let r = v % 2 ^ 32 in if ltb r (2 ^ 31) then r else 0
positive_int (negsuc v) = let r = v % 2 ^ 32 in if ltb r (2 ^ 31) then 0 else 2 ^ 32 - r - 1

-- the score in a line: `atoi(bf + n)`
abbrev pub slot_score : ℕ → Text → ℕ
slot_score n bf = positive_int (atol (drop n bf))

abbrev digit : ℕ → ℕ
digit d = b'0' + d % 10

-- "%d" of a number with more than three digits, the last digit first, on fuel
unfoldable pub more_digits : ℕ → ℕ → Text
more_digits zero v = []
more_digits (suc fuel) v =
    let rest = more_digits fuel (v / 10) in if v == 0 then [] else rest ++ digit v ∷ []

-- "%03d"
unfoldable pub three_digits : ℕ → Text
unfolding more_digits
three_digits v = more_digits v (v / 1000) ++ digit (v / 100) ∷ digit (v / 10) ∷ digit v ∷ []

-- The line that `save_score` writes: the text, filled up with stars, and a newline.
unfoldable pub score_line : ℕ → Text → Text
score_line n s = take (n + 11) s ++ replicate (n + 11 - length s) b'*' ++ b'\n' ∷ []

-- The name up to a star, at most 8 bytes of it are looked at.
unfoldable pub cut_star : ℕ → Text → Text
cut_star zero user = user
cut_star (suc k) [] = []
cut_star (suc k) (c ∷ cs) = if c == b'*' then [] else c ∷ cut_star k cs

-- fseek, and a write of the whole text
abbrev pub write_at : Text → ℕ → Text → Text
write_at file offset text = take offset file ++ text ++ drop (offset + length text) file

-- The end of `save_score`.
unfoldable pub write_score : Game → Text → Text → ℕ → ℕ → Option Text → Text × List Notice
unfolding three_digits score_line
write_score g file word offset guesses none = (file, who_are_you ∷ [])
write_score g file word offset guesses (some user) = (
  write_at file offset (score_line g.n (strlcpy (word ++ three_digits guesses ++ user) bfsz)),
  [],
)

-- Where the line has a score slot.
unfoldable pub beat_score : Game → Text → Text → Text → ℕ → ℕ → Option Text → Text × List Notice
unfolding write_score cut_star
beat_score g file bf word offset guesses login =
    let oldscore = slot_score g.n bf in
    let old = record_was (ltb guesses oldscore) (cut_star 8 (drop (g.n + 3) bf)) oldscore in
    let (file', out) = write_score g file word offset guesses login in
    if oldscore == 0
    then (file', out)
    else if leb oldscore guesses
    then (file, old ∷ [])
    else (file', old ∷ out)

-- `save_score`: the file and what is printed. `login` is `getlogin()`.
unfoldable pub save_score : Game → Text → Text → ℕ → ℕ → Option Text → Text × List Notice
unfolding beat_score
save_score g file word wordno guesses login =
    let offset = wordno * (g.n + 12) + g.line1 in
    elim (fgets bfsz (drop offset file)) [
      | none ↦ (file, no_line ∷ [])
      | some (bf, _) ↦
          if not (same_prefix g.n word bf)
          then (file, data_file_change ∷ [])
          else if not (is_digit (get_or bf g.n 0))
          then (file, no_score_slot ∷ [])
          else beat_score g file bf word offset guesses login
    ]

-- struct sc, with a total that has no bound
pub record Sc : Type 0 where
  pub login : Text
  pub ngames : ℕ
  pub total : ℕ

-- One scored line in the array: the first entry with the name counts it, or it gets a new one.
unfoldable pub tally : Text → ℕ → List Sc → List Sc
tally user scr [] = record { login = user; ngames = 1; total = scr } ∷ []
tally user scr (s ∷ ss) =
    if same_prefix 8 user s.login
    then record { login = s.login; ngames = s.ngames + 1; total = s.total + scr } ∷ ss
    else s ∷ tally user scr ss

-- The loop of `show_score` over the lines behind the header.
unfoldable pub gather : ℕ → List (Text × ℕ) → List Sc → List Sc
unfolding tally
gather n [] scores = scores
gather n ((bf, _) ∷ ls) scores =
    let scr = slot_score n bf in
    gather n ls (
      if is_digit (get_or bf n 0) && not (scr == 0)
      then tally (take 8 (drop (n + 3) bf)) scr scores
      else scores)

-- qsort with cmp_scores: no two entries have the same name.
unfoldable pub insert : Sc → List Sc → List Sc
insert s [] = s ∷ []
insert s (t ∷ ts) = if before 8 s.login t.login then s ∷ t ∷ ts else t ∷ insert s ts

unfoldable pub sort : List Sc → List Sc
unfolding insert
sort [] = []
sort (s ∷ ss) = insert s (sort ss)

-- `x / y` rounded to the nearest number, and to the even one of two that are as near
unfoldable pub half_even : ℕ → ℕ → ℕ
half_even x y =
    let q = x / y in
    let r = 2 * (x % y) in if ltb y r then q + 1 else if ltb r y then q else q + q % 2

-- The least power of 2, at most `2 ^ fuel`, that `x / y` divided by it is below `2 ^ 24`.
unfoldable pub ulp : ℕ → ℕ → ℕ → ℕ
ulp zero x y = 1
ulp (suc fuel) x y = let rest = ulp fuel x (2 * y) in if ltb x (2 ^ 24 * y) then 1 else 2 * rest

-- The `float` next to `x / y`, in units of `2 ^ -55`: with 24 bits, for values of 0 and from
-- `2 ^ -32` to `2 ^ 32`, which those of two positive `int`s are.
unfoldable pub to_float : ℕ → ℕ → ℕ
unfolding half_even ulp
to_float x y = let u = ulp 64 (x * 2 ^ 55) y in half_even (x * 2 ^ 55) (y * u) * u

-- `(float) total / ngames`, in the same units
unfoldable pub float_average : ℕ → ℕ → ℕ
unfolding to_float
float_average total ngames = to_float (to_float total 1) (to_float ngames 1)

-- "%.1f": the tenths
unfoldable pub tenths : ℕ → ℕ
unfolding half_even
tenths x = half_even (10 * x) (2 ^ 55)

-- The first `k` bytes of a name, with zeros behind its end and blanks for stars.
unfoldable pub shown_name : ℕ → Text → Text
shown_name zero s = []
shown_name (suc k) [] = 0 ∷ shown_name k []
shown_name (suc k) (c ∷ cs) = (if c == b'*' then b' ' else c) ∷ shown_name k cs

-- A line that `show_score` prints: the name, the games, and the tenths of the average.
pub record Row : Type 0 where
  pub user : Text
  pub games : ℕ
  pub average : ℕ

unfoldable pub print_scores : List Sc → List Row
unfolding float_average tenths shown_name
print_scores [] = []
print_scores (s ∷ ss) =
    record {
      user = shown_name 8 s.login;
      games = s.ngames;
      average = tenths (float_average s.total s.ngames);
    }
    ∷ print_scores ss

-- `show_score`: the rows that it prints below the heading.
unfoldable pub show_score : Game → Text → List Row
unfolding gather sort print_scores
show_score g file = print_scores (sort (gather g.n (lines_from file g.line1) []))
