-- ===== src/Letter/Terminal.antt =====
-- The line editor of soft/games/letter/letter.c: `readword`, and the question `yes`.
pub mod Words
pub mod Rest
use mnetsoft.Base.{
  ℕ, zero, suc, ◌+◌, ◌-◌, Bool, true, false, ◌||◌, List, [], ◌∷◌, if◌then◌else◌, ◌==◌, ltb, set,
  get_or,
}
use mnetsoft.Base.Text.{Text, is_lower, to_lower}

-- The characters that the terminal's modes give, as bytes.
pub record Keys : Type 0 where
  pub eof_char : ℕ
  pub erase_char : ℕ
  pub kill_char : ℕ
  pub werase_char : ℕ

-- What one byte does: the buffer and the count of letters go on, the word is complete, or 1 is
-- returned.
pub data Step : Type 0 where
  goes_on : List ℕ → ℕ → Step
  complete : List ℕ → Step
  leaves : Step

-- a newline
unfoldable pub newline : ℕ → List ℕ → ℕ → Step
newline n bf i =
    if i == n
    then complete (set bf i 0)
    else if ltb 1 n
    then (if get_or bf 0 0 == b'q'
        then leaves
        else if get_or bf 0 0 == b'r'
        then goes_on bf 0
        else goes_on bf i)
    else goes_on bf i

-- One round of the loop, behind `tolower`; `i` is the number of letters in `bf`. What is shown is
-- left out.
unfoldable pub press_lower : Keys → ℕ → ℕ → List ℕ → ℕ → Step
unfolding newline
press_lower keys n ch bf i =
    if is_lower ch
    then (if ltb i n then goes_on (set bf i ch) (i + 1) else goes_on bf i)
    else if ch == b'\n'
    then newline n bf i
    else if ch == keys.eof_char
    then leaves
    else if ch == keys.erase_char
    then goes_on bf (i - 1)
    else if ch == keys.kill_char || ch == keys.werase_char
    then goes_on bf 0
    else goes_on bf i

abbrev pub press : Keys → ℕ → ℕ → List ℕ → ℕ → Step
press keys n ch bf i = press_lower keys n (to_lower ch) bf i

-- `readword`: 0 with the buffer, or 1; and what is left to read.
pub data Reading : Type 0 where
  entered : List ℕ → Text → Reading
  quit : Text → Reading

unfoldable pub readword_loop : Keys → ℕ → Text → List ℕ → ℕ → Reading
unfolding press_lower
readword_loop keys n [] bf i = quit []
readword_loop keys n (ch ∷ rest) bf i = elim (press keys n ch bf i) [
  | goes_on bf' i' ↦ readword_loop keys n rest bf' i'
  | complete bf' ↦ entered bf' rest
  | leaves ↦ quit rest
]

unfoldable pub readword : Keys → ℕ → Text → List ℕ → Reading
unfolding readword_loop
readword keys n input bf = readword_loop keys n input bf 0

-- The `while` loop of `yes`, with `got` and `rc`: the result and what is left to read.
unfoldable pub yes_loop : Keys → Text → Bool → Bool → Bool × Text
yes_loop keys [] got rc = (false, [])
yes_loop keys (ch ∷ rest) got rc =
    let trc = ch == b'Y' || ch == b'y' in
    if trc || ch == b'n' || ch == b'N'
    then yes_loop keys rest true trc
    else if ch == b'\n'
    then ((if got then rc else false), rest)
    else if ch == keys.erase_char || ch == keys.kill_char
    then yes_loop keys rest false rc
    else if ch == keys.eof_char
    then (false, rest)
    else yes_loop keys rest got rc

unfoldable pub yes : Keys → Text → Bool × Text
unfolding yes_loop
yes keys input = yes_loop keys input false false
