-- ===== src/Letter/Examples.antt =====
-- The theorems on soft/games/letter/letter.c at concrete inputs.
use mnetsoft.Base.{
  ℕ, ◌≡◌, ◌≢◌, ◌⊎◌, refl, true, false, none, some, List, [], ◌∷◌, ◌++◌, arith, replicate, ◌%◌,
}
use mnetsoft.Base.Text.{Text, codes, fgets, same_prefix, atol, digits_value}
use mnetsoft.Letter.Terminal.{Keys, quit, readword}
use mnetsoft.Letter.Terminal.Words.{GoodReading, readword-GoodReading}
use mnetsoft.Letter.Words.{
  Game, is_right, agrees, hash_file, find_word, check_word, choose_word, lines_from, read_lines,
  new_letter, before,
}
use mnetsoft.Letter.Words.Guess.{Added, check_word-outcome}
use mnetsoft.Letter.Words.Targets.{IsTarget, choose_word-IsTarget}
use mnetsoft.Letter.Scores.{
  save_score, show_score, positive_int, three_digits, float_average, tenths,
}
use mnetsoft.Letter.Scores.Records.{Improves, save_score-Improves}
use mnetsoft.Letter.Scores.Slots.{IsPatch, save_score-IsPatch}
use mnetsoft.Letter.Main.{System, Table, start, games}
use mnetsoft.Letter.Main.Runs.{Loses, Games, Stops}
use mnetsoft.Letter.Main.Ends.{games-ends}

abbrev keys : Keys
keys = record { eof_char = 4; erase_char = 8; kill_char = 21; werase_char = 23 }

abbrev buffer : List ℕ
buffer = replicate 6 0

readword_test : readword keys 3 (codes "caAx" ++ 8 ∷ codes "\nrest") buffer ≡ quit []
unfolding readword
readword_test = refl

abbrev header : Text
header = codes "3 4 2 three\n"

abbrev game : Game
game = record { n = 3; targets = 2; line1 = 12 }

abbrev data_file : Text
data_file =
    header
    ++ codes "ant000********\n"
    ++ codes "apt           \n"
    ++ codes "cat007ann*****\n"
    ++ codes "cow           \n"

abbrev hash : List ℕ
hash = 12 ∷ 0 ∷ 42 ∷ replicate 23 0

hash_file_test : hash_file game data_file ≡ some hash
unfolding hash_file read_lines fgets new_letter
hash_file_test = refl

find_word_test : find_word game data_file hash (codes "apt") ≡ some 27
unfolding find_word read_lines fgets same_prefix before
find_word_test = refl

-- behind the last word
find_word_test_end : find_word game data_file hash (codes "cup") ≡ none
unfolding find_word read_lines fgets same_prefix before
find_word_test_end = refl

check_word_test :
    check_word game data_file hash 1 (codes "cow") (codes "cat") []
    ≡ (false, record { score = some 1; word = codes "cow" } ∷ [], agrees (codes "cow") 1)
unfolding check_word find_word read_lines fgets same_prefix before
check_word_test = refl

choose_word_test : choose_word game data_file 5 ≡ (some (codes "cat"), 2)
unfolding choose_word read_lines fgets
choose_word_test = refl

save_score_test :
    (save_score game data_file (codes "cat") 2 5 (some (codes "bob"))).0
    ≡ header
      ++ codes "ant000********\n"
      ++ codes "apt           \n"
      ++ codes "cat005bob*****\n"
      ++ codes "cow           \n"
unfolding save_score read_lines fgets same_prefix positive_int atol digits_value three_digits
save_score_test = refl

show_score_test :
    show_score game data_file ≡ record { user = codes "ann     "; games = 1; average = 70 } ∷ []
unfolding show_score read_lines fgets positive_int atol digits_value same_prefix before
show_score_test = refl

-- 7 / 20 is above the `float` next to it, 3 / 20 is below, and 1 / 4 is a `float`, with two tenths
-- as near.
float_average_test :
    tenths (float_average 7 20) ∷ tenths (float_average 3 20) ∷ tenths (float_average 1 4) ∷ []
    ≡ 3 ∷ 2 ∷ 2 ∷ []
unfolding tenths float_average
float_average_test = refl

readword-GoodReading_example : GoodReading 3 6 (readword keys 3 (codes "cot\n") buffer)
readword-GoodReading_example = readword-GoodReading keys 3 (codes "cot\n") buffer (omega arith)

check_word-outcome_example :
    ((codes "cow" ≡ codes "cat")
      × (check_word game data_file hash 1 (codes "cow") (codes "cat") [] ≡ (true, [], is_right 3)))
    ⊎ (codes "cow" ≢ codes "cat")
      × Added 3
          (codes "cow")
          []
          (find_word game data_file hash (codes "cow"))
          (check_word game data_file hash 1 (codes "cow") (codes "cat") [])
check_word-outcome_example =
    check_word-outcome game data_file hash 1 (codes "cow") (codes "cat") [] refl refl

choose_word-IsTarget_example :
    (w : Text) × (k : ℕ) × (choose_word game data_file 5 ≡ (some w, k))
    × IsTarget 3 (lines_from data_file 12) (5 % 2) k w
unfolding read_lines fgets
choose_word-IsTarget_example = choose_word-IsTarget game data_file 5 (omega arith) (omega arith)

save_score-IsPatch_example :
    IsPatch data_file (save_score game data_file (codes "cat") 2 5 (some (codes "bob"))).0 42 15
save_score-IsPatch_example =
    save_score-IsPatch game data_file (codes "cat") 2 5 (some (codes "bob")) (omega arith)

abbrev system : System
system = record {
  can_read = λ _. some data_file;
  can_write = λ _. true;
  login = some (codes "bob");
  random = λ k. k;
  keys = keys;
  junk = 1;
}

abbrev table : Table
table = record {
  file = data_file;
  input = codes "cow\nant\ny\nq\n";
  bf = buffer;
  word = [];
  hist = [];
  draws = 0;
  out = [];
}

games-ends_example :
    (t : Table) × (games 14 system game false hash table ≡ some t)
    × (at : Table) × Games system game false hash at table
    × (Loses system game hash (start system game at).0 t ⊎ Stops system game false hash at t)
games-ends_example = games-ends 14 system game false hash table (omega arith)

save_score-Improves_example :
    Improves game data_file 42 7 5
      (save_score game data_file (codes "cat") 2 5 (some (codes "bob"))).0
unfolding fgets same_prefix positive_int atol digits_value
save_score-Improves_example =
    save_score-Improves game data_file (codes "cat") 2 5 (codes "bob") (codes "cat007ann*****\n")
      (codes "cow           \n") refl (omega arith) (omega arith) refl (omega arith) refl refl refl
