-- ===== src/Letter/Scores/Table.antt =====
-- `show_score` of soft/games/letter/letter.c against the lines of the data file.
use mnetsoft.Base.{ℕ, ◌≡◌, List, ltb}
use mnetsoft.Base.Text.{Text}
use mnetsoft.Letter.Scores.{Sc}
use mnetsoft.Letter.Scores.Tally.{row_games, row_total, has_row, IsDistinct, AreShort}

-- What the array says of a name behind a part of the file with `games` lines for it.
record Says (u : Text) (games total : ℕ) (scores : List Sc) : Type 0 where
  rows : row_games u scores ≡ games
  sum : row_total u scores ≡ total
  shows : has_row u scores ≡ ltb 0 games
  short : AreShort scores
  distinct : IsDistinct scores
