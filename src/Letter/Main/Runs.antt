-- ===== src/Letter/Main/Runs.antt =====
-- Runs of the games of soft/games/letter/letter.c, step by step.
use mnetsoft.Base.{ℕ, ◌+◌, ◌≡◌, Bool, true, false, List, [], ◌∷◌, ◌++◌}
use mnetsoft.Base.Text.{Text}
use mnetsoft.Letter.Terminal.{entered, quit, readword, yes}
use mnetsoft.Letter.Words.{Game, word_was}
use mnetsoft.Letter.Main.{System, Table, guessed, start, finish}

-- From a table to the table `at` through a number of words that were entered and were not right.
pub data Wrongs (sys : System) (g : Game) (hash : List ℕ) (at : Table) : Table → ℕ → Type 0 where
  no_word : Wrongs sys g hash at at 0
  wrong_word :
      {t t' : Table} {count : ℕ} (bf : List ℕ) (rest : Text)
      → readword sys.keys g.n t.input t.bf ≡ entered bf rest
      → guessed sys g hash t bf rest ≡ (false, t')
      → Wrongs sys g hash at t' count
      → Wrongs sys g hash at t (count + 1)

-- From `t` to `t'` through wrong words, and the reading of one that was broken off; the word was
-- told.
pub record Loses (sys : System) (g : Game) (hash : List ℕ) (t t' : Table) : Type 0 where
  pub at : Table
  pub wrong_words : ℕ
  pub wrongs : Wrongs sys g hash at t wrong_words
  pub rest : Text
  pub broken_off : readword sys.keys g.n at.input at.bf ≡ quit rest
  pub told : t' ≡ record at { input = rest; out = at.out ++ word_was at.word ∷ [] }

-- From `t` to `t'` through wrong words and a right one, `guesses` words in all.
pub record Wins (sys : System) (g : Game) (hash : List ℕ) (t : Table) (guesses : ℕ) (t' : Table)
    : Type 0 where
  pub at : Table
  pub wrong_words : ℕ
  pub wrongs : Wrongs sys g hash at t wrong_words
  pub counted : guesses ≡ wrong_words + 1
  pub bf : List ℕ
  pub rest : Text
  pub was_read : readword sys.keys g.n at.input at.bf ≡ entered bf rest
  pub right : guessed sys g hash at bf rest ≡ (true, t')

-- From a table to the table `at` through games that were won, with the answer yes behind each.
pub data Games (sys : System) (g : Game) (nosave : Bool) (hash : List ℕ) (at : Table)
    : Table → Type 0 where
  no_game : Games sys g nosave hash at at
  one_more :
      {t t' : Table} {guesses : ℕ} (rest : Text)
      → Wins sys g hash (start sys g t).0 guesses t'
      → yes sys.keys (finish sys g nosave (start sys g t).1 guesses t').input ≡ (true, rest)
      → Games sys g nosave hash at
          (record (finish sys g nosave (start sys g t).1 guesses t') { input = rest })
      → Games sys g nosave hash at t

-- From `t` to `t'` through a game that was won, with another answer than yes.
pub record Stops (sys : System) (g : Game) (nosave : Bool) (hash : List ℕ) (t t' : Table)
    : Type 0 where
  pub at : Table
  pub guesses : ℕ
  pub wins : Wins sys g hash (start sys g t).0 guesses at
  pub rest : Text
  pub answer : yes sys.keys (finish sys g nosave (start sys g t).1 guesses at).input ≡ (false, rest)
  pub left : t' ≡ record (finish sys g nosave (start sys g t).1 guesses at) { input = rest }
