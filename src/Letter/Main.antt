-- ===== src/Letter/Main.antt =====
-- `main` of soft/games/letter/letter.c: the options, the header of the data file, and the games.
pub mod Runs
pub mod Ends
use mnetsoft.Base.{
  ℕ, zero, suc, ◌+◌, ◌-◌, ◌*◌, ◌/◌, ◌%◌, Bool, true, false, not, ◌&&◌, Option, none, some, List, [],
  ◌∷◌, ◌++◌, if◌then◌else◌, ◌==◌, ltb, leb, length, take, drop,
}
use mnetsoft.Base.Text.{Text, codes, fgets, same_text, is_digit, skip_space}
use mnetsoft.Letter.Terminal.{Keys, Reading, entered, quit, readword, yes}
use mnetsoft.Letter.Words.{
  bfsz, Game, Hist, Notice, word_chosen, word_was, got_it, hash_file, check_word, choose_word,
}
use mnetsoft.Letter.Scores.{Row, save_score, show_score}

-- What `main` finds outside: the files, the user's name, the values of `random`, the terminal's
-- modes, and what memory holds that is not written before it is read.
pub record System : Type 0 where
  pub can_read : Text → Option Text
  pub can_write : Text → Bool
  pub login : Option Text
  pub random : ℕ → ℕ
  pub keys : Keys
  pub junk : ℕ

abbrev pub dict_dir : Text
dict_dir = codes "/cyberspace/var/letter"

abbrev decimal : ℕ → ℕ
decimal d = b'0' + d % 10

-- One entry of `optfiles`: the number and the path.
abbrev pub opt : ℕ → Text
opt k = if ltb k 10 then decimal k ∷ [] else decimal (k / 10) ∷ decimal k ∷ []

abbrev pub path : ℕ → Text
path k = dict_dir ++ codes "/word-" ++ decimal (k / 10) ∷ decimal k ∷ []

-- The search in `optfiles`, from the entry `k` on, `count` entries.
unfoldable pub find_option : ℕ → ℕ → Text → Option Text
find_option zero k name = none
find_option (suc count) k name =
    let rest = find_option count (k + 1) name in
    if same_text (opt k) name then some (path k) else rest

-- The loop over the arguments: the file and whether scores are asked for; `none` at an unknown
-- option.
unfoldable pub parse_args : List Text → Text → Bool → Option (Text × Bool)
unfolding find_option
parse_args [] file score = some (file, score)
parse_args ([] ∷ args) file score = parse_args args [] score
parse_args ((c ∷ cs) ∷ args) file score =
    if c == b'-'
    then (if same_text cs (codes "s")
        then parse_args args file true
        else elim (find_option 20 1 cs) [ none ↦ none | some p ↦ parse_args args p score ])
    else parse_args args (c ∷ cs) score

-- "%d" of a number without a sign, which is all that the data files have.
unfoldable pub scan_digits : ℕ → Text → ℕ × Text
scan_digits acc [] = (acc, [])
scan_digits acc (c ∷ cs) =
    let rest = scan_digits (acc * 10 + (c - b'0')) cs in if is_digit c then rest else (acc, c ∷ cs)

unfoldable pub scan_number : Text → Option (ℕ × Text)
unfolding scan_digits
scan_number s = elim (skip_space s) [
  | [] ↦ none
  | c ∷ cs ↦ if is_digit c then some (scan_digits 0 (c ∷ cs)) else none
]

-- The header line: the game and the description; `none` for a bad header.
unfoldable pub read_header : Text → ℕ → Option (Game × Text)
unfolding scan_number
read_header bf line1 = elim (scan_number bf) [
  | none ↦ none
  | some (n, s₁) ↦ elim (scan_number s₁) [
    | none ↦ none
    | some (words, s₂) ↦ elim (scan_number s₂) [
      | none ↦ none
      | some (targets, s₃) ↦
          some (record { n = n; targets = targets; line1 = line1 }, skip_space s₃)
    ]
  ]
]

-- The data file, what is left to type, the buffer, the word, the guesses, the values that `random`
-- has given, and what was printed.
pub record Table : Type 0 where
  pub file : Text
  pub input : Text
  pub bf : List ℕ
  pub word : Text
  pub hist : List Hist
  pub draws : ℕ
  pub out : List Notice

pub data Round : Type 0 where
  won : ℕ → Table → Round
  gave_up : Table → Round
  endless : Round

-- A word that was read is checked.
unfoldable pub guessed : System → Game → List ℕ → Table → List ℕ → Text → Bool × Table
guessed sys g hash t bf rest =
    let (right, hist, said) = check_word g t.file hash sys.junk (take g.n bf) t.word t.hist in
    (right, record t { input = rest; bf = bf; hist = hist; out = t.out ++ said ∷ [] })

-- The inner loop of the games, on fuel, with `guesses`.
unfoldable pub guess_loop : ℕ → System → Game → List ℕ → ℕ → Table → Round
unfolding guessed
guess_loop zero sys g hash guesses t = endless
guess_loop (suc fuel) sys g hash guesses t = elim (readword sys.keys g.n t.input t.bf) [
  | quit rest ↦ gave_up (record t { input = rest; out = t.out ++ word_was t.word ∷ [] })
  | entered bf rest ↦
      let (right, t') = guessed sys g hash t bf rest in
      elim right [
        | true ↦ won (guesses + 1) t'
        | false ↦ guess_loop fuel sys g hash (guesses + 1) t'
      ]
]

-- The start of a game: the word and the empty list of guesses.
unfoldable pub start : System → Game → Table → Table × ℕ
start sys g t =
    let (target, wordno) = choose_word g t.file (sys.random t.draws) in
    let word : Text = elim target [ none ↦ t.word | some w ↦ w ] in
    (
      record t { word = word; hist = []; draws = t.draws + 1; out = t.out ++ word_chosen ∷ [] },
      wordno,
    )

-- The end of a game that is won: the score is saved, if it can be.
unfoldable pub finish : System → Game → Bool → ℕ → ℕ → Table → Table
finish sys g nosave wordno guesses t =
    let (file, said) = save_score g t.file t.word wordno guesses sys.login in
    if nosave
    then record t { out = t.out ++ got_it guesses ∷ [] }
    else record t { file = file; out = t.out ++ got_it guesses ∷ said }

-- The outer loop, on fuel; `none` where the fuel is out.
unfoldable pub games : ℕ → System → Game → Bool → List ℕ → Table → Option Table
unfolding guess_loop start finish
games zero sys g nosave hash t = none
games (suc fuel) sys g nosave hash t =
    let (t₁, wordno) = start sys g t in
    elim (guess_loop (suc (length t₁.input)) sys g hash 0 t₁) [
      | endless ↦ none
      | gave_up t₂ ↦ some t₂
      | won guesses t₂ ↦
          let t₃ = finish sys g nosave wordno guesses t₂ in
          let (more, rest) = yes sys.keys t₃.input in
          elim more [
            | true ↦ games fuel sys g nosave hash (record t₃ { input = rest })
            | false ↦ some (record t₃ { input = rest })
          ]
    ]

-- How the program ends.
pub data Ending : Type 0 where
  failed : Ending
  scores_shown : List Row → Ending
  played : Table → Ending
  divides_by_zero : Ending
  runs_on : Ending

abbrev ending_of : Option Table → Ending
ending_of none = runs_on
ending_of (some t) = played t

-- `main` behind the header, with the table `t` for the games.
unfoldable pub run_game : System → Game → Bool → Bool → Table → Ending
unfolding games
run_game sys g score nosave t =
    if score then scores_shown (show_score g t.file) else elim (hash_file g t.file) [
      | none ↦ failed
      | some hash ↦
          if g.targets == 0
          then divides_by_zero
          else ending_of (games (suc (length t.input)) sys g nosave hash t)
    ]

-- `main`; `bf` is its buffer and `word` the memory for the target, as they are at the start.
unfoldable pub main : System → List Text → Text → List ℕ → Text → Ending
unfolding parse_args read_header run_game
main sys argv input bf word = elim (parse_args argv (path 5) false) [
  | none ↦ failed
  | some (name, score) ↦ elim (sys.can_read name) [
    | none ↦ failed
    | some file ↦ elim (fgets bfsz file) [
      | none ↦ failed
      | some (line, _) ↦ elim (read_header line (length line)) [
        | none ↦ failed
        | some (g, desc) ↦ run_game sys g score (not (sys.can_write name)) (record {
          file = file;
          input = input;
          bf = bf;
          word = word;
          hist = [];
          draws = 0;
          out = [];
        })
      ]
    ]
  ]
]
