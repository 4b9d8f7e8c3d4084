-- ===== src/Letter/Main/Ends.antt =====
-- How the games of soft/games/letter/letter.c end.
use mnetsoft.Base.{
  Bool-cases, ◌⊎◌, inl, inr, ℕ, zero, suc, ◌+◌, ◌≤◌, ◌<◌, ◌≡◌, refl, ap, Bool, true, false, some,
  List, length, arith,
}
use mathlib.Core.Path.{subst}
use mnetsoft.Base.Text.{Text}
use mnetsoft.Letter.Terminal.{entered, readword, yes}
use mnetsoft.Letter.Terminal.Rest.{Consumes, readword-Consumes, Reading-cases, yes-rest}
use mnetsoft.Letter.Words.{Game}
use mnetsoft.Letter.Main.{
  System, Table, Round, won, gave_up, endless, guessed, guess_loop, games, start, finish,
}
use mnetsoft.Letter.Main.Runs.{no_word, wrong_word, Loses, Wins, no_game, one_more, Games, Stops}

-- A round from `t` with enough fuel is not endless, and where it is won it leaves less than `k` bytes
-- of input; `guesses` words were entered before it.
abbrev Closes : System → Game → List ℕ → Table → ℕ → ℕ → Round → Type 0
Closes sys g hash t guesses k (won total t') =
    (length t'.input < k) × (n : ℕ) × (total ≡ guesses + n) × Wins sys g hash t n t'
Closes sys g hash t guesses k (gave_up t') = Loses sys g hash t t'
Closes sys g hash t guesses k endless = ⊥

module _ (sys : System) (g : Game) (hash : List ℕ) where
  -- A wrong word in front of a round.
  Closes-wrong :
      (t t' : Table) (guesses : ℕ) (bf : List ℕ) (rest : Text) (j k : ℕ) (r : Round)
      → readword sys.keys g.n t.input t.bf ≡ entered bf rest
      → guessed sys g hash t bf rest ≡ (false, t')
      → j ≤ k
      → Closes sys g hash t' (guesses + 1) j r
      → Closes sys g hash t guesses k r
  Closes-wrong t t' guesses bf rest j k (won total t'') e w h (less, n, sum, wins) = (
    omega (arith, h, less),
    n + 1,
    omega (arith, sum),
    record {
      at = wins.at;
      wrong_words = wins.wrong_words + 1;
      wrongs = wrong_word bf rest e w wins.wrongs;
      counted = ap (λ m. m + 1) wins.counted;
      bf = wins.bf;
      rest = wins.rest;
      was_read = wins.was_read;
      right = wins.right;
    },
  )
  Closes-wrong t t' guesses bf rest j k (gave_up t'') e w h c = record {
    at = c.at;
    wrong_words = c.wrong_words + 1;
    wrongs = wrong_word bf rest e w c.wrongs;
    rest = c.rest;
    broken_off = c.broken_off;
    told = c.told;
  }
  Closes-wrong t t' guesses bf rest j k endless e w h c = c

  guess_loop-Closes :
      (fuel guesses : ℕ) (t : Table)
      → length t.input < fuel
      → Closes sys g hash t guesses (length t.input) (guess_loop fuel sys g hash guesses t)
  unfolding guess_loop
  guess_loop-Closes zero guesses t h = absurd (omega arith)
  guess_loop-Closes (suc fuel) guesses t h =
      let eats = readword-Consumes sys.keys g.n t.input t.bf in
      elim (Reading-cases (readword sys.keys g.n t.input t.bf)) [
        | inr (rest, e) ↦
            rw (e, guess_loop)
              (record {
                at = t;
                wrong_words = 0;
                wrongs = no_word;
                rest = rest;
                broken_off = e;
                told = refl;
              })
        | inl (bf, rest, e) ↦
            let less : length rest < length t.input = subst (Consumes (length t.input)) e eats in
            let t' = (guessed sys g hash t bf rest).1 in
            elim (Bool-cases (guessed sys g hash t bf rest).0) [
              | inl right ↦
                  rw (e, guess_loop, right)
                    (
                      less,
                      1,
                      refl,
                      record {
                        at = t;
                        wrong_words = 0;
                        wrongs = no_word;
                        counted = refl;
                        bf = bf;
                        rest = rest;
                        was_read = e;
                        right = ap (λ b. (b, t')) right;
                      },
                    )
              | inr wrong ↦
                  rw (e, guess_loop, wrong)
                    (Closes-wrong t t' guesses bf rest (length rest) (length t.input)
                      (guess_loop fuel sys g hash (guesses + 1) t') e (ap (λ b. (b, t')) wrong)
                      (omega (arith, less))
                      (guess_loop-Closes fuel (guesses + 1) t' (omega (arith, less, h))))
            ]
      ]

  -- A game, with the words counted from 0.
  Round-cases :
      (t : Table) (k : ℕ) (r : Round)
      → Closes sys g hash t 0 k r
      → ((guesses : ℕ) × (t' : Table) × (r ≡ won guesses t')
          × (length t'.input < k)
          × Wins sys g hash t guesses t')
        ⊎ ((t' : Table) × (r ≡ gave_up t') × Loses sys g hash t t')
  Round-cases t k (won guesses t') (less, n, sum, wins) =
      inl (n, t', ap (λ m. won m t') (omega (arith, sum)), less, wins)
  Round-cases t k (gave_up t') c = inr (t', refl, c)
  Round-cases t k endless c = absurd c

finish-input :
    (sys : System) (g : Game) (nosave : Bool) (wordno guesses : ℕ) (t : Table)
    → (finish sys g nosave wordno guesses t).input ≡ t.input
unfolding finish
finish-input sys g true wordno guesses t = refl
finish-input sys g false wordno guesses t = refl

-- With fuel above the length of the input the loop of the games returns. The run goes through games
-- that were won, each with the answer yes, and ends in one of two ways: with a game in which the
-- reading of a word is broken off, and the word is told; or with a game that is won, and another
-- answer than yes. A game that is won is finished with the number of the words that were entered in
-- it, of which the last only is right.
pub games-ends :
    (fuel : ℕ) (sys : System) (g : Game) (nosave : Bool) (hash : List ℕ) (t : Table)
    → length t.input < fuel
    → (t' : Table) × (games fuel sys g nosave hash t ≡ some t')
      × (at : Table) × Games sys g nosave hash at t
      × (Loses sys g hash (start sys g at).0 t' ⊎ Stops sys g nosave hash at t')
unfolding games start
games-ends zero sys g nosave hash t h = absurd (omega arith)
games-ends (suc fuel) sys g nosave hash t h =
    let (t₁, wordno) = start sys g t in
    elim (Round-cases sys g hash t₁ (length t.input)
      (guess_loop (suc (length t.input)) sys g hash 0 t₁)
      (guess_loop-Closes sys g hash (suc (length t.input)) 0 t₁ (omega arith))) [
        | inr (t₂, e, lost) ↦ (t₂, rw (e, games) refl, t, no_game, inl lost)
        | inl (guesses, t₂, e, less, wins) ↦
            let t₃ = finish sys g nosave wordno guesses t₂ in
            let rest = (yes sys.keys t₃.input).1 in
            elim (Bool-cases (yes sys.keys t₃.input).0) [
              | inr stops ↦ (
                record t₃ { input = rest },
                rw (e, games, stops) refl,
                t,
                no_game,
                inr (record {
                  at = t₂;
                  guesses = guesses;
                  wins = wins;
                  rest = rest;
                  answer = ap (λ b. (b, rest)) stops;
                  left = refl;
                }),
              )
              | inl again ↦
                  let shorter : length rest < fuel = omega (
                    arith,
                    less,
                    h,
                    yes-rest sys.keys t₃.input,
                    ap length (finish-input sys g nosave wordno guesses t₂),
                  ) in
                  let (t', e', at, won_games, how) =
                    games-ends fuel sys g nosave hash (record t₃ { input = rest }) shorter in
                  (
                    t',
                    rw (e, games, again) e',
                    at,
                    one_more rest wins (ap (λ b. (b, rest)) again) won_games,
                    how,
                  )
            ]
      ]
