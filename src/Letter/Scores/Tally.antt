-- ===== src/Letter/Scores/Tally.antt =====
-- The table of users that `show_score` of soft/games/letter/letter.c prints.
use mnetsoft.Base.{
  ◌⊎◌, sym, ◌∙◌, ℕ, zero, suc, ◌+◌, ◌≤◌, ◌≡◌, refl, ap, Bool, false, not, ◌&&◌, ◌||◌, List, [], ◌∷◌,
  if◌then◌else◌, ◌==◌, length, get_or, take, drop, arith, Bool-cases, inl, inr,
}
use mnetsoft.Base.Text.{Text, same_prefix, same_text, same_text_iff, is_digit}
use mnetsoft.Letter.Scores.{Sc, slot_score, tally}

-- Does a line count for a name? It has a score above 0, and the name behind the score.
abbrev pub has_score : ℕ → Text → Bool
has_score n bf = is_digit (get_or bf n 0) && not (slot_score n bf == 0)

abbrev pub counts : ℕ → Text → Text → Bool
counts n user bf = has_score n bf && same_text user (take 8 (drop (n + 3) bf))

-- The lines that count for a name, and the sum of their scores.
abbrev pub games_of : ℕ → Text → List (Text × ℕ) → ℕ
games_of n user [] = 0
games_of n user ((bf, _) ∷ ls) = (if counts n user bf then 1 else 0) + games_of n user ls

abbrev pub total_of : ℕ → Text → List (Text × ℕ) → ℕ
total_of n user [] = 0
total_of n user ((bf, _) ∷ ls) =
    (if counts n user bf then slot_score n bf else 0) + total_of n user ls

-- What the rows of the table say of a name.
abbrev pub row_games : Text → List Sc → ℕ
row_games user [] = 0
row_games user (s ∷ ss) = (if same_text user s.login then s.ngames else 0) + row_games user ss

abbrev pub row_total : Text → List Sc → ℕ
row_total user [] = 0
row_total user (s ∷ ss) = (if same_text user s.login then s.total else 0) + row_total user ss

-- A name has at most one row.
abbrev pub has_row : Text → List Sc → Bool
has_row user [] = false
has_row user (s ∷ ss) = same_text user s.login || has_row user ss

abbrev pub IsDistinct : List Sc → Type 0
IsDistinct [] = Unit {0}
IsDistinct (s ∷ ss) = (has_row s.login ss ≡ false) × IsDistinct ss

-- For names of at most 8 bytes the comparison of 8 bytes is equality.
pub same_prefix-same_text :
    (n : ℕ) (a b : Text) → length a ≤ n → length b ≤ n → same_prefix n a b ≡ same_text a b
unfolding same_prefix same_text
same_prefix-same_text zero [] [] ha hb = refl
same_prefix-same_text zero [] (y ∷ ys) ha hb = absurd (omega arith)
same_prefix-same_text zero (x ∷ xs) b ha hb = absurd (omega arith)
same_prefix-same_text (suc n) [] [] ha hb = refl
same_prefix-same_text (suc n) [] (y ∷ ys) ha hb = refl
same_prefix-same_text (suc n) (x ∷ xs) [] ha hb = refl
same_prefix-same_text (suc n) (x ∷ xs) (y ∷ ys) ha hb =
    ap (λ t. x == y && t) (same_prefix-same_text n xs ys (omega arith) (omega arith))

-- Every name in the table is short.
abbrev pub AreShort : List Sc → Type 0
AreShort [] = Unit {0}
AreShort (s ∷ ss) = (length s.login ≤ 8) × AreShort ss

-- The two ways of a line at an entry: it has the entry's name, or another one.
pub tally-cases :
    (user : Text) (scr : ℕ) (s : Sc) (ss : List Sc)
    → length user ≤ 8
    → length s.login ≤ 8
    → ((user ≡ s.login)
        × (tally user scr (s ∷ ss)
            ≡ record { login = s.login; ngames = s.ngames + 1; total = s.total + scr } ∷ ss))
      ⊎ (same_text user s.login ≡ false) × (tally user scr (s ∷ ss) ≡ s ∷ tally user scr ss)
unfolding tally
tally-cases user scr s ss h hs = elim (Bool-cases (same_prefix 8 user s.login)) [
  | inl same ↦ inl (
    (same_text_iff user s.login).0 (sym (same_prefix-same_text 8 user s.login h hs) ∙ same),
    rw (same, tally) refl,
  )
  | inr other ↦
      inr (sym (same_prefix-same_text 8 user s.login h hs) ∙ other, rw (other, tally) refl)
]

pub tally-row_games :
    (user : Text) (scr : ℕ) (scores : List Sc) (u : Text)
    → length user ≤ 8
    → AreShort scores
    → row_games u (tally user scr scores) ≡ (if same_text u user then 1 else 0) + row_games u scores
unfolding tally
tally-row_games user scr [] u h hs = refl
tally-row_games user scr (s ∷ ss) u h hs = elim (tally-cases user scr s ss h hs.0) [
  | inl (same, e) ↦ rw (e, ap (same_text u) same) (ground arith)
  | inr (_, e) ↦ rw e (omega (arith, tally-row_games user scr ss u h hs.1))
]

pub tally-row_total :
    (user : Text) (scr : ℕ) (scores : List Sc) (u : Text)
    → length user ≤ 8
    → AreShort scores
    → row_total u (tally user scr scores)
      ≡ (if same_text u user then scr else 0) + row_total u scores
unfolding tally
tally-row_total user scr [] u h hs = refl
tally-row_total user scr (s ∷ ss) u h hs = elim (tally-cases user scr s ss h hs.0) [
  | inl (same, e) ↦ rw (e, ap (same_text u) same) (ground arith)
  | inr (_, e) ↦ rw e (omega (arith, tally-row_total user scr ss u h hs.1))
]

pub tally-has_row :
    (user : Text) (scr : ℕ) (scores : List Sc) (u : Text)
    → length user ≤ 8
    → AreShort scores
    → has_row u (tally user scr scores) ≡ (same_text u user || has_row u scores)
unfolding tally
tally-has_row user scr [] u h hs = refl
tally-has_row user scr (s ∷ ss) u h hs = elim (tally-cases user scr s ss h hs.0) [
  | inl (same, e) ↦ rw (e, ap (same_text u) same) (ground arith)
  | inr (_, e) ↦ rw (e, tally-has_row user scr ss u h hs.1) (ground arith)
]
