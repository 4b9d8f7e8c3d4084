-- ===== src/Letter/Words/Guess.antt =====
-- What `check_word` of soft/games/letter/letter.c does with a guess.
use mnetsoft.Base.{
  ◌⊎◌, sym, ◌∙◌, Bool, Option, ℕ, zero, suc, ◌≤◌, ◌<◌, ◌≡◌, ◌≢◌, refl, ap, true, false, none, some,
  List, [], ◌∷◌, ◌++◌, ◌==◌, length, take, arith, Bool-cases, inl, inr,
}
use mathlib.Core.Bool.{true≢false}
use mnetsoft.Base.Text.{Text, same_prefix}
use mnetsoft.Letter.Words.{
  Notice, Game, Hist, is_right, not_in_dictionary, agrees, find_word, count_same, check_word,
}

-- Words of n letters with the same prefix of n are the same.
same_prefix_iff :
    (n : ℕ) (a b : Text) → length a ≡ n → length b ≡ n → same_prefix n a b ≡ true → a ≡ b
unfolding same_prefix
same_prefix_iff zero [] [] ha hb h = refl
same_prefix_iff zero [] (y ∷ ys) ha hb h = absurd (omega arith)
same_prefix_iff zero (x ∷ xs) b ha hb h = absurd (omega arith)
same_prefix_iff (suc n) [] b ha hb h = absurd (omega arith)
same_prefix_iff (suc n) (x ∷ xs) [] ha hb h = absurd (omega arith)
same_prefix_iff (suc n) (x ∷ xs) (y ∷ ys) ha hb h =
    ground (arith, same_prefix_iff n xs ys (omega arith) (omega arith))

same_prefix_refl : (n : ℕ) (a : Text) → same_prefix n a a ≡ true
unfolding same_prefix
same_prefix_refl zero a = refl
same_prefix_refl (suc n) [] = refl
same_prefix_refl (suc n) (x ∷ xs) = ground (arith, same_prefix_refl n xs)

count_same_le : (n : ℕ) (target guess : Text) → count_same n target guess ≤ n
unfolding count_same
count_same_le zero target guess = omega arith
count_same_le (suc n) [] guess = omega arith
count_same_le (suc n) (x ∷ xs) [] = omega arith
count_same_le (suc n) (x ∷ xs) (y ∷ ys) = ground (arith, count_same_le n xs ys)

suc_ne_zero : (k : ℕ) → (suc k == 0) ≡ false
suc_ne_zero k = ground arith

take-length : (n : ℕ) (a : Text) → length a ≡ n → take n a ≡ a
take-length zero [] h = refl
take-length zero (x ∷ xs) h = absurd (omega arith)
take-length (suc n) [] h = refl
take-length (suc n) (x ∷ xs) h = ap (λ t. x ∷ t) (take-length n xs (omega arith))

-- The score of a guess that is not the target is below n.
count_same_lt :
    (n : ℕ) (target guess : Text)
    → same_prefix n guess target ≡ false
    → count_same n target guess < n
unfolding same_prefix count_same
count_same_lt zero target guess h = ground arith
count_same_lt (suc n) [] guess h = omega arith
count_same_lt (suc n) (x ∷ xs) [] h = omega arith
count_same_lt (suc n) (x ∷ xs) (y ∷ ys) h =
    ground (arith, count_same_lt n xs ys, count_same_le n xs ys)

-- What a guess that is not the target adds to the list, by what `find_word` gives.
abbrev pub Added : ℕ → Text → List Hist → Option ℕ → Bool × List Hist × Notice → Type 0
Added n guess hist none r = Unit {0}
Added n guess hist (some zero) r =
    r ≡ (false, hist ++ record { score = none; word = guess } ∷ [], not_in_dictionary guess)
Added n guess hist (some (suc offset)) r =
    (s : ℕ) × (s < n)
    × (r ≡ (false, hist ++ record { score = some s; word = guess } ∷ [], agrees guess s))

check_word-Added :
    (g : Game) (file : Text) (hash : List ℕ) (junk : ℕ) (guess target : Text) (hist : List Hist)
    (found : Option ℕ)
    → find_word g file hash guess ≡ found
    → length guess ≡ g.n
    → same_prefix g.n guess target ≡ false
    → Added g.n guess hist found (check_word g file hash junk guess target hist)
unfolding check_word
check_word-Added g file hash junk guess target hist none e hg differs = tt
check_word-Added g file hash junk guess target hist (some zero) e hg differs =
    rw (differs, check_word, e, take-length g.n guess hg) refl
check_word-Added g file hash junk guess target hist (some (suc offset)) e hg differs = (
  count_same g.n target guess,
  count_same_lt g.n target guess differs,
  rw (differs, check_word, e, take-length g.n guess hg, suc_ne_zero offset) refl,
)

-- For words of n letters `check_word` returns 1 exactly for the target, with the list of guesses as
-- it was. Otherwise it adds the guess at the end of the list: with a score below n if `find_word`
-- gives an offset, and with -1 if it gives 0. (Where `find_word` has no result, nothing is said.)
pub check_word-outcome :
    (g : Game) (file : Text) (hash : List ℕ) (junk : ℕ) (guess target : Text) (hist : List Hist)
    → length guess ≡ g.n
    → length target ≡ g.n
    → ((guess ≡ target)
        × (check_word g file hash junk guess target hist ≡ (true, hist, is_right g.n)))
      ⊎ (guess ≢ target)
        × Added g.n guess hist
            (find_word g file hash guess)
            (check_word g file hash junk guess target hist)
unfolding check_word
check_word-outcome g file hash junk guess target hist hg ht =
    elim (Bool-cases (same_prefix g.n guess target)) [
      | inl same ↦ inl (same_prefix_iff g.n guess target hg ht same, rw (same, check_word) refl)
      | inr differs ↦ inr (
        λ e. true≢false (
            sym (same_prefix_refl g.n target)
            ∙ ap (λ t. same_prefix g.n t target) (sym e)
            ∙ differs),
        check_word-Added g file hash junk guess target hist (find_word g file hash guess) refl hg
            differs,
      )
    ]
