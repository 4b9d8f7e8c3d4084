-- ===== src/Resh/RoundTrip.antt =====
-- soft/apps/resh/token.c: the words of a line are read back from the line that is made of them.
use mnetsoft.Base.{
  ℕ, zero, suc, ◌+◌, ◌-◌, ◌≤◌, ◌<◌, ◌≡◌, refl, ap, Bool, true, false, not, ◌&&◌, some, List, [],
  ◌∷◌, ◌++◌, arith, ◌==◌, length, length-append, map,
}
use mnetsoft.Base.Text.{Text, is_space, skip_space}
use mnetsoft.Resh.{
  is_quote, unquote, put_before, quotedtoken, is_bare, simpletoken, after_simpletoken, tokens,
  one_more, from_quote, tokenize, tokenizeq,
}

pub data Word : Type 0 where
  bare : Text → Word
  in_quotes : Text → Word

abbrev pub text : Word → Text
text (bare s) = s
text (in_quotes s) = s

abbrev pub all_bytes : (ℕ → Bool) → Text → Bool
all_bytes f [] = true
all_bytes f (c ∷ cs) = f c && all_bytes f cs

-- A bare word has no blank and no single quote, a word in quotes no single quote and no backslash;
-- neither is empty.
abbrev pub is_word : Word → Bool
is_word (bare []) = false
is_word (bare (c ∷ cs)) = all_bytes is_bare (c ∷ cs)
is_word (in_quotes []) = false
is_word (in_quotes (c ∷ cs)) = all_bytes (λ b. not (is_quote b)) (c ∷ cs)

abbrev pub are_words : List Word → Bool
are_words [] = true
are_words (w ∷ ws) = is_word w && are_words ws

-- Each word with a space behind it.
abbrev pub line : List Word → Text
line [] = []
line (bare s ∷ ws) = s ++ b' ' ∷ line ws
line (in_quotes s ∷ ws) = b'\'' ∷ (s ++ b'\'' ∷ b' ' ∷ line ws)

unquote-all : (s : Text) → all_bytes (λ b. not (is_quote b)) s ≡ true → unquote s ≡ s
unfolding unquote
unquote-all [] h = refl
unquote-all (c ∷ []) h = ground arith
unquote-all (c ∷ d ∷ cs) h = ground (arith, unquote-all (d ∷ cs))

quotedtoken-close : (rest : Text) → quotedtoken (b'\'' ∷ b' ' ∷ rest) ≡ some ([], b' ' ∷ rest)
unfolding quotedtoken
quotedtoken-close [] = refl
quotedtoken-close (c ∷ cs) = refl

quotedtoken-other :
    (c d e : ℕ) (cs : Text)
    → is_quote c ≡ false
    → quotedtoken (c ∷ d ∷ e ∷ cs) ≡ put_before c (quotedtoken (d ∷ e ∷ cs))
unfolding quotedtoken
quotedtoken-other c d e cs h =
    let a : (c == b'\'') ≡ false = ground arith in
    let b : (c == b'\\') ≡ false = ground arith in rw (a, b) refl

quotedtoken-all :
    (s rest : Text)
    → all_bytes (λ b. not (is_quote b)) s ≡ true
    → quotedtoken (s ++ b'\'' ∷ b' ' ∷ rest) ≡ some (s, b' ' ∷ rest)
unfolding put_before
quotedtoken-all [] rest h = quotedtoken-close rest
quotedtoken-all (c ∷ []) rest h =
    rw (quotedtoken-other c b'\'' b' ' rest (ground arith), quotedtoken-close rest) refl
quotedtoken-all (c ∷ d ∷ []) rest h =
    rw
      (
        quotedtoken-other c d b'\'' (b' ' ∷ rest) (ground arith),
        quotedtoken-all (d ∷ []) rest (ground arith),
      )
      refl
quotedtoken-all (c ∷ d ∷ e ∷ cs) rest h =
    rw
      (
        quotedtoken-other c d e (cs ++ b'\'' ∷ b' ' ∷ rest) (ground arith),
        quotedtoken-all (d ∷ e ∷ cs) rest (ground arith),
      )
      refl

simpletoken-all : (s rest : Text) → all_bytes is_bare s ≡ true → simpletoken (s ++ b' ' ∷ rest) ≡ s
unfolding simpletoken
simpletoken-all [] rest h = refl
simpletoken-all (c ∷ cs) rest h = ground (arith, simpletoken-all cs rest)

after_simpletoken-all :
    (s rest : Text)
    → all_bytes is_bare s ≡ true
    → after_simpletoken (s ++ b' ' ∷ rest) ≡ b' ' ∷ rest
unfolding after_simpletoken
after_simpletoken-all [] rest h = refl
after_simpletoken-all (c ∷ cs) rest h = ground (arith, after_simpletoken-all cs rest)

skip_space-bare : (c : ℕ) (cs : Text) → is_space c ≡ false → skip_space (c ∷ cs) ≡ c ∷ cs
unfolding skip_space
skip_space-bare c cs h = rw h refl

from_quote-all :
    (s rest : Text)
    → is_word (in_quotes s) ≡ true
    → from_quote (s ++ b'\'' ∷ b' ' ∷ rest) ≡ some (s, b' ' ∷ rest)
unfolding from_quote
from_quote-all [] rest h = absurd (ground arith)
from_quote-all (c ∷ cs) rest h =
    rw (from_quote, quotedtoken-all cs rest (ground arith), unquote-all (c ∷ cs) h) refl

-- A space in front of the rest is skipped.
tokenize-space :
    (n room : ℕ) (str : Text) → tokenize (suc n) room (b' ' ∷ str) ≡ tokenize (suc n) room str
unfolding tokenize skip_space
tokenize-space n room str = refl

tokenize-nil : (n room : ℕ) → tokenize (suc n) room [] ≡ tokens []
unfolding tokenize skip_space
tokenize-nil n room = refl

-- A round, where there is room for more than one token.
tokenize-bare :
    (n room c : ℕ) (cs rest : Text)
    → all_bytes is_bare (c ∷ cs) ≡ true
    → 1 < room
    → tokenize (suc (suc n)) room (c ∷ (cs ++ b' ' ∷ rest))
      ≡ one_more (c ∷ cs) (tokenize (suc n) (room - 1) rest)
unfolding tokenize
tokenize-bare n room c cs rest b l =
    let a : is_space c ≡ false = ground arith in
    let q : (c == b'\'') ≡ false = ground arith in
    let z : (room == 1) ≡ false = ground arith in
    rw
      (
        tokenize,
        skip_space-bare c (cs ++ b' ' ∷ rest) a,
        q,
        z,
        after_simpletoken-all (c ∷ cs) rest b,
        simpletoken-all (c ∷ cs) rest b,
      )
      (ap (one_more (c ∷ cs)) (tokenize-space n (room - 1) rest))

tokenize-in_quotes :
    (n room : ℕ) (s rest : Text)
    → is_word (in_quotes s) ≡ true
    → 1 < room
    → tokenize (suc (suc n)) room (b'\'' ∷ (s ++ b'\'' ∷ b' ' ∷ rest))
      ≡ one_more s (tokenize (suc n) (room - 1) rest)
unfolding tokenize
tokenize-in_quotes n room s rest b l =
    let z : (room == 1) ≡ false = ground arith in
    rw (tokenize, skip_space-bare b'\'' (s ++ b'\'' ∷ b' ' ∷ rest) refl, from_quote-all s rest b, z)
      (ap (one_more s) (tokenize-space n (room - 1) rest))

tokenize-line :
    (n room : ℕ) (ws : List Word)
    → are_words ws ≡ true
    → length ws < n
    → length ws < room
    → tokenize n room (line ws) ≡ tokens (map text ws)
unfolding one_more
tokenize-line zero room ws h k l = elim k [ ]
tokenize-line (suc n) room [] h k l = tokenize-nil n room
tokenize-line (suc n) room (bare [] ∷ ws) h k l = absurd (ground arith)
tokenize-line (suc n) room (in_quotes [] ∷ ws) h k l = absurd (ground arith)
tokenize-line (suc zero) room (bare (c ∷ cs) ∷ ws) h k l = absurd (omega (arith, k))
tokenize-line (suc zero) room (in_quotes (c ∷ cs) ∷ ws) h k l = absurd (omega (arith, k))
tokenize-line (suc (suc n)) room (bare (c ∷ cs) ∷ ws) h k l =
    rw
      (
        tokenize-bare n room c cs (line ws) (ground arith) (omega (arith, l)),
        tokenize-line (suc n) (room - 1) ws (ground arith) (omega (arith, k)) (omega (arith, l)),
      )
      refl
tokenize-line (suc (suc n)) room (in_quotes (c ∷ cs) ∷ ws) h k l =
    rw
      (
        tokenize-in_quotes n room (c ∷ cs) (line ws) (ground arith) (omega (arith, l)),
        tokenize-line (suc n) (room - 1) ws (ground arith) (omega (arith, k)) (omega (arith, l)),
      )
      refl

tokenize-none : (room : ℕ) → tokenize 0 room [] ≡ tokens []
unfolding tokenize
tokenize-none room = refl

length-line : (ws : List Word) → are_words ws ≡ true → length ws + length ws ≤ length (line ws)
length-line [] h = omega arith
length-line (bare [] ∷ ws) h = absurd (ground arith)
length-line (in_quotes [] ∷ ws) h = absurd (ground arith)
length-line (bare (c ∷ cs) ∷ ws) h =
    omega (arith, length-append cs (b' ' ∷ line ws), length-line ws (ground arith))
length-line (in_quotes (c ∷ cs) ∷ ws) h =
    omega (arith, length-append cs (b'\'' ∷ b' ' ∷ line ws), length-line ws (ground arith))

-- From a line of fewer words than there is room for, each with a space behind it, tokenizeq takes
-- these words in their order: a word is bare, with no blank and no single quote in it, or in single
-- quotes, with no single quote and no backslash in it, and is not empty.
pub tokenizeq-line :
    (ws : List Word) (maxtoks : ℕ)
    → are_words ws ≡ true
    → length ws < maxtoks
    → tokenizeq (line ws) maxtoks ≡ tokens (map text ws)
unfolding tokenizeq
tokenizeq-line [] maxtoks h k =
    let z : (maxtoks == 0) ≡ false = ground arith in rw z (tokenize-none maxtoks)
tokenizeq-line (w ∷ ws) maxtoks h k =
    let z : (maxtoks == 0) ≡ false = ground arith in
    let l = length-line (w ∷ ws) h in
    rw z (tokenize-line (length (line (w ∷ ws))) maxtoks (w ∷ ws) h (omega (arith, l)) k)
