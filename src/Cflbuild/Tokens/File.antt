-- ===== src/Cflbuild/Tokens/File.antt =====
-- soft/cmd/cflbuild: the file that WriteTocflist leaves is read back by main.
use mathlib.Core.List.{append_assoc}
use mnetsoft.Base.{
  ℕ, zero, suc, ◌-◌, ◌≤◌, ◌<◌, ◌≡◌, refl, ap, Bool, true, false, not, ◌&&◌, ◌||◌, none, some, List,
  [], ◌∷◌, ◌++◌, arith, ltb, length, take, map, length-append, ltb→lt,
}
use mnetsoft.Base.Text.{Text, fgets}
use mnetsoft.Base.Lines.{HasNoNewline, fgets-line}
use mnetsoft.Cflbuild.Heap.{Ptr}
use mnetsoft.Cflbuild.Chain.{all}
use mnetsoft.Cflbuild.Walks.{name_line}
use mnetsoft.Cflbuild.Walks.Finds.{file_of}
use mnetsoft.Cflbuild.Tokens.{
  isblank, is_blank, is_separator, skip_separators, token, after_token, extract_tokens, tokens,
  line_tokens, read_cflist,
}

abbrev pub plain : Text → Bool
plain [] = true
plain (c ∷ cs) = not (is_separator c || is_blank c) && plain cs

-- A name of a conference: at least one byte, at most 126, no blank and no separator.
abbrev pub is_name : Text → Bool
is_name [] = false
is_name (c ∷ cs) = plain (c ∷ cs) && ltb (length (c ∷ cs)) 127

plain-HasNoNewline : (s : Text) → plain s ≡ true → HasNoNewline s
plain-HasNoNewline [] h = tt
plain-HasNoNewline (c ∷ cs) h = (ground arith, plain-HasNoNewline cs (ground arith))

token-plain : (s : Text) → plain s ≡ true → token s ≡ s
unfolding token
token-plain [] h = refl
token-plain (c ∷ cs) h = ground (arith, token-plain cs)

after_token-plain : (s : Text) → plain s ≡ true → after_token s ≡ []
unfolding after_token
after_token-plain [] h = refl
after_token-plain (c ∷ cs) h = ground (arith, after_token-plain cs)

skip_separators-plain : (s : Text) → plain s ≡ true → skip_separators s ≡ s
unfolding skip_separators
skip_separators-plain [] h = refl
skip_separators-plain (c ∷ cs) h = ground arith

tokens-nil : (n : ℕ) → tokens n [] ≡ []
unfolding tokens
tokens-nil zero = refl
tokens-nil (suc n) = refl

tokens-name : (s : Text) → is_name s ≡ true → tokens (length s) s ≡ s ∷ []
unfolding tokens extract_tokens
tokens-name [] h = absurd (ground arith)
tokens-name (c ∷ cs) h =
    let p : plain (c ∷ cs) ≡ true = ground arith in
    rw (skip_separators-plain (c ∷ cs) p, token-plain (c ∷ cs) p, after_token-plain (c ∷ cs) p)
      (rw (skip_separators-plain [] refl, tokens-nil (length cs)) refl)

take-prefix : (s t : Text) → take (length s) (s ++ t) ≡ s
take-prefix [] t = refl
take-prefix (c ∷ cs) t = ap (λ r. c ∷ r) (take-prefix cs t)

take-line : (s : Text) → take (length (s ++ b'\n' ∷ []) - 1) (s ++ b'\n' ∷ []) ≡ s
take-line s =
    let e : length (s ++ b'\n' ∷ []) - 1 ≡ length s = omega (arith, length-append s (b'\n' ∷ [])) in
    rw e (take-prefix s (b'\n' ∷ []))

line_tokens-name : (s : Text) → is_name s ≡ true → line_tokens (s ++ b'\n' ∷ []) ≡ s ∷ []
unfolding line_tokens isblank
line_tokens-name [] h = absurd (ground arith)
line_tokens-name (c ∷ cs) h =
    let b : isblank ((c ∷ cs) ++ b'\n' ∷ []) ≡ false = ground arith in
    rw (b, take-line (c ∷ cs)) (tokens-name (c ∷ cs) h)

pub take-all : (n : ℕ) (s : Text) → length s ≤ n → take n s ≡ s
take-all zero [] h = refl
take-all zero (c ∷ cs) h = elim h [ ]
take-all (suc n) [] h = refl
take-all (suc n) (c ∷ cs) h = ap (λ r. c ∷ r) (take-all n cs (omega (arith, h)))

name_line-name : (s : Text) → is_name s ≡ true → name_line s ≡ s ++ b'\n' ∷ []
unfolding name_line
name_line-name [] h = absurd (ground arith)
name_line-name (c ∷ cs) h =
    take-all 199 ((c ∷ cs) ++ b'\n' ∷ [])
      (omega (arith, length-append cs (b'\n' ∷ []), ltb→lt (length (c ∷ cs)) 127 (ground arith)))

fgets-name :
    (s rest : Text)
    → is_name s ≡ true
    → fgets 128 (name_line s ++ rest) ≡ some (s ++ b'\n' ∷ [], rest)
fgets-name [] rest h = absurd (ground arith)
fgets-name (c ∷ cs) rest h =
    let k = ltb→lt (length (c ∷ cs)) 127 (ground arith) in
    rw (name_line-name (c ∷ cs) h, append_assoc (c ∷ cs) (b'\n' ∷ []) rest)
      (fgets-line 128 (c ∷ cs) rest (plain-HasNoNewline (c ∷ cs) (ground arith)) (omega (arith, k)))

fgets_nil : (size : ℕ) → fgets size [] ≡ none
unfolding fgets
fgets_nil size = refl

-- main reads back, on fuel for more than the nodes, what WriteTocflist writes: where each node's
-- name has at least one byte and at most 126, no blank and no comma, the names in their order.
pub read_cflist-file_of :
    (n : ℕ) (name : Ptr → Text) (ps : List Ptr)
    → length ps < n
    → all (λ p. is_name (name p)) ps ≡ true
    → read_cflist n (file_of name ps) ≡ map name ps
unfolding read_cflist
read_cflist-file_of zero name ps k h = elim k [ ]
read_cflist-file_of (suc n) name [] k h = rw (read_cflist, fgets_nil 128) refl
read_cflist-file_of (suc n) name (p ∷ ps) k h =
    rw
      (
        read_cflist,
        fgets-name (name p) (file_of name ps) (ground arith),
        line_tokens-name (name p) (ground arith),
        read_cflist-file_of n name ps (omega (arith, k)) (ground arith),
      )
      refl
