-- ===== src/Bank/Bankers.antt =====
-- `am_banker` of soft/apps/bank/bank.c: is a login name in the list of bankers?
use mnetsoft.Base.{
  ℕ, zero, suc, ◌-◌, ◌≤◌, ◌<◌, ◌≡◌, ◌≢◌, refl, ap, Bool, true, false, Option, none, some, List, [],
  ◌∷◌, ◌++◌, if◌then◌else◌, ◌==◌, ltb, arith, length, length-append, Bool-cases, inl, inr, ◌||◌,
  ◌&&◌, ltb→lt, ◌⊎◌,
}
use mnetsoft.Base.Lines.{HasNoNewline, fgets-line}
use mnetsoft.Base.Text.{Text, fgets, line_of, after_line, same_prefix, same_text}

-- the test on one buffer: `buflen` is one less than its length, and `idlen` the larger of the two
unfoldable pub matches : Text → Text → Bool
matches id buf =
    let buflen = length buf - 1 in
    same_prefix (if ltb (length id) buflen then buflen else length id) id buf

-- the `while` loop, on fuel: each `fgets` reads at least one byte
unfoldable pub banker_loop : ℕ → Text → Text → Bool
unfolding matches
banker_loop zero id file = false
banker_loop (suc fuel) id file = elim (fgets 20 file) [
  | none ↦ false
  | some (buf, rest) ↦ elim (matches id buf) [ true ↦ true | false ↦ banker_loop fuel id rest ]
]

-- `none` is a file that cannot be opened
unfoldable pub am_banker : Text → Option Text → Bool
unfolding banker_loop
am_banker id none = false
am_banker id (some file) = banker_loop (suc (length file)) id file

-- a file of lines, each with its newline
abbrev pub unlines : List Text → Text
unlines [] = []
unlines (l ∷ ls) = l ++ b'\n' ∷ unlines ls

-- Lines that fit the buffer, newline included.
abbrev pub AreShort : List Text → Type 0
AreShort [] = Unit {0}
AreShort (l ∷ ls) = (length l ≤ 18) × HasNoNewline l × AreShort ls

abbrev pub is_listed : Text → List Text → Bool
is_listed id [] = false
is_listed id (l ∷ ls) = same_text id l || is_listed id ls

same_prefix-line :
    (id l : Text) (n : ℕ)
    → HasNoNewline id
    → length id ≤ n
    → length l ≤ n
    → (n ≡ length id) ⊎ (n ≡ length l)
    → same_prefix n id (l ++ b'\n' ∷ []) ≡ same_text id l
unfolding same_prefix same_text
same_prefix-line [] [] zero h a b e = refl
same_prefix-line [] [] (suc n) h a b e = absurd (omega arith)
same_prefix-line [] (y ∷ ys) zero h a b e = absurd (omega arith)
same_prefix-line [] (y ∷ ys) (suc n) h a b e = refl
same_prefix-line (x ∷ xs) l zero h a b e = absurd (omega arith)
same_prefix-line (x ∷ xs) [] (suc n) h a b e = ground (arith, h.0)
same_prefix-line (x ∷ xs) (y ∷ ys) (suc n) h a b e =
    ap (λ t. x == y && t) (same_prefix-line xs ys n h.1 (omega arith) (omega arith) (omega arith))

-- A name matches a line exactly when it is the line.
matches-line : (id l : Text) → HasNoNewline id → matches id (l ++ b'\n' ∷ []) ≡ same_text id l
unfolding matches
matches-line id l h =
    let len = length-append l (b'\n' ∷ []) in
    elim (Bool-cases (ltb (length id) (length (l ++ b'\n' ∷ []) - 1))) [
      | inl longer ↦ rw longer (
          same_prefix-line id l _ h (omega (arith, ltb→lt (length id) _ longer)) (omega arith)
            (inr (omega arith)))
      | inr shorter ↦
          rw shorter (same_prefix-line id l (length id) h (omega arith) (ground arith) (inl refl))
    ]

banker_loop-unlines :
    (fuel : ℕ) (id : Text) (ls : List Text)
    → HasNoNewline id
    → AreShort ls
    → length (unlines ls) < fuel
    → banker_loop fuel id (unlines ls) ≡ is_listed id ls
unfolding banker_loop
banker_loop-unlines zero id ls h short f = elim f [ ]
banker_loop-unlines (suc fuel) id [] h short f = unfold fgets in refl
banker_loop-unlines (suc fuel) id (l ∷ ls) h short f =
    let ih =
      banker_loop-unlines fuel id ls h short.2
        (omega (arith, length-append l (b'\n' ∷ unlines ls))) in
    ground (arith, fgets-line 20 l (unlines ls) short.1 (omega arith), matches-line id l h, ih)

-- Of a file of lines of at most 18 bytes, each ended by a newline, the bankers are exactly the
-- names that are lines.
pub am_banker-unlines :
    (id : Text) (ls : List Text)
    → HasNoNewline id
    → AreShort ls
    → am_banker id (some (unlines ls)) ≡ is_listed id ls
unfolding am_banker
am_banker-unlines id ls h short =
    banker_loop-unlines (suc (length (unlines ls))) id ls h short (omega arith)

line_of-last :
    (id : Text) (c n : ℕ)
    → HasNoNewline id
    → c ≢ b'\n'
    → length id < n
    → line_of n (id ++ c ∷ []) ≡ id ++ c ∷ []
unfolding line_of
line_of-last [] c zero h ne lt = absurd (omega arith)
line_of-last [] c (suc zero) h ne lt = ground arith
line_of-last [] c (suc (suc n)) h ne lt = ground arith
line_of-last (x ∷ xs) c zero h ne lt = absurd (omega arith)
line_of-last (x ∷ xs) c (suc n) h ne lt = ground (arith, line_of-last xs c n h.1 ne (omega arith))

fgets-last :
    (id : Text) (c : ℕ)
    → HasNoNewline id
    → c ≢ b'\n'
    → length id ≤ 18
    → (rest : Text) × (fgets 20 (id ++ c ∷ []) ≡ some (id ++ c ∷ [], rest))
unfolding fgets
fgets-last [] c h ne le = (
  after_line 19 (c ∷ []),
  ap (λ t. some (t, after_line 19 (c ∷ []))) (line_of-last [] c 19 h ne (omega arith)),
)
fgets-last (x ∷ xs) c h ne le = (
  after_line 19 (x ∷ xs ++ c ∷ []),
  ap (λ t. some (t, after_line 19 (x ∷ xs ++ c ∷ [])))
      (line_of-last (x ∷ xs) c 19 h ne (omega arith)),
)

same_prefix_self : (id rest : Text) → same_prefix (length id) id (id ++ rest) ≡ true
unfolding same_prefix
same_prefix_self [] rest = refl
same_prefix_self (x ∷ xs) rest = ground (arith, same_prefix_self xs rest)

matches-cut : (id : Text) (c : ℕ) → matches id (id ++ c ∷ []) ≡ true
unfolding matches
matches-cut id c = ground (arith, same_prefix_self id (c ∷ []), length-append id (c ∷ []))

-- If the file is one line of one to 19 bytes with no newline at its end, then also the name that
-- lacks the line's last byte is taken for a banker's.
am_banker-cut :
    (id : Text) (c : ℕ)
    → HasNoNewline id
    → c ≢ b'\n'
    → length id ≤ 18
    → am_banker id (some (id ++ c ∷ [])) ≡ true
unfolding am_banker banker_loop
am_banker-cut id c h ne hi =
    let (rest, e) = fgets-last id c h ne hi in ground (arith, e, matches-cut id c)
