-- ===== src/Base/Text.antt =====
-- C strings as their bytes before the terminator, and the calls of the C library on them.
use Prim.Native.Char.{code}
use Prim.Native.String.{String}
use mnetsoft.Base.Int.{ℤ, pos, negsuc}
use mnetsoft.Base.Lists.{take}
use mnetsoft.Base.Tests.{leb, ◌==◌, if◌then◌else◌}
use Prim.Native.Nat.{ℕ, zero, suc, ◌+◌, ◌-◌, ◌*◌, ◌^◌}
use mathlib.Core.Path.{◌≡◌}
use mathlib.Core.Logic.{◌↔◌}
use mathlib.Core.Bool.{Bool, true, false, ◌&&◌, ◌||◌}
use mathlib.Core.Option.{Option, none, some}
use mathlib.Core.List.{List, [], ◌∷◌}
use native.Mathlib.Omega.{arith}

abbrev pub Text : Type 0
Text = List ℕ

abbrev pub codes : String → Text
codes String.[] = []
codes (String.◌∷◌ c s) = code c ∷ codes s

-- strcmp(a, b) == 0
unfoldable pub same_text : Text → Text → Bool
same_text [] [] = true
same_text [] (y ∷ ys) = false
same_text (x ∷ xs) [] = false
same_text (x ∷ xs) (y ∷ ys) = x == y && same_text xs ys

pub same_text_iff : (a b : Text) → (same_text a b ≡ true) ↔ (a ≡ b)
unfolding same_text
same_text_iff [] [] = ground arith
same_text_iff [] (y ∷ ys) = ground arith
same_text_iff (x ∷ xs) [] = ground arith
same_text_iff (x ∷ xs) (y ∷ ys) = ground (arith, same_text_iff xs ys)

-- strncmp(a, b, n) == 0: the terminators are compared too
unfoldable pub same_prefix : ℕ → Text → Text → Bool
same_prefix zero a b = true
same_prefix (suc n) [] [] = true
same_prefix (suc n) [] (y ∷ ys) = false
same_prefix (suc n) (x ∷ xs) [] = false
same_prefix (suc n) (x ∷ xs) (y ∷ ys) = x == y && same_prefix n xs ys

-- strlcpy(dst, src, size) leaves this in dst
abbrev pub strlcpy : Text → ℕ → Text
strlcpy src size = take (size - 1) src

-- the bytes before the first newline, that newline included, at most `n` of them
unfoldable pub line_of : ℕ → Text → Text
line_of zero input = []
line_of (suc n) [] = []
line_of (suc n) (c ∷ cs) = if c == b'\n' then c ∷ [] else c ∷ line_of n cs

unfoldable pub after_line : ℕ → Text → Text
after_line zero input = input
after_line (suc n) [] = []
after_line (suc n) (c ∷ cs) = if c == b'\n' then cs else after_line n cs

-- fgets(buf, size, fp): the line and what is left to read; `none` at the end of the file
unfoldable pub fgets : ℕ → Text → Option (Text × Text)
unfolding line_of after_line
fgets size [] = none
fgets size (c ∷ cs) = some (line_of (size - 1) (c ∷ cs), after_line (size - 1) (c ∷ cs))

-- while (getchar() != '\n'); `none` is a loop at the end of the file that never ends
unfoldable pub skip_line : Text → Option Text
skip_line [] = none
skip_line (c ∷ cs) = if c == b'\n' then some cs else skip_line cs

abbrev pub is_digit : ℕ → Bool
is_digit c = leb b'0' c && leb c b'9'

abbrev pub is_lower : ℕ → Bool
is_lower c = leb b'a' c && leb c b'z'

abbrev pub to_lower : ℕ → ℕ
to_lower c = if leb b'A' c && leb c b'Z' then c + 32 else c

abbrev pub is_space : ℕ → Bool
is_space c = c == b' ' || leb 9 c && leb c 13

-- strtol keeps to the range of a long
abbrev pub long_max : ℕ
long_max = 2 ^ 63 - 1

unfoldable pub digits_value : ℕ → Text → ℕ
digits_value acc [] = acc
digits_value acc (c ∷ cs) =
    let rest = digits_value (acc * 10 + (c - b'0')) cs in if is_digit c then rest else acc

abbrev clamp_pos : ℕ → ℤ
clamp_pos n = if leb n long_max then pos n else pos long_max

abbrev clamp_neg : ℕ → ℤ
clamp_neg zero = pos 0
clamp_neg (suc n) = if leb (suc n) (long_max + 1) then negsuc n else negsuc long_max

unfoldable pub signed_value : Text → ℤ
unfolding digits_value
signed_value [] = pos 0
signed_value (c ∷ cs) =
    if c == b'-'
    then clamp_neg (digits_value 0 cs)
    else if c == b'+'
    then clamp_pos (digits_value 0 cs)
    else clamp_pos (digits_value 0 (c ∷ cs))

unfoldable pub skip_space : Text → Text
skip_space [] = []
skip_space (c ∷ cs) = if is_space c then skip_space cs else c ∷ cs

-- atol, by strtol
unfoldable pub atol : Text → ℤ
unfolding signed_value skip_space
atol s = signed_value (skip_space s)
