-- ===== src/Base/Lines.antt =====
-- Lines of a file: what `fgets` returns for a line that fits its buffer.
use Prim.Native.Nat.{ℕ, zero, suc, ◌-◌, ◌<◌, ◌+◌}
use mathlib.Core.Path.{◌≡◌, refl}
use mathlib.Core.Logic.{◌≢◌}
use mathlib.Core.Option.{some}
use mathlib.Core.List.{[], ◌∷◌, ◌++◌}
use native.Mathlib.Omega.{arith}
use mnetsoft.Base.Lists.{length}
use mnetsoft.Base.Text.{Text, line_of, after_line, fgets}

abbrev pub HasNoNewline : Text → Type 0
HasNoNewline [] = Unit {0}
HasNoNewline (c ∷ cs) = (c ≢ b'\n') × HasNoNewline cs

pub line_of-line :
    (l rest : Text) (n : ℕ)
    → HasNoNewline l
    → length l < n
    → (line_of n (l ++ b'\n' ∷ rest) ≡ l ++ b'\n' ∷ []) × (after_line n (l ++ b'\n' ∷ rest) ≡ rest)
unfolding line_of after_line
line_of-line [] rest zero h lt = absurd (omega arith)
line_of-line [] rest (suc n) h lt = (refl, refl)
line_of-line (c ∷ cs) rest zero h lt = absurd (omega arith)
line_of-line (c ∷ cs) rest (suc n) h lt = ground (arith, line_of-line cs rest n h.1 (omega arith))

pub fgets-line :
    (size : ℕ) (l rest : Text)
    → HasNoNewline l
    → length l + 1 < size
    → fgets size (l ++ b'\n' ∷ rest) ≡ some (l ++ b'\n' ∷ [], rest)
unfolding fgets
fgets-line size [] rest h le = ground (arith, line_of-line [] rest (size - 1) h (omega arith))
fgets-line size (c ∷ cs) rest h le =
    ground (arith, line_of-line (c ∷ cs) rest (size - 1) h (omega arith))

pub HasNoNewline-append : (a b : Text) → HasNoNewline a → HasNoNewline b → HasNoNewline (a ++ b)
HasNoNewline-append [] b ha hb = hb
HasNoNewline-append (c ∷ cs) b ha hb = (ha.0, HasNoNewline-append cs b ha.1 hb)
