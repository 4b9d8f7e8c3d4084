-- ===== src/Ownu/Wrap.antt =====
-- The paragraphs of a form, `wrap_text` and `clean_text` of soft/apps/ownu/wnu-getu.c.
pub mod Blanks
use mnetsoft.Base.{
  ℕ, zero, suc, ◌+◌, ◌-◌, ◌≡◌, refl, Bool, true, false, not, ◌&&◌, ◌||◌, Option, none, some, List,
  [], ◌∷◌, ◌++◌, if◌then◌else◌, ◌==◌, ltb, length, get_elem?, set,
}
use mnetsoft.Base.Text.{Text, is_space}

abbrev pub maxcol : ℕ
maxcol = 71

abbrev pub mincol : ℕ
mincol = 48

-- The array and the local variables; `last_space` is an index.
pub record Wrap : Type 0 where
  pub text : Text
  pub col : ℕ
  pub last_space : Option ℕ
  pub have_wrapped : Bool

-- The byte at an index; behind the text it is zero.
abbrev pub or_zero : Option ℕ → ℕ
or_zero none = 0
or_zero (some b) = b

abbrev pub byte_at : ℕ → Text → ℕ
byte_at i text = or_zero (get_elem? text i)

-- A line that is too long is broken at the last space.
abbrev pub break_at : ℕ → Option ℕ → Wrap → Wrap
break_at c none w = w
break_at c (some s) w = record {
  text = set w.text s b'\n';
  col = c - s;
  last_space = none;
  have_wrapped = true;
}

abbrev pub break_line : ℕ → ℕ → Wrap → Wrap
break_line ch c w = if ltb maxcol w.col && not (ch == b'\n') then break_at c w.last_space w else w

-- The cases of the `switch`.
abbrev pub newline : ℕ → Wrap → Wrap
newline c w =
    let next = byte_at (c + 1) w.text in
    let joins =
      w.have_wrapped && (ltb w.col mincol && not (next == b'\n' || (next == b' ' || next == 0))) in
    if joins
    then record w { text = set w.text c b' '; col = w.col + 1; last_space = some c }
    else record w { last_space = none; col = 0; have_wrapped = false }

abbrev pub space : ℕ → Wrap → Wrap
space c w =
    if ltb maxcol w.col
    then record w { text = set w.text c b'\n'; last_space = none; col = 0 }
    else record w { last_space = some c; col = w.col + 1 }

abbrev pub tab : ℕ → Wrap → Wrap
tab c w = space c (record w { text = set w.text c b' ' })

-- One round, for the byte at `c`.
unfoldable pub wrap_step : ℕ → ℕ → Wrap → Wrap
wrap_step ch c w =
    let w' = break_line ch c w in
    if ch == b'\n'
    then newline c w'
    else if ch == b'\t'
    then tab c w'
    else if ch == b' '
    then space c w'
    else record w' { col = w'.col + 1 }

-- The loop, with the number of bytes that are left.
unfoldable pub wrap_loop : ℕ → ℕ → Wrap → Wrap
unfolding wrap_step
wrap_loop zero c w = w
wrap_loop (suc left) c w = wrap_loop left (c + 1) (wrap_step (byte_at c w.text) c w)

unfoldable pub wrap_text : Text → Text
unfolding wrap_loop
wrap_text text =
    (wrap_loop (length text) 0
      (record { text = text; col = 0; last_space = none; have_wrapped = false })).text

-- The passes of `clean_text`. Carriage returns are left out.
unfoldable pub strip_returns : Text → Text
strip_returns [] = []
strip_returns (c ∷ cs) = if c == b'\r' then strip_returns cs else c ∷ strip_returns cs

-- The text from the first line on that is not blank, where `line` is the line so far; `none` where
-- there is none: the pointer that is returned then stands behind the zero byte of the text.
unfoldable pub skip_blank_lines : Text → Text → Option Text
skip_blank_lines [] line = none
skip_blank_lines (c ∷ cs) line =
    let line' = if c == b'\n' then cs else line in
    let rest = skip_blank_lines cs line' in if is_space c then rest else some line

abbrev pub ends_here : ℕ → Text → Bool
ends_here c [] = is_space c
ends_here c (d ∷ ds) = false

unfoldable pub cut_trailing : Text → Text
cut_trailing [] = []
cut_trailing (c ∷ cs) = let rest = cut_trailing cs in if ends_here c rest then [] else c ∷ rest

unfoldable pub clean_text : Text → Option Text
unfolding strip_returns skip_blank_lines cut_trailing wrap_text
clean_text val =
    let stripped = strip_returns val in
    elim (skip_blank_lines stripped stripped) [
      | none ↦ none
      | some line ↦ some (wrap_text (cut_trailing line ++ (b'\n' ∷ [])))
    ]
