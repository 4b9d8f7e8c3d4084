-- ===== src/Ownu/Wrap/Blanks.antt =====
-- What `wrap_text` of soft/apps/ownu/wnu-getu.c changes.
use mnetsoft.Base.{
  ℕ, zero, suc, ◌+◌, ◌≡◌, refl, ap, ◌∙◌, Bool, true, false, not, ◌&&◌, ◌||◌, Option, none, some, [],
  ◌∷◌, if◌then◌else◌, ◌==◌, ltb, length, set, arith, Bool-cases, inl, inr,
}
use mnetsoft.Base.Text.{Text}
use mnetsoft.Ownu.Wrap.{
  maxcol, mincol, Wrap, byte_at, break_at, break_line, newline, space, tab, wrap_step, wrap_loop,
  wrap_text,
}

abbrev pub is_blank : ℕ → Bool
is_blank b = b == b' ' || (b == b'\n' || b == b'\t')

-- The text with a space for each blank.
abbrev pub levelled : Text → Text
levelled [] = []
levelled (b ∷ bs) = (if is_blank b then b' ' else b) ∷ levelled bs

levelled-set :
    (xs : Text) (i v : ℕ)
    → is_blank (byte_at i xs) ≡ true
    → is_blank v ≡ true
    → levelled (set xs i v) ≡ levelled xs
levelled-set [] i v h k = refl
levelled-set (x ∷ xs) zero v h k = rw (h, k) refl
levelled-set (x ∷ xs) (suc i) v h k =
    ap (λ t. (if is_blank x then b' ' else x) ∷ t) (levelled-set xs i v h k)

is_blank-set :
    (xs : Text) (i c v : ℕ)
    → is_blank (byte_at c xs) ≡ true
    → is_blank v ≡ true
    → is_blank (byte_at c (set xs i v)) ≡ true
is_blank-set [] i c v h k = h
is_blank-set (x ∷ xs) zero zero v h k = k
is_blank-set (x ∷ xs) zero (suc c) v h k = h
is_blank-set (x ∷ xs) (suc i) zero v h k = h
is_blank-set (x ∷ xs) (suc i) (suc c) v h k = is_blank-set xs i c v h k

-- The last space is a blank.
abbrev BlankAt : Text → Option ℕ → Type 0
BlankAt text none = Unit {0}
BlankAt text (some i) = is_blank (byte_at i text) ≡ true

BlankAt-set :
    (text : Text) (i v : ℕ) (s : Option ℕ)
    → BlankAt text s
    → is_blank v ≡ true
    → BlankAt (set text i v) s
BlankAt-set text i v none h k = tt
BlankAt-set text i v (some j) h k = is_blank-set text i j v h k

-- The same text but for blanks, with a blank as the last space.
abbrev Keeps : Text → Wrap → Type 0
Keeps text w = (levelled w.text ≡ levelled text) × BlankAt w.text w.last_space

if-Keeps :
    (b : Bool) (text : Text) (x y : Wrap)
    → Keeps text x
    → Keeps text y
    → Keeps text (if b then x else y)
if-Keeps true text x y hx hy = hx
if-Keeps false text x y hx hy = hy

when-Keeps :
    (b : Bool) (text : Text) (x y : Wrap)
    → (b ≡ true → Keeps text x)
    → Keeps text y
    → Keeps text (if b then x else y)
when-Keeps true text x y hx hy = hx refl
when-Keeps false text x y hx hy = hy

break_at-Keeps :
    (c : ℕ) (s : Option ℕ) (text : Text) (w : Wrap)
    → Keeps text w
    → BlankAt w.text s
    → Keeps text (break_at c s w)
break_at-Keeps c none text w h b = h
break_at-Keeps c (some s) text w h b = (levelled-set w.text s b'\n' b refl ∙ h.0, tt)

break_line-Keeps :
    (ch c : ℕ) (text : Text) (w : Wrap) → Keeps text w → Keeps text (break_line ch c w)
break_line-Keeps ch c text w h =
    if-Keeps (ltb maxcol w.col && not (ch == b'\n')) text (break_at c w.last_space w) w
      (break_at-Keeps c w.last_space text w h h.1) h

break_at-blank :
    (c k : ℕ) (s : Option ℕ) (w : Wrap)
    → is_blank (byte_at k w.text) ≡ true
    → is_blank (byte_at k (break_at c s w).text) ≡ true
break_at-blank c k none w h = h
break_at-blank c k (some s) w h = is_blank-set w.text s k b'\n' h refl

break_line-blank :
    (ch c k : ℕ) (w : Wrap)
    → is_blank (byte_at k w.text) ≡ true
    → is_blank (byte_at k (break_line ch c w).text) ≡ true
break_line-blank ch c k w h = elim (Bool-cases (ltb maxcol w.col && not (ch == b'\n'))) [
  | inl e ↦ rw e (break_at-blank c k w.last_space w h)
  | inr e ↦ rw e h
]

space-Keeps :
    (c : ℕ) (text : Text) (w : Wrap)
    → is_blank (byte_at c w.text) ≡ true
    → Keeps text w
    → Keeps text (space c w)
space-Keeps c text w b h =
    if-Keeps (ltb maxcol w.col) text
      (record w { text = set w.text c b'\n'; last_space = none; col = 0 })
      (record w { last_space = some c; col = w.col + 1 })
      (levelled-set w.text c b'\n' b refl ∙ h.0, tt) (h.0, b)

tab-Keeps :
    (c : ℕ) (text : Text) (w : Wrap)
    → is_blank (byte_at c w.text) ≡ true
    → Keeps text w
    → Keeps text (tab c w)
tab-Keeps c text w b h =
    space-Keeps c text (record w { text = set w.text c b' ' }) (is_blank-set w.text c c b' ' b refl)
      (levelled-set w.text c b' ' b refl ∙ h.0, BlankAt-set w.text c b' ' w.last_space h.1 refl)

newline-Keeps :
    (c : ℕ) (text : Text) (w : Wrap)
    → is_blank (byte_at c w.text) ≡ true
    → Keeps text w
    → Keeps text (newline c w)
newline-Keeps c text w b h =
    let next : ℕ = byte_at (c + 1) w.text in
    if-Keeps
      (w.have_wrapped && (ltb w.col mincol && not (next == b'\n' || (next == b' ' || next == 0))))
      text (record w { text = set w.text c b' '; col = w.col + 1; last_space = some c })
      (record w { last_space = none; col = 0; have_wrapped = false })
      (levelled-set w.text c b' ' b refl ∙ h.0, is_blank-set w.text c c b' ' b refl) (h.0, tt)

-- A byte that is one of the three blanks.
blank_of : (ch k : ℕ) → is_blank k ≡ true → ch == k ≡ true → is_blank ch ≡ true
blank_of ch k h e = ground (arith, h, e)

wrap_step-Keeps :
    (c : ℕ) (text : Text) (w : Wrap) → Keeps text w → Keeps text (wrap_step (byte_at c w.text) c w)
unfolding wrap_step
wrap_step-Keeps c text w h =
    let ch : ℕ = byte_at c w.text in
    let w' : Wrap = break_line ch c w in
    let h' : Keeps text w' = break_line-Keeps ch c text w h in
    let blank : is_blank ch ≡ true → is_blank (byte_at c w'.text) ≡ true =
      break_line-blank ch c c w in
    let counted : Wrap = record w' { col = w'.col + 1 } in
    let spaced : Wrap = if ch == b' ' then space c w' else counted in
    let tabbed : Wrap = if ch == b'\t' then tab c w' else spaced in
    when-Keeps (ch == b'\n') text (newline c w') tabbed
      (λ n. newline-Keeps c text w' (blank (blank_of ch b'\n' refl n)) h')
      (when-Keeps (ch == b'\t') text (tab c w') spaced
        (λ t. tab-Keeps c text w' (blank (blank_of ch b'\t' refl t)) h')
        (when-Keeps (ch == b' ') text (space c w') counted
          (λ s. space-Keeps c text w' (blank (blank_of ch b' ' refl s)) h') h'))

wrap_loop-Keeps :
    (left c : ℕ) (text : Text) (w : Wrap) → Keeps text w → Keeps text (wrap_loop left c w)
unfolding wrap_loop
wrap_loop-Keeps zero c text w h = h
wrap_loop-Keeps (suc left) c text w h =
    wrap_loop-Keeps left (c + 1) text (wrap_step (byte_at c w.text) c w)
      (wrap_step-Keeps c text w h)

-- `wrap_text` only turns spaces, tabs and newlines into one another: with a space for each of these
-- bytes, the text behind it is the same, byte for byte and in the same length.
pub levelled-wrap_text : (text : Text) → levelled (wrap_text text) ≡ levelled text
unfolding wrap_text
levelled-wrap_text text =
    (wrap_loop-Keeps (length text) 0 text
      (record { text = text; col = 0; last_space = none; have_wrapped = false }) (refl, tt)).0
