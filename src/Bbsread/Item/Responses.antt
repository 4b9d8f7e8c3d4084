-- ===== src/Bbsread/Item/Responses.antt =====
-- What `dispitem` of soft/cmd/bbsread/readitem.c returns.
use mnetsoft.Base.{
  ℕ, ◌+◌, ◌≡◌, refl, sym, Bool, true, false, not, ◌&&◌, ◌||◌, Option, none, some, List, [], ◌∷◌,
  if◌then◌else◌, ◌==◌, length, drop, arith, Bool-cases, inl, inr,
}
use mathlib.Core.Path.{subst}
use mnetsoft.Base.Int.{ℤ, pos, ◌-ℤ◌}
use mnetsoft.Base.Text.{Text, codes, fgets, same_text, same_text_iff}
use mnetsoft.Bbsread.Parse.{head, tail, firstin}
use mnetsoft.Bbsread.PartFile.{bfsz}
use mnetsoft.Bbsread.Item.{
  Shown, Request, Page, Line, goes_on, header_done, weird, print_text, user_line, date_line,
  end_line, flags_line, mark_line, item_line, item_loop, lines_within, item_magic, start_page,
  dispitem, behind_line, overlay,
}

-- Whether a line ends the item or a response, and whether the next flags line will end one too,
-- behind a line of text that was opened.
abbrev mark_ends : Bool → ℕ → ℕ
mark_ends ready mark = if mark == b'E' then 1 else if mark == b'R' && ready then 1 else 0

abbrev mark_opens : Bool → ℕ → Bool
mark_opens ready mark =
    if mark == b'T' then true else if mark == b'E' || mark == b'R' then false else ready

abbrev line_ends : Bool → Text → ℕ
line_ends ready line = if head line == b',' then mark_ends ready (head (tail line)) else 0

abbrev line_opens : Bool → Text → Bool
line_opens ready line = if head line == b',' then mark_opens ready (head (tail line)) else ready

abbrev pub ends : Bool → List Text → ℕ
ends ready [] = 0
ends ready (line ∷ lines) = line_ends ready line + ends (line_opens ready line) lines

-- The lines that `dispitem` knows; that of a user has a comma behind the uid.
abbrev is_known : ℕ → Text → Bool
is_known mark arg =
    mark == b'H'
    || (mark == b'A'
        || (mark == b'D'
            || (mark == b'T'
                || (mark == b'R'
                    || (mark == b'E'
                        || (mark == b':'
                            || (mark == b','
                                || (mark == b'U' && head (firstin arg (codes ",")) == b','))))))))

abbrev is_good : Text → Bool
is_good line = not (head line == b',') || is_known (head (tail line)) (drop 2 line)

abbrev pub all_good : List Text → Bool
all_good [] = true
all_good (line ∷ lines) = is_good line && all_good lines

-- A line that is worked off, with these numbers behind it.
abbrev Counts : ℕ → Bool → Line → Type 0
Counts n ready (goes_on p) = (p.resp ≡ n) × (not p.did_e ≡ ready)
Counts n ready (header_done shown) = ⊥
Counts n ready weird = ⊥

mark_line-Counts :
    (q : Request) (mark : ℕ) (line : Text) (p : Page)
    → q.show_header == 2 ≡ false
    → is_known mark (drop 2 line) ≡ true
    → Counts
        (p.resp + mark_ends (not p.did_e) mark)
        (mark_opens (not p.did_e) mark)
        (mark_line q mark line p)
unfolding mark_line user_line date_line flags_line end_line print_text
mark_line-Counts q mark line p s k = ground arith

-- The variables that count are the same with a new line in the buffer.
item_line-Counts :
    (q : Request) (line : Text) (p : Page)
    → q.show_header == 2 ≡ false
    → is_good line ≡ true
    → Counts
        (p.resp + line_ends (not p.did_e) line)
        (line_opens (not p.did_e) line)
        (item_line q line p)
unfolding item_line print_text
item_line-Counts q line p s k = elim (Bool-cases (head line == b',')) [
  | inl e ↦
      let ready : Bool = not p.did_e in
      let mark : ℕ = head (tail line) in
      let x : Line = mark_line q mark line (record p { buf = overlay line p.buf }) in
      let n : line_ends ready line ≡ mark_ends ready mark = rw e refl in
      let b : line_opens ready line ≡ mark_opens ready mark = rw e refl in
      let c : Counts (p.resp + mark_ends ready mark) (mark_opens ready mark) x =
        mark_line-Counts q mark line (record p { buf = overlay line p.buf }) s
          (ground (arith, e, k)) in
      rw (Counts, e)
        (subst (λ m. Counts (p.resp + m) (line_opens ready line) x) (sym n)
          (subst (λ o. Counts (p.resp + mark_ends ready mark) o x) (sym b) c))
  | inr e ↦ ground (arith, e)
]

-- What the loop returns: one less than the number of ends.
abbrev pub Ends : ℕ → Option (ℤ × List Shown) → Type 0
Ends n none = ⊥
Ends n (some (last, shown)) = last ≡ pos n -ℤ pos 1

behind_line-Ends :
    (f : Page → Option (ℤ × List Shown)) (n : ℕ) (ready : Bool) (lines : List Text) (x : Line)
    → Counts n ready x
    → ((p : Page) → Ends (p.resp + ends (not p.did_e) lines) (f p))
    → Ends (n + ends ready lines) (behind_line f x)
behind_line-Ends f n ready lines (goes_on p) c h =
    subst (λ m. Ends (m + ends ready lines) (f p)) c.0
      (subst (λ b. Ends (p.resp + ends b lines) (f p)) c.1 (h p))
behind_line-Ends f n ready lines (header_done shown) c h = elim c [ ]
behind_line-Ends f n ready lines weird c h = elim c [ ]

item_loop-Ends :
    (q : Request) (lines : List Text) (p : Page)
    → q.show_header == 2 ≡ false
    → all_good lines ≡ true
    → Ends (p.resp + ends (not p.did_e) lines) (item_loop q lines p)
unfolding item_loop
item_loop-Ends q [] p s k = ground arith
item_loop-Ends q (line ∷ lines) p s k =
    let n : ℕ = p.resp + line_ends (not p.did_e) line in
    let ready : Bool = line_opens (not p.did_e) line in
    let r : Ends (n + ends ready lines) (behind_line (item_loop q lines) (item_line q line p)) =
      behind_line-Ends (item_loop q lines) n ready lines (item_line q line p)
        (item_line-Counts q line p s (ground (arith, k)))
        (λ p'. item_loop-Ends q lines p' s (ground (arith, k))) in
    subst (λ m. Ends m (behind_line (item_loop q lines) (item_line q line p))) (omega arith) r

-- A file that begins with the magic line, and has known lines behind it.
pub record IsItemFile (file rest : Text) : Type 0 where
  pub starts : fgets bfsz file ≡ some (item_magic, rest)
  pub good : all_good (lines_within (length rest) rest) ≡ true

-- Of a file that begins with the magic line and has only known lines behind it, `dispitem` returns,
-- unless it shows the header only, the number of ends of the item and its responses less one, that
-- is the number of the file's last response: whichever responses were to be displayed.
pub dispitem-Ends :
    (q : Request) (file rest : Text)
    → q.show_header == 2 ≡ false
    → IsItemFile file rest
    → Ends (ends false (lines_within (length rest) rest)) (dispitem q (some file))
unfolding dispitem
dispitem-Ends q file rest s f =
    let same : same_text item_magic item_magic ≡ true =
      (same_text_iff item_magic item_magic).1 refl in
    rw (Ends, f.starts, same)
      (subst (λ n. Ends n (item_loop q (lines_within (length rest) rest) start_page)) (omega arith)
        (item_loop-Ends q (lines_within (length rest) rest) start_page s f.good))
