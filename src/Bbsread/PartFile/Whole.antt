-- ===== src/Bbsread/PartFile/Whole.antt =====
-- The whole participation file, written and read back (soft/cmd/bbsread/pf.c).
use mnetsoft.Base.{
  ℕ, zero, suc, ◌+◌, ◌≤◌, ◌<◌, ◌≡◌, ◌≢◌, map, refl, sym, Bool, true, some, List, [], ◌∷◌, ◌++◌,
  if◌then◌else◌, length, length-append, arith, Bool-cases, inl, inr,
}
use mathlib.Core.Path.{subst}
use mnetsoft.Base.Lines.{HasNoNewline, fgets-line, HasNoNewline-append}
use mnetsoft.Base.Numerals.{
  decimal, hexadecimal, AreDigits, AreXdigits, decimal-cons, hexadecimal-cons,
}
use mnetsoft.Base.Text.{Text, codes, fgets, same_text, same_text_iff}
use mnetsoft.Bbsread.Part.{Pfe}
use mnetsoft.Bbsread.PartFile.{
  bfsz, read_entries, magic, upto_newline, pfread, show_int, pf_line, write_entries, pfwrite,
}
use mnetsoft.Bbsread.PartFile.RoundTrip.{reopened, IsWritable, read_line-pf_line}

AreDigits-HasNoNewline : (a : Text) → AreDigits a → HasNoNewline a
AreDigits-HasNoNewline [] h = tt
AreDigits-HasNoNewline (c ∷ cs) h = (ground (arith, h.0), AreDigits-HasNoNewline cs h.1)

AreXdigits-HasNoNewline : (a : Text) → AreXdigits a → HasNoNewline a
AreXdigits-HasNoNewline [] h = tt
AreXdigits-HasNoNewline (c ∷ cs) h = (ground (arith, h.0), AreXdigits-HasNoNewline cs h.1)

decimal-HasNoNewline : (v : ℕ) → HasNoNewline (decimal v)
decimal-HasNoNewline v =
    let (c, cs, e, d) = decimal-cons v in rw e (AreDigits-HasNoNewline (c ∷ cs) d)

hexadecimal-HasNoNewline : (v : ℕ) → HasNoNewline (hexadecimal v)
hexadecimal-HasNoNewline v =
    let (c, cs, e, d) = hexadecimal-cons v in rw e (AreXdigits-HasNoNewline (c ∷ cs) d)

pf_line-HasNoNewline : (pf : Pfe) → IsWritable pf → HasNoNewline (pf_line pf)
unfolding pf_line show_int
pf_line-HasNoNewline pf w =
    let sign : Text = if pf.forgotten then b'-' ∷ [] else [] in
    let space : ◌≢◌ {A = ℕ} b' ' b'\n' = omega arith in
    let date = hexadecimal-HasNoNewline pf.date in
    let count : HasNoNewline (show_int pf.resp_no) =
      subst (λ z. HasNoNewline (show_int z)) (sym w.counted) (decimal-HasNoNewline w.responses) in
    HasNoNewline-append (decimal pf.item_no)
      (b' ' ∷ (sign ++ (show_int pf.resp_no ++ (b' ' ∷ hexadecimal pf.date))))
      (decimal-HasNoNewline pf.item_no)
      (
        space,
        HasNoNewline-append sign (show_int pf.resp_no ++ (b' ' ∷ hexadecimal pf.date))
            (ground arith)
            (HasNoNewline-append (show_int pf.resp_no) (b' ' ∷ hexadecimal pf.date) count
              (space, date)),
      )

abbrev pub AreWritable : List Pfe → Type 0
AreWritable [] = Unit {0}
AreWritable (pf ∷ pfs) = IsWritable pf × AreWritable pfs

-- The entries that are not deleted, and their lines.
abbrev pub live : List Pfe → List Pfe
live [] = []
live (pf ∷ pfs) = if pf.deleted then live pfs else pf ∷ live pfs

abbrev lines : List Pfe → Text
lines [] = []
lines (pf ∷ pfs) = pf_line pf ++ (b'\n' ∷ lines pfs)

write_entries-lines : (pfs : List Pfe) → write_entries pfs ≡ lines (live pfs)
unfolding write_entries
write_entries-lines [] = refl
write_entries-lines (pf ∷ pfs) = ground (arith, write_entries-lines pfs)

live-AreWritable : (pfs : List Pfe) → AreWritable pfs → AreWritable (live pfs)
live-AreWritable [] w = tt
live-AreWritable (pf ∷ pfs) w =
    let rest = live-AreWritable pfs w.1 in
    let goal = λ (gone : Bool). AreWritable (if gone then live pfs else pf ∷ live pfs) in
    elim (Bool-cases pf.deleted) [
      | inl gone ↦ subst goal (sym gone) rest
      | inr here ↦ subst goal (sym here) (w.0, rest)
    ]

read_entries-lines :
    (fuel : ℕ) (pfs : List Pfe)
    → AreWritable pfs
    → length (lines pfs) ≤ fuel
    → read_entries fuel (lines pfs) ≡ some (map reopened pfs)
unfolding read_entries
read_entries-lines zero [] w h = refl
read_entries-lines (suc fuel) [] w h = unfold fgets in refl
read_entries-lines zero (pf ∷ pfs) w h =
    absurd (omega (arith, length-append (pf_line pf) (b'\n' ∷ lines pfs)))
read_entries-lines (suc fuel) (pf ∷ pfs) w h =
    let ih =
      read_entries-lines fuel pfs w.1
        (omega (arith, length-append (pf_line pf) (b'\n' ∷ lines pfs))) in
    rw
      (
        fgets-line bfsz (pf_line pf) (lines pfs) (pf_line-HasNoNewline pf w.0) w.0.fits,
        read_entries,
        read_line-pf_line pf w.0,
        ih,
      )
      refl

upto_newline-line : (l : Text) → HasNoNewline l → upto_newline (l ++ (b'\n' ∷ [])) ≡ l
upto_newline-line [] h = refl
upto_newline-line (c ∷ cs) h = ground (arith, h.0, upto_newline-line cs h.1)

-- An alias without a newline that fits its line, and entries that fit their lines, with numbers of
-- responses that are not negative and item numbers in the range of `atoi`, are read back as they
-- were written: the alias, and the entries that are not deleted, in their order, each with the
-- number of responses as the old one too.
pub pfread-pfwrite :
    (alias : Text) (pfs : List Pfe)
    → HasNoNewline alias
    → length alias + 1 < bfsz
    → AreWritable pfs
    → pfread (pfwrite alias pfs) ≡ some (alias, map reopened (live pfs))
unfolding pfread pfwrite
pfread-pfwrite alias pfs nn short w =
    let body : Text = write_entries pfs in
    let first =
      fgets-line bfsz (codes "!<pr03>") (alias ++ (b'\n' ∷ body)) (omega arith) (omega arith) in
    let second = fgets-line bfsz alias body nn short in
    let same : same_text magic magic ≡ true = (same_text_iff magic magic).1 refl in
    let read : read_entries (length body) body ≡ some (map reopened (live pfs)) =
      rw (write_entries-lines pfs) (
        read_entries-lines (length (lines (live pfs))) (live pfs) (live-AreWritable pfs w)
          (omega arith)) in
    rw (first, pfread, same, second, read, upto_newline-line alias nn) refl
