-- ===== src/Bbsread/Rfp/Marks.antt =====
-- What a display (soft/cmd/bbsread/rfp.c) marks as read.
use mathlib.Core.Path.{subst}
use mnetsoft.Base.{
  ℕ, ◌+◌, ◌≡◌, refl, ap, false, not, ◌&&◌, ◌||◌, Option, none, some, List, if◌then◌else◌, ◌==◌,
  length, arith, Bool-cases, inl, inr,
}
use mnetsoft.Base.Int.{ℤ, pos, ltb_ℤ, ◌+ℤ◌, ◌-ℤ◌}
use mnetsoft.Base.Text.{Text}
use mnetsoft.Bbsread.Part.Entries.{IsSorted, entry, updated, entry-update_item}
use mnetsoft.Bbsread.Args.{Options}
use mnetsoft.Bbsread.Item.{Shown, lines_within, dispitem}
use mnetsoft.Bbsread.Item.Responses.{ends, Ends, IsItemFile, dispitem-Ends}
use mnetsoft.Bbsread.Rfp.{World, Reader, say, page, mark_read, request, begun, display_it}

-- A reader with a participation file in order, in front of an item whose file is in order and that
-- is displayed without an interrupt; `n` is the number of the item and its responses.
pub record IsReady (w : World) (o : Options) (r : Reader) (n : ℕ) : Type 0 where
  pub sorted : IsSorted r.pfs
  pub member : r.no_pf ≡ false
  pub reading : o.extracting ≡ false
  pub quiet : w.interrupted r.turn ≡ false
  pub file : Text
  pub rest : Text
  pub at_item : w.item_file r.curitem ≡ some file
  pub good : IsItemFile file rest
  pub counted : ends false (lines_within (length rest) rest) ≡ n

-- The list behind the display: the entry of the current item says that all is read up to the last
-- response, if that is more than before; the other entries are the same.
abbrev pub Marked : World → Reader → ℕ → Reader → Type 0
Marked w r n r' =
    let last = pos n -ℤ pos 1 in
    (j : ℕ)
    → entry j r'.pfs ≡ (
        if ltb_ℤ r.max_read last && r.curitem == j
        then some (updated r.curitem last (w.clock (r.turn + 1)) (entry r.curitem r.pfs))
        else entry j r.pfs)

shown_of :
    (n : ℕ) (d : Option (ℤ × List Shown))
    → Ends n d
    → (shown : List Shown) × (d ≡ some (pos n -ℤ pos 1, shown))
shown_of n none h = elim h [ ]
shown_of n (some (last, shown)) h = (shown, ap (λ z. some (z, shown)) h)

entry-mark_read :
    (w : World) (o : Options) (first last : ℤ) (j : ℕ) (r : Reader)
    → IsSorted r.pfs
    → r.no_pf ≡ false
    → o.extracting ≡ false
    → entry j (mark_read w o first last r).pfs ≡ (
        if ltb_ℤ r.max_read last && r.curitem == j
        then some (updated r.curitem last (w.clock r.turn) (entry r.curitem r.pfs))
        else entry j r.pfs)
entry-mark_read w o first last j r s member reading = elim (Bool-cases (ltb_ℤ r.max_read last)) [
  | inl e ↦ rw (e, reading, member) (entry-update_item r.curitem last (w.clock r.turn) j r.pfs s)
  | inr e ↦ rw e refl
]

curresp-mark_read :
    (w : World) (o : Options) (first : ℤ) (n : ℕ) (r : Reader)
    → (mark_read w o first (pos n -ℤ pos 1) r).curresp ≡ pos n
unfolding ◌-ℤ◌ ◌+ℤ◌
curresp-mark_read w o first n r = ground arith

item-mark_read :
    (w : World) (o : Options) (first last : ℤ) (r : Reader)
    → ((mark_read w o first last r).curitem ≡ r.curitem)
      × ((mark_read w o first last r).max_resp ≡ r.max_resp)
item-mark_read w o first last r =
    elim (Bool-cases
      (ltb_ℤ r.max_read last && (not o.extracting || not (ltb_ℤ r.max_read first)))) [
        | inl e ↦ rw e (refl, refl)
        | inr e ↦ rw e (refl, refl)
      ]

display_it-dispitem :
    (w : World) (o : Options) (first last l : ℤ) (showhead : ℕ) (r : Reader) (file : Text)
    (shown : List Shown)
    → w.interrupted r.turn ≡ false
    → w.item_file r.curitem ≡ some file
    → dispitem (request r first last showhead) (some file) ≡ some (l, shown)
    → display_it w o first last showhead r
      ≡ some (mark_read w o first l (say (page shown) (begun first last showhead r)))
unfolding display_it
display_it-dispitem w o first last l showhead r file shown q a d = rw (display_it, q, a, d) refl

-- In a reading with a participation list in ascending order, not of extracted responses, a display
-- that is not interrupted, of an item whose file is in order, with any range of responses and not
-- of its header only, marks the whole item as read, up to the last response of its file, if that
-- is more than was read before; the entries of all other items are the same, the current response
-- is the one behind the last, and the item is still the current one.
pub display_it-Marked :
    (w : World) (o : Options) (first last : ℤ) (showhead n : ℕ) (r : Reader)
    → showhead == 2 ≡ false
    → IsReady w o r n
    → (r' : Reader) × (display_it w o first last showhead r ≡ some r')
      × Marked w r n r'
      × (r'.curresp ≡ pos n)
      × (r'.curitem ≡ r.curitem)
      × (r'.max_resp ≡ r.max_resp)
display_it-Marked w o first last showhead n r s q =
    let x = dispitem (request r first last showhead) (some q.file) in
    let d : Ends n x =
      subst (λ m. Ends m x) q.counted
        (dispitem-Ends (request r first last showhead) q.file q.rest s q.good) in
    let (shown, e) = shown_of n x d in
    let r' : Reader = say (page shown) (begun first last showhead r) in
    (
      mark_read w o first (pos n -ℤ pos 1) r',
      display_it-dispitem w o first last (pos n -ℤ pos 1) showhead r q.file shown q.quiet q.at_item
          e,
      (λ j. entry-mark_read w o first (pos n -ℤ pos 1) j r' q.sorted q.member q.reading),
      curresp-mark_read w o first n r',
      (item-mark_read w o first (pos n -ℤ pos 1) r').0,
      (item-mark_read w o first (pos n -ℤ pos 1) r').1,
    )
