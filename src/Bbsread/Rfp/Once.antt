-- ===== src/Bbsread/Rfp/Once.antt =====
-- An item that has been displayed is not chosen again (soft/cmd/bbsread/rfp.c).
use mathlib.Core.Path.{subst}
use mnetsoft.Base.{
  ℕ, suc, ◌+◌, ◌≡◌, refl, sym, ap, ◌∙◌, true, false, ◌&&◌, Option, none, some, if◌then◌else◌, ◌==◌,
  arith, ==_iff, Bool-cases, inl, inr,
}
use mnetsoft.Base.Int.{ℤ, pos, negsuc, ltb_ℤ, ◌-ℤ◌, ◌≤ℤ◌, +ℤ_cancel}
use mnetsoft.Bbsread.Part.{Pfe, last_read}
use mnetsoft.Bbsread.Part.Entries.{IsSorted, entry, reading, updated, last_read-entry}
use mnetsoft.Bbsread.Args.{Options}
use mnetsoft.Bbsread.Rfp.{World, Reader, stopped, passes, display_it, choose, skip, maybe_display}
use mnetsoft.Bbsread.Rfp.Sorted.{Sorted, shows-Sorted}
use mnetsoft.Bbsread.Rfp.Marks.{IsReady, Marked, display_it-Marked}

minus_one_more : (n : ℕ) → pos (suc n) -ℤ pos 1 ≡ pos n
unfolding ◌-ℤ◌
minus_one_more n = ground arith

reading-updated :
    (item n now : ℕ) (e : Option Pfe)
    → (reading e).1 ≡ false
    → reading (some (updated item (pos n) now e)) ≡ (pos n, false)
reading-updated item n now none h = ap (λ z. (z, false)) (+ℤ_cancel (pos n) (pos 1))
reading-updated item n now (some pf) h =
    ap (λ z. (z, pf.forgotten)) (+ℤ_cancel (pos n) (pos 1)) ∙ ap (λ f. (pos n, f)) h

-- An old item that is not to be displayed.
choose-old : (o : Options) (n : ℕ) → o.read_old ≡ false → choose o (pos n) (pos n) false ≡ skip
unfolding choose
choose-old o n h = ground (arith, h)

maybe_display-old :
    (w : World) (o : Options) (n : ℕ) (r : Reader)
    → o.read_old ≡ false
    → r.max_resp ≡ pos n
    → last_read r.curitem r.pfs ≡ (pos n, false)
    → maybe_display w o r ≡ stopped (record r { max_read = pos n })
unfolding maybe_display
maybe_display-old w o n r old m e = rw (maybe_display, e, m, choose-old o n old) refl

up_to_date : (m : ℤ) (n : ℕ) → ltb_ℤ m (pos n) ≡ false → m ≤ℤ pos n → m ≡ pos n
up_to_date (pos k) n ge le = ap pos (ground (arith, ge, le))
up_to_date (negsuc k) n ge le = absurd (ground (arith, ge))

-- What `last_read` says of the item behind the display.
last_read-Marked :
    (w : World) (r r' : Reader) (n : ℕ)
    → IsSorted r.pfs
    → IsSorted r'.pfs
    → Marked w r (suc n) r'
    → last_read r.curitem r.pfs ≡ (r.max_read, false)
    → r.max_read ≤ℤ pos n
    → last_read r.curitem r'.pfs ≡ (pos n, false)
last_read-Marked w r r' n s s' k e le =
    let c : ℕ = r.curitem in
    let after : ℤ → Option Pfe = λ z.
      if ltb_ℤ r.max_read z && c == c
      then some (updated c z (w.clock (r.turn + 1)) (entry c r.pfs))
      else entry c r.pfs in
    let entry' : entry c r'.pfs ≡ after (pos n) =
      subst (λ z. entry c r'.pfs ≡ after z) (minus_one_more n) (k c) in
    let same : c == c ≡ true = (==_iff c c).1 refl in
    let before : reading (entry c r.pfs) ≡ (r.max_read, false) =
      sym (last_read-entry c r.pfs s) ∙ e in
    elim (Bool-cases (ltb_ℤ r.max_read (pos n))) [
      | inl lt ↦
          let marked : after (pos n)
              ≡ some (updated c (pos n) (w.clock (r.turn + 1)) (entry c r.pfs)) =
            rw (lt, same) refl in
          last_read-entry c r'.pfs s'
          ∙ ap reading (entry' ∙ marked)
          ∙ reading-updated c n (w.clock (r.turn + 1)) (entry c r.pfs) (ap (λ z. z.1) before)
      | inr ge ↦
          let kept : after (pos n) ≡ entry c r.pfs = rw ge refl in
          last_read-entry c r'.pfs s'
          ∙ ap reading (entry' ∙ kept)
          ∙ before
          ∙ ap (λ z. (z, false)) (up_to_date r.max_read n ge le)
    ]

-- In a reading with a participation list in ascending order, not of extracted responses and where
-- old items are not to be read, behind a display that is not interrupted and not of a header only,
-- an item that is not forgotten is not displayed a second time: where `maybe_display` comes to it
-- again it finds nothing to do. The item's file is in order and has as many responses as the sum
-- file says, and no more are marked as read before.
pub maybe_display-once :
    (w : World) (o : Options) (first last : ℤ) (showhead n : ℕ) (r : Reader)
    → showhead == 2 ≡ false
    → IsReady w o r (suc n)
    → o.read_old ≡ false
    → r.max_resp ≡ pos n
    → last_read r.curitem r.pfs ≡ (r.max_read, false)
    → r.max_read ≤ℤ pos n
    → (r' : Reader) × (display_it w o first last showhead r ≡ some r')
      × (maybe_display w o r' ≡ stopped (record r' { max_read = pos n }))
maybe_display-once w o first last showhead n r s q old m e le =
    let (r', d, k, c, i, x) = display_it-Marked w o first last showhead (suc n) r s q in
    let sorted : IsSorted r'.pfs =
      subst (λ z. Sorted (passes z)) d (shows-Sorted w o first last showhead r q.sorted) in
    let e' : last_read r'.curitem r'.pfs ≡ (pos n, false) =
      subst (λ z. last_read z r'.pfs ≡ (pos n, false)) (sym i)
        (last_read-Marked w r r' n q.sorted sorted k e le) in
    (r', d, maybe_display-old w o n r' old (x ∙ m) e')
