-- ===== src/Bbsread/Forget/Flips.antt =====
-- What soft/cmd/bbsread/forget.c leaves in the participation file.
use mnetsoft.Base.{
  ℕ, ◌+◌, ◌<◌, ◌≡◌, refl, sym, ap, ◌∙◌, Bool, false, not, Option, none, some, List, [], ◌∷◌, map,
  if◌then◌else◌, ◌==◌, length, arith, Bool-cases, inl, inr,
}
use mnetsoft.Base.Int.{ℤ, ◌-ℤ◌}
use mnetsoft.Base.Text.{Text}
use mnetsoft.Base.Lines.{HasNoNewline}
use mnetsoft.Bbsread.Parse.{minus_one}
use mnetsoft.Bbsread.Part.{Pfe, last_read, update_item, updates}
use mnetsoft.Bbsread.Part.Entries.{
  AreAbove, IsSorted, entry, reading, updated, last_read-entry, entry-update_item, apply-IsSorted,
}
use mnetsoft.Bbsread.PartFile.{pfread, pfwrite, bfsz}
use mnetsoft.Bbsread.PartFile.RoundTrip.{reopened}
use mnetsoft.Bbsread.PartFile.Whole.{AreWritable, live, pfread-pfwrite}
use mnetsoft.Bbsread.Forget.{
  Outcome, usage, no_item, not_member, weird_pf, remembered, forgot, forget, forget_item,
}
use mnetsoft.Bbsread.Main.{opened}

-- The list that is read from a file that was written of another one.
abbrev pub reread : List Pfe → List Pfe
reread pfs = map reopened (live pfs)

AreAbove-reread : (a : ℕ) (pfs : List Pfe) → AreAbove a pfs → AreAbove a (reread pfs)
AreAbove-reread a [] h = tt
AreAbove-reread a (pf ∷ pfs) h = ground (arith, AreAbove-reread a pfs h.1)

reread-IsSorted : (pfs : List Pfe) → IsSorted pfs → IsSorted (reread pfs)
reread-IsSorted [] h = tt
reread-IsSorted (pf ∷ pfs) h =
    ground (arith, AreAbove-reread pf.item_no pfs h.0, reread-IsSorted pfs h.1)

-- No entry is deleted.
abbrev AllLive : List Pfe → Type 0
AllLive [] = Unit {0}
AllLive (pf ∷ pfs) = (pf.deleted ≡ false) × AllLive pfs

reread-AllLive : (pfs : List Pfe) → AllLive (reread pfs)
reread-AllLive [] = tt
reread-AllLive (pf ∷ pfs) = ground (arith, reread-AllLive pfs)

update_item-AllLive :
    (item : ℕ) (resp : ℤ) (now : ℕ) (pfs : List Pfe)
    → AllLive pfs
    → AllLive (update_item item resp now pfs)
unfolding update_item
update_item-AllLive item resp now [] h = ground arith
update_item-AllLive item resp now (pf ∷ pfs) h =
    ground (arith, update_item-AllLive item resp now pfs h.1)

last_read-reread :
    (j : ℕ) (pfs : List Pfe) → AllLive pfs → last_read j (reread pfs) ≡ last_read j pfs
unfolding last_read
last_read-reread j [] h = refl
last_read-reread j (pf ∷ pfs) h = ground (arith, last_read-reread j pfs h.1)

last_read-update_item :
    (item j now : ℕ) (resp : ℤ) (pfs : List Pfe)
    → IsSorted pfs
    → last_read j (update_item item resp now pfs) ≡ (
        if item == j
        then reading (some (updated item resp now (entry item pfs)))
        else last_read j pfs)
last_read-update_item item j now resp pfs s =
    let after : IsSorted (update_item item resp now pfs) =
      apply-IsSorted (updates item resp now) pfs s in
    let e =
      last_read-entry j (update_item item resp now pfs) after
      ∙ ap reading (entry-update_item item resp now j pfs s) in
    elim (Bool-cases (item == j)) [
      | inl same ↦ e ∙ rw same refl
      | inr other ↦ e ∙ rw other (sym (last_read-entry j pfs s))
    ]

-- The mark of a forgotten item is the other one, the number of responses that are read is the same.
abbrev pub flipped : ℤ × Bool → ℤ × Bool
flipped (resp, forgotten) = (resp, not forgotten)

reading-flipped :
    (item now : ℕ) (e : Option Pfe)
    → reading (some (updated item minus_one now e)) ≡ flipped (reading e)
unfolding ◌-ℤ◌
reading-flipped item now none = ground arith
reading-flipped item now (some pf) = refl

-- What the outcome of `forget` writes, where it does.
abbrev pub written_by : Outcome → Option Text
written_by (remembered text) = some text
written_by (forgot text) = some text
written_by usage = none
written_by no_item = none
written_by not_member = none
written_by weird_pf = none

forget_item-written :
    (item now : ℕ) (alias : Text) (pfs : List Pfe)
    → written_by (forget_item item now (record { no_pf = false; alias = alias; pfs = pfs }))
      ≡ some (pfwrite alias (update_item item minus_one now pfs))
unfolding forget_item
forget_item-written item now alias pfs = elim (Bool-cases ((last_read item pfs).1)) [
  | inl e ↦ rw (forget_item, written_by, e) refl
  | inr e ↦ rw (forget_item, written_by, e) refl
]

forget-pfread :
    (file alias gecos : Text) (pfs : List Pfe) (item now : ℕ) (join_conf : Bool)
    → pfread file ≡ some (alias, pfs)
    → forget join_conf (some file) gecos item now
      ≡ forget_item item now (record { no_pf = false; alias = alias; pfs = pfs })
unfolding forget
forget-pfread file alias gecos pfs item now join_conf e = rw (forget, opened, e) refl

last_read-forgotten :
    (item now j : ℕ) (old : List Pfe)
    → IsSorted old
    → AllLive old
    → last_read j (reread (update_item item minus_one now old))
      ≡ (if item == j then flipped (last_read item old) else last_read j old)
last_read-forgotten item now j old s l =
    let e =
      last_read-reread j (update_item item minus_one now old)
        (update_item-AllLive item minus_one now old l)
      ∙ last_read-update_item item j now minus_one old s in
    elim (Bool-cases (item == j)) [
      | inl same ↦
          e
          ∙ rw same (
              reading-flipped item now (entry item old)
              ∙ ap flipped (sym (last_read-entry item old s)))
      | inr other ↦ e ∙ rw other refl
    ]

-- A participation file of `pfwrite`, with an alias without a newline that fits its line, its items
-- in ascending order, and entries that can be written and read back, also when the entry of the
-- item is changed: `forget` writes a file in which `last_read` finds the item forgotten if it was
-- not, and not forgotten if it was, with the same number of responses read, and all other items as
-- they were.
pub forget-flipped :
    (alias gecos : Text) (pfs : List Pfe) (item now : ℕ) (join_conf : Bool)
    → HasNoNewline alias
    → length alias + 1 < bfsz
    → AreWritable pfs
    → IsSorted pfs
    → AreWritable (update_item item minus_one now (reread pfs))
    → (text : Text) × (new : List Pfe) × (written_by
          (forget join_conf (some (pfwrite alias pfs)) gecos item now)
        ≡ some text)
      × (pfread text ≡ some (alias, new))
      × ((j : ℕ)
          → last_read j new ≡ (
              if item == j
              then flipped (last_read item (reread pfs))
              else last_read j (reread pfs)))
forget-flipped alias gecos pfs item now join_conf nn short w s w' =
    let old : List Pfe = reread pfs in
    let changed : List Pfe = update_item item minus_one now old in
    (
      pfwrite alias changed,
      reread changed,
      ap written_by (
            forget-pfread (pfwrite alias pfs) alias gecos old item now join_conf
              (pfread-pfwrite alias pfs nn short w))
          ∙ forget_item-written item now alias old,
      pfread-pfwrite alias changed nn short w',
      λ j. last_read-forgotten item now j old (reread-IsSorted pfs s) (reread-AllLive pfs),
    )
