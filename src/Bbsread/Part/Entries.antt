-- ===== src/Bbsread/Part/Entries.antt =====
-- The participation list of soft/cmd/bbsread/pf.c as a map from items to entries.
use mnetsoft.Base.{
  ℕ, ◌≤◌, ◌<◌, ◌≡◌, refl, Bool, true, false, not, ◌&&◌, Option, none, some, List, [], ◌∷◌,
  if◌then◌else◌, ◌==◌, leb, arith,
}
use mnetsoft.Base.Int.{ℤ, pos, negsuc, ltb_ℤ, ◌-ℤ◌}
use mnetsoft.Bbsread.Parse.{minus_one}
use mnetsoft.Bbsread.Part.{
  Pfe, last_read, touch, fresh, update_item, reset_item, mark_lost, lost_items, int_max, Act,
  updates, resets, loses, apply, run,
}

-- The items come in ascending order, each once.
abbrev pub AreAbove : ℕ → List Pfe → Type 0
AreAbove item [] = Unit {0}
AreAbove item (pf ∷ pfs) = (item < pf.item_no) × AreAbove item pfs

abbrev pub IsSorted : List Pfe → Type 0
IsSorted [] = Unit {0}
IsSorted (pf ∷ pfs) = AreAbove pf.item_no pfs × IsSorted pfs

-- The entry of an item, wherever it stands.
abbrev pub entry : ℕ → List Pfe → Option Pfe
entry item [] = none
entry item (pf ∷ pfs) = if pf.item_no == item then some pf else entry item pfs

AreAbove-trans : (a b : ℕ) (pfs : List Pfe) → a ≤ b → AreAbove b pfs → AreAbove a pfs
AreAbove-trans a b [] h all = tt
AreAbove-trans a b (pf ∷ pfs) h all = (omega arith, AreAbove-trans a b pfs h all.1)

pub entry-AreAbove :
    (a item : ℕ) (pfs : List Pfe) → item ≤ a → AreAbove a pfs → entry item pfs ≡ none
entry-AreAbove a item [] h all = refl
entry-AreAbove a item (pf ∷ pfs) h all = ground (arith, entry-AreAbove a item pfs h all.1)

abbrev pub reading : Option Pfe → ℤ × Bool
reading none = (minus_one, false)
reading (some pf) = (pf.resp_no -ℤ pos 1, pf.forgotten)

pub last_read-entry :
    (item : ℕ) (pfs : List Pfe) → IsSorted pfs → last_read item pfs ≡ reading (entry item pfs)
unfolding last_read
last_read-entry item [] s = refl
last_read-entry item (pf ∷ pfs) s =
    ground (arith, last_read-entry item pfs s.1, entry-AreAbove pf.item_no item pfs)

-- What an update makes of the entry.
abbrev pub updated : ℕ → ℤ → ℕ → Option Pfe → Pfe
updated item resp now none = fresh item resp now
updated item resp now (some pf) = touch resp now pf

-- On a list in ascending order `update_item` changes the entry of its item, or adds a new one, and
-- leaves the entries of all other items.
pub entry-update_item :
    (item : ℕ) (resp : ℤ) (now j : ℕ) (pfs : List Pfe)
    → IsSorted pfs
    → entry j (update_item item resp now pfs)
      ≡ (if item == j then some (updated item resp now (entry item pfs)) else entry j pfs)
unfolding update_item
entry-update_item item resp now j [] s = refl
entry-update_item item resp now j (pf ∷ pfs) s =
    ground (arith, entry-update_item item resp now j pfs s.1, entry-AreAbove pf.item_no item pfs)

AreAbove-update_item :
    (a item : ℕ) (resp : ℤ) (now : ℕ) (pfs : List Pfe)
    → a < item
    → AreAbove a pfs
    → AreAbove a (update_item item resp now pfs)
unfolding update_item
AreAbove-update_item a item resp now [] h all = (h, tt)
AreAbove-update_item a item resp now (pf ∷ pfs) h all =
    ground (arith, AreAbove-update_item a item resp now pfs h all.1)

update_item-IsSorted :
    (item : ℕ) (resp : ℤ) (now : ℕ) (pfs : List Pfe)
    → IsSorted pfs
    → IsSorted (update_item item resp now pfs)
unfolding update_item
update_item-IsSorted item resp now [] s = (tt, tt)
update_item-IsSorted item resp now (pf ∷ pfs) s = ground (
  arith,
  update_item-IsSorted item resp now pfs s.1,
  AreAbove-update_item pf.item_no item resp now pfs,
  AreAbove-trans item pf.item_no pfs,
)

-- A deleted entry.
abbrev pub dropped : Option Pfe → Option Pfe
dropped none = none
dropped (some pf) = some (record pf { deleted = true })

AreAbove-mark_lost :
    (a first : ℕ) (last : ℤ) (m : Bool) (pfs : List Pfe)
    → AreAbove a pfs
    → AreAbove a (mark_lost first last m pfs)
unfolding mark_lost
AreAbove-mark_lost a first last m [] all = tt
AreAbove-mark_lost a first last m (pf ∷ pfs) all = ground (
  arith,
  AreAbove-mark_lost a first last true pfs all.1,
  AreAbove-mark_lost a first last false pfs all.1,
)

-- Once it marks, the loop drops every entry up to the last.
entry-mark_lost_on :
    (first last j : ℕ) (pfs : List Pfe)
    → IsSorted pfs
    → entry j (mark_lost first (pos last) true pfs)
      ≡ (if leb j last then dropped (entry j pfs) else entry j pfs)
unfolding mark_lost
entry-mark_lost_on first last j [] s = ground arith
entry-mark_lost_on first last j (pf ∷ pfs) s =
    ground (arith, entry-mark_lost_on first last j pfs s.1, entry-AreAbove pf.item_no j pfs)

entry-mark_lost :
    (first last j : ℕ) (pfs : List Pfe)
    → IsSorted pfs
    → entry j (mark_lost first (pos last) false pfs)
      ≡ (if leb first j && leb j last then dropped (entry j pfs) else entry j pfs)
unfolding mark_lost
entry-mark_lost first last j [] s = ground arith
entry-mark_lost first last j (pf ∷ pfs) s = ground (
  arith,
  entry-mark_lost first last j pfs s.1,
  entry-mark_lost_on first last j pfs s.1,
  entry-AreAbove pf.item_no j pfs,
)

-- On a list in ascending order `lost_items` marks the entries of the items from the first to the
-- last as deleted, and no other; with -1 for the last item it marks nothing.
pub entry-lost_items :
    (first j : ℕ) (last : ℤ) (pfs : List Pfe)
    → IsSorted pfs
    → entry j (lost_items first last pfs)
      ≡ (if leb first j && not (ltb_ℤ last (pos j)) then dropped (entry j pfs) else entry j pfs)
unfolding lost_items
entry-lost_items first j (pos last) pfs s = ground (arith, entry-mark_lost first last j pfs s)
entry-lost_items first j (negsuc k) pfs s = ground arith

mark_lost-IsSorted :
    (first : ℕ) (last : ℤ) (m : Bool) (pfs : List Pfe)
    → IsSorted pfs
    → IsSorted (mark_lost first last m pfs)
unfolding mark_lost
mark_lost-IsSorted first last m [] s = tt
mark_lost-IsSorted first last m (pf ∷ pfs) s = ground (
  arith,
  mark_lost-IsSorted first last true pfs s.1,
  mark_lost-IsSorted first last false pfs s.1,
  AreAbove-mark_lost pf.item_no first last true pfs s.0,
  AreAbove-mark_lost pf.item_no first last false pfs s.0,
)

lost_items-IsSorted :
    (first : ℕ) (last : ℤ) (pfs : List Pfe) → IsSorted pfs → IsSorted (lost_items first last pfs)
unfolding lost_items
lost_items-IsSorted first last pfs s = ground (
  arith,
  mark_lost-IsSorted first (pos int_max) false pfs s,
  mark_lost-IsSorted first last false pfs s,
)

abbrev pub restored : Option Pfe → Option Pfe
restored none = none
restored (some pf) = some (record pf { resp_no = pf.old_resp_no })

entry-reset_item :
    (item j : ℕ) (pfs : List Pfe)
    → IsSorted pfs
    → entry j (reset_item item pfs) ≡ (if item == j then restored (entry j pfs) else entry j pfs)
unfolding reset_item
entry-reset_item item j [] s = ground arith
entry-reset_item item j (pf ∷ pfs) s =
    ground (arith, entry-reset_item item j pfs s.1, entry-AreAbove pf.item_no j pfs)

AreAbove-reset_item :
    (a item : ℕ) (pfs : List Pfe) → AreAbove a pfs → AreAbove a (reset_item item pfs)
unfolding reset_item
AreAbove-reset_item a item [] all = tt
AreAbove-reset_item a item (pf ∷ pfs) all = ground (arith, AreAbove-reset_item a item pfs all.1)

reset_item-IsSorted : (item : ℕ) (pfs : List Pfe) → IsSorted pfs → IsSorted (reset_item item pfs)
unfolding reset_item
reset_item-IsSorted item [] s = tt
reset_item-IsSorted item (pf ∷ pfs) s =
    ground (arith, reset_item-IsSorted item pfs s.1, AreAbove-reset_item pf.item_no item pfs)

pub apply-IsSorted : (a : Act) (pfs : List Pfe) → IsSorted pfs → IsSorted (apply a pfs)
apply-IsSorted (updates item resp now) pfs s = update_item-IsSorted item resp now pfs s
apply-IsSorted (resets item) pfs s = reset_item-IsSorted item pfs s
apply-IsSorted (loses first last) pfs s = lost_items-IsSorted first last pfs s

-- Updates, resets and losses, in any number and order, keep the list in ascending order with one
-- entry for each item.
pub run-IsSorted : (acts : List Act) (pfs : List Pfe) → IsSorted pfs → IsSorted (run acts pfs)
run-IsSorted [] pfs s = s
run-IsSorted (a ∷ acts) pfs s = run-IsSorted acts (apply a pfs) (apply-IsSorted a pfs s)
