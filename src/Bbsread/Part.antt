-- ===== src/Bbsread/Part.antt =====
-- The list of the participation file in memory (soft/cmd/bbsread/pf.c): what the user has read of
-- each item.
pub mod Entries
use mnetsoft.Base.{
  ℕ, ◌-◌, ◌^◌, ◌≡◌, refl, Bool, true, false, not, List, [], ◌∷◌, if◌then◌else◌, ◌==◌, ltb, leb,
}
use mnetsoft.Base.Int.{ℤ, pos, negsuc, ◌+ℤ◌, ◌-ℤ◌, ltb_ℤ}
use mnetsoft.Bbsread.Parse.{minus_one, is_minus_one}

-- struct pfe; `deleted` is its field `delete`.
pub record Pfe : Type 0 where
  pub item_no : ℕ
  pub resp_no : ℤ
  pub forgotten : Bool
  pub old_resp_no : ℤ
  pub date : ℕ
  pub deleted : Bool

-- `last_read`: the number of the last response read, and whether the item is forgotten. (Where no
-- participation file is used, it is called on the empty list.)
unfoldable pub last_read : ℕ → List Pfe → ℤ × Bool
last_read item [] = (minus_one, false)
last_read item (pf ∷ pfs) =
    if ltb item pf.item_no
    then (minus_one, false)
    else if pf.item_no == item
    then (pf.resp_no -ℤ pos 1, pf.forgotten)
    else last_read item pfs

-- What `update_item` does to the entry of the item.
abbrev pub touch : ℤ → ℕ → Pfe → Pfe
touch resp now pf =
    let forgets = is_minus_one resp in
    record pf {
      forgotten = if forgets then not pf.forgotten else pf.forgotten;
      resp_no = if forgets then pf.resp_no else resp +ℤ pos 1;
      date = if forgets then pf.date else now;
    }

-- The new entry of `update_item`.
abbrev pub fresh : ℕ → ℤ → ℕ → Pfe
fresh item resp now =
    let forgets = is_minus_one resp in
    record {
      item_no = item;
      resp_no = if forgets then pos 0 else resp +ℤ pos 1;
      forgotten = forgets;
      old_resp_no = pos 0;
      date = if forgets then 0 else now;
      deleted = false;
    }

-- `update_item` at the time `now`.
unfoldable pub update_item : ℕ → ℤ → ℕ → List Pfe → List Pfe
update_item item resp now [] = fresh item resp now ∷ []
update_item item resp now (pf ∷ pfs) =
    if ltb item pf.item_no
    then fresh item resp now ∷ pf ∷ pfs
    else if pf.item_no == item
    then touch resp now pf ∷ pfs
    else pf ∷ update_item item resp now pfs

unfoldable pub reset_item : ℕ → List Pfe → List Pfe
reset_item item [] = []
reset_item item (pf ∷ pfs) =
    if ltb item pf.item_no
    then pf ∷ pfs
    else if pf.item_no == item
    then record pf { resp_no = pf.old_resp_no } ∷ pfs
    else pf ∷ reset_item item pfs

-- The loop of `lost_items`; `marking` is that `state` is 2.
unfoldable pub mark_lost : ℕ → ℤ → Bool → List Pfe → List Pfe
mark_lost first last marking [] = []
mark_lost first last marking (pf ∷ pfs) =
    let marks = if marking then true else leb first pf.item_no in
    let rest = mark_lost first last marks pfs in
    if not marks
    then pf ∷ rest
    else if ltb_ℤ last (pos pf.item_no)
    then pf ∷ pfs
    else record pf { deleted = true } ∷ rest

abbrev pub int_max : ℕ
int_max = 2 ^ 31 - 1

unfoldable pub lost_items : ℕ → ℤ → List Pfe → List Pfe
unfolding mark_lost
lost_items first last pfs =
    if ltb_ℤ last (pos first)
    then pfs
    else mark_lost first (if is_minus_one last then pos int_max else last) false pfs

-- The operations that the reader makes on the list, in any order.
pub data Act : Type 0 where
  updates : ℕ → ℤ → ℕ → Act
  resets : ℕ → Act
  loses : ℕ → ℤ → Act

abbrev pub apply : Act → List Pfe → List Pfe
apply (updates item resp now) pfs = update_item item resp now pfs
apply (resets item) pfs = reset_item item pfs
apply (loses first last) pfs = lost_items first last pfs

abbrev pub run : List Act → List Pfe → List Pfe
run [] pfs = pfs
run (a ∷ acts) pfs = run acts (apply a pfs)
