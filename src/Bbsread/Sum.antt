-- ===== src/Bbsread/Sum.antt =====
-- The sum file of a conference (soft/cmd/bbsread/sum.c): one entry for each item.
pub mod Items
pub mod Backwards
pub mod Order
use mnetsoft.Base.{
  ℕ, zero, suc, ◌+◌, ◌-◌, ◌*◌, ◌/◌, ◌%◌, ◌^◌, ◌≡◌, refl, Bool, true, false, not, ◌||◌, Option, none,
  some, List, [], ◌∷◌, if◌then◌else◌, ◌==◌, ltb, get_elem?, length, drop,
}
use mnetsoft.Base.Int.{ℤ, pos, negsuc}
use mnetsoft.Bbsread.Parse.{minus_one, is_minus_one}
use mnetsoft.Bbsread.Part.{Pfe, lost_items}

-- struct sume, without its flags and the date of the item
pub record Sume : Type 0 where
  pub resp_no : ℕ
  pub resp_date : ℕ

abbrev pub headsize : ℕ
headsize = 20

-- items_in: `size` is that of the file, `entry` that of a struct; the type is unsigned.
unfoldable pub items_in : ℕ → ℕ → ℕ
items_in entry size = (size + 2 ^ 64 - 2 * entry + headsize) % 2 ^ 64 / entry

-- The test for an item that is there.
abbrev pub is_there : Sume → Bool
is_there s = not (s.resp_no == 0) || not (s.resp_date == 0)

-- What `next_item` and `prev_item` return.
pub data Found : Type 0 where
  found : ℕ → ℕ → Found
  at_end : Found

-- The loop of `next_item` over the entries that are left: what is found, and the new `sum_item`.
unfoldable pub next_from : List Sume → ℕ → Found × ℕ
next_from [] sum_item = (at_end, sum_item)
next_from (s ∷ ss) sum_item =
    if is_there s then (found sum_item s.resp_no, sum_item + 1) else next_from ss (sum_item + 1)

-- The items that were passed over are lost.
abbrev pub lose_passed : ℕ → Found → ℕ → List Pfe → List Pfe
lose_passed start (found item _) sum_item pfs =
    if item == start then pfs else lost_items start (pos (item - 1)) pfs
lose_passed start at_end sum_item pfs =
    if sum_item == start then pfs else lost_items start minus_one pfs

-- `next_item`; the file stands at the entry of `sum_item`, which is above 0.
unfoldable pub next_item : List Sume → ℕ → List Pfe → Found × ℕ × List Pfe
unfolding next_from
next_item sums sum_item pfs =
    let (f, sum_item') = next_from (drop (sum_item - 1) sums) sum_item in
    (f, sum_item', lose_passed sum_item f sum_item' pfs)

-- The loop of `prev_item`, downwards; `none` where an entry cannot be read, which ends the program.
unfoldable pub prev_from : List Sume → ℕ → Option (Found × ℕ)
prev_from sums zero = some (at_end, 0)
prev_from sums (suc k) = elim (get_elem? sums k) [
  | none ↦ none
  | some s ↦ elim (is_there s) [
    | true ↦ some (found (suc k) s.resp_no, k)
    | false ↦ prev_from sums k
  ]
]

abbrev pub lose_passed_back : ℕ → Found → ℕ → List Pfe → List Pfe
lose_passed_back start (found item _) sum_item pfs =
    if item == start then pfs else lost_items (item + 1) (pos start) pfs
lose_passed_back start at_end sum_item pfs =
    if sum_item == start then pfs else lost_items 1 (pos start) pfs

unfoldable pub prev_item : List Sume → ℕ → List Pfe → Option (Found × ℕ × List Pfe)
unfolding prev_from
prev_item sums sum_item pfs = elim (prev_from sums sum_item) [
  | none ↦ none
  | some (f, sum_item') ↦ some (f, sum_item', lose_passed_back sum_item f sum_item' pfs)
]
