-- ===== src/Bank/Rich.antt =====
-- The reports of soft/apps/bank/bank.c over all the accounts: `wealthy` and `listall`.
pub mod Ranking
pub mod Table
use mnetsoft.Base.{
  ℕ, zero, suc, ◌+◌, Bool, true, false, Option, none, some, List, [], ◌∷◌, ◌++◌, if◌then◌else◌, ltb,
  get_or, set, take,
}
use mnetsoft.Base.Int.{ℤ, pos, ltb_ℤ}
use mnetsoft.Base.Long.{is_even}
use mnetsoft.Base.Text.{Text}
use mnetsoft.Bank.Cells.Totals.{listed}
use mnetsoft.Bank.World.{World, Notice, listed_account, said}
use mnetsoft.Bank.Ledger.{closeaccount}
use mnetsoft.Bank.Teller.{Session}

-- an element of `rich`
pub record Holder : Type 0 where
  pub uid : ℕ
  pub bucks : ℤ

abbrev pub no_holder : Holder
no_holder = record { uid = 0; bucks = pos 0 }

-- The inner `for` loop, from `i` down: the array and the final `i`.
unfoldable pub slide : ℕ → ℤ → List Holder → List Holder × ℕ
slide zero new rich = (rich, 0)
slide (suc i) new rich = elim (ltb_ℤ (get_or rich i no_holder).bucks new) [
  | true ↦ slide i new (if ltb (suc i) 10 then set rich (suc i) (get_or rich i no_holder) else rich)
  | false ↦ (rich, suc i)
]

-- what follows the loop, with its final `i`: the array with the new element, and the new `n`
unfoldable pub store_rich : Holder → ℕ → List Holder × ℕ → List Holder × ℕ
store_rich h n (rich, i) =
    if ltb i 10 then (set rich i h, if ltb n 10 then suc n else n) else (rich, n)

unfoldable pub place_rich : Holder → List Holder × ℕ → List Holder × ℕ
unfolding slide store_rich
place_rich h (rich, n) = store_rich h n (slide n h.bucks rich)

-- the outer loop, from the cell of `cuid` on
unfoldable pub rank_cells : ℕ → List ℤ → List Holder × ℕ → List Holder × ℕ
unfolding place_rich
rank_cells cuid [] t = t
rank_cells cuid (c ∷ cs) t =
    rank_cells (suc cuid) cs
      (if is_even c then t else place_rich (record { uid = cuid; bucks = listed c }) t)

-- `rich` and `n` behind the loops; `junk` is what the array holds at first.
unfoldable pub wealthy_table : List Holder → List ℤ → List Holder
unfolding rank_cells
wealthy_table junk [] = []
wealthy_table junk (c ∷ cs) =
    let (rich, n) = rank_cells 1 cs (set junk 0 (record { uid = 0; bucks = c }), 0) in take n rich

-- A line of a report; an account whose user is gone is closed.
unfoldable pub report_account : Session → ℕ → ℤ → World → World
report_account s uid bucks w = elim (s.getpwuid (pos uid)) [
  | none ↦ closeaccount (pos uid) w
  | some name ↦ said (listed_account (pos uid) name bucks) w
]

unfoldable pub report_all : Session → List Holder → World → World
unfolding report_account
report_all s [] w = w
report_all s (h ∷ hs) w = report_all s hs (report_account s h.uid h.bucks w)

unfoldable pub wealthy : Session → List Holder → World → World
unfolding wealthy_table report_all
wealthy s junk w = report_all s (wealthy_table junk w.bank) w

-- `listall`: the cells are read one by one while accounts are closed; a cell that is closed is
-- one that has been read.
unfoldable pub list_cells : Session → ℕ → List ℤ → World → World
unfolding report_account
list_cells s cuid [] w = w
list_cells s cuid (c ∷ cs) w =
    list_cells s (suc cuid) cs (if is_even c then w else report_account s cuid (listed c) w)

unfoldable pub listall : Session → World → World
unfolding list_cells
listall s w = list_cells s 0 w.bank w
