-- ===== src/Bank/Cells.antt =====
-- The file of balances in soft/apps/bank/bank.c: one `long` for each uid. An even cell is no
-- account (0) or the time at which an account opens; an odd cell holds a balance.
pub mod Accounts
pub mod Totals
use mnetsoft.Base.{
  ◌+◌, ◌-◌, ◌%◌, ℕ, zero, suc, Bool, true, false, Option, none, some, List, [], ◌∷◌, if◌then◌else◌,
  get_elem?, ◌==◌,
}
use mnetsoft.Base.Int.{ℤ, pos, negsuc, ◌+ℤ◌}
use mnetsoft.Base.Long.{wrap, is_even, half, twice_add_one}

-- What `balance` returns: 0, 1 and 2.
pub data Status : Type 0 where
  opened absent waiting : Status

abbrev pub init_balance : ℤ
init_balance = pos 10

abbrev pub is_zero : ℤ → Bool
is_zero (pos n) = n == 0
is_zero (negsuc n) = false

-- the tests behind the `read` of `balance`; `bal` is `*bal`
abbrev pub read_status : Option ℤ → ℤ → Status × ℤ
read_status none bal = (absent, bal)
read_status (some c) bal =
    if is_even c then (if is_zero c then absent else waiting, c) else (opened, half c)

-- `balance`: the status and the new `*bal`. A seek to a negative offset fails.
unfoldable pub balance : List ℤ → ℤ → ℤ → Status × ℤ
balance bf (pos n) bal = read_status (get_elem? bf n) bal
balance bf (negsuc n) bal = (absent, bal)

-- Writing past the end leaves a hole of zeros.
unfoldable pub write_cell : List ℤ → ℕ → ℤ → List ℤ
write_cell [] zero c = c ∷ []
write_cell [] (suc n) c = pos 0 ∷ write_cell [] n c
write_cell (x ∷ xs) zero c = c ∷ xs
write_cell (x ∷ xs) (suc n) c = x ∷ write_cell xs n c

unfoldable pub writebalance : List ℤ → ℤ → ℤ → List ℤ
unfolding write_cell
writebalance bf (pos n) c = write_cell bf n c
writebalance bf (negsuc n) c = bf

-- `oldbal` in `addbalance`
abbrev pub old_balance : Option ℤ → ℤ
old_balance none = init_balance
old_balance (some c) = if is_even c then init_balance else half c

-- what `addbalance` does to the file while it holds the lock
unfoldable pub credit : List ℤ → ℕ → ℤ → List ℤ
unfolding writebalance
credit bf n bal =
    writebalance bf (pos n) (twice_add_one (wrap (bal +ℤ old_balance (get_elem? bf n))))

-- the cell that `openaccount` writes at the time `now`: an even time, a day ahead
abbrev pub opening_time : ℕ → ℕ
opening_time now = let tm = now + 86400 in if tm % 2 == 1 then tm - 1 else tm
