-- ===== src/Bank/Cells/Totals.antt =====
-- The money in the file of balances, and what a credit does to it.
use mnetsoft.Base.{
  ℕ, zero, suc, ◌+◌, ◌*◌, ◌^◌, ◌≤◌, ◌≡◌, ◌≢◌, refl, List, [], ◌∷◌, arith, ◌==◌, if◌then◌else◌,
  get_elem?, get_or, ◌∙◌, ap,
}
use mnetsoft.Base.Int.{ℤ, pos, negsuc, ◌+ℤ◌, int_laws, parts_eq}
use mnetsoft.Base.Long.{wrap, wrap_lem, is_even, half, twice_add_one, neg, neg_parts}
use mnetsoft.Bank.Cells.Accounts.{account, account_of, holds, get_or-write_cell}
use mnetsoft.Bank.Cells.{write_cell, writebalance, old_balance, credit}

-- the amount that `listall` and `wealthy` read from an odd cell: (c - 1) / 2
unfoldable pub listed : ℤ → ℤ
unfolding half ◌+ℤ◌
listed c = half (c +ℤ negsuc 0)

abbrev pub worth : ℤ → ℤ
worth c = if is_even c then pos 0 else listed c

-- the sum of all the balances
unfoldable pub total : List ℤ → ℤ
total [] = pos 0
total (c ∷ bf) = worth c +ℤ total bf

-- the cell of a balance of zero or more
abbrev pub odd_cell : ℕ → ℤ
odd_cell b = pos (2 * b + 1)

worth-odd_cell : (b : ℕ) → worth (odd_cell b) ≡ pos b
unfolding is_even listed
worth-odd_cell b = ground arith

pub account_of-odd_cell : (b : ℕ) → account_of (odd_cell b) ≡ holds (pos b)
unfolding is_even half
account_of-odd_cell b = ground arith

total-write_cell :
    (bf : List ℤ) (n : ℕ) (c : ℤ)
    → total (write_cell bf n c) +ℤ worth (get_or bf n (pos 0)) ≡ total bf +ℤ worth c
unfolding total write_cell is_even
total-write_cell [] zero c = omega int_laws
total-write_cell [] (suc n) c = omega (int_laws, parts_eq (total-write_cell [] n c))
total-write_cell (x ∷ xs) zero c = omega int_laws
total-write_cell (x ∷ xs) (suc n) c = omega (int_laws, parts_eq (total-write_cell xs n c))

twice-odd_cell : (b : ℕ) → b + 1 ≤ 2 ^ 62 → twice_add_one (pos b) ≡ odd_cell b
unfolding wrap ◌+ℤ◌
twice-odd_cell b h = ground arith

old_balance-odd_cell :
    (bf : List ℤ) (n b : ℕ)
    → get_or bf n (pos 0) ≡ odd_cell b
    → old_balance (get_elem? bf n) ≡ pos b
unfolding is_even half
old_balance-odd_cell [] n b h = ground arith
old_balance-odd_cell (x ∷ xs) zero b h = rw h (ground arith)
old_balance-odd_cell (x ∷ xs) (suc n) b h = old_balance-odd_cell xs n b h

-- A credit to an open account is a write of the new sum.
pub credit-odd_cell :
    (bf : List ℤ) (n b : ℕ) (amt : ℤ) {r : ℕ}
    → get_or bf n (pos 0) ≡ odd_cell b
    → amt +ℤ pos b ≡ pos r
    → r + 1 ≤ 2 ^ 62
    → credit bf n amt ≡ write_cell bf n (odd_cell r)
unfolding credit writebalance
credit-odd_cell bf n b amt {r} h e fits =
    rw (old_balance-odd_cell bf n b h)
      (rw (e, wrap_lem (pos r) (omega arith), twice-odd_cell r fits))

get_or-write_ne :
    (bf : List ℤ) (n m : ℕ) (c : ℤ)
    → n ≢ m
    → get_or (write_cell bf n c) m (pos 0) ≡ get_or bf m (pos 0)
unfolding write_cell
get_or-write_ne [] zero zero c h = absurd (h refl)
get_or-write_ne [] zero (suc m) c h = refl
get_or-write_ne [] (suc n) zero c h = refl
get_or-write_ne [] (suc n) (suc m) c h = get_or-write_ne [] n m c (omega arith)
get_or-write_ne (x ∷ xs) zero zero c h = absurd (h refl)
get_or-write_ne (x ∷ xs) zero (suc m) c h = refl
get_or-write_ne (x ∷ xs) (suc n) zero c h = refl
get_or-write_ne (x ∷ xs) (suc n) (suc m) c h = get_or-write_ne xs n m c (omega arith)

debit : (a amt : ℕ) → neg (pos amt) +ℤ pos (a + amt) ≡ pos a
debit a amt = omega (int_laws, neg_parts (pos amt))

deposit : (b amt : ℕ) → pos amt +ℤ pos b ≡ pos (b + amt)
deposit b amt = omega int_laws

-- Two open accounts, at least `amt` in the first.
module _ (bf : List ℤ) (from to a b amt : ℕ) (ne : from ≢ to)
    (hf : get_or bf from (pos 0) ≡ odd_cell (a + amt)) (ht : get_or bf to (pos 0) ≡ odd_cell b)
    (fa : a + amt + 1 ≤ 2 ^ 62) (fb : b + amt + 1 ≤ 2 ^ 62) where
  abbrev paid : List ℤ
  paid = write_cell bf from (odd_cell a)

  other : get_or paid to (pos 0) ≡ odd_cell b
  other = get_or-write_ne bf from to (odd_cell a) ne ∙ ht

  two_writes :
      credit (credit bf from (neg (pos amt))) to (pos amt) ≡ write_cell paid to (odd_cell (b + amt))
  two_writes =
      rw (credit-odd_cell bf from (a + amt) (neg (pos amt)) hf (debit a amt) (omega arith))
        (credit-odd_cell paid to b (pos amt) other (deposit b amt) fb)

  -- The debit and the credit keep the sum of all the balances.
  pub total-transfer : total (credit (credit bf from (neg (pos amt))) to (pos amt)) ≡ total bf
  total-transfer = rw two_writes (
      omega (
        int_laws,
        parts_eq (total-write_cell bf from (odd_cell a)),
        parts_eq (total-write_cell paid to (odd_cell (b + amt))),
        parts_eq (ap worth hf ∙ worth-odd_cell (a + amt)),
        parts_eq (ap worth other ∙ worth-odd_cell b),
        parts_eq (worth-odd_cell a),
        parts_eq (worth-odd_cell (b + amt)),
      ))

  -- They move the amount, and no other account changes.
  pub account-transfer :
      (uid : ℕ)
      → account (credit (credit bf from (neg (pos amt))) to (pos amt)) (pos uid) ≡ (
          if uid == to
          then holds (pos (b + amt))
          else if uid == from
          then holds (pos a)
          else account bf (pos uid))
  account-transfer uid =
      rw (two_writes, get_or-write_cell)
        (rw get_or-write_cell
          (ground (arith, account_of-odd_cell a, account_of-odd_cell (b + amt))))
