-- ===== src/Bank/Cells/Accounts.antt =====
-- The file of balances as a map from uids to accounts.
use mnetsoft.Base.{
  ℕ, zero, suc, ◌+◌, ◌^◌, ◌≤◌, ◌≡◌, ◌≢◌, refl, List, [], ◌∷◌, arith, ◌==◌, if◌then◌else◌, get_elem?,
  get_or,
}
use mnetsoft.Base.Int.{ℤ, pos, negsuc, pos_part, neg_part, sub_ℕ, ◌+ℤ◌, ◌≤ℤ◌}
use mnetsoft.Base.Long.{wrap, wrap_lem, InRange, is_even, half, twice_add_one}
use mnetsoft.Bank.Cells.{
  Status, opened, absent, waiting, balance, write_cell, writebalance, old_balance, credit, is_zero,
}

-- What a cell stands for.
pub data Account : Type 0 where
  closed : Account
  opens_at : ℤ → Account
  holds : ℤ → Account

abbrev pub account_of : ℤ → Account
account_of c = if is_even c then (if is_zero c then closed else opens_at c) else holds (half c)

-- A uid past the end of the file has no account, nor has a negative one.
abbrev pub account : List ℤ → ℤ → Account
account bf (pos n) = account_of (get_or bf n (pos 0))
account bf (negsuc n) = closed

-- what `balance` says of an account
abbrev pub status_of : Account → Status
status_of closed = absent
status_of (opens_at t) = waiting
status_of (holds b) = opened

abbrev pub shown : Account → ℤ → ℤ
shown closed d = d
shown (opens_at t) d = t
shown (holds b) d = b

-- the balance that a deposit starts from: the initial one, unless the account is open
abbrev pub starting : Account → ℤ
starting closed = pos 10
starting (opens_at t) = pos 10
starting (holds b) = b

-- A balance that a cell can hold: `2 * b + 1` is a `long`.
pub record Fits (b : ℤ) : Type 0 where
  pub low : neg_part b ≤ 2 ^ 62
  pub high : pos_part b + 1 ≤ 2 ^ 62

pub get_or-write_cell :
    (bf : List ℤ) (n m : ℕ) (c : ℤ)
    → get_or (write_cell bf n c) m (pos 0) ≡ (if m == n then c else get_or bf m (pos 0))
unfolding write_cell
get_or-write_cell [] zero zero c = refl
get_or-write_cell [] zero (suc m) c = ground arith
get_or-write_cell [] (suc n) zero c = ground arith
get_or-write_cell [] (suc n) (suc m) c = ground (arith, get_or-write_cell [] n m c)
get_or-write_cell (x ∷ xs) zero zero c = refl
get_or-write_cell (x ∷ xs) zero (suc m) c = ground arith
get_or-write_cell (x ∷ xs) (suc n) zero c = ground arith
get_or-write_cell (x ∷ xs) (suc n) (suc m) c = ground (arith, get_or-write_cell xs n m c)

pub account-writebalance :
    (bf : List ℤ) (n m : ℕ) (c : ℤ)
    → account (writebalance bf (pos n) c) (pos m)
      ≡ (if m == n then account_of c else account bf (pos m))
unfolding writebalance
account-writebalance bf n m c = rw get_or-write_cell (ground arith)

-- A cell that holds `b`, for a balance of zero or more.
pub account_of-twice : (b : ℕ) → b + 1 ≤ 2 ^ 62 → account_of (twice_add_one (pos b)) ≡ holds (pos b)
unfolding is_even half wrap ◌+ℤ◌
account_of-twice b h = ground arith

-- For a balance below zero the reader is off by one.
pub account_of-twice_neg :
    (b : ℕ) → b + 1 ≤ 2 ^ 62 → account_of (twice_add_one (negsuc b)) ≡ holds (sub_ℕ 0 b)
unfolding is_even half wrap ◌+ℤ◌
account_of-twice_neg b h = ground arith

old_balance-get_or :
    (bf : List ℤ) (n : ℕ) → old_balance (get_elem? bf n) ≡ starting (account bf (pos n))
unfolding is_even half
old_balance-get_or [] zero = refl
old_balance-get_or [] (suc n) = refl
old_balance-get_or (x ∷ xs) zero = ground arith
old_balance-get_or (x ∷ xs) (suc n) = old_balance-get_or xs n

-- `balance` reports the account: its status, and the amount or the time unless there is none.
pub balance-account :
    (bf : List ℤ) (uid bal : ℤ)
    → ((balance bf uid bal).0 ≡ status_of (account bf uid))
      × (account bf uid ≢ closed → (balance bf uid bal).1 ≡ shown (account bf uid) bal)
unfolding balance is_even half
balance-account bf (negsuc n) bal = ground arith
balance-account bf (pos n) bal = cell bf n
  where
    cell :
        (bf : List ℤ) (n : ℕ)
        → ((balance bf (pos n) bal).0 ≡ status_of (account bf (pos n)))
          × (account bf (pos n) ≢ closed
              → (balance bf (pos n) bal).1 ≡ shown (account bf (pos n)) bal)
    cell [] zero = ground arith
    cell [] (suc n) = ground arith
    cell (x ∷ xs) zero = ground arith
    cell (x ∷ xs) (suc n) = cell xs n

-- `addbalance` to an account leaves it open at the old balance, or the initial one, plus the
-- amount; the sum being zero or more and within range. No other account changes.
pub account-credit :
    (bf : List ℤ) (n m : ℕ) (amt : ℤ)
    → pos 0 ≤ℤ amt +ℤ starting (account bf (pos n))
    → Fits (amt +ℤ starting (account bf (pos n)))
    → account (credit bf n amt) (pos m)
      ≡ (if m == n then holds (amt +ℤ starting (account bf (pos n))) else account bf (pos m))
unfolding credit
account-credit bf n m amt low fits =
    rw (account-writebalance, old_balance-get_or, wrap_lem _ sum_InRange)
      (go (amt +ℤ starting (account bf (pos n))) low fits)
  where
    sum_InRange : InRange (amt +ℤ starting (account bf (pos n)))
    sum_InRange = omega (arith, fits)

    go :
        (b : ℤ)
        → pos 0 ≤ℤ b
        → Fits b
        → (if m == n then account_of (twice_add_one b) else account bf (pos m))
          ≡ (if m == n then holds b else account bf (pos m))
    go (pos k) l f = rw (account_of-twice k (omega arith))
    go (negsuc k) l f = absurd (omega arith)

-- A fine that takes an account below zero leaves it at one more than the difference.
account-credit_below :
    (bf : List ℤ) (n : ℕ) (amt : ℤ) {b : ℕ}
    → amt +ℤ starting (account bf (pos n)) ≡ negsuc b
    → b + 1 ≤ 2 ^ 62
    → account (credit bf n amt) (pos n) ≡ holds (negsuc b +ℤ pos 1)
unfolding credit ◌+ℤ◌
account-credit_below bf n amt {b} e h =
    rw (account-writebalance, old_balance-get_or)
      (rw e (rw (wrap_lem (negsuc b) (omega arith), account_of-twice_neg b h) (ground arith)))
