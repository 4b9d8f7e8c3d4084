-- ===== src/Bank/Examples.antt =====
-- The theorems on soft/apps/bank/bank.c at concrete inputs, and runs of the program.
use mathlib.Core.List.{Perm}
use mnetsoft.Base.{
  ℕ, ◌≡◌, refl, true, false, List, [], ◌∷◌, none, some, if◌then◌else◌, ◌==◌, arith, replicate, take,
}
use mnetsoft.Base.Int.{ℤ, pos, negsuc, ◌+ℤ◌}
use mnetsoft.Base.Long.{is_even, half}
use mnetsoft.Base.Text.{Text, codes, atol, same_text}
use mnetsoft.Bank.Cells.{credit}
use mnetsoft.Bank.Cells.Accounts.{holds, account, account-credit}
use mnetsoft.Bank.Cells.Totals.{total}
use mnetsoft.Bank.Trans.{
  xfer, gift, none_entry, TransEnt, TransFile, transaction_file, new_entry, scantrans_file,
}
use mnetsoft.Bank.Trans.Pending.{live, pending, live-transaction, scantrans_file-pending}
use mnetsoft.Bank.World.{bank_file, World, Lock, ok, idle}
use mnetsoft.Bank.Locks.{setlock}
use mnetsoft.Bank.Locks.Waiting.{Ends, setlock-Ends}
use mnetsoft.Bank.Ledger.{dotrans}
use mnetsoft.Bank.Ledger.Transfers.{Quiet, dotrans-transfers}
use mnetsoft.Bank.Teller.{Session, parsetrans}
use mnetsoft.Bank.Teller.Payments.{parsetrans-keeps_money}
use mnetsoft.Bank.Bankers.{am_banker, unlines, is_listed, am_banker-unlines}
use mnetsoft.Bank.Rich.{Holder, wealthy_table}
use mnetsoft.Bank.Rich.Ranking.{holders, IsRanked}
use mnetsoft.Bank.Rich.Table.{wealthy_table-richest}

-- Users 1 and 2 hold 30 and 5; the account of user 3 opens at the time 2000.
abbrev cells : List ℤ
cells = pos 0 ∷ pos 61 ∷ pos 11 ∷ pos 2000 ∷ []

abbrev free_lock : Lock
free_lock = record { ctime = none; fclock = 0 }

abbrev start : World
start = record {
  bank = cells;
  trans = record { entries = []; partial = 3 };
  bank_lock = free_lock;
  trans_lock = free_lock;
  dir_ok = true;
  now = 1000;
  others = [];
  input = codes "0\n";
  buf = [];
  hisid = [];
  mybal = pos 0;
  out = [];
}

start-Quiet : Quiet start
start-Quiet = record { bank_free = refl; trans_free = refl; allowed = refl; later = omega arith }

abbrev ann : Session
ann = record {
  myuid = pos 1;
  myid = codes "ann";
  banker = false;
  report = false;
  tm = 1000;
  getpwnam = λ name. some (if same_text name (codes "cy") then pos 3 else pos 2);
  getpwuid = λ uid. none;
}

parsetrans-keeps_money_example :
    (w' : World) × (parsetrans ann xfer
        (codes "bank" ∷ codes "-t" ∷ codes "bob" ∷ codes "7" ∷ [])
        start
      ≡ ok tt w')
    × (total w'.bank ≡ total cells)
    × (account w'.bank (pos 1) ≡ holds (pos 23))
unfolding same_text
parsetrans-keeps_money_example =
    parsetrans-keeps_money ann 1 2 30 5 7 (codes "bank") (codes "-t") (codes "bob") (codes "7") []
      start refl refl (unfold atol in refl) (omega arith) (omega arith) start-Quiet refl refl
      (omega arith) (omega arith)

dotrans-transfers_example :
    (bf : List ℤ) × (dotrans (pos 1) (codes "ann") xfer (pos 2) (pos 7) (codes "tea") start
      ≡ ok tt (record start {
        bank = bf;
        trans =
            transaction_file
              (new_entry xfer (pos 2) (pos 7) (codes "ann") (codes "tea"))
              start.trans;
      }))
    × (total bf ≡ total cells)
    × ((uid : ℕ)
        → account bf (pos uid) ≡ (
            if uid == 2
            then holds (pos 12)
            else if uid == 1
            then holds (pos 23)
            else account cells (pos uid)))
dotrans-transfers_example =
    dotrans-transfers 1 2 23 5 7 (codes "ann") (codes "tea") start start-Quiet (omega arith) refl
      refl (omega arith) (omega arith)

account-credit_example : account (credit cells 3 (pos 4)) (pos 3) ≡ holds (pos 14)
unfolding is_even half ◌+ℤ◌
account-credit_example = account-credit cells 3 3 (pos 4) (omega arith) (omega arith)

-- Another process holds the bank's lock file and never gives it back.
abbrev busy : World
busy = record start { bank_lock = record { ctime = some 990; fclock = 0 }; others = idle ∷ [] }

setlock-Ends_example : Ends bank_file 1015 (setlock bank_file busy)
setlock-Ends_example = setlock-Ends bank_file busy refl

abbrev entry_of : ℤ → ℤ → TransEnt
entry_of to amt = record { to_uid = to; code = gift; fr_id = codes "ann"; why = []; amount = amt }

abbrev used : TransFile
used = record {
  entries =
      entry_of (pos 2) (pos 4)
      ∷ record (entry_of (pos 1) (pos 6)) { code = none_entry }
      ∷ entry_of (pos 3) (pos 5)
      ∷ [];
  partial = 0;
}

live-transaction_example :
    Perm
      (live (transaction_file (entry_of (pos 2) (pos 1)) used).entries)
      (entry_of (pos 2) (pos 1) ∷ live used.entries)
live-transaction_example = live-transaction (entry_of (pos 2) (pos 1)) used refl

scantrans_file-pending_example :
    ((scantrans_file (pos 2) used).0 ≡ pending (pos 2) used.entries)
    × (pending (pos 3) (scantrans_file (pos 2) used).1.entries ≡ pending (pos 3) used.entries)
scantrans_file-pending_example = scantrans_file-pending (pos 2) (pos 3) used

abbrev bankers : List Text
bankers = codes "ann" ∷ codes "root" ∷ []

am_banker-unlines_example :
    am_banker (codes "root") (some (unlines bankers)) ≡ is_listed (codes "root") bankers
am_banker-unlines_example = am_banker-unlines (codes "root") bankers (omega arith) (omega arith)

abbrev junk : List Holder
junk = replicate 10 (record { uid = 7; bucks = negsuc 6 })

wealthy_table-richest_example :
    (ranked : List Holder) × (wealthy_table junk cells ≡ take 10 ranked)
    × IsRanked ranked
    × Perm ranked (holders 1 (pos 61 ∷ pos 11 ∷ pos 2000 ∷ []))
wealthy_table-richest_example =
    wealthy_table-richest junk (pos 0) (pos 61 ∷ pos 11 ∷ pos 2000 ∷ []) refl
