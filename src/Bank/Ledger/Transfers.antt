-- ===== src/Bank/Ledger/Transfers.antt =====
-- `dotrans` when the lock files are free.
use mnetsoft.Base.{
  ℕ, ◌+◌, ◌^◌, ◌≤◌, ◌<◌, ◌≡◌, ◌≢◌, refl, true, List, none, some, if◌then◌else◌, ◌==◌, get_or, ap,
  sym,
}
use mnetsoft.Base.Int.{ℤ, pos}
use mnetsoft.Base.Long.{neg}
use mnetsoft.Base.Text.{Text}
use mnetsoft.Bank.Cells.{credit}
use mnetsoft.Bank.Cells.Accounts.{account, holds}
use mnetsoft.Bank.Cells.Totals.{total, odd_cell, total-transfer, account-transfer}
use mnetsoft.Bank.Trans.{Code, none_entry, xfer, gift, fine, TransEnt, new_entry, transaction_file}
use mnetsoft.Bank.World.{bank_file, trans_file, World, Lock, ok}
use mnetsoft.Bank.Locks.{unlock}
use mnetsoft.Bank.Locks.Waiting.{setlock_free, unlock_made}
use mnetsoft.Bank.Ledger.{addbalance, transaction, dotrans, is_xfer, is_fine}

-- No process holds a lock, this one may take them, and the clock is not at 0.
pub record Quiet (w : World) : Type 0 where
  pub bank_free : w.bank_lock ≡ record { ctime = none; fclock = 0 }
  pub trans_free : w.trans_lock ≡ record { ctime = none; fclock = 0 }
  pub allowed : w.dir_ok ≡ true
  pub later : 0 < w.now

-- The locks are taken and given back: only the file of balances differs.
pub addbalance-Quiet :
    (n : ℕ) (amt : ℤ) (w : World)
    → Quiet w
    → addbalance (pos n) amt w ≡ ok tt (record w { bank = credit w.bank n amt })
unfolding addbalance unlock
addbalance-Quiet n amt w q =
    rw (setlock_free bank_file w (ap Lock.fclock q.bank_free) (ap Lock.ctime q.bank_free) q.allowed)
      (rw
        (unlock_made bank_file
          (record w {
            bank = credit w.bank n amt;
            bank_lock = record { ctime = some w.now; fclock = w.now };
          })
          refl q.later q.allowed)
        (ap (λ l. ok tt (record w { bank = credit w.bank n amt; bank_lock = l }))
          (sym q.bank_free)))

pub transaction-Quiet :
    (entry : TransEnt) (w : World)
    → Quiet w
    → transaction entry w ≡ ok tt (record w { trans = transaction_file entry w.trans })
unfolding transaction unlock
transaction-Quiet entry w q =
    rw
      (setlock_free trans_file w (ap Lock.fclock q.trans_free) (ap Lock.ctime q.trans_free)
        q.allowed)
      (rw
        (unlock_made trans_file
          (record w {
            trans = transaction_file entry w.trans;
            trans_lock = record { ctime = some w.now; fclock = w.now };
          })
          refl q.later q.allowed)
        (ap (λ l. ok tt (record w { trans = transaction_file entry w.trans; trans_lock = l }))
          (sym q.trans_free)))

-- `dotrans` between users with uids that are not negative: a transfer debits the customer,
-- and every type credits or fines the other and adds one entry.
abbrev pub debited : ℕ → Code → ℤ → List ℤ → List ℤ
debited from type amt bf = if is_xfer type then credit bf from (neg amt) else bf

abbrev pub dotrans_bank : ℕ → Code → ℕ → ℤ → List ℤ → List ℤ
dotrans_bank from type to amt bf =
    credit (debited from type amt bf) to (if is_fine type then neg amt else amt)

debited-Quiet :
    (from : ℕ) (type : Code) (amt : ℤ) (w : World)
    → Quiet w
    → (if is_xfer type then addbalance (pos from) (neg amt) else (λ w. ok tt w)) w
      ≡ ok tt (record w { bank = debited from type amt w.bank })
debited-Quiet from xfer amt w q = addbalance-Quiet from (neg amt) w q
debited-Quiet from gift amt w q = refl
debited-Quiet from fine amt w q = refl
debited-Quiet from none_entry amt w q = refl

pub dotrans-Quiet :
    (from to : ℕ) (myid reason : Text) (type : Code) (amt : ℤ) (w : World)
    → Quiet w
    → dotrans (pos from) myid type (pos to) amt reason w
      ≡ ok tt (record w {
        bank = dotrans_bank from type to amt w.bank;
        trans = transaction_file (new_entry type (pos to) amt myid reason) w.trans;
      })
unfolding dotrans
dotrans-Quiet from to myid reason type amt w q = rw (debited-Quiet from type amt w q) (
    rw
      (addbalance-Quiet to (if is_fine type then neg amt else amt)
        (record w { bank = debited from type amt w.bank }) (keep (debited from type amt w.bank)))
      (transaction-Quiet (new_entry type (pos to) amt myid reason)
        (record w { bank = dotrans_bank from type to amt w.bank })
        (keep (dotrans_bank from type to amt w.bank))))
  where
    keep : (bf : List ℤ) → Quiet (record w { bank = bf })
    keep bf = record {
      bank_free = q.bank_free;
      trans_free = q.trans_free;
      allowed = q.allowed;
      later = q.later;
    }

-- A transfer of `amt` between the open accounts of two different users with uids that are not
-- negative, one with at least `amt` and the other with a balance of zero or more. The balance of the
-- one and the sum of the other balance and `amt` are below 2 ^ 62, no process holds a lock, this one
-- may take them, and the clock is not at 0. Then the call returns; the balances move by `amt`, no
-- other account changes, the sum of all the balances, as `listall` reads them, is kept, one
-- transaction is recorded, and the rest of the state is as before.
pub dotrans-transfers :
    (from to a b amt : ℕ) (myid reason : Text) (w : World)
    → Quiet w
    → from ≢ to
    → get_or w.bank from (pos 0) ≡ odd_cell (a + amt)
    → get_or w.bank to (pos 0) ≡ odd_cell b
    → a + amt + 1 ≤ 2 ^ 62
    → b + amt + 1 ≤ 2 ^ 62
    → (bf : List ℤ) × (dotrans (pos from) myid xfer (pos to) (pos amt) reason w
        ≡ ok tt (record w {
          bank = bf;
          trans = transaction_file (new_entry xfer (pos to) (pos amt) myid reason) w.trans;
        }))
      × (total bf ≡ total w.bank)
      × ((uid : ℕ)
          → account bf (pos uid) ≡ (
              if uid == to
              then holds (pos (b + amt))
              else if uid == from
              then holds (pos a)
              else account w.bank (pos uid)))
dotrans-transfers from to a b amt myid reason w q ne hf ht fa fb = (
  dotrans_bank from xfer to (pos amt) w.bank,
  dotrans-Quiet from to myid reason xfer (pos amt) w q,
  total-transfer w.bank from to a b amt ne hf ht fa fb,
  λ uid. account-transfer w.bank from to a b amt ne hf ht fa fb uid,
)
