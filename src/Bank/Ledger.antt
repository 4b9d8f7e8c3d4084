-- ===== src/Bank/Ledger.antt =====
-- The operations of soft/apps/bank/bank.c on its two files, with their locks: `addbalance`,
-- `openaccount`, `closeaccount`, `transaction`, `scantrans` and `dotrans`.
pub mod Transfers
use mnetsoft.Base.{ℕ, ◌+◌, ◌++◌, Bool, true, false, List, [], ◌∷◌, map, if◌then◌else◌}
use mnetsoft.Base.Int.{ℤ, pos, negsuc}
use mnetsoft.Base.Long.{neg}
use mnetsoft.Base.Text.{Text}
use mnetsoft.Bank.Cells.{writebalance, credit, opening_time}
use mnetsoft.Bank.Trans.{
  Code, xfer, gift, fine, none_entry, TransEnt, new_entry, transaction_file, scantrans_file,
}
use mnetsoft.Bank.World.{
  bank_file, trans_file, Notice, entry_printed, no_entries, World, Result, ok, M, ◌>>=◌, ◌>>◌,
}
use mnetsoft.Bank.Locks.{setlock, unlock}

abbrev pub update : (World → World) → M (Unit {0})
update f w = ok tt (f w)

-- A seek to a negative offset fails before the lock is taken.
unfoldable pub addbalance : ℤ → ℤ → M (Unit {0})
addbalance (negsuc _) bal = update (λ w. w)
addbalance (pos n) bal = do
  setlock bank_file
  update (λ w. record w { bank = credit w.bank n bal })
  unlock bank_file

unfoldable pub openaccount : ℤ → World → World
openaccount uid w = record w { bank = writebalance w.bank uid (pos (opening_time w.now)) }

unfoldable pub transaction : TransEnt → M (Unit {0})
transaction tr = do
  setlock trans_file
  update (λ w. record w { trans = transaction_file tr w.trans })
  unlock trans_file

abbrev pub notices : List TransEnt → List Notice
notices [] = no_entries ∷ []
notices (e ∷ es) = map entry_printed (e ∷ es)

-- No lock is taken here.
unfoldable pub scantrans : ℤ → Bool → World → World
scantrans uid silent w =
    let (printed, left) = scantrans_file uid w.trans in
    record w { trans = left; out = if silent then w.out else w.out ++ notices printed }

unfoldable pub closeaccount : ℤ → World → World
unfolding scantrans
closeaccount uid w = scantrans uid true (record w { bank = writebalance w.bank uid (pos 0) })

abbrev pub is_xfer : Code → Bool
is_xfer xfer = true
is_xfer _ = false

abbrev pub is_fine : Code → Bool
is_fine fine = true
is_fine _ = false

-- `dotrans`, between the calls that make the process ignore signals
unfoldable pub dotrans : ℤ → Text → Code → ℤ → ℤ → Text → M (Unit {0})
unfolding addbalance transaction
dotrans myuid myid type uid amt reason = do
  if is_xfer type then addbalance myuid (neg amt) else update (λ w. w)
  addbalance uid (if is_fine type then neg amt else amt)
  transaction (new_entry type uid amt myid reason)
