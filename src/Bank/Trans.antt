-- ===== src/Bank/Trans.antt =====
-- The file of transactions in soft/apps/bank/bank.c: whole records, and behind them perhaps some
-- bytes of a record that a full disk cut short.
pub mod Pending
use mnetsoft.Base.{ℕ, Bool, true, false, List, [], ◌∷◌, ◌++◌, ◌&&◌, ◌||◌, not, if◌then◌else◌, ◌==◌}
use mnetsoft.Base.Int.{ℤ, pos, negsuc}
use mnetsoft.Base.Text.{Text, strlcpy}

-- `trans_ent.code`: TR_NONE, TR_XFER, TR_GIFT and TR_FINE.
pub data Code : Type 0 where
  none_entry xfer gift fine : Code

abbrev pub is_none : Code → Bool
is_none none_entry = true
is_none _ = false

-- `struct trans_ent`. A uid is an integer; its conversion to `uid_t` is one-to-one.
pub record TransEnt : Type 0 where
  pub to_uid : ℤ
  pub code : Code
  pub fr_id : Text
  pub why : Text
  pub amount : ℤ

-- `partial` is the number of bytes behind the last whole record.
pub record TransFile : Type 0 where
  pub entries : List TransEnt
  pub partial : ℕ

abbrev pub same_uid : ℤ → ℤ → Bool
same_uid (pos a) (pos b) = a == b
same_uid (negsuc a) (negsuc b) = a == b
same_uid _ _ = false

-- the record that `dotrans` assembles
unfoldable pub new_entry : Code → ℤ → ℤ → Text → Text → TransEnt
new_entry type uid amt myid reason = record {
  to_uid = uid;
  code = type;
  fr_id = strlcpy myid 33;
  why = strlcpy reason 40;
  amount = amt;
}

-- The loop of `transaction`: past the entries in use, up to the first null entry, which is
-- written over, or to the end, where the record is appended.
unfoldable pub place : TransEnt → List TransEnt → List TransEnt
place tr [] = tr ∷ []
place tr (e ∷ es) = if is_none e.code then tr ∷ es else e ∷ place tr es

abbrev pub has_null : List TransEnt → Bool
has_null [] = false
has_null (e ∷ es) = is_none e.code || has_null es

-- `transaction` behind its lock. A record written at the end covers the partial one.
unfoldable pub transaction_file : TransEnt → TransFile → TransFile
unfolding place
transaction_file tr f = record {
  entries = place tr f.entries;
  partial = if has_null f.entries then f.partial else 0;
}

abbrev pub is_for : ℤ → TransEnt → Bool
is_for uid e = not (is_none e.code) && same_uid e.to_uid uid

abbrev pub nullify : TransEnt → TransEnt
nullify e = record e { code = none_entry }

-- `scantrans`: the entries printed, in the order of the file, and the entries left in it
unfoldable pub scan_entries : ℤ → List TransEnt → List TransEnt × List TransEnt
scan_entries uid [] = ([], [])
scan_entries uid (e ∷ es) =
    let (printed, left) = scan_entries uid es in
    if is_for uid e then (e ∷ printed, nullify e ∷ left) else (printed, e ∷ left)

unfoldable pub scantrans_file : ℤ → TransFile → List TransEnt × TransFile
unfolding scan_entries
scantrans_file uid f =
    let (printed, left) = scan_entries uid f.entries in (printed, record f { entries = left })
