-- ===== src/Bank/Trans/Pending.antt =====
-- What the file of transactions holds for each user.
use mathlib.Core.List.{Perm}
use mathlib.Core.List.Perm
use mnetsoft.Base.{
  ◌≡◌, refl, true, false, List, [], ◌∷◌, if◌then◌else◌, arith, Bool-cases, inl, inr,
}
use mnetsoft.Base.Int.{ℤ, pos, negsuc}
use mnetsoft.Bank.Trans.{
  TransEnt, TransFile, is_none, same_uid, place, transaction_file, is_for, scan_entries,
  scantrans_file,
}

pub same_uid_iff : (a b : ℤ) → same_uid a b ≡ true → a ≡ b
same_uid_iff (pos a) (pos b) h = ground arith
same_uid_iff (negsuc a) (negsuc b) h = ground arith
same_uid_iff (pos a) (negsuc b) h = ground arith
same_uid_iff (negsuc a) (pos b) h = ground arith

pub same_uid_refl : (a : ℤ) → same_uid a a ≡ true
same_uid_refl (pos a) = ground arith
same_uid_refl (negsuc a) = ground arith

-- the entries in use, in the order of the file
abbrev pub live : List TransEnt → List TransEnt
live [] = []
live (e ∷ es) = if is_none e.code then live es else e ∷ live es

-- the entries in use for a user
abbrev pub pending : ℤ → List TransEnt → List TransEnt
pending uid [] = []
pending uid (e ∷ es) = if is_for uid e then e ∷ pending uid es else pending uid es

-- A transaction is one more entry in use. None is lost: its place in the file is free.
pub live-transaction :
    (tr : TransEnt) (f : TransFile)
    → is_none tr.code ≡ false
    → Perm (live (transaction_file tr f).entries) (tr ∷ live f.entries)
unfolding transaction_file
live-transaction tr f h = go f.entries
  where
    go : (es : List TransEnt) → Perm (live (place tr es)) (tr ∷ live es)
    go [] = rw h (Perm.refl _)
    go (e ∷ es) = elim (Bool-cases (is_none e.code)) [
      | inl free ↦ rw (free, h) (Perm.refl _)
      | inr used ↦ rw (used, used) (Perm.trans (Perm.cons e (go es)) (Perm.swap tr e (live es)))
    ]

printed-scantrans : (uid : ℤ) (f : TransFile) → (scantrans_file uid f).0 ≡ pending uid f.entries
unfolding scantrans_file
printed-scantrans uid f = go f.entries
  where
    go : (es : List TransEnt) → (scan_entries uid es).0 ≡ pending uid es
    go [] = refl
    go (e ∷ es) = ground (arith, go es)

pending-scantrans :
    (uid other : ℤ) (f : TransFile)
    → pending other (scantrans_file uid f).1.entries
      ≡ (if same_uid other uid then [] else pending other f.entries)
unfolding scantrans_file
pending-scantrans uid other f = go f.entries
  where
    go :
        (es : List TransEnt)
        → pending other (scan_entries uid es).1
          ≡ (if same_uid other uid then [] else pending other es)
    go [] = ground arith
    go (e ∷ es) = ground (
      arith,
      go es,
      same_uid_iff e.to_uid uid,
      same_uid_iff e.to_uid other,
      same_uid_iff other uid,
      same_uid_refl uid,
    )

-- `scantrans` prints the entries pending for the user, in the order of the file; after it none is
-- pending for the user, and what is pending for any other user is as before.
pub scantrans_file-pending :
    (uid other : ℤ) (f : TransFile)
    → ((scantrans_file uid f).0 ≡ pending uid f.entries)
      × (pending other (scantrans_file uid f).1.entries
          ≡ (if same_uid other uid then [] else pending other f.entries))
scantrans_file-pending uid other f = (printed-scantrans uid f, pending-scantrans uid other f)
