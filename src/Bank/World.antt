-- ===== src/Bank/World.antt =====
-- The state that a run of soft/apps/bank/bank.c works on: the files, the lock files, the clock,
-- the other processes, the terminal and the global variables.
use mnetsoft.Base.{ℕ, Bool, List, [], ◌∷◌, ◌++◌, Option}
use mnetsoft.Base.Int.{ℤ}
use mnetsoft.Base.Text.{Text}
use mnetsoft.Bank.Trans.{TransEnt, TransFile}

-- The argument of `setlock` and `unlock`: 0 is the bank's lock file, 1 the transactions'.
pub data Which : Type 0 where
  bank_file trans_file : Which

-- A lock file, and `fclock[which]`: the time at which this process made it, 0 if it did not.
pub record Lock : Type 0 where
  pub ctime : Option ℕ
  pub fclock : ℕ

-- What other processes do while this one sleeps.
pub data Action : Type 0 where
  idle : Action
  releases : Which → Action
  seizes : Which → ℕ → Action
  writes : ℕ → ℤ → Action

-- What the program prints, as far as it tells the user something that depends on the state.
pub data Notice : Type 0 where
  cannot_create_lock blasting_old_lock blast_failed bank_is_busy lock_was_blasted : Notice
  cannot_remove_lock : Notice
  no_account goodbye delay_before_opening : Notice
  opens_after : ℤ → Notice
  not_completed : ℤ → Notice
  not_a_banker usage no_user bad_amount not_enough_money no_transfer_to_yourself : Notice
  that_is_you has_not_applied only_have only_40_characters : Notice
  will_open : ℤ → Notice
  entry_printed : TransEnt → Notice
  no_entries : Notice
  balance_is : ℤ → Notice
  listed_account : ℤ → Text → ℤ → Notice
  not_found has_no_account : Notice
  legal_options welcome pardon : Notice

pub record World : Type 0 where
  pub bank : List ℤ
  pub trans : TransFile
  pub bank_lock : Lock
  pub trans_lock : Lock
  -- may this process make and remove files in the directory of the lock files?
  pub dir_ok : Bool
  pub now : ℕ
  pub others : List Action
  -- the bytes that the terminal still gives
  pub input : Text
  pub buf : Text
  pub hisid : Text
  pub mybal : ℤ
  pub out : List Notice

-- A call returns, ends the process with a code, never ends, or writes outside its buffer.
pub data Result (A : Type 0) : Type 0 where
  ok : A → World → Result A
  exited : ℕ → World → Result A
  hangs : Result A
  fault : Result A

abbrev pub M : Type 0 → Type 0
M A = World → Result A

abbrev pub bind_result : {A B : Type 0} → Result A → (A → M B) → Result B
bind_result (ok a w) f = f a w
bind_result (exited c w) f = exited c w
bind_result hangs f = hangs
bind_result fault f = fault

infixl 5 ◌>>=◌ ◌>>◌
abbrev pub ◌>>=◌ : {A B : Type 0} → M A → (A → M B) → M B
◌>>=◌ m f w = bind_result (m w) f

abbrev pub ◌>>◌ : {B : Type 0} → M (Unit {0}) → M B → M B
◌>>◌ m k w = bind_result (m w) (λ _. k)

abbrev pub pure : {A : Type 0} → A → M A
pure a w = ok a w

abbrev pub said : Notice → World → World
said n w = record w { out = w.out ++ n ∷ [] }

abbrev pub say : Notice → M (Unit {0})
say n w = ok tt (said n w)

abbrev pub lock_of : Which → World → Lock
lock_of bank_file w = w.bank_lock
lock_of trans_file w = w.trans_lock

abbrev pub with_lock : Which → Lock → World → World
with_lock bank_file l w = record w { bank_lock = l }
with_lock trans_file l w = record w { trans_lock = l }
