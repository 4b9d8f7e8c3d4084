-- ===== src/Bank/Main.antt =====
-- `main` of soft/apps/bank/bank.c.
use mnetsoft.Base.{
  ℕ, suc, Bool, true, false, not, ◌||◌, Option, none, some, List, [], ◌∷◌, if◌then◌else◌, ◌==◌,
  length,
}
use mnetsoft.Base.Int.{ℤ, pos, ltb_ℤ}
use mnetsoft.Base.Text.{Text, strlcpy}
use mnetsoft.Bank.Cells.{Status, opened, absent, waiting, balance}
use mnetsoft.Bank.Trans.{xfer, gift, fine}
use mnetsoft.Bank.World.{
  not_found, has_no_account, balance_is, legal_options, welcome, not_a_banker, usage, no_user,
  World, Result, exited, M, bind_result, said,
}
use mnetsoft.Bank.Locks.{done}
use mnetsoft.Bank.Ledger.{addbalance, closeaccount, scantrans}
use mnetsoft.Bank.Teller.{Session, checkme, parsetrans}
use mnetsoft.Bank.Bankers.{am_banker}
use mnetsoft.Bank.Rich.{Holder, wealthy, listall}
use mnetsoft.Bank.Desk.{read_buf, asktrans, dobank}

-- What the system tells the program: whether the two files open, who calls it and when, the two
-- lookups in the password file, and the file of bankers (`none` if it cannot be read). `junk` is
-- what the array of `wealthy` holds at first.
pub record System : Type 0 where
  pub bank_opens : Bool
  pub trans_opens : Bool
  pub uid : ℤ
  pub name : Text
  pub time : ℕ
  pub getpwnam : Text → Option ℤ
  pub getpwuid : ℤ → Option Text
  pub bankers : Option Text
  pub junk : List Holder

-- the global variables before the options are read
unfoldable pub session_of : System → Session
session_of e =
    let id = strlcpy e.name 33 in
    record {
      myuid = e.uid;
      myid = id;
      banker = am_banker id e.bankers;
      report = false;
      tm = e.time;
      getpwnam = e.getpwnam;
      getpwuid = e.getpwuid;
    }

-- What `balance` tells of one name on the command line.
abbrev pub say_balance : Status × ℤ → World → World
say_balance (opened, bal) w = said (balance_is bal) (record w { mybal = bal })
say_balance (absent, bal) w = said has_no_account (record w { mybal = bal })
say_balance (waiting, bal) w = said has_no_account (record w { mybal = bal })

-- the loop over names
unfoldable pub show_balances : Session → List Text → World → World
show_balances s [] w = w
show_balances s (name ∷ names) w = show_balances s names (elim (s.getpwnam name) [
  | none ↦ said not_found w
  | some uid ↦ say_balance (balance w.bank uid w.mybal) w
])

abbrev pub open_or_close : Bool → Session → Option ℤ → M (Unit {0})
open_or_close opens s none w = done 1 (said no_user w)
open_or_close true s (some uid) w = bind_result (addbalance uid (pos 0) w) (λ _ v. done 0 v)
open_or_close false s (some uid) w = done 0 (closeaccount uid w)

-- the cases 'o' and 'c'
unfoldable pub banker_option : Bool → Session → List Text → M (Unit {0})
unfolding closeaccount
banker_option opens s argv w = if not s.banker then done 1 (said not_a_banker w) else go argv
  where
    go : List Text → Result (Unit {0})
    go (_ ∷ _ ∷ who ∷ []) = open_or_close opens s (s.getpwnam who) w
    go _ = done 1 (said usage w)

-- from the greeting to the end of `main`
unfoldable pub visit : Session → M (Unit {0})
unfolding read_buf
visit s w = bind_result (checkme s (if s.report then w else said welcome w)) (λ _ v.
    let v' = scantrans s.myuid false v in
    let u = said (balance_is v'.mybal) v' in
    if s.report
    then done 0 u
    else if s.banker
    then bind_result (dobank s (suc (length u.input)) u) (λ _ x. done 0 x)
    else if ltb_ℤ (pos 0) u.mybal
    then ask_transfer u
    else done 0 u)
  where
    first_is_n : Text → Bool
    first_is_n [] = false
    first_is_n (c ∷ _) = c == b'n' || c == b'N'

    ask_transfer : M (Unit {0})
    ask_transfer u =
        let x = read_buf u in
        if first_is_n x.buf then done 0 x else bind_result (asktrans s xfer [] x) (λ _ y. done 0 y)

-- `switch (argv[1][1])`; 0 is the end of the string
unfoldable pub run_option : System → Session → ℕ → List Text → M (Unit {0})
unfolding banker_option visit
run_option e s c argv w =
    if c == b'w'
    then exited 0 (wealthy s e.junk w)
    else if c == b'a'
    then exited 0 (listall s w)
    else if c == b'r'
    then visit (record s { report = true; banker = false }) w
    else if c == b't'
    then bind_result (parsetrans s xfer argv w) (λ _ v. done 0 v)
    else if c == b'b'
    then bind_result (parsetrans s gift argv w) (λ _ v. done 0 v)
    else if c == b'f'
    then bind_result (parsetrans s fine argv w) (λ _ v. done 0 v)
    else if c == b'o'
    then banker_option true s argv w
    else if c == b'c'
    then banker_option false s argv w
    else done 1 (said legal_options w)

abbrev pub option_of : Text → Option ℕ
option_of [] = none
option_of (c ∷ []) = if c == b'-' then some 0 else none
option_of (c ∷ d ∷ _) = if c == b'-' then some d else none

unfoldable pub run_args : System → Session → List Text → M (Unit {0})
unfolding run_option show_balances
run_args e s (prog ∷ arg ∷ args) w = elim (option_of arg) [
  | none ↦ done 0 (show_balances s (arg ∷ args) w)
  | some c ↦ run_option e s c (prog ∷ arg ∷ args) w
]
run_args e s _ w = visit s w

unfoldable pub main : System → List Text → M (Unit {0})
unfolding session_of run_args
main e argv w =
    if not e.bank_opens
    then done 1 w
    else if not e.trans_opens
    then done 1 w
    else run_args e (session_of e) argv w
