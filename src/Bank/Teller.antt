-- ===== src/Bank/Teller.antt =====
-- The customer at the counter of soft/apps/bank/bank.c: `checkme` and `parsetrans`.
pub mod Checks
pub mod Payments
use mnetsoft.Base.{
  ℕ, ◌||◌, ◌&&◌, not, Bool, true, false, Option, none, some, List, [], ◌∷◌, if◌then◌else◌, ◌==◌,
  ltb, leb, length,
}
use mnetsoft.Base.Int.{ℤ, pos, negsuc, ltb_ℤ}
use mnetsoft.Base.Text.{Text, skip_line, atol, strlcpy}
use mnetsoft.Bank.Cells.{Status, opened, absent, waiting, balance, init_balance}
use mnetsoft.Bank.Trans.{Code, same_uid}
use mnetsoft.Bank.World.{
  Notice, no_account, goodbye, delay_before_opening, opens_after, not_completed, not_a_banker,
  usage, no_user, bad_amount, not_enough_money, no_transfer_to_yourself, World, Result, ok, hangs,
  M, ◌>>=◌, ◌>>◌, bind_result, said, say,
}
use mnetsoft.Bank.Locks.{done}
use mnetsoft.Bank.Ledger.{update, addbalance, openaccount, dotrans, is_xfer}

-- What `main` finds out about the customer, the time at which it started, and the two lookups in
-- the password file.
pub record Session : Type 0 where
  pub myuid : ℤ
  pub myid : Text
  pub banker : Bool
  pub report : Bool
  pub tm : ℕ
  pub getpwnam : Text → Option ℤ
  pub getpwuid : ℤ → Option Text

-- the account is opened, with its initial deposit
unfoldable pub initialize : Session → M (Unit {0})
initialize s = do addbalance s.myuid (pos 0); update (λ w. record w { mybal = init_balance })

unfoldable pub apply_for_account : Session → Text → M (Unit {0})
apply_for_account s rest w =
    done 0 (said delay_before_opening (openaccount s.myuid (record w { input = rest })))

-- the answer to "would you like to open an account?"
unfoldable pub ask_to_open : Session → Text → M (Unit {0})
unfolding apply_for_account
ask_to_open s [] w = hangs
ask_to_open s (ch ∷ rest) w =
    if ch == b'n' || ch == b'N'
    then done 0 (said goodbye (record w { input = rest }))
    else if ch == b'\n'
    then apply_for_account s rest w
    else elim (skip_line rest) [ none ↦ hangs | some r ↦ apply_for_account s r w ]

-- the `switch` of `checkme`
unfoldable pub checkme_on : Session → Status → M (Unit {0})
unfolding initialize ask_to_open
checkme_on s opened w = ok tt w
checkme_on s absent w =
    if s.report
    then done 0 (said no_account w)
    else if s.banker
    then initialize s w
    else ask_to_open s w.input w
checkme_on s waiting w =
    if ltb_ℤ (pos s.tm) w.mybal && s.report
    then done 0 (said (opens_after w.mybal) w)
    else if ltb_ℤ (pos s.tm) w.mybal && not s.banker
    then done 0 (said (not_completed w.mybal) w)
    else initialize s w

unfoldable pub checkme : Session → M (Unit {0})
unfolding checkme_on
checkme s w =
    let (st, bal) = balance w.bank s.myuid w.mybal in checkme_on s st (record w { mybal = bal })

abbrev pub is_positive : ℤ → Bool
is_positive a = ltb_ℤ (pos 0) a

-- `argv[4]`, or the empty string in `buf`, which is set only when there is no `argv[4]`
abbrev pub set_reason : List Text → World → World
set_reason [] w = record w { buf = [] }
set_reason (_ ∷ _) w = w

abbrev pub reason_of : List Text → Text
reason_of [] = []
reason_of (r ∷ _) = r

-- `parsetrans` behind `checkme`
unfoldable pub pay : Session → Code → ℤ → ℤ → List Text → M (Unit {0})
pay s type uid amt more w =
    if is_xfer type && ltb_ℤ w.mybal amt
    then ok tt (said not_enough_money w)
    else if same_uid s.myuid uid
    then ok tt (said no_transfer_to_yourself w)
    else dotrans s.myuid s.myid type uid amt (reason_of more) (set_reason more w)

-- `parsetrans` with `who`, `amount` and perhaps a reason
unfoldable pub parse_amount : Session → Code → Option ℤ → ℤ → List Text → M (Unit {0})
unfolding pay checkme
parse_amount s type none amt more w = ok tt (said no_user w)
parse_amount s type (some uid) amt more w =
    if not (is_positive amt)
    then ok tt (said bad_amount w)
    else bind_result (checkme s w) (λ _ w'. pay s type uid amt more w')

unfoldable pub parse_args : Session → Code → List Text → M (Unit {0})
unfolding parse_amount
parse_args s type (_ ∷ _ ∷ who ∷ amount ∷ []) =
    parse_amount s type (s.getpwnam who) (atol amount) []
parse_args s type (_ ∷ _ ∷ who ∷ amount ∷ reason ∷ []) =
    parse_amount s type (s.getpwnam who) (atol amount) (reason ∷ [])
parse_args s type _ = say usage

unfoldable pub parsetrans : Session → Code → List Text → M (Unit {0})
unfolding parse_args
parsetrans s type argv w =
    if not (is_xfer type) && not s.banker
    then ok tt (said not_a_banker w)
    else parse_args s type argv w
