-- ===== src/Bank/Desk.antt =====
-- The questions of soft/apps/bank/bank.c at the terminal: `getwho`, `asktrans`, `askopen`,
-- `askclose`, `askreport` and the banker's loop `dobank`. A null pointer for a name is the empty
-- name, which is treated alike.
pub mod Opening
use mnetsoft.Base.{
  ℕ, zero, suc, Bool, true, false, not, ◌&&◌, ◌||◌, Option, none, some, List, [], ◌∷◌, ◌++◌,
  if◌then◌else◌, ◌==◌, length,
}
use mnetsoft.Base.Int.{ℤ, pos, negsuc, ltb_ℤ}
use mnetsoft.Base.Text.{Text, fgets, skip_line, atol, strlcpy}
use mnetsoft.Bank.Cells.{Status, opened, absent, waiting, balance}
use mnetsoft.Bank.Trans.{Code, xfer, gift, fine, same_uid}
use mnetsoft.Bank.World.{
  Notice, no_account, no_user, that_is_you, has_not_applied, will_open, only_have,
  only_40_characters, balance_is, pardon, World, Result, ok, hangs, fault, M, ◌>>=◌, ◌>>◌,
  bind_result, said, say,
}
use mnetsoft.Bank.Ledger.{update, addbalance, openaccount, closeaccount, dotrans, is_xfer}
use mnetsoft.Bank.Teller.{Session, is_positive}

-- fgets(buf, 40, stdin): at the end of the input the buffer stays as it is.
unfoldable pub read_buf : World → World
read_buf w = elim (fgets 40 w.input) [
  | none ↦ w
  | some (line, rest) ↦ record w { buf = line; input = rest }
]

unfoldable pub read_hisid : World → World
read_hisid w = elim (fgets 40 w.input) [
  | none ↦ w
  | some (line, rest) ↦ record w { hisid = line; input = rest }
]

abbrev pub last : Text → Option ℕ
last [] = none
last (c ∷ []) = some c
last (c ∷ c' ∷ cs) = last (c' ∷ cs)

abbrev pub drop_last : Text → Text
drop_last [] = []
drop_last (c ∷ []) = []
drop_last (c ∷ c' ∷ cs) = c ∷ drop_last (c' ∷ cs)

-- `hisid[strlen(hisid) - 1] = '\0'`, which writes before an empty buffer
unfoldable pub chop_hisid : M (Unit {0})
chop_hisid w = elim (last w.hisid) [
  | none ↦ fault
  | some _ ↦ ok tt (record w { hisid = drop_last w.hisid })
]

-- -1 for a name that is not in the password file
unfoldable pub look_up : Session → M ℤ
look_up s w = elim (s.getpwnam w.hisid) [
  | none ↦ ok (negsuc 0) (said no_user w)
  | some uid ↦ ok uid w
]

unfoldable pub getwho : Session → Text → M ℤ
unfolding read_hisid chop_hisid look_up
getwho s [] w = bind_result (chop_hisid (read_hisid w)) (λ _ w'. look_up s w')
getwho s (c ∷ did) w = look_up s (record w { hisid = strlcpy (c ∷ did) 42 })

-- "What for?": the reason, on fuel; each round reads at least a byte or the end of the input.
unfoldable pub ask_reason : ℕ → M Text
unfolding read_buf
ask_reason zero w = hangs
ask_reason (suc fuel) w =
    let w' = read_buf w in
    elim (last w'.buf) [
      | none ↦ fault
      | some c ↦ elim (c == b'\n') [
        | true ↦ ok (drop_last w'.buf) (record w' { buf = drop_last w'.buf })
        | false ↦ elim (skip_line w'.input) [
          | none ↦ hangs
          | some rest ↦ ask_reason fuel (record (said only_40_characters w') { input = rest })
        ]
      ]
    ]

-- `asktrans` from the question "How many?" on
unfoldable pub ask_amount : Session → Code → ℤ → M (Unit {0})
unfolding ask_reason read_buf
ask_amount s type hisuid w =
    let w' = read_buf w in
    let amt = atol w'.buf in
    if not (is_positive amt)
    then ok tt w'
    else if is_xfer type && ltb_ℤ w'.mybal amt
    then ok tt (said only_have w')
    else bind_result (ask_reason (suc (length w'.input)) w')
        (λ reason v. dotrans s.myuid s.myid type hisuid amt reason v)

-- the `switch` of `asktrans` on the other's account
unfoldable pub asktrans_on : Session → Code → ℤ → Status × ℤ → M (Unit {0})
unfolding ask_amount
asktrans_on s type hisuid (opened, hisbal) w = ask_amount s type hisuid w
asktrans_on s type hisuid (absent, hisbal) w =
    if not s.banker
    then ok tt (openaccount hisuid (said has_not_applied w))
    else bind_result (addbalance hisuid (pos 0) w) (λ _ w'. ask_amount s type hisuid w')
asktrans_on s type hisuid (waiting, hisbal) w =
    if not s.banker && ltb_ℤ hisbal (pos s.tm)
    then ok tt (said (will_open hisbal) w)
    else bind_result (addbalance hisuid (pos 0) w) (λ _ w'. ask_amount s type hisuid w')

abbrev pub is_negative : ℤ → Bool
is_negative (pos _) = false
is_negative (negsuc _) = true

unfoldable pub asktrans : Session → Code → Text → M (Unit {0})
unfolding asktrans_on getwho
asktrans s type did w = bind_result (getwho s did w) (λ hisuid w'.
    if is_negative hisuid
    then ok tt w'
    else if same_uid hisuid s.myuid
    then ok tt (said that_is_you w')
    else asktrans_on s type hisuid (balance w'.bank hisuid (pos 0)) w')

unfoldable pub askopen : Session → Text → M (Unit {0})
unfolding getwho
askopen s did w =
    bind_result (getwho s did w)
      (λ hisuid w'. if is_negative hisuid then ok tt w' else addbalance hisuid (pos 0) w')

unfoldable pub askclose : Session → Text → M (Unit {0})
unfolding getwho
askclose s did w =
    bind_result (getwho s did w)
      (λ hisuid w'. ok tt (if is_negative hisuid then w' else closeaccount hisuid w'))

abbrev pub report_of : Status × ℤ → Notice
report_of (opened, amt) = balance_is amt
report_of (absent, amt) = no_account
report_of (waiting, amt) = will_open amt

unfoldable pub askreport : Session → Text → M (Unit {0})
unfolding getwho
askreport s did w = bind_result (getwho s did w) (λ hisuid w'.
    ok tt (if is_negative hisuid then w' else said (report_of (balance w'.bank hisuid (pos 0))) w'))

-- The buffer and the argument `w` behind the loop over `buf`: at the first space the argument
-- begins, and its last byte is cut. With nothing behind the space, the space itself is cut.
unfoldable pub split_command : Text → Text × Text
split_command [] = ([], [])
split_command (c ∷ cs) =
    let (rest, arg) = split_command cs in
    if c == b' '
    then elim cs [ [] ↦ ([], []) | d ∷ ds ↦ (c ∷ drop_last (d ∷ ds), drop_last (d ∷ ds)) ]
    else (c ∷ rest, arg)

-- What `switch (buf[0])` selects.
pub data Command : Type 0 where
  ask_xfer ask_fine ask_gift ask_open ask_close ask_report : Command
  nothing leave unknown : Command

unfoldable pub command_of : Text → Command
command_of [] = leave
command_of (c ∷ _) =
    if c == b'T' || c == b't'
    then ask_xfer
    else if c == b'F' || c == b'f'
    then ask_fine
    else if c == b'B' || c == b'b'
    then ask_gift
    else if c == b'O' || c == b'o'
    then ask_open
    else if c == b'C' || c == b'c'
    then ask_close
    else if c == b'R' || c == b'r'
    then ask_report
    else if c == b'\n'
    then nothing
    else if c == b'Q' || c == b'q'
    then leave
    else unknown

-- One command; the result says whether the loop goes on.
unfoldable pub run_command : Session → Command → Text → M Bool
unfolding asktrans askopen askclose askreport
run_command s ask_xfer arg w = bind_result (asktrans s xfer arg w) (λ _ v. ok true v)
run_command s ask_fine arg w = bind_result (asktrans s fine arg w) (λ _ v. ok true v)
run_command s ask_gift arg w = bind_result (asktrans s gift arg w) (λ _ v. ok true v)
run_command s ask_open arg w = bind_result (askopen s arg w) (λ _ v. ok true v)
run_command s ask_close arg w = bind_result (askclose s arg w) (λ _ v. ok true v)
run_command s ask_report arg w = bind_result (askreport s arg w) (λ _ v. ok true v)
run_command s nothing arg w = ok true w
run_command s leave arg w = ok false w
run_command s unknown arg w = ok true (said pardon w)

-- `dobank`, on fuel: each round reads at least a byte, or leaves at the end of the input.
unfoldable pub dobank : Session → ℕ → M (Unit {0})
unfolding read_buf split_command command_of run_command
dobank s zero w = hangs
dobank s (suc fuel) w =
    let w' = read_buf (record w { buf = [] }) in
    let (buf, arg) = split_command w'.buf in
    bind_result (run_command s (command_of buf) arg (record w' { buf = buf }))
      (λ again v. elim again [ true ↦ dobank s fuel v | false ↦ ok tt v ])
