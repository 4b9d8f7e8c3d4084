-- ===== src/Bank/Teller/Checks.antt =====
-- What `checkme` of soft/apps/bank/bank.c guarantee.
use mnetsoft.Base.{ℕ, zero, suc, ◌≡◌, ◌≢◌, List, [], ◌∷◌, arith, get_or, ◌∙◌, ap, sym}
use mnetsoft.Base.Int.{ℤ, pos, ◌+ℤ◌}
use mnetsoft.Base.Long.{is_even, half}
use mnetsoft.Bank.Cells.{Status, opened, absent, waiting, balance, credit}
use mnetsoft.Bank.Cells.Accounts.{
  Account, closed, opens_at, holds, account, status_of, shown, starting, balance-account,
  account-credit,
}
use mnetsoft.Bank.Cells.Totals.{odd_cell}
use mnetsoft.Bank.World.{World, Result, ok}
use mnetsoft.Bank.Locks.{done}
use mnetsoft.Bank.Ledger.Transfers.{Quiet, addbalance-Quiet}
use mnetsoft.Bank.Teller.{Session, initialize, checkme_on, checkme, ask_to_open, apply_for_account}

-- An account is opened with ten units, also one whose time has come.
pub account-open :
    (bf : List ℤ) (n : ℕ)
    → starting (account bf (pos n)) ≡ pos 10
    → account (credit bf n (pos 0)) (pos n) ≡ holds (pos 10)
unfolding ◌+ℤ◌
account-open bf n e =
    let sum : pos 0 +ℤ starting (account bf (pos n)) ≡ pos 10 = rw e in
    ground (arith, account-credit bf n n (pos 0) (rw sum (omega arith)) (rw sum (omega arith)))

ok-injective : {v w : World} → ok tt v ≡ ok tt w → v ≡ w
ok-injective e = ground arith

starting-absent : (a : Account) → status_of a ≢ opened → starting a ≡ pos 10
starting-absent a h = ground arith

balance-odd_cell :
    (bf : List ℤ) (n b : ℕ) (d : ℤ)
    → get_or bf n (pos 0) ≡ odd_cell b
    → balance bf (pos n) d ≡ (opened, pos b)
unfolding balance is_even half
balance-odd_cell [] n b d h = ground arith
balance-odd_cell (x ∷ xs) zero b d h = rw h (ground arith)
balance-odd_cell (x ∷ xs) (suc n) b d h = balance-odd_cell xs n b d h

opened-holds :
    (a : Account) (d : ℤ) {b : ℤ}
    → status_of a ≡ opened
    → (a ≢ closed → b ≡ shown a d)
    → a ≡ holds b
opened-holds closed d e h = ground arith
opened-holds (opens_at t) d e h = ground arith
opened-holds (holds c) d e h = ap holds (sym (h (λ p. ground arith)))

-- `checkme` with the uid apart from the session
abbrev checkme_at : Session → World → ℤ → Result (Unit {0})
checkme_at s w uid =
    let (st, bal) = balance w.bank uid w.mybal in checkme_on s st (record w { mybal = bal })

pub keep : {w : World} {bal : ℤ} → Quiet w → Quiet (record w { mybal = bal })
keep q = record {
  bank_free = q.bank_free;
  trans_free = q.trans_free;
  allowed = q.allowed;
  later = q.later;
}

module _ (s : Session) (n : ℕ) (mine : s.myuid ≡ pos n) where
  initialize-Quiet :
      (w : World)
      → Quiet w
      → initialize s w ≡ ok tt (record w { bank = credit w.bank n (pos 0); mybal = pos 10 })
  unfolding initialize
  initialize-Quiet w q = rw (mine, addbalance-Quiet n (pos 0) w q)

  initialize-open :
      (w w' : World)
      → Quiet w
      → starting (account w.bank (pos n)) ≡ pos 10
      → initialize s w ≡ ok tt w'
      → account w'.bank (pos n) ≡ holds w'.mybal
  initialize-open w w' q e ran =
      let same : w' ≡ record w { bank = credit w.bank n (pos 0); mybal = pos 10 } =
        ok-injective (sym ran ∙ initialize-Quiet w q) in
      rw same (account-open w.bank n e)

  checkme_on-open :
      (st : Status) (w w' : World)
      → Quiet w
      → status_of (account w.bank (pos n)) ≡ st
      → (st ≡ opened → account w.bank (pos n) ≡ holds w.mybal)
      → checkme_on s st w ≡ ok tt w'
      → account w'.bank (pos n) ≡ holds w'.mybal
  unfolding checkme_on ask_to_open apply_for_account done
  checkme_on-open opened w w' q e h ran = ground (arith, ok-injective ran)
  checkme_on-open absent w w' q e h ran =
      ground (arith, initialize-open w w' q, starting-absent (account w.bank (pos n)))
  checkme_on-open waiting w w' q e h ran =
      ground (arith, initialize-open w w' q, starting-absent (account w.bank (pos n)))

  -- `checkme` returns only if the customer's account is open, and `mybal` is then its balance.
  checkme-open :
      (w w' : World) → Quiet w → checkme s w ≡ ok tt w' → account w'.bank (pos n) ≡ holds w'.mybal
  unfolding checkme
  checkme-open w w' q ran =
      let reads = balance-account w.bank (pos n) w.mybal in
      let (st, bal) = balance w.bank (pos n) w.mybal in
      checkme_on-open st (record w { mybal = bal }) w' (keep q) (sym reads.0)
        (λ e. opened-holds (account w.bank (pos n)) w.mybal (sym reads.0 ∙ e) reads.1)
        (ap (checkme_at s w) (sym mine) ∙ ran)

  -- An open account is let through, with its balance in `mybal`.
  pub checkme_opened :
      (w : World) (b : ℕ)
      → get_or w.bank n (pos 0) ≡ odd_cell b
      → checkme s w ≡ ok tt (record w { mybal = pos b })
  unfolding checkme checkme_on
  checkme_opened w b h =
      ap (checkme_at s w) mine
      ∙ ap (λ (p : Status × ℤ). checkme_on s p.0 (record w { mybal = p.1 }))
          (balance-odd_cell w.bank n b w.mybal h)
