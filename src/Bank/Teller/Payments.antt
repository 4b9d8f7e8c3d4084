-- ===== src/Bank/Teller/Payments.antt =====
-- What a transfer by `parsetrans` of soft/apps/bank/bank.c guarantees.
use mnetsoft.Base.{
  length, ℕ, ◌+◌, ◌-◌, ◌^◌, ◌≤◌, ◌<◌, ◌≡◌, inl, inr, refl, true, false, List, [], ◌∷◌, some,
  if◌then◌else◌, ◌==◌, arith, get_or, ◌∙◌, ap, Bool-cases, ltb,
}
use mnetsoft.Base.Int.{pos}
use mnetsoft.Base.Text.{Text, atol}
use mnetsoft.Bank.Cells.Accounts.{Account, holds, account, account_of}
use mnetsoft.Bank.Cells.Totals.{total, odd_cell, account_of-odd_cell}
use mnetsoft.Bank.Trans.{xfer, same_uid}
use mnetsoft.Bank.World.{World, ok, said, not_enough_money, no_transfer_to_yourself}
use mnetsoft.Bank.Ledger.{dotrans}
use mnetsoft.Bank.Ledger.Transfers.{Quiet, dotrans-transfers}
use mnetsoft.Bank.Teller.{
  Session, pay, parse_amount, parse_args, parsetrans, set_reason, reason_of, is_positive,
}
use mnetsoft.Bank.Teller.Checks.{keep, checkme_opened}

set_reason-bank : (more : List Text) (w : World) → (set_reason more w).bank ≡ w.bank
set_reason-bank [] w = refl
set_reason-bank (r ∷ rs) w = refl

set_reason-Quiet : (more : List Text) (w : World) → Quiet w → Quiet (set_reason more w)
set_reason-Quiet [] w q = record {
  bank_free = q.bank_free;
  trans_free = q.trans_free;
  allowed = q.allowed;
  later = q.later;
}
set_reason-Quiet (r ∷ rs) w q = q

module _ (s : Session) (n : ℕ) (mine : s.myuid ≡ pos n) where
  -- A transfer asked for on the command line, between two accounts that are open at balances of zero
  -- or more, with the lock files free.
  module _ (to b c amt : ℕ) (w : World) (more : List Text) (q : Quiet w)
      (ours : get_or w.bank n (pos 0) ≡ odd_cell b) (theirs : get_or w.bank to (pos 0) ≡ odd_cell c)
      (fb : b + 1 ≤ 2 ^ 62) (fc : c + amt + 1 ≤ 2 ^ 62) where
    -- the world in which `pay` runs
    abbrev checked : World
    checked = record w { mybal = pos b }

    abbrev left : Account
    left =
        if ltb b amt
        then holds (pos b)
        else if n == to
        then holds (pos b)
        else holds (pos (b - amt))

    holds_ours : account w.bank (pos n) ≡ holds (pos b)
    holds_ours = ap account_of ours ∙ account_of-odd_cell b

    same_self : same_uid s.myuid (pos to) ≡ (n == to)
    same_self = ap (λ u. same_uid u (pos to)) mine

    pay_poor :
        ltb b amt ≡ true
        → pay s xfer (pos to) (pos amt) more checked ≡ ok tt (said not_enough_money checked)
    unfolding pay
    pay_poor h = ground arith

    pay_self :
        ltb b amt ≡ false
        → n == to ≡ true
        → pay s xfer (pos to) (pos amt) more checked ≡ ok tt (said no_transfer_to_yourself checked)
    unfolding pay
    pay_self h e = ground (arith, same_self)

    pay_other :
        ltb b amt ≡ false
        → n == to ≡ false
        → pay s xfer (pos to) (pos amt) more checked
          ≡ dotrans s.myuid s.myid xfer
              (pos to)
              (pos amt)
              (reason_of more)
              (set_reason more checked)
    unfolding pay
    pay_other h e = ground (arith, same_self)

    pay_keeps :
        (w' : World) × (pay s xfer (pos to) (pos amt) more checked ≡ ok tt w')
        × (total w'.bank ≡ total w.bank)
        × (account w'.bank (pos n) ≡ left)
    pay_keeps = elim (Bool-cases (ltb b amt)) [
      | inl poor ↦ (said not_enough_money checked, pay_poor poor, refl, rw poor holds_ours)
      | inr rich ↦ elim (Bool-cases (n == to)) [
        | inl self ↦ (
          said no_transfer_to_yourself checked,
          pay_self rich self,
          refl,
          rw (rich, self) holds_ours,
        )
        | inr apart ↦
            let (bf, ran, sum, accounts) =
              dotrans-transfers n to (b - amt) c amt s.myid (reason_of more)
                (set_reason more checked) (set_reason-Quiet more checked (keep q)) (ground arith)
                (rw set_reason-bank (ours ∙ ap odd_cell (ground arith))) (rw set_reason-bank theirs)
                (ground arith) fc in
            (
              record (set_reason more checked) { bank = bf; trans = _ },
              pay_other rich apart
                  ∙ ap
                      (λ u.
                        dotrans u s.myid xfer (pos to) (pos amt) (reason_of more)
                          (set_reason more checked))
                      mine
                  ∙ ran,
              sum ∙ ap total (set_reason-bank more checked),
              rw (rich, apart) (accounts n ∙ ground arith),
            )
      ]
    ]

    parse_amount_keeps :
        0 < amt
        → (w' : World) × (parse_amount s xfer (some (pos to)) (pos amt) more w ≡ ok tt w')
          × (total w'.bank ≡ total w.bank)
          × (account w'.bank (pos n) ≡ left)
    unfolding parse_amount
    parse_amount_keeps h =
        let (w', ran, sum, acc) = pay_keeps in
        let more_than_none : is_positive (pos amt) ≡ true = ground arith in
        (w', rw (more_than_none, checkme_opened s n mine w b ours) ran, sum, acc)

-- A transfer asked for on the command line of a positive amount, with a reason of one word or none,
-- to a user whom the system knows; neither uid is negative. Both accounts are open at balances of
-- zero or more, the customer's balance and the sum of the other balance and the amount are below
-- 2 ^ 62, no process holds a lock, this one may take them, and the clock is not at 0. Then the
-- program goes on, the sum of all the balances, as `listall` reads them, is kept, and the customer's
-- account keeps its balance if that is less than the amount or the user is the customer, and else
-- pays the amount: it is never overdrawn.
pub parsetrans-keeps_money :
    (s : Session) (n to b c amt : ℕ) (prog flag who amount : Text) (more : List Text) (w : World)
    → s.myuid ≡ pos n
    → s.getpwnam who ≡ some (pos to)
    → atol amount ≡ pos amt
    → 0 < amt
    → length more ≤ 1
    → Quiet w
    → get_or w.bank n (pos 0) ≡ odd_cell b
    → get_or w.bank to (pos 0) ≡ odd_cell c
    → b + 1 ≤ 2 ^ 62
    → c + amt + 1 ≤ 2 ^ 62
    → (w' : World) × (parsetrans s xfer (prog ∷ flag ∷ who ∷ amount ∷ more) w ≡ ok tt w')
      × (total w'.bank ≡ total w.bank)
      × (account w'.bank (pos n) ≡ (
          if ltb b amt
          then holds (pos b)
          else if n == to
          then holds (pos b)
          else holds (pos (b - amt))))
unfolding parsetrans parse_args
parsetrans-keeps_money s n to b c amt prog flag who amount [] w mine knows reads h few q ours theirs
      fb fc =
    rw (knows, reads) (parse_amount_keeps s n mine to b c amt w [] q ours theirs fb fc h)
parsetrans-keeps_money s n to b c amt prog flag who amount (r ∷ []) w mine knows reads h few q ours
      theirs fb fc =
    rw (knows, reads) (parse_amount_keeps s n mine to b c amt w (r ∷ []) q ours theirs fb fc h)
parsetrans-keeps_money s n to b c amt prog flag who amount (r ∷ r' ∷ rs) w mine knows reads h few q
      ours theirs fb fc =
    absurd (omega arith)
