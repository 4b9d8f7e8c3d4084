-- ===== src/Bank/Desk/Opening.antt =====
-- What `asktrans` of soft/apps/bank/bank.c does to an account that waits to be opened.
use mnetsoft.Base.{
  ℕ, ◌≤◌, ◌<◌, ◌≡◌, false, List, ◌∷◌, some, if◌then◌else◌, ltb, ltb→lt, Bool-cases, inl, inr, ◌&&◌,
  arith, ◌∙◌, ap, not,
}
use mnetsoft.Base.Int.{ℤ, pos, ltb_ℤ}
use mnetsoft.Base.Text.{Text, atol, strlcpy}
use mnetsoft.Bank.Cells.{waiting, credit, balance}
use mnetsoft.Bank.Cells.Accounts.{account, opens_at, holds, balance-account, starting}
use mnetsoft.Bank.Trans.{Code, same_uid}
use mnetsoft.Bank.World.{World, ok, said, will_open}
use mnetsoft.Bank.Ledger.Transfers.{Quiet, addbalance-Quiet}
use mnetsoft.Bank.Teller.{Session, is_positive}
use mnetsoft.Bank.Teller.Checks.{account-open}
use mnetsoft.Bank.Desk.{read_buf, ask_amount, asktrans_on, asktrans, getwho, look_up}

read_buf-bank :
    (w : World) (bf : List ℤ)
    → read_buf (record w { bank = bf }) ≡ record (read_buf w) { bank = bf }
unfolding read_buf
read_buf-bank w bf = ground arith

bank-read_buf : (w : World) → (read_buf w).bank ≡ w.bank
unfolding read_buf
bank-read_buf w = ground arith

ask_amount-none :
    (s : Session) (type : Code) (uid : ℤ) (w : World)
    → is_positive (atol (read_buf w).buf) ≡ false
    → ask_amount s type uid w ≡ ok tt (read_buf w)
unfolding ask_amount
ask_amount-none s type uid w h = rw h

asktrans_on-late :
    (s : Session) (type : Code) (n t : ℕ) (w : World)
    → s.banker ≡ false
    → t < s.tm
    → asktrans_on s type (pos n) (waiting, pos t) w ≡ ok tt (said (will_open (pos t)) w)
unfolding asktrans_on
asktrans_on-late s type n t w teller past = ground arith

asktrans_on-early :
    (s : Session) (type : Code) (n t : ℕ) (w : World)
    → s.tm ≤ t
    → Quiet w
    → is_positive (atol (read_buf w).buf) ≡ false
    → asktrans_on s type (pos n) (waiting, pos t) w
      ≡ ok tt (record (read_buf w) { bank = credit w.bank n (pos 0) })
unfolding asktrans_on
asktrans_on-early s type n t w early q none_paid =
    let test : (not s.banker && ltb_ℤ (pos t) (pos s.tm)) ≡ false = ground arith in
    let same = read_buf-bank w (credit w.bank n (pos 0)) in
    rw (test, addbalance-Quiet n (pos 0) w q)
      (ask_amount-none s type (pos n) (record w { bank = credit w.bank n (pos 0) })
          (ap (λ (v : World). is_positive (atol v.buf)) same ∙ none_paid)
        ∙ ap (λ v. ok tt v) same)

balance-waiting :
    (bf : List ℤ) (n t : ℕ) (d : ℤ)
    → account bf (pos n) ≡ opens_at (pos t)
    → balance bf (pos n) d ≡ (waiting, pos t)
balance-waiting bf n t d e =
    let reads = balance-account bf (pos n) d in ground (arith, reads.0, reads.1, e)

look_up-known :
    (s : Session) (w : World) {uid : ℤ} → s.getpwnam w.hisid ≡ some uid → look_up s w ≡ ok uid w
unfolding look_up
look_up-known s w e = rw (e, look_up)

asktrans-known :
    (s : Session) (type : Code) (n t c : ℕ) (did : Text) (w : World)
    → s.getpwnam (strlcpy (c ∷ did) 42) ≡ some (pos n)
    → same_uid (pos n) s.myuid ≡ false
    → account w.bank (pos n) ≡ opens_at (pos t)
    → asktrans s type (c ∷ did) w
      ≡ asktrans_on s type (pos n) (waiting, pos t) (record w { hisid = strlcpy (c ∷ did) 42 })
unfolding asktrans getwho
asktrans-known s type n t c did w knows other waits =
    rw (look_up-known s (record w { hisid = strlcpy (c ∷ did) 42 }) knows, other)
      (rw (balance-waiting w.bank n t (pos 0) waits))

read_buf-hisid :
    (w : World) (id : Text)
    → read_buf (record w { hisid = id }) ≡ record (read_buf w) { hisid = id }
unfolding read_buf
read_buf-hisid w id = ground arith

-- A customer who is not a banker names another user whose account is to open at the time `t`, and
-- then gives no positive amount. If `t` is past, the customer is told so and the account stays
-- unopened. If `t` is still to come, the account is opened at once, with ten units.
asktrans-waiting :
    (s : Session) (type : Code) (n t c : ℕ) (did : Text) (w : World)
    → s.banker ≡ false
    → s.getpwnam (strlcpy (c ∷ did) 42) ≡ some (pos n)
    → same_uid (pos n) s.myuid ≡ false
    → Quiet w
    → account w.bank (pos n) ≡ opens_at (pos t)
    → is_positive (atol (read_buf w).buf) ≡ false
    → (w' : World) × (asktrans s type (c ∷ did) w ≡ ok tt w')
      × (account w'.bank (pos n) ≡ (if ltb t s.tm then opens_at (pos t) else holds (pos 10)))
asktrans-waiting s type n t c did w teller knows other q waits none_paid =
    let id = strlcpy (c ∷ did) 42 in
    let w₁ : World = record w { hisid = id } in
    let step = asktrans-known s type n t c did w knows other waits in
    let q₁ : Quiet w₁ = record {
      bank_free = q.bank_free;
      trans_free = q.trans_free;
      allowed = q.allowed;
      later = q.later;
    } in
    elim (Bool-cases (ltb t s.tm)) [
      | inl past ↦ (
        said (will_open (pos t)) w₁,
        step ∙ asktrans_on-late s type n t w₁ teller (ltb→lt t s.tm past),
        rw past waits,
      )
      | inr early ↦ (
        record (read_buf w₁) { bank = credit w.bank n (pos 0) },
        step
            ∙ asktrans_on-early s type n t w₁ (ground arith) q₁
                (ap (λ (v : World). is_positive (atol v.buf)) (read_buf-hisid w id) ∙ none_paid),
        rw early (account-open w.bank n (ap starting waits)),
      )
    ]
