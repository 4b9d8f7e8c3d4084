-- ===== src/Bank/Locks/Waiting.antt =====
-- How `setlock` ends, and how long it takes.
use mnetsoft.Base.{
  ℕ, zero, suc, ◌+◌, ◌-◌, ◌*◌, ◌≤◌, ◌<◌, ◌≡◌, ◌≢◌, refl, true, false, List, [], ◌∷◌, Option, none,
  some, ltb, arith, Bool-cases, inl, inr, Option-cases, ltb→lt,
}
use mnetsoft.Bank.World.{
  Which, bank_file, trans_file, Action, idle, releases, seizes, writes, World, said,
  cannot_create_lock, blasting_old_lock, blast_failed, bank_is_busy, Result, ok, exited, hangs,
  fault, lock_of, with_lock,
}
use mnetsoft.Bank.Locks.{
  sleep, act, others_act, set_ctime, create_lock, setlock_loop, setlock, done, lock_fuel,
  unlock_world,
}

-- Both the lock file and `fclock` carry the time at which this process took the lock.
pub record Held (which : Which) (w : World) : Type 0 where
  pub made : (lock_of which w).ctime ≡ some w.now
  pub recorded : (lock_of which w).fclock ≡ w.now

-- The call returns holding the lock, or ends the process with code 1, no later than `deadline`.
abbrev pub Ends : Which → ℕ → Result (Unit {0}) → Type 0
Ends which deadline (ok _ w') = Held which w' × (w'.now ≤ deadline)
Ends which deadline (exited c w') = (c ≡ 1) × (w'.now ≤ deadline)
Ends which deadline hangs = ⊥
Ends which deadline fault = ⊥

Ends-mono :
    (which : Which) {d e : ℕ} (r : Result (Unit {0})) → d ≤ e → Ends which d r → Ends which e r
Ends-mono which (ok _ w') le h = (h.0, omega (arith, h.1))
Ends-mono which (exited c w') le h = omega (arith, h)
Ends-mono which hangs le h = h
Ends-mono which fault le h = h

now-act : (a : Action) (w : World) → (act a w).now ≡ w.now
now-act idle w = refl
now-act (releases bank_file) w = refl
now-act (releases trans_file) w = refl
now-act (seizes bank_file t) w = refl
now-act (seizes trans_file t) w = refl
now-act (writes n c) w = refl

now-sleep : (w : World) → (sleep w).now ≡ w.now + 3
unfolding sleep
now-sleep w = go w.others (record w { now = w.now + 3 })
  where
    go : (rest : List Action) (v : World) → (others_act rest v).now ≡ v.now
    go [] v = refl
    go (a ∷ rest) v = now-act a (record v { others = rest })

now-unlock : (which : Which) (w : World) → (unlock_world which w).now ≡ w.now
unfolding unlock_world
now-unlock bank_file w = ground arith
now-unlock trans_file w = ground arith

create_lock-Held : (which : Which) (w : World) → Held which (create_lock which w)
create_lock-Held bank_file w = record { made = refl; recorded = refl }
create_lock-Held trans_file w = record { made = refl; recorded = refl }

now-create_lock : (which : Which) (w : World) → (create_lock which w).now ≡ w.now
now-create_lock bank_file w = refl
now-create_lock trans_file w = refl

now-set_ctime : (which : Which) (c : Option ℕ) (w : World) → (set_ctime which c w).now ≡ w.now
now-set_ctime bank_file c w = refl
now-set_ctime trans_file c w = refl

ctime-set_ctime :
    (which : Which) (c : Option ℕ) (w : World) → (lock_of which (set_ctime which c w)).ctime ≡ c
ctime-set_ctime bank_file c w = refl
ctime-set_ctime trans_file c w = refl

-- `done 1` from a state that is `wait` seconds before the deadline
done-Ends :
    (which : Which) (deadline : ℕ) (w : World) → w.now ≤ deadline → Ends which deadline (done 1 w)
unfolding done
done-Ends which deadline w h =
    (refl, rw (now-unlock trans_file (unlock_world bank_file w), now-unlock bank_file w) h)

-- The branches of one round of the loop.
module _ (which : Which) (fuel trys : ℕ) (w : World) where
  round_opens :
      (lock_of which w).ctime ≡ none
      → w.dir_ok ≡ true
      → setlock_loop (suc fuel) which trys w ≡ ok tt (create_lock which w)
  unfolding setlock_loop
  round_opens free can = ground arith

  round_cannot :
      (lock_of which w).ctime ≡ none
      → w.dir_ok ≡ false
      → setlock_loop (suc fuel) which trys w ≡ done 1 (said cannot_create_lock w)
  unfolding setlock_loop
  round_cannot free cannot = ground arith

  module _ {t : ℕ} (taken : (lock_of which w).ctime ≡ some t) where
    round_blasts :
        ltb (t + 300) w.now ≡ true
        → w.dir_ok ≡ true
        → setlock_loop (suc fuel) which trys w
          ≡ setlock_loop fuel which trys (set_ctime which none (said blasting_old_lock w))
    unfolding setlock_loop
    round_blasts old can = ground arith

    round_blast_fails :
        ltb (t + 300) w.now ≡ true
        → w.dir_ok ≡ false
        → setlock_loop (suc fuel) which trys w
          ≡ done 1 (said blast_failed (said blasting_old_lock w))
    unfolding setlock_loop
    round_blast_fails old cannot = ground arith

    round_sleeps :
        ltb (t + 300) w.now ≡ false
        → ltb trys 5 ≡ true
        → setlock_loop (suc fuel) which trys w ≡ setlock_loop fuel which (trys + 1) (sleep w)
    unfolding setlock_loop
    round_sleeps young again = ground arith

    round_gives_up :
        ltb (t + 300) w.now ≡ false
        → ltb trys 5 ≡ false
        → setlock_loop (suc fuel) which trys w ≡ done 1 (said bank_is_busy w)
    unfolding setlock_loop
    round_gives_up young enough = ground arith

setlock_loop_free-Ends :
    (which : Which) (fuel trys : ℕ) (w : World)
    → (lock_of which w).ctime ≡ none
    → 0 < fuel
    → Ends which w.now (setlock_loop fuel which trys w)
setlock_loop_free-Ends which zero trys w free f = absurd (omega arith)
setlock_loop_free-Ends which (suc fuel) trys w free f = elim (Bool-cases w.dir_ok) [
  | inl can ↦
      rw (round_opens which fuel trys w free can)
        (create_lock-Held which w, omega (arith, now-create_lock which w))
  | inr cannot ↦ rw (round_cannot which fuel trys w free cannot) (done-Ends which _ _ (omega arith))
]

-- With the fuel for what is left of the six opens the loop ends, three seconds for each sleep.
setlock_loop-Ends :
    (which : Which) (fuel trys : ℕ) (w : World)
    → trys ≤ 5
    → 2 * (6 - trys) ≤ fuel
    → Ends which (w.now + 3 * (5 - trys)) (setlock_loop fuel which trys w)
setlock_loop-Ends which zero trys w small f = absurd (omega arith)
setlock_loop-Ends which (suc fuel) trys w small f = elim (Option-cases (lock_of which w).ctime) [
  | inl free ↦
      Ends-mono which _ (omega arith)
        (setlock_loop_free-Ends which (suc fuel) trys w free (omega arith))
  | inr (t, taken) ↦ elim (Bool-cases (ltb (t + 300) w.now)) [
    | inl old ↦ elim (Bool-cases w.dir_ok) [
      | inl can ↦
          let v = set_ctime which none (said blasting_old_lock w) in
          rw (round_blasts which fuel trys w taken old can) (
            Ends-mono which _ (omega (arith, now-set_ctime which none (said blasting_old_lock w))) (
              setlock_loop_free-Ends which fuel trys v
                (ctime-set_ctime which none (said blasting_old_lock w)) (omega arith)))
      | inr cannot ↦
          rw (round_blast_fails which fuel trys w taken old cannot)
            (done-Ends which _ _ (omega arith))
    ]
    | inr young ↦ elim (Bool-cases (ltb trys 5)) [
      | inl again ↦ rw (round_sleeps which fuel trys w taken young again) (
          Ends-mono which _ (omega (arith, now-sleep w, ltb→lt trys 5 again)) (
            setlock_loop-Ends which fuel (trys + 1) (sleep w) (omega (arith, ltb→lt trys 5 again))
              (omega arith)))
      | inr enough ↦
          rw (round_gives_up which fuel trys w taken young enough)
            (done-Ends which _ _ (omega arith))
    ]
  ]
]

-- `setlock` always ends, within 15 seconds: it returns holding the lock, or ends the process
-- with code 1. (The process does not hold the lock when it is called.)
pub setlock-Ends :
    (which : Which) (w : World)
    → (lock_of which w).fclock ≡ 0
    → Ends which (w.now + 15) (setlock which w)
unfolding setlock
setlock-Ends which w free =
    rw free (setlock_loop-Ends which lock_fuel 0 w (omega arith) (omega arith))

-- A free lock file is taken at once.
pub setlock_free :
    (which : Which) (w : World)
    → (lock_of which w).fclock ≡ 0
    → (lock_of which w).ctime ≡ none
    → w.dir_ok ≡ true
    → setlock which w ≡ ok tt (create_lock which w)
unfolding setlock
setlock_free which w mine free can = rw mine (round_opens which 11 0 w free can)

-- What this process made it removes, and forgets.
pub unlock_made :
    (which : Which) (w : World) {t : ℕ}
    → lock_of which w ≡ record { ctime = some t; fclock = t }
    → 0 < t
    → w.dir_ok ≡ true
    → unlock_world which w ≡ with_lock which (record { ctime = none; fclock = 0 }) w
unfolding unlock_world
unlock_made bank_file w e h can = rw e (ground arith)
unlock_made trans_file w e h can = rw e (ground arith)

-- A lock file that bears another time is left: `unlock` only warns.
ctime-unlock_other :
    (which : Which) (w : World) {t : ℕ}
    → (lock_of which w).ctime ≡ some t
    → t ≢ (lock_of which w).fclock
    → ((lock_of which (unlock_world which w)).ctime ≡ some t)
      × ((lock_of which (unlock_world which w)).fclock ≡ 0)
unfolding unlock_world
ctime-unlock_other bank_file w e ne = ground arith
ctime-unlock_other trans_file w e ne = ground arith
