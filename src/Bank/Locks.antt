-- ===== src/Bank/Locks.antt =====
-- The lock files of soft/apps/bank/bank.c: `setlock`, `unlock` and `done`.
pub mod Waiting
use mnetsoft.Base.{
  ℕ, zero, suc, ◌+◌, Bool, true, false, List, [], ◌∷◌, Option, none, some, if◌then◌else◌, ltb, ◌==◌,
}
use mnetsoft.Bank.Cells.{write_cell}
use mnetsoft.Bank.World.{
  Which, bank_file, trans_file, Lock, Action, idle, releases, seizes, writes, Notice,
  cannot_create_lock, blasting_old_lock, blast_failed, bank_is_busy, lock_was_blasted,
  cannot_remove_lock, World, Result, ok, exited, hangs, M, ◌>>=◌, ◌>>◌, said, lock_of, with_lock,
}

abbrev pub set_ctime : Which → Option ℕ → World → World
set_ctime which c w = with_lock which (record (lock_of which w) { ctime = c }) w

abbrev pub act : Action → World → World
act idle w = w
act (releases which) w = set_ctime which none w
act (seizes which t) w = set_ctime which (some t) w
act (writes n c) w = record w { bank = write_cell w.bank n c }

-- One action of another process falls into each sleep.
abbrev pub others_act : List Action → World → World
others_act [] w = w
others_act (a ∷ rest) w = act a (record w { others = rest })

-- sleep(3)
unfoldable pub sleep : World → World
sleep w = others_act w.others (record w { now = w.now + 3 })

-- `unlock`: it removes the lock file only if its time is the one that this process recorded.
unfoldable pub unlock_ctime : Which → Option ℕ → World → World
unlock_ctime which none w = said lock_was_blasted w
unlock_ctime which (some t) w =
    if t == (lock_of which w).fclock
    then (if w.dir_ok then set_ctime which none w else said cannot_remove_lock w)
    else said lock_was_blasted w

unfoldable pub unlock_world : Which → World → World
unfolding unlock_ctime
unlock_world which w =
    if (lock_of which w).fclock == 0
    then w
    else let w' = unlock_ctime which (lock_of which w).ctime w in
      with_lock which (record (lock_of which w') { fclock = 0 }) w'

unfoldable pub unlock : Which → M (Unit {0})
unfolding unlock_world
unlock which w = ok tt (unlock_world which w)

-- `done` unlocks what is locked; `unlock` makes the same test.
unfoldable pub done : {A : Type 0} → ℕ → M A
done code w = exited code (unlock_world trans_file (unlock_world bank_file w))

-- The open that succeeds, and the time that `fstat` gives.
abbrev pub create_lock : Which → World → World
create_lock which w = with_lock which (record { ctime = some w.now; fclock = w.now }) w

-- The `while` loop of `setlock`, on fuel; `trys` is its counter.
unfoldable pub setlock_loop : ℕ → Which → ℕ → M (Unit {0})
setlock_loop zero which trys w = hangs
setlock_loop (suc fuel) which trys w = elim (lock_of which w).ctime [
  | none ↦ if w.dir_ok then ok tt (create_lock which w) else done 1 (said cannot_create_lock w)
  | some t ↦ elim (ltb (t + 300) w.now) [
    | true ↦ elim w.dir_ok [
      | true ↦ setlock_loop fuel which trys (set_ctime which none (said blasting_old_lock w))
      | false ↦ done 1 (said blast_failed (said blasting_old_lock w))
    ]
    | false ↦ elim (ltb trys 5) [
      | true ↦ setlock_loop fuel which (trys + 1) (sleep w)
      | false ↦ done 1 (said bank_is_busy w)
    ]
  ]
]

-- at most five sleeps, and one removal before each of the six opens
abbrev pub lock_fuel : ℕ
lock_fuel = 12

unfoldable pub setlock : Which → M (Unit {0})
unfolding setlock_loop
setlock which w =
    if (lock_of which w).fclock == 0 then setlock_loop lock_fuel which 0 w else ok tt w
