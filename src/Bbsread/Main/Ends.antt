-- ===== src/Bbsread/Main/Ends.antt =====
-- The main loop of soft/cmd/bbsread/bbsread.c comes to an end.
use mnetsoft.Base.{
  ℕ, zero, suc, ◌-◌, List, [], ◌∷◌, if◌then◌else◌, drop, arith, ◌<◌, Bool-cases, inl, inr,
}
use mnetsoft.Base.Int.{pos}
use mnetsoft.Base.Text.{Text}
use mnetsoft.Bbsread.Part.{Pfe, last_read}
use mnetsoft.Bbsread.Part.Entries.{IsSorted}
use mnetsoft.Bbsread.Sum.{Found, found, at_end, next_from, next_item, lose_passed}
use mnetsoft.Bbsread.Sum.Order.{lose_passed-IsSorted}
use mnetsoft.Bbsread.Args.{Options, same_ℤ}
use mnetsoft.Bbsread.Rfp.{
  World, Reader, Step, passed, stopped, exits, starved, and_then, do_pass, do_extract, extracted,
  moved, took, pass_fuel,
}
use mnetsoft.Bbsread.Rfp.Commands.{rfp_command}
use mnetsoft.Bbsread.Rfp.Sorted.{Leaves, Sorted, shows-Sorted}
use mnetsoft.Bbsread.Rfp.Passing.{ahead, pass-Sorted, pass-Nears, Nears}
use mnetsoft.Bbsread.Rfp.Ends.{rfp_command-Sorted, if-Sorted}
use mnetsoft.Bbsread.Main.{seek_item, prompt_loop, pass_loop, main_loop}

and_then-Sorted :
    (f : Reader → Step) (x : Step)
    → Sorted x
    → ((r : Reader) → IsSorted r.pfs → Sorted (f r))
    → Sorted (and_then f x)
and_then-Sorted f (passed r) h k = k r h
and_then-Sorted f (stopped r) h k = h
and_then-Sorted f exits h k = tt
and_then-Sorted f starved h k = elim h [ ]

prompt_loop-Sorted :
    (w : World) (o : Options) (input : List Text) (r : Reader)
    → IsSorted r.pfs
    → Sorted (prompt_loop w o input r)
unfolding prompt_loop
prompt_loop-Sorted w o [] r h = h
prompt_loop-Sorted w o (buf ∷ input) r h =
    and_then-Sorted (prompt_loop w o input) (rfp_command w o (pass_fuel w) buf r)
      (rfp_command-Sorted w o buf r h) (prompt_loop-Sorted w o input)

and_then-closer :
    (w : World) (o : Options) (n : ℕ) (f : Reader → Step) (x : Step)
    → Nears w o n x
    → ((r : Reader) → IsSorted r.pfs → ahead w o r.sum_item < n → Sorted (f r))
    → Sorted (and_then f x)
and_then-closer w o n f (passed r) h k = k r h.0 h.1
and_then-closer w o n f (stopped r) h k = h
and_then-closer w o n f exits h k = tt
and_then-closer w o n f starved h k = elim h [ ]

pass_loop-Sorted :
    (w : World) (o : Options) (fuel : ℕ) (r : Reader)
    → ahead w o r.sum_item < fuel
    → IsSorted r.pfs
    → Sorted (pass_loop w o fuel r)
unfolding pass_loop
pass_loop-Sorted w o zero r lt h = absurd (omega (arith, lt))
pass_loop-Sorted w o (suc fuel) r lt h =
    and_then-closer w o (ahead w o r.sum_item) (pass_loop w o fuel) (do_pass w o (pass_fuel w) r)
      (pass-Nears w o r h) (λ r' s near. pass_loop-Sorted w o fuel r' (omega (arith, near, lt)) s)

extracted-Sorted :
    (w : World) (o : Options) (r : Reader) (f : Found) (s : ℕ) (pfs : List Pfe)
    → IsSorted pfs
    → Sorted (extracted w o r (f, s, pfs))
extracted-Sorted w o r at_end s pfs h = h
extracted-Sorted w o r (found item resp) s pfs h =
    elim (Bool-cases (same_ℤ (pos item) o.item.first)) [
      | inl e ↦
          rw (Leaves, e)
            (shows-Sorted w o o.resp.first o.resp.last
              (if same_ℤ o.resp.first (pos 0) then 1 else 0)
              (record (moved item resp (took item resp s pfs r)) {
                max_read = (last_read item pfs).0;
              })
              h)
      | inr e ↦ rw (Leaves, e) h
    ]

do_extract-Sorted :
    (w : World) (o : Options) (r : Reader) → IsSorted r.pfs → Sorted (do_extract w o r)
unfolding do_extract next_item
do_extract-Sorted w o r h =
    let f = next_from (drop (r.sum_item - 1) w.sums) r.sum_item in
    extracted-Sorted w o r f.0 f.1 (lose_passed r.sum_item f.0 f.1 r.pfs)
      (lose_passed-IsSorted r.sum_item f.1 f.0 r.pfs h)

-- From a participation list in ascending order, and whatever the files, the options, the commands
-- and the interrupts are, the main loop comes to an end: it returns or the program exits; where it
-- returns, the list is still in ascending order.
pub main_loop-Sorted :
    (w : World) (o : Options) (input : List Text) (r : Reader)
    → IsSorted r.pfs
    → Sorted (main_loop w o input r)
unfolding main_loop
main_loop-Sorted w o input r h =
    let r' : Reader = record r {
      sum_item = seek_item w (if o.reverse then o.item.last else o.item.first);
    } in
    let go : Reader → Step =
      λ r''. if o.prompt_rfp then prompt_loop w o input r'' else pass_loop w o (pass_fuel w) r'' in
    if-Sorted o.extracting (do_extract w o r') (and_then go (do_pass w o (pass_fuel w) r'))
      (do_extract-Sorted w o r' h)
      (and_then-Sorted go (do_pass w o (pass_fuel w) r') (pass-Sorted w o r' h) (λ r'' s.
        if-Sorted o.prompt_rfp (prompt_loop w o input r'') (pass_loop w o (pass_fuel w) r'')
          (prompt_loop-Sorted w o input r'' s)
          (pass_loop-Sorted w o (pass_fuel w) r'' (ground arith) s)))
