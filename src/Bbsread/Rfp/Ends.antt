-- ===== src/Bbsread/Rfp/Ends.antt =====
-- Each command of the prompt (soft/cmd/bbsread/rfp.c) comes to an end and keeps the participation
-- list in ascending order.
use mnetsoft.Base.{
  refl, Bool, true, false, List, [], ◌∷◌, if◌then◌else◌, ◌==◌, leb, ◌||◌, take, length, ◌-◌,
}
use mnetsoft.Base.Int.{ℤ, pos, ◌-ℤ◌, ◌+ℤ◌}
use mnetsoft.Base.Text.{Text, codes, is_digit, atol}
use mnetsoft.Bbsread.Parse.{minus_one, match, head, tail, firstin, firstout}
use mnetsoft.Bbsread.Part.{resets}
use mnetsoft.Bbsread.Part.Entries.{IsSorted, apply-IsSorted}
use mnetsoft.Bbsread.Args.{Options}
use mnetsoft.Bbsread.Rfp.{
  World, Reader, Step, passes, passed, say, needs_number, unknown_command, shell, display_it, reset,
  do_pass, pass_fuel,
}
use mnetsoft.Bbsread.Rfp.Commands
use mnetsoft.Bbsread.Rfp.Commands.{
  find_cmd, rfp_cmds, run_command, rfp_command, do_only, signed_command, relative, escape,
}
use mnetsoft.Bbsread.Rfp.Sorted.{Sorted, shows-Sorted, update-Stays}
use mnetsoft.Bbsread.Rfp.Passing.{pass-Sorted}

-- A function of the table that keeps the list in order.
abbrev Keeps : (Text → Reader → Step) → Type 0
Keeps f = (arg : Text) (r : Reader) → IsSorted r.pfs → Sorted (f arg r)

abbrev AllKeep : List (Text × (Text → Reader → Step)) → Type 0
AllKeep [] = Unit {0}
AllKeep ((pat, f) ∷ table) = Keeps f × AllKeep table

pub if-Sorted : (b : Bool) (x y : Step) → Sorted x → Sorted y → Sorted (if b then x else y)
if-Sorted true x y hx hy = hx
if-Sorted false x y hx hy = hy

module _ (w : World) (o : Options) where
  find_cmd-Sorted :
      (table : List (Text × (Text → Reader → Step))) (word args : Text) (r : Reader)
      → AllKeep table
      → IsSorted r.pfs
      → Sorted (find_cmd w o table word args r)
  unfolding find_cmd
  find_cmd-Sorted [] word args r k h = h
  find_cmd-Sorted ((pat, f) ∷ table) word args r k h =
      if-Sorted (match word pat) (f args r) (find_cmd w o table word args r) (k.0 args r h)
        (find_cmd-Sorted table word args r k.1 h)

  do_only-Keeps : Keeps (do_only w o)
  do_only-Keeps arg r h =
      if-Sorted (is_digit (head arg)) (passes (display_it w o (atol arg) (atol arg) 0 r))
        (passed (say needs_number r)) (shows-Sorted w o (atol arg) (atol arg) 0 r h) h

  update-Keeps : (r : Reader) → IsSorted r.pfs → Sorted (Commands.do_forget w o (codes "") r)
  update-Keeps r h = (update-Stays w minus_one r.sum_item r (h, refl)).0

  postpone-Keeps : Keeps (Commands.do_postpone w o (pass_fuel w))
  postpone-Keeps arg r h = pass-Sorted w o (reset r) (apply-IsSorted (resets r.curitem) r.pfs h)

  rfp_cmds-Keep : AllKeep (rfp_cmds w o (pass_fuel w))
  rfp_cmds-Keep = (
    (λ arg r h. h),
    (
      (λ arg r h. h),
      (
        (λ arg. update-Keeps),
        (
          (λ arg. pass-Sorted w o),
          (
            (λ arg r h. h),
            (
              (λ arg. update-Keeps),
              (
                (λ arg. update-Keeps),
                (
                  (λ arg. shows-Sorted w o (pos 0) (pos 0) 2),
                  (
                    (λ arg. shows-Sorted w o (pos 0) minus_one 0),
                    (
                      (λ arg r. shows-Sorted w o r.again_first r.again_last r.again_head r),
                      (
                        (λ arg. shows-Sorted w o (pos 1) minus_one 0),
                        (
                          (λ arg r. shows-Sorted w o r.curresp minus_one 0 r),
                          (
                            (λ arg r. shows-Sorted w o r.max_resp minus_one 0 r),
                            (
                              (λ arg r h. apply-IsSorted (resets r.curitem) r.pfs h),
                              (
                                postpone-Keeps,
                                (
                                  (λ arg r h. h),
                                  (
                                    (λ arg r h. h),
                                    (
                                      (λ arg r h. h),
                                      (
                                        (λ arg r h. h),
                                        (
                                          (λ arg r h. h),
                                          (
                                            (λ arg r h. h),
                                            (
                                              (λ arg r h. h),
                                              (
                                                (λ arg r h. h),
                                                (
                                                  (λ arg r h. h),
                                                  (
                                                    (λ arg r h. h),
                                                    (
                                                      (λ arg r h. h),
                                                      (
                                                        (λ arg r h. h),
                                                        (
                                                          do_only-Keeps,
                                                          (
                                                            (λ arg r h. h),
                                                            (
                                                            (λ arg r h. h),
                                                            (
                                                            (λ arg.
                                                            shows-Sorted w o (pos 1) minus_one 0),
                                                            (
                                                            (λ arg r.
                                                            shows-Sorted w o r.max_resp minus_one 0
                                                            r),
                                                            tt,
                                                            ),
                                                            ),
                                                            ),
                                                          ),
                                                        ),
                                                      ),
                                                    ),
                                                  ),
                                                ),
                                              ),
                                            ),
                                          ),
                                        ),
                                      ),
                                    ),
                                  ),
                                ),
                              ),
                            ),
                          ),
                        ),
                      ),
                    ),
                  ),
                ),
              ),
            ),
          ),
        ),
      ),
    ),
  )

  relative-Sorted :
      (minus : Bool) (resp : ℤ) (r : Reader) → IsSorted r.pfs → Sorted (relative w o minus resp r)
  relative-Sorted minus resp r =
      shows-Sorted w o (r.curresp +ℤ (if minus then pos 0 -ℤ resp else resp)) minus_one 0 r

  signed_command-Sorted :
      (word : Text) (r : Reader) → IsSorted r.pfs → Sorted (signed_command w o word r)
  signed_command-Sorted word r h =
      let minus : Bool = head word == b'-' in
      let bad : Step = passed (say (unknown_command word) r) in
      let number : Step = relative w o minus (atol (tail word)) r in
      let digit : Bool = is_digit (head (tail word)) in
      if-Sorted (head (tail word) == 0) (relative w o minus (pos 1) r)
        (if digit then number else bad) (relative-Sorted minus (pos 1) r h)
        (if-Sorted digit number bad (relative-Sorted minus (atol (tail word)) r h) h)

  run_command-Sorted :
      (word cmd_end : Text) (r : Reader)
      → IsSorted r.pfs
      → Sorted (run_command w o (pass_fuel w) word cmd_end r)
  unfolding run_command
  run_command-Sorted word cmd_end r h =
      let args : Text = firstout cmd_end (codes " \t\n") in
      let found : Step = find_cmd w o (rfp_cmds w o (pass_fuel w)) word args r in
      let escaped : Step = passed (say (shell (escape word cmd_end)) r) in
      let bang : Step = if head word == b'!' then escaped else found in
      let sign : Bool = head word == b'-' || head word == b'+' in
      let by_sign : Step = if sign then signed_command w o word r else bang in
      let number : Step = passes (display_it w o (atol word) minus_one 0 r) in
      let by_digit : Step = if is_digit (head word) then number else by_sign in
      let bad : Step = passed (say (unknown_command word) r) in
      let by_ascii : Step = if leb 128 (head word) then bad else by_digit in
      let at_bang : Sorted bang =
        if-Sorted (head word == b'!') escaped found h
          (find_cmd-Sorted (rfp_cmds w o (pass_fuel w)) word args r rfp_cmds-Keep h) in
      let at_sign : Sorted by_sign =
        if-Sorted sign (signed_command w o word r) bang (signed_command-Sorted word r h) at_bang in
      let at_digit : Sorted by_digit =
        if-Sorted (is_digit (head word)) number by_sign
          (shows-Sorted w o (atol word) minus_one 0 r h) at_sign in
      if-Sorted (head word == 0) (do_pass w o (pass_fuel w) r) by_ascii (pass-Sorted w o r h)
        (if-Sorted (leb 128 (head word)) bad by_digit h at_digit)

  pub rfp_command-Sorted :
      (cmd : Text) (r : Reader) → IsSorted r.pfs → Sorted (rfp_command w o (pass_fuel w) cmd r)
  unfolding rfp_command
  rfp_command-Sorted cmd r h =
      let start : Text = firstout cmd (codes " \t") in
      let cmd_end : Text = firstin start (codes " \t\n") in
      run_command-Sorted (take (length start - length cmd_end) start) cmd_end r h
