-- ===== src/Bbsread/Rfp/Commands.antt =====
-- The commands of the prompt (soft/cmd/bbsread/rfp.c).
use mnetsoft.Base.{ℕ, ◌-◌, Bool, ◌||◌, List, [], ◌∷◌, ◌++◌, if◌then◌else◌, ◌==◌, leb, length, take}
use mnetsoft.Base.Int.{ℤ, pos, ◌+ℤ◌, ◌-ℤ◌}
use mnetsoft.Base.Text.{Text, codes, is_digit, atol}
use mnetsoft.Bbsread.Parse.{minus_one, head, tail, firstin, firstout, match}
use mnetsoft.Bbsread.PartFile.{upto_newline}
use mnetsoft.Bbsread.Args.{Options}
use mnetsoft.Bbsread.Rfp.{
  World, Reader, Step, passed, stopped, passes, say, update, reset, display_it, do_pass,
  forgotten_item, remembered_item, unknown_command, needs_number, cannot_change, cannot_respond,
  cannot_find, cannot_since, shell,
}

abbrev do_badcmd : Text → Reader → Step
do_badcmd cmd r = passed (say (unknown_command cmd) r)

-- The shell escape: what is behind the `!`, up to the newline, where a space stands for the first
-- space or tab.
abbrev pub escape : Text → Text → Text
escape word [] = tail word
escape word (c ∷ cs) = tail word ++ (b' ' ∷ upto_newline cs)

module _ (w : World) (o : Options) where
  abbrev shows : ℤ → ℤ → ℕ → Reader → Step
  shows first last showhead r = passes (display_it w o first last showhead r)

  abbrev pub do_first : Text → Reader → Step
  do_first arg r = shows (pos 1) minus_one 0 r

  abbrev pub do_last : Text → Reader → Step
  do_last arg r = shows r.max_resp minus_one 0 r

  abbrev pub do_text : Text → Reader → Step
  do_text arg r = shows (pos 0) minus_one 0 r

  abbrev pub do_current : Text → Reader → Step
  do_current arg r = shows r.curresp minus_one 0 r

  abbrev pub do_again : Text → Reader → Step
  do_again arg r = shows r.again_first r.again_last r.again_head r

  abbrev pub do_only : Text → Reader → Step
  do_only arg r =
      if is_digit (head arg) then shows (atol arg) (atol arg) 0 r else passed (say needs_number r)

  abbrev pub do_forget : Text → Reader → Step
  do_forget arg r = passed (say (forgotten_item r.curitem) (update w minus_one r))

  abbrev pub do_remember : Text → Reader → Step
  do_remember arg r = passed (say (remembered_item r.curitem) (update w minus_one r))

  abbrev pub do_header : Text → Reader → Step
  do_header arg r = shows (pos 0) (pos 0) 2 r

  abbrev pub do_postpone : ℕ → Text → Reader → Step
  do_postpone fuel arg r = do_pass w o fuel (reset r)

  abbrev pub do_new : Text → Reader → Step
  do_new arg r = stopped (reset r)

  abbrev pub do_stop : Text → Reader → Step
  do_stop arg r = stopped r

  abbrev pub cant_act : Text → Reader → Step
  cant_act arg r = passed (say cannot_change r)

  abbrev pub cant_respond : Text → Reader → Step
  cant_respond arg r = passed (say cannot_respond r)

  abbrev pub cant_find : Text → Reader → Step
  cant_find arg r = passed (say cannot_find r)

  abbrev pub cant_since : Text → Reader → Step
  cant_since arg r = passed (say cannot_since r)

  -- The table `rfp_cmds`; the fuel is that of `do_pass`.
  abbrev pub rfp_cmds : ℕ → List (Text × (Text → Reader → Step))
  rfp_cmds fuel =
      (codes "r_espond", cant_respond)
      ∷ (codes "ps_eudonym", cant_respond)
      ∷ (codes "forget", do_forget)
      ∷ (codes "p_ass", λ arg. do_pass w o fuel)
      ∷ (codes "k_ill", cant_act)
      ∷ (codes "rem_ember", do_remember)
      ∷ (codes "unf_orget", do_remember)
      ∷ (codes "h_eader", do_header)
      ∷ (codes "text", do_text)
      ∷ (codes "a_gain", do_again)
      ∷ (codes "first", do_first)
      ∷ (codes "cu_rrent", do_current)
      ∷ (codes "l_ast", do_last)
      ∷ (codes "n_ew", do_new)
      ∷ (codes "po_stpone", do_postpone fuel)
      ∷ (codes "freeze", cant_act)
      ∷ (codes "thaw", cant_act)
      ∷ (codes "sync_hronous", cant_act)
      ∷ (codes "async_hronous", cant_act)
      ∷ (codes "retire", cant_act)
      ∷ (codes "unretire", cant_act)
      ∷ (codes "e_nter", cant_respond)
      ∷ (codes "f_ind", cant_find)
      ∷ (codes "lo_cate", cant_find)
      ∷ (codes "si_nce", cant_since)
      ∷ (codes "cen_sor", cant_act)
      ∷ (codes "scr_ibble", cant_act)
      ∷ (codes "onl_y", do_only)
      ∷ (codes "stop", do_stop)
      ∷ (codes "q_uit", do_stop)
      ∷ (codes "^", do_first)
      ∷ (codes "$_$", do_last)
      ∷ []

  -- The loop over the table.
  unfoldable pub find_cmd : List (Text × (Text → Reader → Step)) → Text → Text → Reader → Step
  find_cmd [] word args r = do_badcmd word r
  find_cmd ((pat, f) ∷ table) word args r =
      if match word pat then f args r else find_cmd table word args r

  abbrev pub relative : Bool → ℤ → Reader → Step
  relative minus resp r = shows (r.curresp +ℤ (if minus then pos 0 -ℤ resp else resp)) minus_one 0 r

  -- `+3`, `-3`, `+` or `-`
  abbrev pub signed_command : Text → Reader → Step
  signed_command word r =
      if head (tail word) == 0
      then relative (head word == b'-') (pos 1) r
      else if is_digit (head (tail word))
      then relative (head word == b'-') (atol (tail word)) r
      else do_badcmd word r

  -- Behind the first word.
  unfoldable pub run_command : ℕ → Text → Text → Reader → Step
  unfolding find_cmd
  run_command fuel word cmd_end r =
      if head word == 0
      then do_pass w o fuel r
      else if leb 128 (head word)
      then do_badcmd word r
      else if is_digit (head word)
      then shows (atol word) minus_one 0 r
      else if head word == b'-' || head word == b'+'
      then signed_command word r
      else if head word == b'!'
      then passed (say (shell (escape word cmd_end)) r)
      else find_cmd (rfp_cmds fuel) word (firstout cmd_end (codes " \t\n")) r

  unfoldable pub rfp_command : ℕ → Text → Reader → Step
  unfolding run_command firstin firstout
  rfp_command fuel cmd r =
      let start = firstout cmd (codes " \t") in
      let cmd_end = firstin start (codes " \t\n") in
      run_command fuel (take (length start - length cmd_end) start) cmd_end r
