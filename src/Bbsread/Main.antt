-- ===== src/Bbsread/Main.antt =====
-- The main programs of soft/cmd/bbsread: bbsread.c and forget.c.
pub mod Ends
use mnetsoft.Base.{
  ℕ, zero, suc, ◌+◌, ◌≡◌, refl, Bool, true, false, not, ◌&&◌, ◌||◌, Option, none, some, List, [],
  ◌∷◌, if◌then◌else◌, ◌==◌, length,
}
use mnetsoft.Base.Int.{ℤ, pos, negsuc, pos_part}
use mnetsoft.Base.Text.{Text, codes, atol}
use mnetsoft.Bbsread.Parse.{minus_one, is_minus_one, head, tail}
use mnetsoft.Bbsread.Part.{Pfe, last_read, update_item}
use mnetsoft.Bbsread.PartFile.{pfread, pfwrite}
use mnetsoft.Bbsread.Sum.{items_in}
use mnetsoft.Bbsread.Args.{Options, start_options, parse_arg}
use mnetsoft.Bbsread.Item.{lines_within}
use mnetsoft.Bbsread.Rfp.{
  World, Reader, Step, passed, stopped, exits, starved, and_then, do_pass, do_extract, pass_fuel,
}
use mnetsoft.Bbsread.Rfp.Commands.{rfp_command}

-- `seek_item`, with 24 bytes for an entry (a `long` of 8 bytes). A number in a range has no sign.
abbrev pub seek_item : World → ℤ → ℕ
seek_item w item = if is_minus_one item then items_in 24 w.sum_size else pos_part item

-- The loop of `main_loop` behind the first item, with a prompt: one line of input for each round.
unfoldable pub prompt_loop : World → Options → List Text → Reader → Step
unfolding rfp_command
prompt_loop w o [] r = stopped r
prompt_loop w o (buf ∷ input) r =
    and_then (prompt_loop w o input) (rfp_command w o (pass_fuel w) buf r)

-- The same without a prompt, on fuel.
unfoldable pub pass_loop : World → Options → ℕ → Reader → Step
unfolding do_pass
pass_loop w o zero r = starved
pass_loop w o (suc fuel) r = and_then (pass_loop w o fuel) (do_pass w o (pass_fuel w) r)

-- `main_loop` on the lines of the input. It returns in both of the cases `passed` and `stopped`.
unfoldable pub main_loop : World → Options → List Text → Reader → Step
unfolding prompt_loop pass_loop do_extract do_pass items_in
main_loop w o input r =
    let r' = record r {
      sum_item = seek_item w (if o.reverse then o.item.last else o.item.first);
    } in
    if o.extracting
    then do_extract w o r'
    else and_then
        (λ r''. if o.prompt_rfp then prompt_loop w o input r'' else pass_loop w o (pass_fuel w) r'')
        (do_pass w o (pass_fuel w) r')

-- The arguments of bbsread.
pub record Flags : Type 0 where
  pub dont_page : Bool
  pub dont_update : Bool
  pub dont_join : Bool
  pub confname : Option Text
  pub options : Options

unfoldable pub read_flags : Text → Flags → Option Flags
read_flags [] f = some f
read_flags (c ∷ cs) f =
    if c == b'm'
    then read_flags cs (record f { dont_page = true })
    else if c == b'p'
    then read_flags cs (record f { dont_update = true })
    else if c == b'j'
    then read_flags cs (record f { dont_join = true })
    else none

unfoldable pub read_args : List Text → Flags → Option Flags
unfolding read_flags parse_arg
read_args [] f = elim f.confname [ none ↦ none | some name ↦ some f ]
read_args (arg ∷ args) f =
    if head arg == b'-'
    then elim (read_flags (tail arg) f) [ none ↦ none | some f' ↦ read_args args f' ]
    else elim f.confname [
      | none ↦ read_args args (record f { confname = some arg })
      | some name ↦ elim (parse_arg arg f.options) [
        | none ↦ none
        | some o ↦ read_args args (record f { options = o })
      ]
    ]

-- The participation file in memory: whether there is none, the alias, and the list.
pub record Membership : Type 0 where
  pub no_pf : Bool
  pub alias : Text
  pub pfs : List Pfe

-- The user's file is read, or a new one is made (`pfnew`, for a name that fits the buffer), or none
-- is used.
abbrev pub reads_all : Options → Bool
reads_all o =
    o.read_brandnew && (o.read_newresp == 2 && (o.read_old && not (o.read_forgotten == 0)))

abbrev pub pfnew : Text → Membership
pfnew gecos = record { no_pf = false; alias = gecos; pfs = [] }

abbrev no_file : Membership
no_file = record { no_pf = true; alias = []; pfs = [] }

abbrev pub opened : Option (Text × List Pfe) → Option Membership
opened none = none
opened (some (alias, pfs)) = some (record { no_pf = false; alias = alias; pfs = pfs })

unfoldable pub load : Flags → Option Text → Text → Option Membership
unfolding pfread
load f part gecos = if reads_all f.options then some no_file else elim part [
  | none ↦ some (if f.dont_join then no_file else pfnew gecos)
  | some file ↦ opened (pfread file)
]

abbrev pub start_reader : Membership → Reader
start_reader m = record {
  curitem = 0;
  curresp = pos 0;
  max_resp = pos 0;
  max_read = pos 0;
  again_first = pos 0;
  again_last = pos 0;
  again_head = 0;
  sum_item = 0;
  no_pf = m.no_pf;
  pfs = m.pfs;
  turn = 0;
  notices = [];
}

-- The participation file that is written, if one is; `none` where the program ends before.
unfoldable pub written : Flags → Membership → Step → Option (Option Text)
unfolding pfwrite
written f m (passed r) =
    some (if f.dont_update || m.no_pf then none else some (pfwrite m.alias r.pfs))
written f m (stopped r) =
    some (if f.dont_update || m.no_pf then none else some (pfwrite m.alias r.pfs))
written f m exits = none
written f m starved = none

-- `main` of bbsread.c behind the look at the conference's directory: on its files, the user's
-- participation file, the user's name and the input.
unfoldable pub read_conference : World → Flags → Option Text → Text → Text → Option (Option Text)
unfolding load main_loop written
read_conference w f part gecos stdin = elim (load f part gecos) [
  | none ↦ none
  | some m ↦
      written f m (main_loop w f.options (lines_within (length stdin) stdin) (start_reader m))
]
