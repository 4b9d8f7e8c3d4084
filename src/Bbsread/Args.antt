-- ===== src/Bbsread/Args.antt =====
-- The options of soft/cmd/bbsread (arg.c): which items are to be read.
pub mod Numbers
use mnetsoft.Base.{
  ℕ, zero, suc, ◌+◌, ◌≡◌, refl, Bool, true, false, not, ◌&&◌, ◌||◌, Option, none, some, List, [],
  ◌∷◌, if◌then◌else◌, ◌==◌, ltb, leb,
}
use mnetsoft.Base.Int.{ℤ, pos, negsuc}
use mnetsoft.Base.Text.{Text, codes, is_digit}
use mnetsoft.Bbsread.Parse.{Range, minus_one, parse_range, match, head}

-- The global variables of arg.c and range.c, and the static one of `parse_arg`.
pub record Options : Type 0 where
  pub read_brandnew : Bool
  pub read_newresp : ℕ
  pub read_old : Bool
  pub read_forgotten : ℕ
  pub reverse : Bool
  pub prompt_rfp : Bool
  pub noresponse : Bool
  pub extracting : Bool
  pub item : Range
  pub resp : Range
  pub which_range : ℕ

abbrev pub start_options : Options
start_options = record {
  read_brandnew = true;
  read_newresp = 1;
  read_old = false;
  read_forgotten = 0;
  reverse = false;
  prompt_rfp = true;
  noresponse = false;
  extracting = false;
  item = record { first = pos 1; last = minus_one };
  resp = record { first = pos 0; last = minus_one };
  which_range = 0;
}

abbrev pub set_new : Options → Options
set_new o = record o { read_brandnew = true; read_newresp = 1; read_old = false }

abbrev pub set_all : Options → Options
set_all o = record o { read_brandnew = true; read_newresp = 2; read_old = true }

abbrev pub set_old : Options → Options
set_old o = record o { read_brandnew = false; read_newresp = 0; read_old = true }

abbrev pub set_brandnew : Options → Options
set_brandnew o = record o { read_brandnew = true; read_newresp = 0; read_old = false }

abbrev pub set_nwresponse : Options → Options
set_nwresponse o = record o { read_brandnew = false; read_newresp = 1; read_old = false }

abbrev pub set_forgotten : Options → Options
set_forgotten o = record o {
  read_brandnew = false;
  read_newresp = 0;
  read_old = false;
  read_forgotten = 1;
}

abbrev pub set_reverse : Options → Options
set_reverse o = record o { reverse = true }

abbrev pub set_noforget : Options → Options
set_noforget o = record o { read_forgotten = 1 }

abbrev pub set_nopass : Options → Options
set_nopass o = record o { prompt_rfp = true }

abbrev pub set_pass : Options → Options
set_pass o = record o { prompt_rfp = false }

abbrev pub set_noresponse : Options → Options
set_noresponse o = record o { noresponse = true }

-- The table `args`.
abbrev pub arg_table : List (Text × (Options → Options))
arg_table =
    (codes "n_ew", set_new)
    ∷ (codes "r_everse", set_reverse)
    ∷ (codes "a_ll", set_all)
    ∷ (codes "bra_ndnew", set_brandnew)
    ∷ (codes "newr_response", set_nwresponse)
    ∷ (codes "o_ld", set_old)
    ∷ (codes "for_gotten", set_forgotten)
    ∷ (codes "nof_orget", set_noforget)
    ∷ (codes "nor_esponse", set_noresponse)
    ∷ (codes "nop_ass", set_nopass)
    ∷ (codes "p_ass", set_pass)
    ∷ []

-- The loop over the table; `none` where `usage` ends the program.
unfoldable pub find_arg : List (Text × (Options → Options)) → Text → Options → Option Options
find_arg [] arg o = none
find_arg ((pat, f) ∷ table) arg o = if match arg pat then some (f o) else find_arg table arg o

-- The range of items, in the first numeric argument.
abbrev item_range : Options → Option (Range × Bool) → Option Options
item_range o none = none
item_range o (some (r, single)) = some (record o {
  item = r;
  read_forgotten = if single then 2 else o.read_forgotten;
  read_brandnew = true;
  read_newresp = 2;
  read_old = true;
  which_range = 1;
})

-- The range of responses, in the second; the item must be a single one.
abbrev resp_range : Options → Option (Range × Bool) → Option Options
resp_range o none = none
resp_range o (some (r, _)) = some (record o { extracting = true; resp = r; which_range = 2 })

abbrev pub same_ℤ : ℤ → ℤ → Bool
same_ℤ (pos a) (pos b) = a == b
same_ℤ (negsuc a) (negsuc b) = a == b
same_ℤ _ _ = false

-- The `switch` of `parse_arg`.
unfoldable pub numeric_arg : Text → Options → Option Options
unfolding parse_range
numeric_arg arg o =
    if o.which_range == 0
    then item_range o (parse_range arg)
    else if o.which_range == 1
    then (if same_ℤ o.item.first o.item.last then resp_range o (parse_range arg) else none)
    else none

-- `parse_arg`; there is no `return` behind the `switch`.
unfoldable pub parse_arg : Text → Options → Option Options
unfolding numeric_arg find_arg
parse_arg arg o =
    if leb 128 (head arg)
    then none
    else if is_digit (head arg)
    then elim (numeric_arg arg o) [ none ↦ none | some o' ↦ find_arg arg_table arg o' ]
    else find_arg arg_table arg o

-- The arguments behind the name of the conference.
unfoldable pub parse_args : List Text → Options → Option Options
unfolding parse_arg
parse_args [] o = some o
parse_args (arg ∷ args) o = elim (parse_arg arg o) [ none ↦ none | some o' ↦ parse_args args o' ]
