-- ===== src/Bbsread/Rfp.antt =====
-- The state of a reading and the commands of its prompt (soft/cmd/bbsread/rfp.c).
pub mod Commands
pub mod Sorted
pub mod Passing
pub mod Ends
pub mod Marks
pub mod Once
use mnetsoft.Base.{
  ℕ, zero, suc, ◌+◌, ◌-◌, ◌≡◌, refl, Bool, true, false, not, ◌&&◌, ◌||◌, Option, none, some, List,
  [], ◌∷◌, ◌++◌, if◌then◌else◌, ◌==◌, leb, ltb, length,
}
use mnetsoft.Base.Int.{ℤ, pos, negsuc, ltb_ℤ, ◌+ℤ◌, ◌-ℤ◌}
use mnetsoft.Base.Text.{Text}
use mnetsoft.Bbsread.Parse.{minus_one, is_minus_one}
use mnetsoft.Bbsread.Part.{Pfe, int_max, last_read, update_item, reset_item}
use mnetsoft.Bbsread.Sum.{Sume, Found, found, at_end, next_item, prev_item}
use mnetsoft.Bbsread.Item.{Shown, Request, dispitem}
use mnetsoft.Bbsread.Args.{Options, same_ℤ}

-- The conference, and what happens while it is read: the files of the items, the entries of the sum
-- file and its size, and for each display or update by its number in order: the time, and whether the display is
-- interrupted.
pub record World : Type 0 where
  pub item_file : ℕ → Option Text
  pub sums : List Sume
  pub sum_size : ℕ
  pub clock : ℕ → ℕ
  pub interrupted : ℕ → Bool

-- What is printed on the terminal; the text of a display is that of the pager.
pub data Notice : Type 0 where
  page : List Shown → Notice
  whoops : ℕ → ℤ → Notice
  forgotten_item : ℕ → Notice
  remembered_item : ℕ → Notice
  unknown_command : Text → Notice
  needs_number : Notice
  cannot_change : Notice
  cannot_respond : Notice
  cannot_find : Notice
  cannot_since : Notice
  shell : Text → Notice

-- The variables of rfp.c, sum.c and pf.c; `turn` counts the displays and updates.
pub record Reader : Type 0 where
  pub curitem : ℕ
  pub curresp : ℤ
  pub max_resp : ℤ
  pub max_read : ℤ
  pub again_first : ℤ
  pub again_last : ℤ
  pub again_head : ℕ
  pub sum_item : ℕ
  pub no_pf : Bool
  pub pfs : List Pfe
  pub turn : ℕ
  pub notices : List Notice

abbrev pub say : Notice → Reader → Reader
say n r = record r { notices = r.notices ++ (n ∷ []) }

-- `update_item` at the time of this turn.
abbrev pub update : World → ℤ → Reader → Reader
update w resp r = record r {
  turn = r.turn + 1;
  pfs = if r.no_pf then r.pfs else update_item r.curitem resp (w.clock r.turn) r.pfs;
}

abbrev pub reset : Reader → Reader
reset r = record r { pfs = reset_item r.curitem r.pfs }

-- The end of `display_it`, behind `dispitem`.
abbrev pub mark_read : World → Options → ℤ → ℤ → Reader → Reader
mark_read w o first last r =
    let marked = record (update w last r) { max_read = last } in
    let marks = ltb_ℤ r.max_read last && (not o.extracting || not (ltb_ℤ r.max_read first)) in
    let r' = if marks then marked else r in record r' { curresp = last +ℤ pos 1 }

abbrev int_max_for : ℤ → ℤ
int_max_for last = if is_minus_one last then pos int_max else last

abbrev pub request : Reader → ℤ → ℤ → ℕ → Request
request r first last showhead = record {
  item_no = r.curitem;
  first_resp = first;
  last_resp = int_max_for last;
  max_resp = r.max_resp;
  show_header = showhead;
  prefer_html = false;
}

abbrev pub begun : ℤ → ℤ → ℕ → Reader → Reader
begun first last showhead r = record r {
  again_first = first;
  again_last = last;
  again_head = showhead;
  turn = r.turn + 1;
}

-- `display_it`; `none` where the program ends. Of an interrupted display nothing is recorded.
unfoldable pub display_it : World → Options → ℤ → ℤ → ℕ → Reader → Option Reader
unfolding dispitem
display_it w o first last showhead r =
    let r' = begun first last showhead r in
    elim (w.interrupted r.turn) [
      | true ↦ some r'
      | false ↦ elim (dispitem (request r first last showhead) (w.item_file r.curitem)) [
        | none ↦ none
        | some (last', shown) ↦ some (mark_read w o first last' (say (page shown) r'))
      ]
    ]

-- What `maybe_display` does: nothing, or a display from a response on, after it has set the item to
-- the responses that there are.
pub data Choice : Type 0 where
  skip : Choice
  show : ℤ → Choice
  show_short : Choice

unfoldable pub choose : Options → ℤ → ℤ → Bool → Choice
choose o max_read max_resp forgotten =
    if forgotten
    then (if o.read_forgotten == 0
        then skip
        else if o.read_forgotten == 2
        then show (pos 0)
        else show (max_read +ℤ pos 1))
    else if not (ltb_ℤ max_read max_resp)
    then (if ltb_ℤ max_resp max_read then show_short else if o.read_old then show (pos 0) else skip)
    else if is_minus_one max_read
    then (if o.read_brandnew then show (pos 0) else skip)
    else if o.read_newresp == 0
    then skip
    else if o.read_newresp == 2
    then show (pos 0)
    else show (max_read +ℤ pos 1)

-- A command or a function of rfp.c: it returns true or false (or 1 or 0), or ends the program, or
-- the fuel is used up.
pub data Step : Type 0 where
  passed : Reader → Step
  stopped : Reader → Step
  exits : Step
  starved : Step

abbrev pub passes : Option Reader → Step
passes none = exits
passes (some r) = passed r

abbrev pub head_for : Options → ℕ
head_for o = if o.noresponse then 2 else 1

abbrev pub made : World → Options → Reader → Choice → Step
made w o r skip = stopped r
made w o r (show from) = passes (display_it w o from minus_one (head_for o) r)
made w o r show_short =
    let r' = record (update w r.max_resp (say (whoops r.curitem (r.max_read -ℤ r.max_resp)) r)) {
      max_read = r.max_resp;
    } in
    passes (display_it w o (pos 0) minus_one (head_for o) r')

unfoldable pub maybe_display : World → Options → Reader → Step
unfolding last_read display_it choose
maybe_display w o r =
    let read = last_read r.curitem r.pfs in
    let r' = record r { max_read = read.0 } in made w o r' (choose o read.0 r.max_resp read.1)

-- One round of the loop of `do_pass` in front of `maybe_display`: the next item, if it is wanted.
abbrev pub moved : ℕ → ℕ → Reader → Reader
moved item resp r = record r { curitem = item; curresp = pos resp; max_resp = pos resp -ℤ pos 1 }

abbrev pub took : ℕ → ℕ → ℕ → List Pfe → Reader → Reader
took item resp sum_item pfs r = record r {
  curitem = item;
  max_resp = pos resp;
  sum_item = sum_item;
  pfs = pfs;
}

-- The test behind `next_item` and that behind `prev_item`, for an item out of the range.
abbrev pub is_beyond : Options → ℕ → Bool
is_beyond o item = ltb_ℤ o.item.last (pos item) && not (is_minus_one o.item.last)

abbrev pub is_before : Options → ℕ → Bool
is_before o item = ltb_ℤ (pos item) o.item.first

abbrev pub landed : Reader → Found × ℕ × List Pfe → (ℕ → Bool) → Step
landed r (found item resp, sum_item, pfs) outside =
    if outside item
    then stopped (took item resp sum_item pfs r)
    else passed (moved item resp (took item resp sum_item pfs r))
landed r (at_end, sum_item, pfs) outside = stopped (record r { sum_item = sum_item; pfs = pfs })

unfoldable pub advance : World → Options → Reader → Step
unfolding next_item prev_item
advance w o r =
    if o.reverse
    then elim (prev_item w.sums r.sum_item r.pfs) [
      | none ↦ exits
      | some f ↦ landed r f (is_before o)
    ]
    else landed r (next_item w.sums r.sum_item r.pfs) (is_beyond o)

-- What follows a step that returns true, and one that returns false.
abbrev pub and_then : (Reader → Step) → Step → Step
and_then f (passed r) = f r
and_then f (stopped r) = stopped r
and_then f exits = exits
and_then f starved = starved

abbrev pub or_else : (Reader → Step) → Step → Step
or_else f (passed r) = passed r
or_else f (stopped r) = f r
or_else f exits = exits
or_else f starved = starved

-- `do_pass`, on fuel.
unfoldable pub do_pass : World → Options → ℕ → Reader → Step
unfolding advance maybe_display
do_pass w o zero r = starved
do_pass w o (suc fuel) r =
    and_then (λ r'. or_else (do_pass w o fuel) (maybe_display w o r')) (advance w o r)

-- Two more than the items of the sum file is fuel enough.
abbrev pub pass_fuel : World → ℕ
pass_fuel w = length w.sums + 2

-- `do_extract`
abbrev pub extracted : World → Options → Reader → Found × ℕ × List Pfe → Step
extracted w o r (at_end, sum_item, pfs) = stopped (record r { sum_item = sum_item; pfs = pfs })
extracted w o r (found item resp, sum_item, pfs) =
    let r' = moved item resp (took item resp sum_item pfs r) in
    if same_ℤ (pos item) o.item.first
    then passes (
        display_it w o o.resp.first o.resp.last (if same_ℤ o.resp.first (pos 0) then 1 else 0)
          (record r' { max_read = (last_read item pfs).0 }))
    else stopped (took item resp sum_item pfs r)

unfoldable pub do_extract : World → Options → Reader → Step
unfolding next_item last_read display_it
do_extract w o r = extracted w o r (next_item w.sums r.sum_item r.pfs)
