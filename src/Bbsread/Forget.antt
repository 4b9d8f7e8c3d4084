-- ===== src/Bbsread/Forget.antt =====
-- The program soft/cmd/bbsread/forget.c: it marks an item as forgotten, or takes the mark away.
pub mod Flips
use mnetsoft.Base.{
  ℕ, ◌≡◌, refl, Bool, true, false, not, ◌&&◌, Option, none, some, List, [], ◌∷◌, if◌then◌else◌,
  ◌==◌,
}
use mnetsoft.Base.Int.{ℤ, pos, negsuc, ltb_ℤ, pos_part}
use mnetsoft.Base.Text.{Text, atol}
use mnetsoft.Bbsread.Parse.{minus_one, is_minus_one, head, tail}
use mnetsoft.Bbsread.Part.{last_read, update_item}
use mnetsoft.Bbsread.PartFile.{pfread, pfwrite}
use mnetsoft.Bbsread.Main.{Membership, opened, pfnew}

-- What the arguments say: the option -c, the name of the conference, the number of the item.
pub record Asked : Type 0 where
  pub join_conf : Bool
  pub confname : Option Text
  pub item_number : ℤ

abbrev start_asked : Asked
start_asked = record { join_conf = false; confname = none; item_number = minus_one }

-- The arguments; `none` where the program ends with its usage message.
unfoldable pub forget_args : List Text → Asked → Option Asked
forget_args [] a = elim a.confname [
  | none ↦ none
  | some name ↦ if ltb_ℤ (pos 0) a.item_number then some a else none
]
forget_args (arg ∷ args) a =
    if head arg == b'-'
    then (if head (tail arg) == b'c'
        then forget_args args (record a { join_conf = true })
        else none)
    else elim a.confname [
      | none ↦ forget_args args (record a { confname = some arg })
      | some name ↦
          (if is_minus_one a.item_number
            then forget_args args (record a { item_number = atol arg })
            else none)
    ]

-- How the program ends; the last two have the text that is written to the participation file.
pub data Outcome : Type 0 where
  usage : Outcome
  no_item : Outcome
  not_member : Outcome
  weird_pf : Outcome
  remembered : Text → Outcome
  forgot : Text → Outcome

-- The end of `main`, with the participation file in memory.
unfoldable pub forget_item : ℕ → ℕ → Membership → Outcome
unfolding last_read update_item pfwrite
forget_item item now m =
    let text = pfwrite m.alias (update_item item minus_one now m.pfs) in
    if (last_read item m.pfs).1 then remembered text else forgot text

-- From `pfread` on; `part` is the participation file, if there is one.
unfoldable pub forget : Bool → Option Text → Text → ℕ → ℕ → Outcome
unfolding forget_item pfread
forget join_conf none gecos item now =
    if join_conf then forget_item item now (pfnew gecos) else not_member
forget join_conf (some file) gecos item now = elim (opened (pfread file)) [
  | none ↦ weird_pf
  | some m ↦ forget_item item now m
]

-- `main`, where the conference's directory is found and `exists` says which items are there.
unfoldable pub forget_main : List Text → (ℤ → Bool) → Option Text → Text → ℕ → Outcome
unfolding forget_args forget
forget_main args exists part gecos now = elim (forget_args args start_asked) [
  | none ↦ usage
  | some a ↦
      (if exists a.item_number
        then forget a.join_conf part gecos (pos_part a.item_number) now
        else no_item)
]
