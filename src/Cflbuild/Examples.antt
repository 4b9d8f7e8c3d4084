-- ===== src/Cflbuild/Examples.antt =====
-- The theorems on soft/cmd/cflbuild at a concrete list, file and input.
use mnetsoft.Base.{◌≡◌, refl, true, none, some, [], ◌∷◌, arith, ◌==◌, if◌then◌else◌}
use mnetsoft.Base.Text.{Text, codes}
use mnetsoft.Cflbuild.Heap.{Ptr, Heap, put}
use mnetsoft.Cflbuild.Links.{IsList}
use mnetsoft.Cflbuild.Links.Swap.{swap_nodes}
use mnetsoft.Cflbuild.Links.Swap.{exchange_apart}
use mnetsoft.Cflbuild.Heap.{get_next, ◌>>=◌}
use mnetsoft.Cflbuild.Public.Lookup.{which_conf-read_public}
use mnetsoft.Cflbuild.Public.{
  PublicConf, Category, Reading, read_public, empty_reading, take_line, write_conf, which_conf,
  disp_public_conf, extract_conf_name, conf_line, category_line,
}
use mnetsoft.Cflbuild.Tokens.{
  isblank, skip_separators, token, after_token, extract_tokens, tokens, line_tokens, read_cflist,
  get_string, scan_two,
}
use mnetsoft.Base.Text.{fgets, line_of, after_line, skip_space, digits_value}
use mnetsoft.Cflbuild.Walks.{init_list, name_line}
use mnetsoft.Cflbuild.Editor.{Editor, delete, move, swap, sort_all, add_name}
use mnetsoft.Cflbuild.Editor.Save.{Saved, Saves}
use mnetsoft.Cflbuild.Editor.Changes.{delete-Saves, move-Saves, swap-Saves, swap-last}
use mnetsoft.Cflbuild.Editor.Sorts.{SortsAll, sort_all-SortsAll}
use mnetsoft.Cflbuild.Editor.Names.{Names, add_name-Names}
use mnetsoft.Cflbuild.Commands.{delete_command, move_command, sort_all_command}
use mnetsoft.Cflbuild.Commands.Safe.{Keeps, command-Keeps}
use mnetsoft.Cflbuild.Load.{load_lines, Loaded}
use mnetsoft.Cflbuild.Load.Loads.{reload-Loaded}

-- Conf is node 1; the names are "cooking", "agora" and "books".
abbrev names : Ptr → Text
names p =
    if p == 2
    then codes "cooking"
    else if p == 3
    then codes "agora"
    else if p == 4
    then codes "books"
    else []

abbrev three : Heap
three = record {
  live = λ p. if p == 1 then true else if p == 2 then true else if p == 3 then true else p == 4;
  name = names;
  num = λ p. if p == 3 then 1 else if p == 4 then 2 else 0;
  next = λ p. if p == 1 then 2 else if p == 2 then 3 else if p == 3 then 4 else 0;
  prev = λ p. if p == 2 then 1 else if p == 3 then 2 else if p == 4 then 3 else 0;
  top = 5;
}

abbrev three_editor : Editor
three_editor = record { heap = three; file = codes "cooking\nagora\nbooks\n" }

three-IsList : IsList three (1 ∷ 2 ∷ 3 ∷ 4 ∷ [])
three-IsList = record { alive = refl; fwd = refl; bwd = refl; separate = refl; fresh = refl }

three-Saved : Saved 10 1 three_editor (2 ∷ 3 ∷ 4 ∷ [])
unfolding name_line
three-Saved = record { list = three-IsList; numbers = refl; filed = refl; room = omega arith }

sort_all-SortsAll_example : SortsAll 10 1 three_editor (2 ∷ 3 ∷ 4 ∷ []) (sort_all 10 1 three_editor)
sort_all-SortsAll_example = sort_all-SortsAll 10 1 three_editor (2 ∷ 3 ∷ 4 ∷ []) three-Saved

delete-Saves_example : Saves 10 1 three (delete 10 1 1 three_editor) (2 ∷ 4 ∷ [])
delete-Saves_example = delete-Saves 10 1 three_editor (2 ∷ []) 3 (4 ∷ []) three-Saved

swap-Saves_example : Saves 10 1 three (swap 10 1 0 2 three_editor) (4 ∷ 3 ∷ 2 ∷ [])
swap-Saves_example = swap-Saves 10 1 three_editor [] 2 (3 ∷ []) 4 [] three-Saved

swap-last_example : swap 10 1 2 1 three_editor ≡ none
swap-last_example = swap-last 10 1 three_editor (2 ∷ []) 3 [] 4 three-Saved refl

move-Saves_example :
    Saves 10 1 three (move 10 1 0 2 three_editor) (3 ∷ 2 ∷ 4 ∷ [])
    × Saves 10 1 three (move 10 1 2 0 three_editor) (4 ∷ 2 ∷ 3 ∷ [])
move-Saves_example = move-Saves 10 1 three_editor [] 2 (3 ∷ []) 4 [] three-Saved

add_name-Names_example :
    Names 10 1
      (add_name 10 1 (codes "music") 7 three_editor)
      (2 ∷ 3 ∷ 4 ∷ 5 ∷ [])
      (put names 5 (codes "music"))
add_name-Names_example =
    add_name-Names 10 1 three_editor (2 ∷ 3 ∷ 4 ∷ []) (codes "music") 7 three-Saved (omega arith)

command-Keeps_example :
    Keeps 10 1 (delete_command 10 1 three_editor (codes "1\n"))
    × (Keeps 10 1 (move_command 10 1 three_editor (codes "1\n"))
        × Keeps 10 1 (sort_all_command 10 1 three_editor (codes "1\n")))
command-Keeps_example =
    command-Keeps 10 1 three_editor (codes "1\n") ((2 ∷ 3 ∷ 4 ∷ []), three-Saved)

reload-Loaded_example :
    Loaded 10 1
      (load_lines 10 1 10 three_editor.file 0 (init_list 1))
      (codes "cooking" ∷ codes "agora" ∷ codes "books" ∷ [])
reload-Loaded_example =
    reload-Loaded 10 10 1 three_editor (2 ∷ 3 ∷ 4 ∷ []) three-Saved (omega arith) refl (omega arith)

-- Swap of a conference and the one before it, in this order: each node is the other's next.
adjacent_reversed :
    ((swap_nodes 3 2 three >>= get_next 2) ≡ some 3)
    × ((swap_nodes 3 2 three >>= get_next 3) ≡ some 2)
unfolding swap_nodes exchange_apart put
adjacent_reversed = (refl, refl)

-- A line of a conference with no blank behind the name.
word_without_blank : extract_conf_name 30 (codes " agora\n") ≡ none
unfolding extract_conf_name isblank
word_without_blank = refl

conference_line :
    extract_conf_name 30 (codes " agora  the lobby\n") ≡ some (conf_line (codes "agora"))
unfolding extract_conf_name isblank
conference_line = refl

category_title :
    extract_conf_name 30 (codes "Arts: for artists\n") ≡ some (category_line (codes "Arts"))
unfolding extract_conf_name isblank
category_title = refl

-- A last line without a newline loses its last letter.
cut_last_line : read_cflist 5 (codes "agora\nbooks") ≡ codes "agora" ∷ codes "book" ∷ []
unfolding read_cflist line_tokens tokens extract_tokens isblank skip_separators token after_token
    fgets line_of after_line
cut_last_line = refl

two_on_a_line : read_cflist 5 (codes "agora, books\n") ≡ codes "agora" ∷ codes "books" ∷ []
unfolding read_cflist line_tokens tokens extract_tokens isblank skip_separators token after_token
    fgets line_of after_line
two_on_a_line = refl

typed : get_string 5 (codes "1x2\nrest") ≡ some (codes "12", codes "rest")
unfolding get_string
typed = refl

two_numbers : scan_two (codes " 3 12") ≡ some (3, 12)
unfolding scan_two skip_space digits_value
two_numbers = refl

abbrev public_txt : Text
public_txt = codes "Arts: for artists\n agora  the lobby\n books  reading\nOther:\n math  numbers\n"

abbrev agora : PublicConf
agora = record { conf_name = codes " agora  the lobby\n"; conf_num = 0; serial_num = 0 }

abbrev books : PublicConf
books = record { conf_name = codes " books  reading\n"; conf_num = 1; serial_num = 1 }

abbrev math : PublicConf
math = record { conf_name = codes " math  numbers\n"; conf_num = 0; serial_num = 2 }

abbrev arts_category : Category
arts_category = record { category = codes "Arts"; cat_num = 0; conf_pub = agora ∷ books ∷ [] }

abbrev other_category : Category
other_category = record { category = codes "Other"; cat_num = 1; conf_pub = math ∷ [] }

abbrev table : Reading
table = record {
  cats = arts_category ∷ other_category ∷ [];
  next_cat = 2;
  next_conf = 1;
  next_serial = 3;
}

read_table : read_public 10 public_txt empty_reading ≡ some table
unfolding read_public take_line extract_conf_name write_conf isblank fgets line_of after_line
read_table = refl

which_conf-read_public_example :
    (which_conf table.cats none 2 ≡ some math)
    × ((disp_public_conf 1 table.cats ≡ some (math ∷ []))
        × (which_conf table.cats (some (math ∷ [])) 0 ≡ some math))
which_conf-read_public_example =
    which_conf-read_public 10 public_txt table (arts_category ∷ []) other_category [] [] math []
      read_table refl refl
