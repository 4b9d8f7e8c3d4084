-- ===== src/Cflbuild/Commands.antt =====
-- soft/cmd/cflbuild: the commands with the answers they ask for, and the menus.
pub mod Safe
use mnetsoft.Base.{
  ℕ, zero, suc, ◌+◌, ◌-◌, Bool, true, false, not, ◌&&◌, ◌||◌, Option, none, some, List, [], ◌∷◌,
  ◌==◌, leb, if◌then◌else◌, length,
}
use mnetsoft.Base.Text.{Text}
use mnetsoft.Cflbuild.Heap.{Ptr, null, Heap, at, get_next, ◌>>=◌}
use mnetsoft.Cflbuild.Tokens.{isblank, extract_tokens, get_string, atoi, scan_two}
use mnetsoft.Cflbuild.Public.{
  Line, other, category_line, conf_line, Category, PublicConf, get_conf_from_public_txt,
  disp_public_conf,
}
use mnetsoft.Cflbuild.Editor.{
  Editor, save, find_name, find_num, delete, move, swap, sort_all, rename, add_name,
}

-- A command: it is back with the input left, or the program has ended; a fault is an access to a node
-- or an array that is not there, or no fuel left.
pub data Outcome : Type 0 where
  done : Editor → Text → Outcome
  ended : Editor → Outcome
  fault : Outcome

-- GetString(Str, room)
unfoldable pub prompt : ℕ → Editor → Text → (Text → Text → Outcome) → Outcome
prompt room e input k = elim (get_string room input) [ none ↦ ended e | some (s, rest) ↦ k s rest ]

abbrev starts_q : Text → Bool
starts_q [] = false
starts_q (c ∷ cs) = c == b'q'

-- A prompt that the user can leave with 'q' or nothing.
unfoldable pub ask : ℕ → Editor → Text → (Text → Text → Outcome) → Outcome
ask room e input k =
    prompt room e input λ s rest. if starts_q s || isblank s then done e rest else k s rest

unfoldable pub fallible {ℓ} : {A : Type ℓ} → Option A → (A → Outcome) → Outcome
fallible none k = fault
fallible (some a) k = k a

-- The name that GetConfFromPublicTxt leaves in ConfName, if Ret is not 0.
abbrev pub line_name : Line → Option Text
line_name other = none
line_name (category_line name) = some name
line_name (conf_line name) = some name

-- Yes = getchar(), getc(stdin)
unfoldable pub confirm : Text → Bool × Text
confirm [] = (false, [])
confirm (c ∷ []) = (c == b'y', [])
confirm (c ∷ d ∷ rest) = (c == b'y', rest)

-- The question whether a name that is in the list is still wanted; the input behind the answer.
abbrev asked : Ptr → Text → Bool × Text
asked p input = if p == null then (true, input) else confirm input

abbrev pub within : ℕ → ℕ → Bool
within last choice = not (leb choice 0) && leb choice last

-- The loops of DispMenu, SelectList, Sort and List: a number from 1 to `last`, on fuel.
unfoldable pub choose : ℕ → ℕ → Editor → Text → (ℕ → Text → Outcome) → Outcome
choose zero last e input k = fault
choose (suc m) last e input k = prompt 5 e input λ s rest.
    let again = choose m last e rest k in if within last (atoi s) then k (atoi s) rest else again

-- The cases of a switch, from 1 on.
abbrev pub by_number : ℕ → List (Editor → Text → Outcome) → Editor → Text → Outcome
by_number k [] e input = done e input
by_number zero (f ∷ fs) e input = done e input
by_number (suc zero) (f ∷ fs) e input = f e input
by_number (suc (suc k)) (f ∷ fs) e input = by_number (suc k) fs e input

module _ (n : ℕ) (conf : Ptr) where
  unfoldable pub delete_command : Editor → Text → Outcome
  delete_command e input =
      ask 5 e input λ s rest. fallible (delete n conf (atoi s) e) λ e'. done e' rest

  unfoldable pub move_command : Editor → Text → Outcome
  move_command e input = ask 5 e input λ s rest.
      ask 5 e rest λ t rest'. fallible (move n conf (atoi s) (atoi t) e) λ e'. done e' rest'

  unfoldable pub swap_command : Editor → Text → Outcome
  swap_command e input = ask 25 e input λ s rest. elim (scan_two s) [
    | none ↦ done e rest
    | some (a, b) ↦ fallible (swap n conf a b e) λ e'. done e' rest
  ]

  unfoldable pub sort_all_command : Editor → Text → Outcome
  sort_all_command e input = fallible (sort_all n conf e) λ e'. done e' input

  -- Sort
  unfoldable pub sort_command : ℕ → Editor → Text → Outcome
  sort_command m e input =
      choose m 4 e input
        λ c rest. by_number c (sort_all_command ∷ swap_command ∷ move_command ∷ []) e rest

  -- Add's loop's body from line 330 on, with the name that GetConfFromPublicTxt gave.
  unfoldable pub add_found : Text → ℕ → Editor → Text → Outcome
  add_found name num e input = fallible (find_name n conf name e.heap) λ p.
      let (wanted, rest) = asked p input in
      if wanted then fallible (add_name n conf name num e) (λ e'. done e' rest) else done e rest

module _ (n : ℕ) (conf : Ptr) (cats : List Category) where
  -- Add's loop's body, lines 323-345, with the token in ConfBuf.
  unfoldable pub add_token : Option (List PublicConf) → Text → Editor → Text → Outcome
  add_token pubs tok e input =
      if isblank tok
      then done e input
      else fallible (get_conf_from_public_txt 40 cats pubs (atoi tok)) λ line.
        elim (line_name line) [
          | none ↦ done e input
          | some name ↦ add_found n conf name (atoi tok) e input
        ]

  -- Add's loop over the tokens of ConStr, on fuel.
  unfoldable pub add_tokens : ℕ → Option (List PublicConf) → Text → Editor → Text → Outcome
  add_tokens zero pubs str e input = done e input
  add_tokens (suc m) pubs [] e input = done e input
  add_tokens (suc m) pubs (c ∷ cs) e input =
      let t = extract_tokens (c ∷ cs) in
      elim (add_token pubs t.0 e input) [
        | done e' rest ↦ add_tokens m pubs t.1 e' rest
        | ended e' ↦ ended e'
        | fault ↦ fault
      ]

  unfoldable pub add_from : Option (List PublicConf) → Editor → Text → Outcome
  add_from pubs e input = ask 35 e input λ s rest. add_tokens (length s) pubs s e rest

  -- Add
  unfoldable pub add_command : ℕ → Editor → Text → Outcome
  add_command m e input = choose m 3 e input λ c rest.
      if c == 3
      then done e rest
      else if c == 1
      then add_from none e rest
      else ask 5 e rest λ s rest'. elim (disp_public_conf (atoi s) cats) [
        | none ↦ done e rest'
        | some pubs ↦ add_from (some pubs) e rest'
      ]

  -- Change, from line 390 on, with the node found and the second answer.
  unfoldable pub change_to : Ptr → Text → Editor → Text → Outcome
  change_to p s e input = fallible (get_conf_from_public_txt 200 cats none (atoi s)) λ line.
      elim (line_name line) [
        | none ↦ done e input
        | some name ↦ fallible (find_name n conf name e.heap) λ q.
            let (wanted, rest) = asked q input in
            if wanted
            then fallible (rename n conf p name e.heap) (λ e'. done e' rest)
            else done e rest
      ]

  -- Change
  unfoldable pub change_command : Editor → Text → Outcome
  change_command e input = ask 5 e input λ s rest.
      fallible (find_num n conf (atoi s) e.heap)
        λ p. if p == null then done e rest else ask 5 e rest λ t rest'. change_to p t e rest'

  -- LongList, on fuel
  unfoldable pub long_list : ℕ → Editor → Text → Outcome
  long_list zero e input = fault
  long_list (suc m) e input = ask 5 e input λ s rest. elim (disp_public_conf (atoi s) cats) [
    | none ↦ done e rest
    | some pubs ↦
        let (again, rest') = confirm rest in
        let more = long_list m e rest' in if again then more else done e rest'
  ]

  abbrev showing : Editor → Text → Outcome
  showing e input = done e input

  -- List: what it shows is not modelled.
  unfoldable pub list_command : ℕ → Editor → Text → Outcome
  list_command m e input =
      choose m 4 e input λ c rest. by_number c (showing ∷ showing ∷ long_list m ∷ []) e rest

  -- The switch of main; 6 ends the loop.
  unfoldable pub dispatch : ℕ → ℕ → Editor → Text → Outcome
  dispatch m c e input =
      by_number c
        (add_command m
          ∷ change_command
          ∷ delete_command n conf
          ∷ list_command m
          ∷ sort_command n conf m
          ∷ [])
        e input

  -- The loop of main, on fuel that the prompts use as well.
  unfoldable pub main_loop : ℕ → Editor → Text → Outcome
  main_loop zero e input = fault
  main_loop (suc m) e input = choose m 6 e input λ c rest.
      if c == 6 then ended e else elim (dispatch m c e rest) [
        | done e' rest' ↦ main_loop m e' rest'
        | ended e' ↦ ended e'
        | fault ↦ fault
      ]
