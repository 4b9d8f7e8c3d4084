-- ===== src/Cflbuild/Editor/Changes.antt =====
-- soft/cmd/cflbuild: the commands on a list that is saved.
use mathlib.Core.Path.{subst}
use mathlib.Core.List.{append_assoc}
use mnetsoft.Base.{
  ℕ, ◌≤◌, ◌<◌, ◌≡◌, refl, sym, ◌∙◌, false, Option, none, some, ◌==◌, List, [], ◌∷◌, ◌++◌, arith,
  length, length-append,
}
use mnetsoft.Cflbuild.Heap.{Ptr, null, Heap, ◌>>=◌}
use mnetsoft.Cflbuild.Links.{IsList, Relinks, around}
use mnetsoft.Cflbuild.Links.Unlink.{delete_node-Relinks}
use mnetsoft.Cflbuild.Links.Insert.{insert-Relinks}
use mnetsoft.Cflbuild.Links.Pair.{Pair, pair}
use mnetsoft.Cflbuild.Links.Swapped.{swap_nodes-Relinks}
use mnetsoft.Cflbuild.Links.Reversed.{swap_nodes-last}
use mnetsoft.Cflbuild.Editor.{Editor, delete, move, swap, save, find_num}
use mnetsoft.Cflbuild.Editor.Save.{Saved, Saves, save-Saves, find_num-number, find_num-none}

same_length :
    (xs : List Ptr) (a b c d : Ptr) (ms ys : List Ptr)
    → length (xs ++ (a ∷ ms ++ b ∷ ys)) ≡ length (xs ++ (c ∷ ms ++ d ∷ ys))
same_length xs a b c d ms ys = omega (
  arith,
  length-append xs (a ∷ ms ++ b ∷ ys),
  length-append xs (c ∷ ms ++ d ∷ ys),
  length-append ms (b ∷ ys),
  length-append ms (d ∷ ys),
)

-- A change of the links and the save behind it.
relinked-Saves :
    {n : ℕ} {conf : Ptr} {h : Heap} {o : Option Heap} {ps : List Ptr}
    → length ps < n
    → Relinks h o (conf ∷ ps)
    → Saves n conf h (o >>= save n conf) ps
relinked-Saves {n} {conf} {h} {o} {ps} k r =
    let t = save-Saves n conf r.heap ps k r.list in
    record {
      editor = t.editor;
      returns = rw r.returns t.returns;
      saved = t.saved;
      names = t.names ∙ r.names;
    }

-- In a saved list Delete with a node's number ends without a fault; the list is the one without that
-- node, numbered from 0 on and with the names of its nodes, which are as before, in the file.
pub delete-Saves :
    (n : ℕ) (conf : Ptr) (e : Editor) (xs : List Ptr) (p : Ptr) (ys : List Ptr)
    → Saved n conf e (xs ++ p ∷ ys)
    → Saves n conf e.heap (delete n conf (length xs) e) (xs ++ ys)
unfolding delete
delete-Saves n conf e xs p ys s =
    let a = around conf xs p ys s.list in
    let z : (p == null) ≡ false = ground (arith, a) in
    rw (find_num-number xs p ys s, z)
      (relinked-Saves (omega (arith, s.room, length-append xs (p ∷ ys), length-append xs ys))
        (delete_node-Relinks e.heap conf xs p ys s.list))

-- In a saved list Delete with a number that no node has changes nothing.
pub delete-none :
    (n : ℕ) (conf : Ptr) (e : Editor) (ps : List Ptr) (num : ℕ)
    → Saved n conf e ps
    → length ps ≤ num
    → delete n conf num e ≡ some e
unfolding delete
delete-none n conf e ps num s b = rw (find_num-none ps num s b) refl

-- The two nodes of a saved list, each found by its number.
record Both (n : ℕ) (conf : Ptr) (e : Editor) (xs : List Ptr) (p : Ptr) (ms : List Ptr) (q : Ptr)
    (ys : List Ptr) : Type 0 where
  two : Pair e.heap conf xs p ms q ys
  find_first : find_num n conf (length xs) e.heap ≡ some p
  find_second : find_num n conf (length (xs ++ p ∷ ms)) e.heap ≡ some q
  first_some : (p == null) ≡ false
  second_some : (q == null) ≡ false
  numbers_differ : (length xs == length (xs ++ p ∷ ms)) ≡ false
  numbers_differ_back : (length (xs ++ p ∷ ms) == length xs) ≡ false

both :
    {n : ℕ} {conf : Ptr} {e : Editor} (xs : List Ptr) (p : Ptr) (ms : List Ptr) (q : Ptr)
    (ys : List Ptr)
    → Saved n conf e (xs ++ (p ∷ ms ++ q ∷ ys))
    → Both n conf e xs p ms q ys
both {n} {conf} {e} xs p ms q ys s =
    let i = pair conf xs p ms q ys s.list in
    let a = i.first_around in
    let b = i.second_around in
    let k = length-append xs (p ∷ ms) in
    record {
      two = i;
      find_first = find_num-number xs p (ms ++ q ∷ ys) s;
      find_second =
          find_num-number (xs ++ p ∷ ms) q ys
            (subst (λ ps. Saved n conf e ps) (sym (append_assoc xs (p ∷ ms) (q ∷ ys))) s);
      first_some = ground (arith, a);
      second_some = ground (arith, b);
      numbers_differ = ground (arith, k);
      numbers_differ_back = ground (arith, k);
    }

-- In a saved list Swap with the numbers of two nodes, the first before the second, ends without a
-- fault; the list has the two nodes exchanged, and is numbered from 0 on and in the file.
pub swap-Saves :
    (n : ℕ) (conf : Ptr) (e : Editor) (xs : List Ptr) (p : Ptr) (ms : List Ptr) (q : Ptr)
    (ys : List Ptr)
    → Saved n conf e (xs ++ (p ∷ ms ++ q ∷ ys))
    → Saves n conf e.heap
        (swap n conf (length xs) (length (xs ++ p ∷ ms)) e)
        (xs ++ (q ∷ ms ++ p ∷ ys))
unfolding swap
swap-Saves n conf e xs p ms q ys s =
    let f = both xs p ms q ys s in
    rw (f.numbers_differ, f.find_first, f.first_some, f.find_second, f.second_some)
      (relinked-Saves (omega (arith, s.room, same_length xs p q q p ms ys))
        (swap_nodes-Relinks e.heap conf xs p ms q ys s.list))

-- In a saved list Move with the number of a node and that of one behind it ends without a fault, and
-- the node stands in front of the other; likewise with the number of one before it. The list is
-- numbered from 0 on and in the file.
pub move-Saves :
    (n : ℕ) (conf : Ptr) (e : Editor) (xs : List Ptr) (p : Ptr) (ms : List Ptr) (q : Ptr)
    (ys : List Ptr)
    → Saved n conf e (xs ++ (p ∷ ms ++ q ∷ ys))
    → Saves n conf e.heap
        (move n conf (length xs) (length (xs ++ p ∷ ms)) e)
        ((xs ++ ms) ++ p ∷ q ∷ ys)
      × Saves n conf e.heap
          (move n conf (length (xs ++ p ∷ ms)) (length xs) e)
          (xs ++ q ∷ p ∷ (ms ++ ys))
unfolding move
move-Saves n conf e xs p ms q ys s =
    let f = both xs p ms q ys s in
    let k = length-append xs (p ∷ ms ++ q ∷ ys) in
    let k' = length-append ms (q ∷ ys) in
    (
      rw (f.numbers_differ, f.find_first, f.first_some, f.find_second, f.second_some)
          (relinked-Saves
            (omega
              (arith, s.room, k, k', length-append (xs ++ ms) (p ∷ q ∷ ys), length-append xs ms))
            (insert-Relinks e.heap conf xs p (ms ++ q ∷ ys) conf (xs ++ ms) q ys s.list
              (sym (append_assoc (conf ∷ xs) ms (q ∷ ys))))),
      rw (f.numbers_differ_back, f.find_first, f.first_some, f.find_second, f.second_some)
          (relinked-Saves
            (omega
              (arith, s.room, k, k', length-append xs (q ∷ p ∷ (ms ++ ys)), length-append ms ys))
            (insert-Relinks e.heap conf (xs ++ p ∷ ms) q ys conf xs p (ms ++ ys)
              (subst (λ ps. IsList e.heap ps) (sym (append_assoc (conf ∷ xs) (p ∷ ms) (q ∷ ys)))
                s.list)
              (append_assoc (conf ∷ xs) (p ∷ ms) ys))),
    )

-- In a saved list, with no node at NULL, Swap with the number of the last node first and that of any
-- node before it second accesses NULL: it gives no list.
pub swap-last :
    (n : ℕ) (conf : Ptr) (e : Editor) (xs : List Ptr) (p : Ptr) (ms : List Ptr) (q : Ptr)
    → Saved n conf e (xs ++ (p ∷ ms ++ q ∷ []))
    → e.heap.live null ≡ false
    → swap n conf (length (xs ++ p ∷ ms)) (length xs) e ≡ none
unfolding swap
swap-last n conf e xs p ms q s v =
    let f = both xs p ms q [] s in
    rw
      (
        f.numbers_differ_back,
        f.find_second,
        f.second_some,
        f.find_first,
        f.first_some,
        swap_nodes-last e.heap conf xs p ms q s.list v,
      )
      refl
