-- ===== src/Cflbuild/Editor/Save.antt =====
-- soft/cmd/cflbuild: what Shuffle and WriteTocflist leave, and which node a number finds.
use mnetsoft.Base.{
  ℕ, ◌+◌, ◌≤◌, ◌<◌, ◌≡◌, refl, true, false, Option, some, ◌==◌, List, [], ◌∷◌, ◌++◌, arith, length,
  map,
}
use mnetsoft.Cflbuild.Heap.{Ptr, null, Heap}
use mnetsoft.Cflbuild.Chain.{first}
use mnetsoft.Cflbuild.Links.{IsList}
use mnetsoft.Cflbuild.Walks.{matches}
use mnetsoft.Cflbuild.Walks.Finds.{
  IsRest, IsList-IsRest, first_such, find-first_such, write_tocflist-file_of, file_of,
}
use mnetsoft.Cflbuild.Walks.Shuffles.{
  numbered, shuffle-numbered, numbered-IsList, map-numbered, counting,
}
use mnetsoft.Cflbuild.Editor.{Editor, write_file, save, find_num}

-- The nodes behind Conf are `ps`, numbered from 0 on, and the file has their names in order.
pub record Saved (n : ℕ) (conf : Ptr) (e : Editor) (ps : List Ptr) : Type 0 where
  pub list : IsList e.heap (conf ∷ ps)
  pub numbers : map e.heap.num ps ≡ counting 0 ps
  pub filed : e.file ≡ file_of e.heap.name ps
  pub room : length ps < n

-- The command ends without a fault, and the list is `ps` and saved, the nodes named as before.
pub record Saves (n : ℕ) (conf : Ptr) (h : Heap) (o : Option Editor) (ps : List Ptr) : Type 0 where
  pub editor : Editor
  pub returns : o ≡ some editor
  pub saved : Saved n conf editor ps
  pub names : editor.heap.name ≡ h.name

module _ {conf : Ptr} {h : Heap} {ps : List Ptr} (l : IsList h (conf ∷ ps)) where
  pub conf_live : h.live conf ≡ true
  conf_live = ground (arith, l)

  pub conf_next : h.next conf ≡ first ps null
  conf_next = ground (arith, l)

  pub conf-IsRest : IsRest h ps
  conf-IsRest = IsList-IsRest (conf ∷ []) ps l

  pub write_file-returns :
      {n : ℕ}
      → length ps < n
      → write_file n conf h ≡ some (record { heap = h; file = file_of h.name ps })
  unfolding write_file
  write_file-returns {n} k =
      rw (conf_live, conf_next, write_tocflist-file_of n h ps k conf-IsRest) refl

pub save-Saves :
    (n : ℕ) (conf : Ptr) (h : Heap) (ps : List Ptr)
    → length ps < n
    → IsList h (conf ∷ ps)
    → Saves n conf h (save n conf h) ps
unfolding save
save-Saves n conf h ps k l =
    let g = record h { num = numbered h.num 0 ps } in
    let i : IsList g (conf ∷ ps) = numbered-IsList (numbered h.num 0 ps) l in
    record {
      editor = record { heap = g; file = file_of h.name ps };
      returns =
          rw (conf_live l, conf_next l, shuffle-numbered n 0 h ps k (conf-IsRest l))
            (write_file-returns i k);
      saved = record {
        list = i;
        numbers = map-numbered h.num 0 ps (ground (arith, l));
        filed = refl;
        room = k;
      };
      names = refl;
    }

first_such-number :
    (num : Ptr → ℕ) (k i : ℕ) (xs : List Ptr) (p : Ptr) (ys : List Ptr)
    → map num (xs ++ p ∷ ys) ≡ counting k (xs ++ p ∷ ys)
    → i ≡ k + length xs
    → first_such (λ r. num r == i) (xs ++ p ∷ ys) ≡ p
first_such-number num k i [] p ys h e = ground arith
first_such-number num k i (x ∷ xs) p ys h e =
    let d : num x ≡ k = ground arith in
    let z : (num x == i) ≡ false = ground arith in
    let t : map num (xs ++ p ∷ ys) ≡ counting (k + 1) (xs ++ p ∷ ys) = ground arith in
    rw z (first_such-number num (k + 1) i xs p ys t (omega arith))

first_such-none :
    (num : Ptr → ℕ) (k i : ℕ) (ps : List Ptr)
    → map num ps ≡ counting k ps
    → k + length ps ≤ i
    → first_such (λ r. num r == i) ps ≡ null
first_such-none num k i [] h b = refl
first_such-none num k i (p ∷ ps) h b =
    let d : num p ≡ k = ground arith in
    let z : (num p == i) ≡ false = ground arith in
    let t : map num ps ≡ counting (k + 1) ps = ground arith in
    rw z (first_such-none num (k + 1) i ps t (omega arith))

module _ {n : ℕ} {conf : Ptr} {e : Editor} where
  pub find_num-number :
      (xs : List Ptr) (p : Ptr) (ys : List Ptr)
      → Saved n conf e (xs ++ p ∷ ys)
      → find_num n conf (length xs) e.heap ≡ some p
  unfolding find_num matches
  find_num-number xs p ys s =
      rw
        (
          conf_live s.list,
          conf_next s.list,
          find-first_such n false (length xs) [] e.heap (xs ++ p ∷ ys) s.room (conf-IsRest s.list),
          first_such-number e.heap.num 0 (length xs) xs p ys s.numbers (omega arith),
        )
        refl

  pub find_num-none :
      (ps : List Ptr) (i : ℕ)
      → Saved n conf e ps
      → length ps ≤ i
      → find_num n conf i e.heap ≡ some null
  unfolding find_num matches
  find_num-none ps i s b =
      rw
        (
          conf_live s.list,
          conf_next s.list,
          find-first_such n false i [] e.heap ps s.room (conf-IsRest s.list),
          first_such-none e.heap.num 0 i ps s.numbers (omega (arith, b)),
        )
        refl
