-- ===== src/Cflbuild/Editor/Sorts.antt =====
-- soft/cmd/cflbuild: SortAll on a list that is saved.
use mathlib.Core.Path.{subst}
use mathlib.Core.List.{Perm}
use mnetsoft.Base.{
  ℕ, ◌≡◌, refl, sym, ◌∙◌, inl, inr, true, false, Option, List, [], ◌∷◌, arith, length, Bool-cases,
}
use mnetsoft.Cflbuild.Heap.{Ptr, null, Heap}
use mnetsoft.Cflbuild.Chain.{absent, first, forward}
use mnetsoft.Cflbuild.Links.{IsList}
use mnetsoft.Cflbuild.Sort.Rows.{
  exchange_sort, sorted, exchange_sort-Perm, exchange_sort-sorted, length-exchange_sort,
}
use mnetsoft.Cflbuild.Sort.Refines.{sort_nodes-Sorted}
use mnetsoft.Cflbuild.Editor.{Editor, sort_all}
use mnetsoft.Cflbuild.Editor.Save.{Saved, Saves, save-Saves, conf_live, conf_next}

-- The links from a node on lead through one list only.
forward_inj :
    (nx : Ptr → Ptr) (ps qs : List Ptr)
    → forward nx ps null ≡ true
    → forward nx qs null ≡ true
    → absent null ps ≡ true
    → absent null qs ≡ true
    → first ps null ≡ first qs null
    → ps ≡ qs
forward_inj nx [] [] f g a b e = refl
forward_inj nx [] (q ∷ qs) f g a b e = absurd (ground arith)
forward_inj nx (p ∷ ps) [] f g a b e = absurd (ground arith)
forward_inj nx (p ∷ ps) (q ∷ qs) f g a b e =
    let t =
      forward_inj nx ps qs (ground arith) (ground arith) (ground arith) (ground arith)
        (ground arith) in
    ground (arith, t)

one_list :
    {h : Heap} {conf : Ptr} (ps qs : List Ptr)
    → IsList h (conf ∷ ps)
    → IsList h (conf ∷ qs)
    → ps ≡ qs
one_list {h} ps qs l m =
    forward_inj h.next ps qs (ground (arith, l)) (ground (arith, m)) (ground (arith, l))
      (ground (arith, m)) (sym (conf_next l) ∙ conf_next m)

-- SortAll ends without a fault with a list that is saved, of the same nodes, in an order in which no
-- name is above, by strcmp, one behind it.
pub record SortsAll (n : ℕ) (conf : Ptr) (e : Editor) (ps : List Ptr) (o : Option Editor)
    : Type 0 where
  pub nodes : List Ptr
  pub saves : Saves n conf e.heap o nodes
  pub same_nodes : Perm nodes ps
  pub in_order : sorted e.heap.name nodes ≡ true

sort_all-Saves :
    (n : ℕ) (conf : Ptr) (e : Editor) (ps : List Ptr)
    → Saved n conf e ps
    → (length (exchange_sort e.heap.name n ps) ≡ length ps)
    → Saves n conf e.heap (sort_all n conf e) (exchange_sort e.heap.name n ps)
unfolding sort_all
sort_all-Saves n conf e ps s k =
    let r = sort_nodes-Sorted n e.heap conf [] ps false s.room s.list in
    rw (conf_live s.list, conf_next s.list, r.returns)
      (elim (Bool-cases r.swapped) [
        | inl y ↦
            let t =
              save-Saves n conf r.heap (exchange_sort e.heap.name n ps) (omega (arith, k, s.room))
                r.list in
            rw y (record {
              editor = t.editor;
              returns = t.returns;
              saved = t.saved;
              names = t.names ∙ r.names;
            })
        | inr y ↦
            let w = (r.still y).1 in
            let i : IsList e.heap (conf ∷ exchange_sort e.heap.name n ps) =
              subst (λ h. IsList h (conf ∷ exchange_sort e.heap.name n ps)) w r.list in
            let u : ps ≡ exchange_sort e.heap.name n ps =
              one_list ps (exchange_sort e.heap.name n ps) s.list i in
            rw (y, w)
              (record {
                editor = e;
                returns = refl;
                saved = subst (λ qs. Saved n conf e qs) u s;
                names = refl;
              })
      ])

-- In a saved list SortAll ends without a fault; the list has the same nodes, with their names, in an
-- order in which no name is above one behind it, by strcmp; it is numbered from 0 on and in the file.
pub sort_all-SortsAll :
    (n : ℕ) (conf : Ptr) (e : Editor) (ps : List Ptr)
    → Saved n conf e ps
    → SortsAll n conf e ps (sort_all n conf e)
sort_all-SortsAll n conf e ps s =
    let r = exchange_sort-Perm e.heap.name n ps in
    record {
      nodes = exchange_sort e.heap.name n ps;
      saves = sort_all-Saves n conf e ps s (length-exchange_sort e.heap.name n ps);
      same_nodes = r;
      in_order = exchange_sort-sorted e.heap.name n ps (omega (arith, s.room));
    }
