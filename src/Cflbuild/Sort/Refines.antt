-- ===== src/Cflbuild/Sort/Refines.antt =====
-- soft/cmd/cflbuild: SortAll's loops do to the linked list what the exchanges do to its nodes.
use mathlib.Core.Path.{subst}
use mathlib.Core.List.{append_assoc}
use mnetsoft.Base.{
  ℕ, zero, suc, ◌<◌, ◌≡◌, refl, ◌∙◌, sym, ap, inl, inr, Bool, true, false, Option, some, ◌==◌, List,
  [], ◌∷◌, ◌++◌, arith, length, Bool-cases,
}
use mnetsoft.Cflbuild.Heap.{Ptr, null, Heap}
use mnetsoft.Cflbuild.Chain.{first}
use mnetsoft.Cflbuild.Links.{IsList, Relinks, around}
use mnetsoft.Cflbuild.Links.Pair.{Pair, pair}
use mnetsoft.Cflbuild.Links.Swap.{swap_nodes}
use mnetsoft.Cflbuild.Links.Swapped.{swap_nodes-Relinks}
use mnetsoft.Cflbuild.Sort.{text_gt, Sorting, compare_nodes, sort_row, sort_nodes}
use mnetsoft.Cflbuild.Sort.Rows.{row, exchange_sort, length-row}

-- The loop ends, with Conf1 the node `c` and the list `ps`; where nothing was exchanged in it or
-- before it the heap is the same.
pub record Sorts (h : Heap) (s : Bool) (o : Option Sorting) (c : Ptr) (ps : List Ptr) : Type 0 where
  end : Sorting
  returns : o ≡ some end
  at_least : end.conf1 ≡ c
  list : IsList end.heap ps
  names : end.heap.name ≡ h.name
  nums : end.heap.num ≡ h.num
  still : end.swapped ≡ false → (s ≡ false) × (end.heap ≡ h)

shift :
    (x : Ptr) (xs : List Ptr) (p : Ptr) (ms : List Ptr) (q : Ptr) (qs : List Ptr)
    → (x ∷ xs) ++ (p ∷ (ms ++ (q ∷ [])) ++ qs) ≡ (x ∷ xs) ++ (p ∷ ms ++ q ∷ qs)
shift x xs p ms q qs = ap (λ zs. (x ∷ xs) ++ (p ∷ zs)) (append_assoc ms (q ∷ []) qs)

compare-up :
    (h : Heap) (x : Ptr) (xs : List Ptr) (p : Ptr) (ms : List Ptr) (q : Ptr) (qs : List Ptr)
    (s : Bool)
    → Pair h x xs p ms q qs
    → (r : Relinks h (swap_nodes p q h) ((x ∷ xs) ++ (q ∷ ms ++ p ∷ qs)))
    → text_gt (h.name p) (h.name q) ≡ true
    → compare_nodes p q s h ≡ some (record { conf1 = q; conf2 = p; swapped = true; heap = r.heap })
unfolding compare_nodes
compare-up h x xs p ms q qs s i r e =
    let a = i.first_around in
    let b = i.second_around in rw (a.live_here, b.live_here, e, r.returns) refl

compare-on :
    (h : Heap) (x : Ptr) (xs : List Ptr) (p : Ptr) (ms : List Ptr) (q : Ptr) (qs : List Ptr)
    (s : Bool)
    → Pair h x xs p ms q qs
    → text_gt (h.name p) (h.name q) ≡ false
    → compare_nodes p q s h ≡ some (record { conf1 = p; conf2 = q; swapped = s; heap = h })
unfolding compare_nodes
compare-on h x xs p ms q qs s i e =
    let a = i.first_around in let b = i.second_around in rw (a.live_here, b.live_here, e) refl

sort_row-Sorts :
    (n : ℕ) (h : Heap) (x : Ptr) (xs : List Ptr) (p : Ptr) (ms qs : List Ptr) (s : Bool)
    → length qs < n
    → IsList h ((x ∷ xs) ++ (p ∷ ms ++ qs))
    → Sorts h s
        (sort_row n p (first qs null) s h)
        (row h.name p qs).0
        ((x ∷ xs) ++ ((row h.name p qs).0 ∷ ms ++ (row h.name p qs).1))
unfolding sort_row row
sort_row-Sorts zero h x xs p ms qs s k l = elim k [ ]
sort_row-Sorts (suc n) h x xs p ms [] s k l = record {
  end = record { conf1 = p; conf2 = null; swapped = s; heap = h };
  returns = refl;
  at_least = refl;
  list = l;
  names = refl;
  nums = refl;
  still = λ e. (e, refl);
}
sort_row-Sorts (suc n) h x xs p ms (q ∷ qs) s k l =
    let i = pair x xs p ms q qs l in
    let b = i.second_around in
    let z : (q == null) ≡ false = ground (arith, b) in
    elim (Bool-cases (text_gt (h.name p) (h.name q))) [
      | inl e ↦
          let r = swap_nodes-Relinks h x xs p ms q qs l in
          let c = pair x xs q ms p qs r.list in
          let d = c.second_around in
          let t =
            sort_row-Sorts n r.heap x xs q (ms ++ (p ∷ [])) qs true (omega (arith, k))
              (subst (λ ps. IsList r.heap ps) (sym (shift x xs q ms p qs)) r.list) in
          rw e (record {
            end = t.end;
            returns =
                rw (z, compare-up h x xs p ms q qs s i r e, d.live_here, d.next_here) t.returns;
            at_least = t.at_least ∙ ap (λ f. (row f q qs).0) r.names;
            list =
                subst (λ ps. IsList t.end.heap ps)
                  (shift x xs (row r.heap.name q qs).0 ms p (row r.heap.name q qs).1
                    ∙ ap (λ f. (x ∷ xs) ++ ((row f q qs).0 ∷ ms ++ p ∷ (row f q qs).1)) r.names)
                  t.list;
            names = t.names ∙ r.names;
            nums = t.nums ∙ r.nums;
            still = λ f. absurd (ground (arith, (t.still f).0));
          })
      | inr e ↦
          let t =
            sort_row-Sorts n h x xs p (ms ++ (q ∷ [])) qs s (omega (arith, k))
              (subst (λ ps. IsList h ps) (sym (shift x xs p ms q qs)) l) in
          rw e (record {
            end = t.end;
            returns = rw (z, compare-on h x xs p ms q qs s i e, b.live_here, b.next_here) t.returns;
            at_least = t.at_least;
            list =
                subst (λ ps. IsList t.end.heap ps)
                  (shift x xs (row h.name p qs).0 ms q (row h.name p qs).1) t.list;
            names = t.names;
            nums = t.nums;
            still = t.still;
          })
    ]

-- Both loops: the flag and the heap, with the list `ps`.
pub record Sorted (h : Heap) (s : Bool) (o : Option (Bool × Heap)) (ps : List Ptr) : Type 0 where
  pub swapped : Bool
  pub heap : Heap
  pub returns : o ≡ some (swapped, heap)
  pub list : IsList heap ps
  pub names : heap.name ≡ h.name
  pub nums : heap.num ≡ h.num
  pub still : swapped ≡ false → (s ≡ false) × (heap ≡ h)

pub sort_nodes-Sorted :
    (n : ℕ) (h : Heap) (x : Ptr) (xs ps : List Ptr) (s : Bool)
    → length ps < n
    → IsList h ((x ∷ xs) ++ ps)
    → Sorted h s (sort_nodes n (first ps null) s h) ((x ∷ xs) ++ exchange_sort h.name n ps)
unfolding sort_nodes exchange_sort
sort_nodes-Sorted zero h x xs ps s k l = elim k [ ]
sort_nodes-Sorted (suc n) h x xs [] s k l = record {
  swapped = s;
  heap = h;
  returns = refl;
  list = l;
  names = refl;
  nums = refl;
  still = λ e. (e, refl);
}
sort_nodes-Sorted (suc n) h x xs (p ∷ ps) s k l =
    let a = around x xs p ps l in
    let z : (p == null) ≡ false = ground (arith, a) in
    let t = sort_row-Sorts n h x xs p [] ps s (omega (arith, k)) l in
    let c = around x xs (row h.name p ps).0 (row h.name p ps).1 t.list in
    let j = append_assoc (x ∷ xs) ((row h.name p ps).0 ∷ []) in
    let u =
      sort_nodes-Sorted n t.end.heap x (xs ++ (row h.name p ps).0 ∷ []) (row h.name p ps).1
        t.end.swapped (omega (arith, k, length-row h.name p ps))
        (subst (λ zs. IsList t.end.heap zs) (sym (j (row h.name p ps).1)) t.list) in
    record {
      swapped = u.swapped;
      heap = u.heap;
      returns =
          rw (z, a.live_here, a.next_here, t.returns, t.at_least, c.live_here, c.next_here)
            u.returns;
      list =
          subst (λ zs. IsList u.heap zs)
            (j (exchange_sort t.end.heap.name n (row h.name p ps).1)
              ∙ ap (λ f. (x ∷ xs) ++ (row h.name p ps).0 ∷ exchange_sort f n (row h.name p ps).1)
                  t.names)
            u.list;
      names = u.names ∙ t.names;
      nums = u.nums ∙ t.nums;
      still = λ e. let v = u.still e in let w = t.still v.0 in (w.0, v.1 ∙ w.1);
    }
