-- ===== src/Cflbuild/Links/Reversed.antt =====
-- soft/cmd/cflbuild/cflbuild.c: SwapNodes with the last node of the list as its first argument.
use mnetsoft.Base.{◌≡◌, refl, true, false, none, List, [], ◌∷◌, ◌++◌, arith, ◌==◌}
use mnetsoft.Cflbuild.Heap.{Ptr, null, Heap, put}
use mnetsoft.Cflbuild.Chain.{last, absent-last, absent-append}
use mnetsoft.Cflbuild.Links.{IsList, all-last}
use mnetsoft.Cflbuild.Links.Pair.{pair}
use mnetsoft.Cflbuild.Links.Swap.{swap_nodes, exchange_apart}

-- SwapNodes of the last node of the list and any node before it accesses NULL, where the list has a
-- node before both and no node is at NULL.
pub swap_nodes-last :
    (h : Heap) (x : Ptr) (xs : List Ptr) (p : Ptr) (ms : List Ptr) (q : Ptr)
    → IsList h ((x ∷ xs) ++ (p ∷ ms ++ q ∷ []))
    → h.live null ≡ false
    → swap_nodes q p h ≡ none
unfolding swap_nodes exchange_apart put
swap_nodes-last h x xs p [] q l v =
    let s = pair x xs p [] q [] l in
    let a = s.first_around in
    let b = s.second_around in
    let e : (p == p) ≡ true = ground arith in
    let z : (p == null) ≡ false = ground (arith, a) in
    let w : (null == p) ≡ false = ground (arith, a) in
    rw
      (
        b.live_here, s.second_prev, z, a.live_here, e, a.live_here, z, a.live_here, b.live_here,
        s.second_first, b.next_here, w, v,
      )
      refl
swap_nodes-last h x xs p (m ∷ ms) q l v =
    let s = pair x xs p (m ∷ ms) q [] l in
    let a = s.first_around in
    let b = s.second_around in
    let z : (p == null) ≡ false = ground (arith, a) in
    let w : (null == p) ≡ false = ground (arith, a) in
    let k : h.live m ≡ true = ground (arith, s) in
    let t : (m == null) ≡ false = ground (arith, a) in
    let i : h.live (last m ms) ≡ true = all-last h.live m ms s.live_between in
    let f : (p == last m ms) ≡ false = ground (arith, s, absent-last p m ms) in
    let g : (q == last m ms) ≡ false = ground (arith, s, absent-last q m ms) in
    let u : (last m ms == null) ≡ false =
      absent-last null m ms (ground (arith, a, absent-append null (m ∷ ms) (q ∷ []))) in
    rw
      (
        b.live_here, s.second_prev, u, i, a.live_here, f, s.first_next, t, k, b.live_here, g,
        b.next_here, w, v,
      )
      refl
