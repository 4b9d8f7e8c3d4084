-- ===== src/Cflbuild/Links/Swapped.antt =====
-- soft/cmd/cflbuild: SwapNodes exchanges the first and the second of two nodes of the list.
use mnetsoft.Base.{◌≡◌, refl, ◌∙◌, true, List, [], ◌∷◌, ◌++◌, arith, ltb}
use mnetsoft.Cflbuild.Heap.{Ptr, null, Heap, put}
use mnetsoft.Cflbuild.Chain.{
  absent, distinct, apart, first, last, forward, backward, apart-cons, absent-last, apart-last,
  forward-append, backward-append, forward-cons, backward-cons, forward-put, backward-put, put_same,
  put_other, forward-last, backward-first,
}
use mnetsoft.Cflbuild.Links.{IsList, Relinks, join}
use mnetsoft.Cflbuild.Links.Exchanges.{all-swap, absent-swap, apart-swap, distinct-swap}
use mnetsoft.Cflbuild.Links.Pair.{Pair, pair}
use mnetsoft.Cflbuild.Links.Swap.{
  end_prev, adjacent, distant, swap_nodes, adjacent-returns, distant-returns,
}

absent-apart_last :
    (xs : List Ptr) (m : Ptr) (ms : List Ptr)
    → apart xs (m ∷ ms) ≡ true
    → absent (last m ms) xs ≡ true
absent-apart_last [] m ms h = refl
absent-apart_last (x ∷ xs) m ms h = ground (arith, absent-last x m ms, absent-apart_last xs m ms)

backward-end_prev :
    (pv : Ptr → Ptr) (p q : Ptr) (ys : List Ptr)
    → distinct ys ≡ true
    → backward pv q ys ≡ true
    → backward (end_prev pv p ys) p ys ≡ true
backward-end_prev pv p q [] d h = refl
backward-end_prev pv p q (y ∷ ys) d h = backward-first pv y ys q p (ground arith) h

backward-end_prev-apart :
    (pv : Ptr → Ptr) (p b : Ptr) (zs ys : List Ptr)
    → apart zs ys ≡ true
    → backward (end_prev pv p ys) b zs ≡ backward pv b zs
backward-end_prev-apart pv p b zs [] d = refl
backward-end_prev-apart pv p b zs (y ∷ ys) d =
    backward-put pv y p b zs (ground (arith, apart-cons zs y ys))

-- What is the same whichever way round the two nodes stand.
exchanged :
    {h : Heap} {x : Ptr} {xs : List Ptr} {p : Ptr} {ms : List Ptr} {q : Ptr} {ys : List Ptr}
    (nx pv : Ptr → Ptr)
    → IsList h ((x ∷ xs) ++ (p ∷ ms ++ q ∷ ys))
    → Pair h x xs p ms q ys
    → forward nx (x ∷ xs) q ≡ true
    → forward nx (q ∷ ms ++ p ∷ ys) null ≡ true
    → backward pv null (x ∷ xs) ≡ true
    → backward pv (last x xs) (q ∷ ms ++ p ∷ ys) ≡ true
    → IsList (record h { next = nx; prev = pv }) ((x ∷ xs) ++ (q ∷ ms ++ p ∷ ys))
exchanged {h} {x} {xs} {p} {ms} {q} {ys} nx pv l s f f' b b' =
    let a = s.first_around in
    join (record h { next = nx; prev = pv }) (x ∷ xs) (q ∷ ms ++ p ∷ ys) a.all_before
      (all-swap h.live p ms q ys (ground (arith, a))) f f' b b'
      (ground (arith, a, absent-swap null p ms q ys))
      (ground (
        arith,
        a,
        distinct-swap p ms q ys,
        apart-swap (x ∷ xs) p ms q ys,
        apart-cons (x ∷ xs) p (ms ++ q ∷ ys),
      ))
      a.fresh_before (all-swap (λ r. ltb r h.top) p ms q ys (ground (arith, a)))

adjacent-IsList :
    {h : Heap} (x : Ptr) (xs : List Ptr) (p q : Ptr) (ys : List Ptr)
    → IsList h ((x ∷ xs) ++ (p ∷ q ∷ ys))
    → Pair h x xs p [] q ys
    → IsList (adjacent h x xs p q ys) ((x ∷ xs) ++ (q ∷ p ∷ ys))
adjacent-IsList {h} x xs p q ys l s =
    let a = s.first_around in
    let b = s.second_around in
    let v = last x xs in
    let e = first ys null in
    let n₁ = put h.next v q in
    let n₂ = put n₁ p e in
    let n₃ = put n₂ q p in
    let v₀ = end_prev h.prev p ys in
    let v₁ = put v₀ q v in
    let v₂ = put v₁ p q in
    exchanged n₃ v₂ l s
      (rw
        (
          forward-put n₂ q p (x ∷ xs) q s.second_not_before,
          forward-put n₁ p e (x ∷ xs) q a.here_not_before,
        )
        (forward-last h.next x xs p q a.distinct_before a.fwd_before))
      (forward-cons n₃ q (p ∷ ys) null (put_same n₂ q p) (
        forward-cons n₃ p ys null (put_other n₂ q p p s.first_second ∙ put_same n₁ p e) (
          rw
            (
              forward-put n₂ q p ys null b.here_not_behind,
              forward-put n₁ p e ys null s.first_not_behind,
              forward-put h.next v q ys null s.before_not_behind,
            )
            b.fwd_behind)))
      (rw
        (
          backward-put v₁ p q null (x ∷ xs) a.here_not_before,
          backward-put v₀ q v null (x ∷ xs) s.second_not_before,
          backward-end_prev-apart h.prev p null (x ∷ xs) ys s.apart_both,
        )
        a.bwd_before)
      (backward-cons v₂ v q (p ∷ ys) (put_other v₁ p q q s.second_first ∙ put_same v₀ q v) (
        backward-cons v₂ q p ys (put_same v₁ p q) (
          rw
            (
              backward-put v₁ p q p ys s.first_not_behind,
              backward-put v₀ q v p ys b.here_not_behind,
            )
            (backward-end_prev h.prev p q ys b.distinct_behind b.bwd_behind))))

distant-IsList :
    {h : Heap} (x : Ptr) (xs : List Ptr) (p m : Ptr) (ms : List Ptr) (q : Ptr) (ys : List Ptr)
    → IsList h ((x ∷ xs) ++ (p ∷ m ∷ ms ++ q ∷ ys))
    → Pair h x xs p (m ∷ ms) q ys
    → IsList (distant h x xs p m ms q ys) ((x ∷ xs) ++ (q ∷ m ∷ ms ++ p ∷ ys))
distant-IsList {h} x xs p m ms q ys l s =
    let a = s.first_around in
    let b = s.second_around in
    let v = last x xs in
    let w = last m ms in
    let e = first ys null in
    let n₁ = put h.next v q in
    let n₂ = put n₁ w p in
    let n₃ = put n₂ p e in
    let n₄ = put n₃ q m in
    let v₀ = end_prev h.prev p ys in
    let v₁ = put v₀ m q in
    let v₂ = put v₁ p w in
    let v₃ = put v₂ q v in
    let mx : absent m (x ∷ xs) ≡ true = ground (arith, s, apart-cons (x ∷ xs) m ms) in
    exchanged n₄ v₃ l s
      (rw
        (
          forward-put n₃ q m (x ∷ xs) q s.second_not_before,
          forward-put n₂ p e (x ∷ xs) q a.here_not_before,
          forward-put n₁ w p (x ∷ xs) q (absent-apart_last (x ∷ xs) m ms s.apart_between),
        )
        (forward-last h.next x xs p q a.distinct_before a.fwd_before))
      (forward-cons n₄ q (m ∷ ms ++ p ∷ ys) null (put_same n₃ q m) (
        rw
          (
            forward-append n₄ (m ∷ ms) (p ∷ ys) null,
            forward-put n₃ q m (m ∷ ms) p s.second_not_between,
            forward-put n₂ p e (m ∷ ms) p s.first_not_between,
            forward-last n₁ m ms q p s.distinct_between
                (rw (forward-put h.next v q (m ∷ ms) q s.before_not_between) s.fwd_between),
          )
          (forward-cons n₄ p ys null (put_other n₃ q m p s.first_second ∙ put_same n₂ p e) (
            rw
              (
                forward-put n₃ q m ys null b.here_not_behind,
                forward-put n₂ p e ys null s.first_not_behind,
                forward-put n₁ w p ys null (apart-last m ms ys (ground (arith, s))),
                forward-put h.next v q ys null s.before_not_behind,
              )
              b.fwd_behind))))
      (rw
        (
          backward-put v₂ q v null (x ∷ xs) s.second_not_before,
          backward-put v₁ p w null (x ∷ xs) a.here_not_before,
          backward-put v₀ m q null (x ∷ xs) mx,
          backward-end_prev-apart h.prev p null (x ∷ xs) ys s.apart_both,
        )
        a.bwd_before)
      (backward-cons v₃ v q (m ∷ ms ++ p ∷ ys) (put_same v₂ q v) (
        rw
          (
            backward-append v₃ q (m ∷ ms) (p ∷ ys),
            backward-put v₂ q v q (m ∷ ms) s.second_not_between,
            backward-put v₁ p w q (m ∷ ms) s.first_not_between,
            backward-first v₀ m ms p q (ground (arith, s)) (
                rw (backward-end_prev-apart h.prev p p (m ∷ ms) ys (ground (arith, s)))
                  s.bwd_between),
          )
          (backward-cons v₃ w p ys (put_other v₂ q v p s.first_second ∙ put_same v₁ p w) (
            rw
              (
                backward-put v₂ q v p ys b.here_not_behind,
                backward-put v₁ p w p ys s.first_not_behind,
                backward-put v₀ m q p ys (ground (arith, s)),
              )
              (backward-end_prev h.prev p q ys b.distinct_behind b.bwd_behind)))))

-- SwapNodes with a node of the list that is not its first and any node behind it: no node that is
-- freed or NULL is accessed, and the list is the one with the two nodes exchanged, each node's
-- name and number as before.
pub swap_nodes-Relinks :
    (h : Heap) (x : Ptr) (xs : List Ptr) (p : Ptr) (ms : List Ptr) (q : Ptr) (ys : List Ptr)
    → IsList h ((x ∷ xs) ++ (p ∷ ms ++ q ∷ ys))
    → Relinks h (swap_nodes p q h) ((x ∷ xs) ++ (q ∷ ms ++ p ∷ ys))
swap_nodes-Relinks h x xs p [] q ys l =
    let s = pair x xs p [] q ys l in
    record {
      heap = adjacent h x xs p q ys;
      returns = adjacent-returns ys s;
      list = adjacent-IsList x xs p q ys l s;
      names = refl;
      nums = refl;
    }
swap_nodes-Relinks h x xs p (m ∷ ms) q ys l =
    let s = pair x xs p (m ∷ ms) q ys l in
    record {
      heap = distant h x xs p m ms q ys;
      returns = distant-returns ys s;
      list = distant-IsList x xs p m ms q ys l s;
      names = refl;
      nums = refl;
    }
