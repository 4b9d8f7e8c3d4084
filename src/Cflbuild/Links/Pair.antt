-- ===== src/Cflbuild/Links/Pair.antt =====
-- soft/cmd/cflbuild: the links around two nodes of the list, the first before the second.
use mathlib.Core.Path.{subst}
use mathlib.Core.List.{append_assoc}
use mnetsoft.Base.{◌≡◌, sym, ◌∙◌, true, false, ◌&&◌, List, ◌∷◌, ◌++◌, arith, ◌==◌}
use mnetsoft.Cflbuild.Heap.{Ptr, null, Heap}
use mnetsoft.Cflbuild.Chain.{
  absent, distinct, apart, first, last, forward, backward, all, absent-append, distinct-append,
  apart-append, apart-cons, all-append, forward-append, backward-append, first-append, absent-last,
  apart-last,
}
use mnetsoft.Cflbuild.Links.{IsList, Around, around}

pub record Pair (h : Heap) (x : Ptr) (xs : List Ptr) (p : Ptr) (ms : List Ptr) (q : Ptr)
    (ys : List Ptr) : Type 0 where
  pub first_around : Around h x xs p (ms ++ q ∷ ys)
  pub second_around : Around h x (xs ++ p ∷ ms) q ys
  pub second_prev : h.prev q ≡ last p ms
  pub first_next : h.next p ≡ first ms q
  pub fwd_between : forward h.next ms q ≡ true
  pub bwd_between : backward h.prev p ms ≡ true
  pub second_not_before : absent q (x ∷ xs) ≡ true
  pub first_not_between : absent p ms ≡ true
  pub second_not_between : absent q ms ≡ true
  pub first_not_behind : absent p ys ≡ true
  pub first_second : (p == q) ≡ false
  pub second_first : (q == p) ≡ false
  pub apart_between : apart (x ∷ xs) ms ≡ true
  pub apart_both : apart (x ∷ xs) ys ≡ true
  pub apart_behind : apart (p ∷ ms) ys ≡ true
  pub before_not_second : (last x xs == q) ≡ false
  pub second_not_last : (q == last x xs) ≡ false
  pub before_not_between : absent (last x xs) ms ≡ true
  pub before_not_behind : absent (last x xs) ys ≡ true
  pub distinct_between : distinct ms ≡ true
  pub live_between : all h.live ms ≡ true

pub pair :
    {h : Heap} (x : Ptr) (xs : List Ptr) (p : Ptr) (ms : List Ptr) (q : Ptr) (ys : List Ptr)
    → IsList h ((x ∷ xs) ++ (p ∷ ms ++ q ∷ ys))
    → Pair h x xs p ms q ys
pair {h} x xs p ms q ys l =
    let a = around x xs p (ms ++ q ∷ ys) l in
    let b =
      around x (xs ++ p ∷ ms) q ys
        (subst (λ ps. IsList h ps) (sym (append_assoc (x ∷ xs) (p ∷ ms) (q ∷ ys))) l) in
    let o : (absent q (x ∷ xs) && absent q (p ∷ ms)) ≡ true =
      sym (absent-append q (x ∷ xs) (p ∷ ms)) ∙ b.here_not_before in
    let o' : (absent p ms && absent p (q ∷ ys)) ≡ true =
      sym (absent-append p ms (q ∷ ys)) ∙ a.here_not_behind in
    let f : (forward h.next ms q && forward h.next (q ∷ ys) null) ≡ true =
      sym (forward-append h.next ms (q ∷ ys) null) ∙ a.fwd_behind in
    let w : (backward h.prev p ms && backward h.prev (last p ms) (q ∷ ys)) ≡ true =
      sym (backward-append h.prev p ms (q ∷ ys)) ∙ a.bwd_behind in
    let t : (apart (x ∷ xs) ms && apart (x ∷ xs) (q ∷ ys)) ≡ true =
      sym (apart-append (x ∷ xs) ms (q ∷ ys)) ∙ a.apart_behind in
    let u : (absent q (x ∷ xs) && apart (x ∷ xs) ys) ≡ true =
      sym (apart-cons (x ∷ xs) q ys) ∙ ground arith in
    let d : (distinct ms && (distinct (q ∷ ys) && apart ms (q ∷ ys))) ≡ true =
      sym (distinct-append ms (q ∷ ys)) ∙ a.distinct_behind in
    let v : (absent q ms && apart ms ys) ≡ true = sym (apart-cons ms q ys) ∙ ground arith in
    let k : (all h.live ms && all h.live (q ∷ ys)) ≡ true =
      sym (all-append h.live ms (q ∷ ys)) ∙ a.live_behind in
    record {
      first_around = a;
      second_around = b;
      second_prev = ground arith;
      first_next = a.next_here ∙ first-append ms (q ∷ ys) null;
      fwd_between = ground arith;
      bwd_between = ground arith;
      second_not_before = ground arith;
      first_not_between = ground arith;
      second_not_between = ground arith;
      first_not_behind = ground arith;
      first_second = ground arith;
      second_first = ground arith;
      apart_between = ground arith;
      apart_both = ground arith;
      apart_behind = ground arith;
      before_not_second = absent-last q x xs (ground arith);
      second_not_last = ground (arith, absent-last q x xs (ground arith));
      before_not_between = apart-last x xs ms (ground arith);
      before_not_behind = apart-last x xs ys (ground arith);
      distinct_between = ground arith;
      live_between = ground arith;
    }
