-- ===== src/Cflbuild/Links.antt =====
-- The list of conferences in the heap: what holds of its links, and the nodes around a place in it.
pub mod Unlink
pub mod Insert
pub mod Pair
pub mod Swap
pub mod Exchanges
pub mod Swapped
pub mod Reversed
use mnetsoft.Base.{
  ℕ, ◌≡◌, ◌≢◌, refl, sym, ◌∙◌, ap, Bool, true, false, not, ◌&&◌, Option, some, List, [], ◌∷◌, ◌++◌,
  arith, ◌==◌, ltb,
}
use mnetsoft.Cflbuild.Heap.{Ptr, null, Heap}
use mnetsoft.Cflbuild.Chain.{
  absent, distinct, apart, first, last, forward, backward, all, absent-append, distinct-append,
  apart-append, apart-cons, all-append, apart-last, forward-append, backward-append, absent-last,
}

-- The nodes `ps` are allocated and different, and the links of each, in both ways, are to its
-- neighbours, NULL at the ends.
pub record IsList (h : Heap) (ps : List Ptr) : Type 0 where
  pub alive : all h.live ps ≡ true
  pub fwd : forward h.next ps null ≡ true
  pub bwd : backward h.prev null ps ≡ true
  pub separate : distinct (null ∷ ps) ≡ true
  pub fresh : all (λ p. ltb p h.top) ps ≡ true

-- The operation gives a heap whose list is `ps`, with each node's name and number as before.
pub record Relinks (h : Heap) (o : Option Heap) (ps : List Ptr) : Type 0 where
  pub heap : Heap
  pub returns : o ≡ some heap
  pub list : IsList heap ps
  pub names : heap.name ≡ h.name
  pub nums : heap.num ≡ h.num

pub all-last :
    (f : Ptr → Bool) (x : Ptr) (xs : List Ptr) → all f (x ∷ xs) ≡ true → f (last x xs) ≡ true
all-last f x [] h = ground arith
all-last f x (y ∷ ys) h = all-last f y ys (ground arith)

-- What the links around the node `p` are, and which nodes are not the same.
pub record Around (h : Heap) (x : Ptr) (xs : List Ptr) (p : Ptr) (ys : List Ptr) : Type 0 where
  pub all_before : all h.live (x ∷ xs) ≡ true
  pub live_before : h.live (last x xs) ≡ true
  pub live_here : h.live p ≡ true
  pub live_behind : all h.live ys ≡ true
  pub prev_here : h.prev p ≡ last x xs
  pub next_here : h.next p ≡ first ys null
  pub some_before : (last x xs == null) ≡ false
  pub before_here : (last x xs == p) ≡ false
  pub here_before : (p == last x xs) ≡ false
  pub fwd_before : forward h.next (x ∷ xs) p ≡ true
  pub fwd_behind : forward h.next ys null ≡ true
  pub bwd_before : backward h.prev null (x ∷ xs) ≡ true
  pub bwd_behind : backward h.prev p ys ≡ true
  pub distinct_before : distinct (x ∷ xs) ≡ true
  pub distinct_behind : distinct ys ≡ true
  pub here_not_before : absent p (x ∷ xs) ≡ true
  pub here_not_behind : absent p ys ≡ true
  pub apart_behind : apart (x ∷ xs) ys ≡ true
  pub before_not_behind : absent (last x xs) ys ≡ true
  pub null_before : absent null (x ∷ xs) ≡ true
  pub null_here : (null == p) ≡ false
  pub null_behind : absent null ys ≡ true
  pub fresh_before : all (λ r. ltb r h.top) (x ∷ xs) ≡ true
  pub fresh_here : ltb p h.top ≡ true
  pub fresh_behind : all (λ r. ltb r h.top) ys ≡ true

pub around :
    {h : Heap} (x : Ptr) (xs : List Ptr) (p : Ptr) (ys : List Ptr)
    → IsList h ((x ∷ xs) ++ p ∷ ys)
    → Around h x xs p ys
around {h} x xs p ys l =
    let a : (all h.live (x ∷ xs) && all h.live (p ∷ ys)) ≡ true =
      sym (all-append h.live (x ∷ xs) (p ∷ ys)) ∙ l.alive in
    let f : (forward h.next (x ∷ xs) p && forward h.next (p ∷ ys) null) ≡ true =
      sym (forward-append h.next (x ∷ xs) (p ∷ ys) null) ∙ l.fwd in
    let b : (backward h.prev null (x ∷ xs) && backward h.prev (last x xs) (p ∷ ys)) ≡ true =
      sym (backward-append h.prev null (x ∷ xs) (p ∷ ys)) ∙ l.bwd in
    let s = l.separate in
    let n : (absent null (x ∷ xs) && absent null (p ∷ ys)) ≡ true =
      sym (absent-append null (x ∷ xs) (p ∷ ys)) ∙ ground arith in
    let d : (distinct (x ∷ xs) && (distinct (p ∷ ys) && apart (x ∷ xs) (p ∷ ys))) ≡ true =
      sym (distinct-append (x ∷ xs) (p ∷ ys)) ∙ ground arith in
    let t : (absent p (x ∷ xs) && apart (x ∷ xs) ys) ≡ true =
      sym (apart-cons (x ∷ xs) p ys) ∙ ground arith in
    let e : (all (λ r. ltb r h.top) (x ∷ xs) && all (λ r. ltb r h.top) (p ∷ ys)) ≡ true =
      sym (all-append (λ r. ltb r h.top) (x ∷ xs) (p ∷ ys)) ∙ l.fresh in
    record {
      all_before = ground arith;
      live_before = all-last h.live x xs (ground arith);
      live_here = ground arith;
      live_behind = ground arith;
      prev_here = ground arith;
      next_here = ground arith;
      some_before = absent-last null x xs (ground arith);
      before_here = absent-last p x xs (ground arith);
      here_before = ground (arith, absent-last p x xs (ground arith));
      fwd_before = ground arith;
      fwd_behind = ground arith;
      bwd_before = ground arith;
      bwd_behind = ground arith;
      distinct_before = ground arith;
      distinct_behind = ground arith;
      here_not_before = ground arith;
      here_not_behind = ground arith;
      apart_behind = ground arith;
      before_not_behind = apart-last x xs ys (ground arith);
      null_before = ground arith;
      null_here = ground arith;
      null_behind = ground arith;
      fresh_before = ground arith;
      fresh_here = ground arith;
      fresh_behind = ground arith;
    }

-- Two chains of different nodes make a list where the second is linked behind the first.
pub join :
    (h : Heap) (xs ys : List Ptr)
    → all h.live xs ≡ true
    → all h.live ys ≡ true
    → forward h.next xs (first ys null) ≡ true
    → forward h.next ys null ≡ true
    → backward h.prev null xs ≡ true
    → backward h.prev (last null xs) ys ≡ true
    → (absent null xs && absent null ys) ≡ true
    → (distinct xs && (distinct ys && apart xs ys)) ≡ true
    → all (λ r. ltb r h.top) xs ≡ true
    → all (λ r. ltb r h.top) ys ≡ true
    → IsList h (xs ++ ys)
join h xs ys a a' f f' b b' n d t t' = record {
  alive = rw (all-append h.live xs ys, a, a') refl;
  fwd = rw (forward-append h.next xs ys null, f, f') refl;
  bwd = rw (backward-append h.prev null xs ys, b, b') refl;
  separate = rw (absent-append null xs ys, n, distinct-append xs ys, d) refl;
  fresh = rw (all-append (λ r. ltb r h.top) xs ys, t, t') refl;
}
