-- ===== src/Cflbuild/Links/Unlink.antt =====
-- soft/cmd/cflbuild: the links around a node that Delete and Insert take out of the list.
use mnetsoft.Base.{
  ◌≡◌, refl, true, false, Option, some, List, [], ◌∷◌, ◌++◌, arith, ◌==◌, if◌then◌else◌,
}
use mnetsoft.Cflbuild.Heap.{
  Ptr, null, Heap, put, get_next, get_prev, set_next, set_prev, free_node, ◌>>=◌,
}
use mnetsoft.Cflbuild.Chain.{
  absent, last, all-put, absent-append, apart-cons, forward-put, backward-put, forward-last,
  backward-first,
}
use mnetsoft.Cflbuild.Links.{IsList, Relinks, Around, around, join}

-- Insert, lines 408-410
unfoldable pub unlink : Ptr → Heap → Option Heap
unlink p h₀ = do
  b ← get_prev p h₀
  n ← get_next p h₀
  h₁ ← set_next b n h₀
  m ← get_next p h₁
  c ← get_prev p h₁
  if m == null then some h₁ else set_prev m c h₁

-- Delete, lines 206-213: the node is taken out of the list and freed.
unfoldable pub delete_node : Ptr → Heap → Option Heap
delete_node p h₀ = do
  b ← get_prev p h₀
  n ← get_next p h₀
  h₁ ← if b == null then some h₀ else set_next b n h₀
  m ← get_next p h₁
  c ← get_prev p h₁
  h₂ ← if m == null then some h₁ else set_prev m c h₁
  free_node p h₂

-- The heap without the links to the node behind `xs` and before `ys`.
abbrev pub unlinked : Heap → Ptr → List Ptr → List Ptr → Heap
unlinked h x xs [] = record h { next = put h.next (last x xs) null }
unlinked h x xs (y ∷ ys) = record h {
  next = put h.next (last x xs) y;
  prev = put h.prev y (last x xs);
}

pub unlink-returns :
    {h : Heap} {x : Ptr} {xs : List Ptr} {p : Ptr} (ys : List Ptr)
    → Around h x xs p ys
    → unlink p h ≡ some (unlinked h x xs ys)
unfolding unlink put
unlink-returns [] a =
    rw
      (
        a.live_here, a.prev_here, a.next_here, a.live_before, a.live_here, a.here_before,
        a.next_here,
      )
      refl
unlink-returns {h} (y ∷ ys) a =
    let n : (y == null) ≡ false = ground (arith, a) in
    let z : h.live y ≡ true = ground (arith, a) in
    rw
      (
        a.live_here, a.prev_here, a.next_here, a.live_before, a.live_here, a.here_before,
        a.next_here, n, a.prev_here, z,
      )
      refl

pub unlinked-IsList :
    {h : Heap} (x : Ptr) (xs : List Ptr) {p : Ptr} (ys : List Ptr)
    → Around h x xs p ys
    → IsList (unlinked h x xs ys) ((x ∷ xs) ++ ys)
unlinked-IsList {h} x xs {p} [] a =
    join _ (x ∷ xs) [] a.all_before refl
      (forward-last h.next x xs p null a.distinct_before a.fwd_before) refl a.bwd_before refl
      (rw a.null_before refl) (rw (a.distinct_before, a.apart_behind) refl) a.fresh_before refl
unlinked-IsList {h} x xs {p} (y ∷ ys) a =
    let q : absent y (x ∷ xs) ≡ true = ground (arith, a, apart-cons (x ∷ xs) y ys) in
    let b = last x xs in
    join _ (x ∷ xs) (y ∷ ys) a.all_before a.live_behind
      (forward-last h.next x xs p y a.distinct_before a.fwd_before)
      (rw (forward-put h.next b y (y ∷ ys) null a.before_not_behind) a.fwd_behind)
      (rw (backward-put h.prev y b null (x ∷ xs) q) a.bwd_before)
      (backward-first h.prev y ys p b (ground (arith, a)) a.bwd_behind)
      (rw (a.null_before, a.null_behind) refl)
      (rw (a.distinct_before, a.distinct_behind, a.apart_behind) refl) a.fresh_before a.fresh_behind

-- What is the same in the heap without the links.
pub live-unlinked : (h : Heap) (x : Ptr) (xs ys : List Ptr) → (unlinked h x xs ys).live ≡ h.live
live-unlinked h x xs [] = refl
live-unlinked h x xs (y ∷ ys) = refl

pub name-unlinked : (h : Heap) (x : Ptr) (xs ys : List Ptr) → (unlinked h x xs ys).name ≡ h.name
name-unlinked h x xs [] = refl
name-unlinked h x xs (y ∷ ys) = refl

pub num-unlinked : (h : Heap) (x : Ptr) (xs ys : List Ptr) → (unlinked h x xs ys).num ≡ h.num
num-unlinked h x xs [] = refl
num-unlinked h x xs (y ∷ ys) = refl

pub top-unlinked : (h : Heap) (x : Ptr) (xs ys : List Ptr) → (unlinked h x xs ys).top ≡ h.top
top-unlinked h x xs [] = refl
top-unlinked h x xs (y ∷ ys) = refl

freed-IsList :
    (h : Heap) (p : Ptr) (ps : List Ptr)
    → absent p ps ≡ true
    → IsList h ps
    → IsList (record h { live = put h.live p false }) ps
freed-IsList h p ps out l = record {
  alive = rw (all-put h.live p false ps out) l.alive;
  fwd = l.fwd;
  bwd = l.bwd;
  separate = l.separate;
  fresh = l.fresh;
}

-- In a list whose first node is not `p`, Delete's guard on the node before `p` holds.
delete_node-unlink :
    {h : Heap} {x : Ptr} {xs : List Ptr} {p : Ptr} (ys : List Ptr)
    → Around h x xs p ys
    → delete_node p h ≡ (unlink p h >>= free_node p)
unfolding delete_node unlink
delete_node-unlink ys a =
    rw (a.live_here, a.prev_here, a.some_before, a.live_before, a.live_here) refl

-- Delete unlinks a node of the list that is not its first, and frees it: no node that is freed or
-- NULL is accessed, the list is the one without the node, and the node is no longer allocated.
pub delete_node-Relinks :
    (h : Heap) (x : Ptr) (xs : List Ptr) (p : Ptr) (ys : List Ptr)
    → IsList h ((x ∷ xs) ++ p ∷ ys)
    → Relinks h (delete_node p h) ((x ∷ xs) ++ ys)
delete_node-Relinks h x xs p ys l =
    let a = around x xs p ys l in
    record {
      heap = record (unlinked h x xs ys) { live = put (unlinked h x xs ys).live p false };
      returns =
          rw (delete_node-unlink ys a, unlink-returns ys a, live-unlinked h x xs ys, a.live_here)
            refl;
      list =
          freed-IsList (unlinked h x xs ys) p ((x ∷ xs) ++ ys)
            (rw (absent-append p (x ∷ xs) ys, a.here_not_before, a.here_not_behind) refl)
            (unlinked-IsList x xs ys a);
      names = name-unlinked h x xs ys;
      nums = num-unlinked h x xs ys;
    }
