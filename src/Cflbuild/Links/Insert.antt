-- ===== src/Cflbuild/Links/Insert.antt =====
-- soft/cmd/cflbuild/cflsub.c: Insert, which moves a node before another.
use mathlib.Core.Path.{subst}
use mnetsoft.Base.{
  ◌≡◌, refl, ◌∙◌, true, false, ◌&&◌, Option, some, List, ◌∷◌, ◌++◌, arith, ◌==◌, ltb, if◌then◌else◌,
}
use mnetsoft.Cflbuild.Heap.{Ptr, null, Heap, put, get_prev, set_next, set_prev, ◌>>=◌}
use mnetsoft.Cflbuild.Chain.{
  absent, last, absent-append, apart-cons, forward-put, backward-put, forward-last, backward-first,
  absent-last, put_same, put_other, forward-cons, backward-cons,
}
use mnetsoft.Cflbuild.Links.{IsList, Relinks, Around, around, join}
use mnetsoft.Cflbuild.Links.Unlink.{
  unlink, unlinked, unlink-returns, unlinked-IsList, live-unlinked, name-unlinked, num-unlinked,
  top-unlinked,
}

-- lines 411-415
unfoldable pub link_before : Ptr → Ptr → Heap → Option Heap
link_before p q h₀ = do
  b ← get_prev q h₀
  h₁ ← set_prev p b h₀
  c ← get_prev q h₁
  h₂ ← if c == null then some h₁ else set_next c p h₁
  h₃ ← set_prev q p h₂
  set_next p q h₃

unfoldable pub insert : Ptr → Ptr → Heap → Option Heap
unfolding unlink link_before
insert p q h = unlink p h >>= link_before p q

-- A node that is not of the list.
pub record Spare (h : Heap) (p : Ptr) (ps : List Ptr) : Type 0 where
  pub live_spare : h.live p ≡ true
  pub not_null : (null == p) ≡ false
  pub outside : absent p ps ≡ true
  pub fresh_spare : ltb p h.top ≡ true

linked : Heap → Ptr → List Ptr → Ptr → Ptr → Heap
linked h x xs p q = record h {
  prev = put (put h.prev p (last x xs)) q p;
  next = put (put h.next (last x xs) p) p q;
}

link_before-returns :
    {h : Heap} {x : Ptr} {xs : List Ptr} {p q : Ptr} {ys : List Ptr}
    → Around h x xs q ys
    → Spare h p ((x ∷ xs) ++ q ∷ ys)
    → link_before p q h ≡ some (linked h x xs p q)
unfolding link_before put linked
link_before-returns {h} {x} {xs} {p} {q} {ys} a s =
    let n : (q == p) ≡ false = ground (arith, absent-append p (x ∷ xs) (q ∷ ys), s) in
    rw
      (
        a.live_here, a.prev_here, s.live_spare, a.live_here, n, a.prev_here, a.some_before,
        a.live_before, a.live_here, s.live_spare,
      )
      refl

linked-IsList :
    {h : Heap} (x : Ptr) (xs : List Ptr) (p q : Ptr) (ys : List Ptr)
    → Around h x xs q ys
    → Spare h p ((x ∷ xs) ++ q ∷ ys)
    → IsList (linked h x xs p q) ((x ∷ xs) ++ p ∷ q ∷ ys)
unfolding linked
linked-IsList {h} x xs p q ys a s =
    let b = last x xs in
    let o : (absent p (x ∷ xs) && absent p (q ∷ ys)) ≡ true =
      ground (arith, absent-append p (x ∷ xs) (q ∷ ys), s) in
    let o₁ : absent p (x ∷ xs) ≡ true = ground arith in
    let o₂ : absent p (q ∷ ys) ≡ true = ground arith in
    let c : absent b (p ∷ q ∷ ys) ≡ true = ground (arith, absent-last p x xs o₁, a) in
    let n : (q == p) ≡ false = ground arith in
    join _ (x ∷ xs) (p ∷ q ∷ ys) a.all_before (ground (arith, a, s))
      (rw (forward-put (put h.next b p) p q (x ∷ xs) p o₁)
        (forward-last h.next x xs q p a.distinct_before a.fwd_before))
      (forward-cons (put (put h.next b p) p q) p (q ∷ ys) null (put_same (put h.next b p) p q) (
        rw
          (
            forward-put (put h.next b p) p q (q ∷ ys) null o₂,
            forward-put h.next b p (q ∷ ys) null (ground (arith, a)),
          )
          (forward-cons h.next q ys null a.next_here a.fwd_behind)))
      (rw
        (
          backward-put (put h.prev p b) q p null (x ∷ xs) a.here_not_before,
          backward-put h.prev p b null (x ∷ xs) o₁,
        )
        a.bwd_before)
      (backward-cons (put (put h.prev p b) q p) b p (q ∷ ys)
        (put_other (put h.prev p b) q p p (ground arith) ∙ put_same h.prev p b)
        (backward-first (put h.prev p b) q ys b p a.here_not_behind (
          rw (backward-put h.prev p b b (q ∷ ys) o₂)
            (backward-cons h.prev b q ys a.prev_here a.bwd_behind))))
      (ground (arith, a, s))
      (ground (arith, a, apart-cons (x ∷ xs) p (q ∷ ys), apart-cons (x ∷ xs) q ys)) a.fresh_before
      (ground (arith, a, s))

-- Moving a spare node of the heap in front of one of the list.
pub link_before-Relinks :
    (h : Heap) (x : Ptr) (xs : List Ptr) (p q : Ptr) (ys : List Ptr)
    → IsList h ((x ∷ xs) ++ q ∷ ys)
    → Spare h p ((x ∷ xs) ++ q ∷ ys)
    → Relinks h (link_before p q h) ((x ∷ xs) ++ p ∷ q ∷ ys)
unfolding linked
link_before-Relinks h x xs p q ys l s =
    let a = around x xs q ys l in
    record {
      heap = linked h x xs p q;
      returns = link_before-returns a s;
      list = linked-IsList x xs p q ys a s;
      names = refl;
      nums = refl;
    }

unlinked-Spare :
    {h : Heap} (x : Ptr) (xs : List Ptr) (p : Ptr) (ys : List Ptr)
    → Around h x xs p ys
    → Spare (unlinked h x xs ys) p ((x ∷ xs) ++ ys)
unlinked-Spare {h} x xs p ys a = record {
  live_spare = rw (live-unlinked h x xs ys) a.live_here;
  not_null = a.null_here;
  outside = rw (absent-append p (x ∷ xs) ys, a.here_not_before, a.here_not_behind) refl;
  fresh_spare = rw (top-unlinked h x xs ys) a.fresh_here;
}

-- Insert takes a node of the list that is not its first and puts it in front of another: where the
-- list without the node is `(z ∷ zs) ++ q ∷ ws`, the list is `(z ∷ zs) ++ p ∷ q ∷ ws` afterwards.
pub insert-Relinks :
    (h : Heap) (x : Ptr) (xs : List Ptr) (p : Ptr) (ys : List Ptr) (z : Ptr) (zs : List Ptr)
    (q : Ptr) (ws : List Ptr)
    → IsList h ((x ∷ xs) ++ p ∷ ys)
    → (x ∷ xs) ++ ys ≡ (z ∷ zs) ++ q ∷ ws
    → Relinks h (insert p q h) ((z ∷ zs) ++ p ∷ q ∷ ws)
unfolding insert
insert-Relinks h x xs p ys z zs q ws l e =
    let a = around x xs p ys l in
    let g = unlinked h x xs ys in
    let i : IsList g ((z ∷ zs) ++ q ∷ ws) =
      subst (λ ps. IsList g ps) e (unlinked-IsList x xs ys a) in
    let s : Spare g p ((z ∷ zs) ++ q ∷ ws) =
      subst (λ ps. Spare g p ps) e (unlinked-Spare x xs p ys a) in
    let r = link_before-Relinks g z zs p q ws i s in
    record {
      heap = r.heap;
      returns = rw (unlink-returns ys a) r.returns;
      list = r.list;
      names = r.names ∙ name-unlinked h x xs ys;
      nums = r.nums ∙ num-unlinked h x xs ys;
    }
