-- ===== src/Cflbuild/Walks/Appends.antt =====
-- soft/cmd/cflbuild/cflbuild.c: WriteToBuffers puts a new node at the end of the list.
use mnetsoft.Base.{
  ℕ, zero, suc, ◌+◌, ◌<◌, ◌≡◌, refl, true, false, Option, some, ◌==◌, ltb, List, [], ◌∷◌, ◌++◌,
  arith, length,
}
use mnetsoft.Base.Text.{Text, strlcpy}
use mnetsoft.Cflbuild.Heap.{Ptr, null, Heap, put, new_node}
use mnetsoft.Cflbuild.Chain.{
  absent, last, all, all-put, forward-put, backward-put, forward-last, put_same, put_other,
  apart-cons, apart-nil,
}
use mnetsoft.Cflbuild.Links.{IsList, join, all-last}
use mnetsoft.Cflbuild.Walks.{last_node, write_to_buffers}
use mnetsoft.Cflbuild.Walks.Finds.{IsRest, IsRest-tail, IsList-IsRest}

last_node-last :
    (n : ℕ) (h : Heap) (x : Ptr) (xs : List Ptr)
    → length xs < n
    → IsRest h (x ∷ xs)
    → last_node n x h ≡ some (last x xs)
unfolding last_node
last_node-last zero h x xs k r = elim k [ ]
last_node-last (suc n) h x [] k r =
    let v : h.live x ≡ true = ground (arith, r) in
    let c : h.next x ≡ null = ground (arith, r) in rw (v, c) refl
last_node-last (suc n) h x (y ∷ ys) k r =
    let v : h.live x ≡ true = ground (arith, r) in
    let c : h.next x ≡ y = ground (arith, r) in
    let z : (y == null) ≡ false = ground (arith, r) in
    rw (v, c, last_node-last n h y ys (omega (arith, k)) (IsRest-tail r), z) refl

pub fresh_absent : (top : ℕ) (ps : List Ptr) → all (λ p. ltb p top) ps ≡ true → absent top ps ≡ true
fresh_absent top [] h = refl
fresh_absent top (p ∷ ps) h = ground (arith, fresh_absent top ps)

fresh_later :
    (top : ℕ) (ps : List Ptr)
    → all (λ p. ltb p top) ps ≡ true
    → all (λ p. ltb p (top + 1)) ps ≡ true
fresh_later top [] h = refl
fresh_later top (p ∷ ps) h = ground (arith, fresh_later top ps)

appended : Heap → Ptr → Text → ℕ → Heap
appended h b s num = let g = new_node s num b null h in record g { next = put g.next b h.top }

-- WriteToBuffers, with fuel for more than the nodes behind the first: the list has a new node at
-- its end, with the number and the first `len` bytes of the name; the others are as they were.
pub record Appends (h : Heap) (o : Option Heap) (ps : List Ptr) (name : Text) (num : ℕ)
    : Type 0 where
  pub heap : Heap
  pub returns : o ≡ some heap
  pub list : IsList heap (ps ++ h.top ∷ [])
  pub names : heap.name ≡ put h.name h.top name
  pub nums : heap.num ≡ put h.num h.top num

pub write_to_buffers-Appends :
    (n : ℕ) (h : Heap) (x : Ptr) (xs : List Ptr) (buffer : Text) (num len : ℕ)
    → length xs < n
    → IsList h (x ∷ xs)
    → Appends h (write_to_buffers n x buffer num len h) (x ∷ xs) (strlcpy buffer (len + 1)) num
unfolding write_to_buffers appended
write_to_buffers-Appends n h x xs buffer num len k l =
    let b = last x xs in
    let t = h.top in
    let o : absent t (x ∷ xs) ≡ true = fresh_absent t (x ∷ xs) l.fresh in
    let v : h.live b ≡ true = all-last h.live x xs l.alive in
    let w : ltb b t ≡ true = all-last (λ p. ltb p t) x xs l.fresh in
    let e : (b == t) ≡ false = ground arith in
    let d : (t == b) ≡ false = ground arith in
    let z : absent null (t ∷ []) ≡ true = ground (arith, l) in
    record {
      heap = appended h b (strlcpy buffer (len + 1)) num;
      returns =
          rw
            (
              last_node-last n h x xs k (IsList-IsRest [] (x ∷ xs) l),
              put_other h.live t true b e,
              v,
            )
            refl;
      list =
          join (appended h b (strlcpy buffer (len + 1)) num) (x ∷ xs) (t ∷ [])
            (rw (all-put h.live t true (x ∷ xs) o) l.alive) (rw (put_same h.live t true) refl)
            (forward-last (put h.next t null) x xs null t (ground (arith, l))
              (rw (forward-put h.next t null (x ∷ xs) null o) l.fwd))
            (rw (put_other (put h.next t null) b t t d, put_same h.next t null) refl)
            (rw (backward-put h.prev t b null (x ∷ xs) o) l.bwd)
            (rw (put_same h.prev t b) (ground arith)) (ground (arith, l, z))
            (ground (arith, l, o, apart-cons (x ∷ xs) t [], apart-nil (x ∷ xs)))
            (fresh_later t (x ∷ xs) l.fresh) (ground arith);
      names = refl;
      nums = refl;
    }
