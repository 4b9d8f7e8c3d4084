-- ===== src/Cflbuild/Walks/Shuffles.antt =====
-- soft/cmd/cflbuild/cflbuild.c: Shuffle numbers the nodes of the list in order.
use mnetsoft.Base.{
  ℕ, zero, suc, ◌+◌, ◌<◌, ◌≡◌, refl, ◌∙◌, true, false, some, ◌==◌, List, [], ◌∷◌, arith, length,
  map,
}
use mnetsoft.Cflbuild.Heap.{Ptr, null, Heap, put}
use mnetsoft.Cflbuild.Chain.{absent, first, distinct, put_same, put_other}
use mnetsoft.Cflbuild.Links.{IsList}
use mnetsoft.Cflbuild.Walks.{shuffle}
use mnetsoft.Cflbuild.Walks.Finds.{IsRest, IsRest-tail}

abbrev pub numbered : (Ptr → ℕ) → ℕ → List Ptr → Ptr → ℕ
numbered num k [] = num
numbered num k (p ∷ ps) = numbered (put num p k) (k + 1) ps

pub shuffle-numbered :
    (n k : ℕ) (h : Heap) (ps : List Ptr)
    → length ps < n
    → IsRest h ps
    → shuffle n k (first ps null) h ≡ some (record h { num = numbered h.num k ps })
unfolding shuffle
shuffle-numbered zero k h ps l r = elim l [ ]
shuffle-numbered (suc n) k h [] l r = refl
shuffle-numbered (suc n) k h (p ∷ ps) l r =
    let z : (p == null) ≡ false = ground (arith, r) in
    let v : h.live p ≡ true = ground (arith, r) in
    let c : h.next p ≡ first ps null = ground (arith, r) in
    let i = IsRest-tail r in
    rw (z, v, v, c)
      (shuffle-numbered n (k + 1) (record h { num = put h.num p k }) ps (omega (arith, l))
        (record { alive = i.alive; fwd = i.fwd; non_null = i.non_null }))

pub numbered-IsList :
    {h : Heap} {ps : List Ptr} (f : Ptr → ℕ) → IsList h ps → IsList (record h { num = f }) ps
numbered-IsList f l = record {
  alive = l.alive;
  fwd = l.fwd;
  bwd = l.bwd;
  separate = l.separate;
  fresh = l.fresh;
}

numbered-absent :
    (num : Ptr → ℕ) (k : ℕ) (p : Ptr) (ps : List Ptr)
    → absent p ps ≡ true
    → numbered num k ps p ≡ num p
numbered-absent num k p [] h = refl
numbered-absent num k p (q ∷ ps) h =
    numbered-absent (put num q k) (k + 1) p ps (ground arith) ∙ put_other num q k p (ground arith)

-- The numbers from `k` on, as many as the nodes.
abbrev pub counting : ℕ → List Ptr → List ℕ
counting k [] = []
counting k (p ∷ ps) = k ∷ counting (k + 1) ps

pub map-numbered :
    (num : Ptr → ℕ) (k : ℕ) (ps : List Ptr)
    → distinct ps ≡ true
    → map (numbered num k ps) ps ≡ counting k ps
map-numbered num k [] d = refl
map-numbered num k (p ∷ ps) d =
    rw
      (
        numbered-absent (put num p k) (k + 1) p ps (ground arith),
        put_same num p k,
        map-numbered (put num p k) (k + 1) ps (ground arith),
      )
      refl
