-- ===== src/Cflbuild/Walks/Finds.antt =====
-- soft/cmd/cflbuild/cflbuild.c: what Find, WriteTocflist and FreeList see of the list.
use mnetsoft.Base.{
  ℕ, zero, suc, ◌<◌, ◌≡◌, refl, Bool, true, false, not, some, ◌==◌, if◌then◌else◌, List, [], ◌∷◌,
  ◌++◌, arith, length, inl, inr, Bool-cases,
}
use mnetsoft.Base.Text.{Text}
use mnetsoft.Cflbuild.Heap.{Ptr, null, Heap, put}
use mnetsoft.Cflbuild.Chain.{
  absent, first, forward, forward-append, all, all-append, absent-append, all-put, distinct,
  put_same,
}
use mnetsoft.Cflbuild.Links.{IsList}
use mnetsoft.Cflbuild.Walks.{matches, find, write_tocflist, name_line, free_list}

-- The part of the list from a node on.
pub record IsRest (h : Heap) (ps : List Ptr) : Type 0 where
  pub alive : all h.live ps ≡ true
  pub fwd : forward h.next ps null ≡ true
  pub non_null : absent null ps ≡ true

pub IsList-IsRest : {h : Heap} (xs ps : List Ptr) → IsList h (xs ++ ps) → IsRest h ps
IsList-IsRest {h} xs ps l = record {
  alive = ground (arith, l, all-append h.live xs ps);
  fwd = ground (arith, l, forward-append h.next xs ps null);
  non_null = ground (arith, l, absent-append null xs ps);
}

pub IsRest-tail : {h : Heap} {p : Ptr} {ps : List Ptr} → IsRest h (p ∷ ps) → IsRest h ps
IsRest-tail r = record {
  alive = ground (arith, r);
  fwd = ground (arith, r);
  non_null = ground (arith, r);
}

-- The first node that passes the test, NULL where there is none.
abbrev pub first_such : (Ptr → Bool) → List Ptr → Ptr
first_such f [] = null
first_such f (p ∷ ps) = if f p then p else first_such f ps

pub find-first_such :
    (n : ℕ) (which : Bool) (num : ℕ) (name : Text) (h : Heap) (ps : List Ptr)
    → length ps < n
    → IsRest h ps
    → find n which num name (first ps null) h ≡ some (first_such (matches which num name h) ps)
unfolding find
find-first_such zero which num name h ps k r = elim k [ ]
find-first_such (suc n) which num name h [] k r = refl
find-first_such (suc n) which num name h (p ∷ ps) k r =
    let z : (p == null) ≡ false = ground (arith, r) in
    let v : h.live p ≡ true = ground (arith, r) in
    let c : h.next p ≡ first ps null = ground (arith, r) in
    rw (z, v, c, find-first_such n which num name h ps (omega (arith, k)) (IsRest-tail r))
      (elim (Bool-cases (matches which num name h p)) [ inl e ↦ rw e refl | inr e ↦ rw e refl ])

abbrev pub file_of : (Ptr → Text) → List Ptr → Text
file_of name [] = []
file_of name (p ∷ ps) = name_line (name p) ++ file_of name ps

pub write_tocflist-file_of :
    (n : ℕ) (h : Heap) (ps : List Ptr)
    → length ps < n
    → IsRest h ps
    → write_tocflist n (first ps null) h ≡ some (file_of h.name ps)
unfolding write_tocflist
write_tocflist-file_of zero h ps k r = elim k [ ]
write_tocflist-file_of (suc n) h [] k r = refl
write_tocflist-file_of (suc n) h (p ∷ ps) k r =
    let z : (p == null) ≡ false = ground (arith, r) in
    let v : h.live p ≡ true = ground (arith, r) in
    let c : h.next p ≡ first ps null = ground (arith, r) in
    rw (z, v, c, write_tocflist-file_of n h ps (omega (arith, k)) (IsRest-tail r)) refl

-- free() of each node.
abbrev pub freed : (Ptr → Bool) → List Ptr → Ptr → Bool
freed live [] = live
freed live (p ∷ ps) = freed (put live p false) ps

pub free_list-freed :
    (n : ℕ) (h : Heap) (ps : List Ptr)
    → length ps < n
    → IsRest h ps
    → distinct ps ≡ true
    → free_list n (first ps null) h ≡ some (record h { live = freed h.live ps })
unfolding free_list
free_list-freed zero h ps k r d = elim k [ ]
free_list-freed (suc n) h [] k r d = refl
free_list-freed (suc n) h (p ∷ ps) k r d =
    let z : (p == null) ≡ false = ground (arith, r) in
    let v : h.live p ≡ true = ground (arith, r) in
    let c : h.next p ≡ first ps null = ground (arith, r) in
    let i = IsRest-tail r in
    rw (z, v, c)
      (free_list-freed n (record h { live = put h.live p false }) ps (omega (arith, k))
        (record {
          alive = rw (all-put h.live p false ps (ground (arith, d))) i.alive;
          fwd = i.fwd;
          non_null = i.non_null;
        })
        (ground (arith, d)))

absent-freed :
    (live : Ptr → Bool) (r : Ptr) (ps : List Ptr) → live r ≡ false → freed live ps r ≡ false
unfolding put
absent-freed live r [] h = h
absent-freed live r (p ∷ ps) h = absent-freed (put live p false) r ps (ground arith)

-- After it no node of the list is allocated.
pub not-live-freed :
    (live : Ptr → Bool) (ps : List Ptr) → all (λ p. not (freed live ps p)) ps ≡ true
not-live-freed live [] = refl
not-live-freed live (p ∷ ps) =
    rw (absent-freed (put live p false) p ps (put_same live p false))
      (not-live-freed (put live p false) ps)
