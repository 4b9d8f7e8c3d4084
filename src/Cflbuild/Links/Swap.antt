-- ===== src/Cflbuild/Links/Swap.antt =====
-- soft/cmd/cflbuild/cflbuild.c: SwapNodes, which exchanges two nodes of the list.
use mnetsoft.Base.{◌≡◌, refl, true, false, Option, some, List, [], ◌∷◌, arith, ◌==◌, if◌then◌else◌}
use mnetsoft.Cflbuild.Heap.{Ptr, null, Heap, put, get_next, get_prev, set_next, set_prev, ◌>>=◌}
use mnetsoft.Cflbuild.Links.{all-last}
use mnetsoft.Cflbuild.Links.Pair.{Pair}
use mnetsoft.Cflbuild.Chain.{first, last, absent-last}

-- lines 599-602
unfoldable exchange_adjacent : Ptr → Ptr → Heap → Option Heap
exchange_adjacent p q h₀ = do
  b ← get_prev p h₀
  h₁ ← set_prev q b h₀
  h₂ ← set_prev p q h₁
  e ← get_next q h₂
  h₃ ← set_next p e h₂
  set_next q p h₃

-- lines 604-611
unfoldable pub exchange_apart : Ptr → Ptr → Heap → Option Heap
exchange_apart p q h₀ = do
  n ← get_next p h₀
  h₁ ← set_prev n q h₀
  l ← get_prev q h₁
  h₂ ← set_next l p h₁
  a ← get_prev p h₂
  b ← get_prev q h₂
  h₃ ← set_prev p b h₂
  h₄ ← set_prev q a h₃
  c ← get_next p h₄
  d ← get_next q h₄
  h₅ ← set_next p d h₄
  set_next q c h₅

unfoldable pub swap_nodes : Ptr → Ptr → Heap → Option Heap
unfolding exchange_adjacent exchange_apart
swap_nodes p q h₀ = do
  b ← get_prev p h₀
  h₁ ← if b == null then some h₀ else set_next b q h₀
  e ← get_next q h₁
  h₂ ← if e == null then some h₁ else set_prev e p h₁
  n ← get_next p h₂
  if n == q then exchange_adjacent p q h₂ else exchange_apart p q h₂

abbrev pub end_prev : (Ptr → Ptr) → Ptr → List Ptr → Ptr → Ptr
end_prev pv p [] = pv
end_prev pv p (y ∷ ys) = put pv y p

abbrev pub adjacent : Heap → Ptr → List Ptr → Ptr → Ptr → List Ptr → Heap
adjacent h x xs p q ys = record h {
  next = put (put (put h.next (last x xs) q) p (first ys null)) q p;
  prev = put (put (end_prev h.prev p ys) q (last x xs)) p q;
}

abbrev pub distant : Heap → Ptr → List Ptr → Ptr → Ptr → List Ptr → Ptr → List Ptr → Heap
distant h x xs p m ms q ys = record h {
  next = put (put (put (put h.next (last x xs) q) (last m ms) p) p (first ys null)) q m;
  prev = put (put (put (end_prev h.prev p ys) m q) p (last m ms)) q (last x xs);
}

pub adjacent-returns :
    {h : Heap} {x : Ptr} {xs : List Ptr} {p q : Ptr} (ys : List Ptr)
    → Pair h x xs p [] q ys
    → swap_nodes p q h ≡ some (adjacent h x xs p q ys)
unfolding swap_nodes exchange_adjacent put
adjacent-returns {h} {x} {xs} {p} {q} [] s =
    let a = s.first_around in
    let b = s.second_around in
    let e : (q == q) ≡ true = ground arith in
    rw
      (
        a.live_here, a.prev_here, a.some_before, a.live_before, b.live_here, s.second_not_last,
        b.next_here, a.live_here, a.here_before, s.first_next, e, a.prev_here, b.live_here,
        a.live_here, b.live_here, s.second_not_last, b.next_here, a.live_here, b.live_here,
      )
      refl
adjacent-returns {h} {x} {xs} {p} {q} (y ∷ ys) s =
    let a = s.first_around in
    let b = s.second_around in
    let e : (q == q) ≡ true = ground arith in
    let n : (y == null) ≡ false = ground (arith, b) in
    let z : h.live y ≡ true = ground (arith, b) in
    let w : (p == y) ≡ false = ground (arith, s) in
    rw
      (
        a.live_here, a.prev_here, a.some_before, a.live_before, b.live_here, s.second_not_last,
        b.next_here, n, z, a.live_here, a.here_before, s.first_next, e, a.prev_here, b.live_here,
        a.live_here, b.live_here, s.second_not_last, b.next_here, a.live_here, b.live_here, w,
      )
      refl

pub distant-returns :
    {h : Heap} {x : Ptr} {xs : List Ptr} {p m : Ptr} {ms : List Ptr} {q : Ptr} (ys : List Ptr)
    → Pair h x xs p (m ∷ ms) q ys
    → swap_nodes p q h ≡ some (distant h x xs p m ms q ys)
unfolding swap_nodes exchange_apart put
distant-returns {h} {x} {xs} {p} {m} {ms} {q} [] s =
    let a = s.first_around in
    let b = s.second_around in
    let e : (m == q) ≡ false = ground (arith, s) in
    let k : h.live m ≡ true = ground (arith, s) in
    let l : h.live (last m ms) ≡ true = all-last h.live m ms s.live_between in
    let c : (p == m) ≡ false = ground (arith, s) in
    let d : (q == m) ≡ false = ground (arith, s) in
    let f : (p == last m ms) ≡ false = ground (arith, s, absent-last p m ms) in
    let g : (q == last m ms) ≡ false = ground (arith, s, absent-last q m ms) in
    rw
      (
        a.live_here, a.prev_here, a.some_before, a.live_before, b.live_here, s.second_not_last,
        b.next_here, a.live_here, a.here_before, s.first_next, e, k, b.live_here, d, s.second_prev,
        l, a.live_here, c, a.prev_here, b.live_here, d, s.second_prev, a.live_here, b.live_here, f,
        a.here_before, s.first_next, g, s.second_not_last, b.next_here,
      )
      refl
distant-returns {h} {x} {xs} {p} {m} {ms} {q} (y ∷ ys) s =
    let a = s.first_around in
    let b = s.second_around in
    let e : (m == q) ≡ false = ground (arith, s) in
    let k : h.live m ≡ true = ground (arith, s) in
    let l : h.live (last m ms) ≡ true = all-last h.live m ms s.live_between in
    let c : (p == m) ≡ false = ground (arith, s) in
    let d : (q == m) ≡ false = ground (arith, s) in
    let f : (p == last m ms) ≡ false = ground (arith, s, absent-last p m ms) in
    let g : (q == last m ms) ≡ false = ground (arith, s, absent-last q m ms) in
    let n : (y == null) ≡ false = ground (arith, b) in
    let z : h.live y ≡ true = ground (arith, b) in
    let w : (p == y) ≡ false = ground (arith, s) in
    let v : (q == y) ≡ false = ground (arith, s) in
    rw
      (
        a.live_here, a.prev_here, a.some_before, a.live_before, b.live_here, s.second_not_last,
        b.next_here, n, z, a.live_here, a.here_before, s.first_next, e, k, b.live_here, d, v,
        s.second_prev, l, a.live_here, c, w, a.prev_here, b.live_here, d, v, s.second_prev,
        a.live_here, b.live_here, f, a.here_before, s.first_next, g, s.second_not_last, b.next_here,
      )
      refl
