-- ===== src/Bbsread/Rfp/Passing.antt =====
-- The loop of `do_pass` (soft/cmd/bbsread/rfp.c) comes to an end: each round leaves fewer items
-- ahead.
use mnetsoft.Base.{
  ℕ, zero, suc, ◌+◌, ◌-◌, ◌≤◌, ◌<◌, ◌≡◌, refl, sym, Bool, true, false, none, some, List,
  if◌then◌else◌, leb, length, drop, ◌⊎◌, arith, inl, inr, Bool-cases, Option-cases,
}
use mathlib.Core.Path.{subst}
use mnetsoft.Bbsread.Sum.Order.{
  Onward, Downward, length-drop, next_from-Onward, prev_from-Downward, lose_passed-IsSorted,
  lose_passed_back-IsSorted,
}
use mnetsoft.Bbsread.Part.{Pfe}
use mnetsoft.Bbsread.Part.Entries.{IsSorted}
use mnetsoft.Bbsread.Sum.{
  Found, found, at_end, next_from, next_item, prev_from, prev_item, lose_passed, lose_passed_back,
}
use mnetsoft.Bbsread.Args.{Options}
use mnetsoft.Bbsread.Rfp.{
  World, Reader, Step, passed, stopped, exits, starved, maybe_display, is_before, is_beyond,
  and_then, or_else, landed, advance, do_pass, pass_fuel,
}
use mnetsoft.Bbsread.Rfp.Sorted.{Leaves, Stays, Sorted, maybe_display-Stays}

-- How many items may still come.
abbrev pub ahead : World → Options → ℕ → ℕ
ahead w o s = if o.reverse then (if leb s (length w.sums) then s else 0) else length w.sums + 1 - s

-- The list stays in ascending order, and an item that is found leaves fewer ahead.
abbrev pub Nears : World → Options → ℕ → Step → Type 0
Nears w o n (passed r) = IsSorted r.pfs × (ahead w o r.sum_item < n)
Nears w o n (stopped r) = IsSorted r.pfs
Nears w o n exits = Unit {0}
Nears w o n starved = ⊥

-- An item found, or none, with a sorted list and fewer items ahead.
landed-Nears :
    (w : World) (o : Options) (n : ℕ) (r : Reader) (f : Found) (s : ℕ) (pfs : List Pfe)
    (outside : ℕ → Bool)
    → IsSorted pfs
    → (f ≡ at_end) ⊎ (ahead w o s < n)
    → Nears w o n (landed r (f, s, pfs) outside)
landed-Nears w o n r (found k resp) s pfs outside h near = elim (Bool-cases (outside k)) [
  | inl e ↦ rw (Nears, e) h
  | inr e ↦ rw (Nears, e) (elim near [ inl no_item ↦ absurd (cc) | inr lt ↦ (h, lt) ])
]
landed-Nears w o n r at_end s pfs outside h near = h

forwards-Nears :
    (w : World) (o : Options) (r : Reader) (f : Found × ℕ)
    → IsSorted r.pfs
    → o.reverse ≡ false
    → Onward (drop (r.sum_item - 1) w.sums) r.sum_item f
    → Nears w o
        (ahead w o r.sum_item)
        (landed r (f.0, f.1, lose_passed r.sum_item f.0 f.1 r.pfs) (is_beyond o))
forwards-Nears w o r (at_end, s') h e on =
    landed-Nears w o (ahead w o r.sum_item) r at_end s' (lose_passed r.sum_item at_end s' r.pfs)
      (is_beyond o) (lose_passed-IsSorted r.sum_item s' at_end r.pfs h) (inl refl)
forwards-Nears w o r (found k resp, s') h e on =
    landed-Nears w o (ahead w o r.sum_item) r (found k resp) s'
      (lose_passed r.sum_item (found k resp) s' r.pfs) (is_beyond o)
      (lose_passed-IsSorted r.sum_item s' (found k resp) r.pfs h)
      (inr (rw e (omega (arith, on, length-drop w.sums (r.sum_item - 1)))))

backwards-Nears :
    (w : World) (o : Options) (r : Reader) (f : Found × ℕ)
    → IsSorted r.pfs
    → o.reverse ≡ true
    → Downward w.sums r.sum_item (some f)
    → Nears w o
        (ahead w o r.sum_item)
        (landed r (f.0, f.1, lose_passed_back r.sum_item f.0 f.1 r.pfs) (is_before o))
backwards-Nears w o r (at_end, s') h e on =
    landed-Nears w o (ahead w o r.sum_item) r at_end s'
      (lose_passed_back r.sum_item at_end s' r.pfs) (is_before o)
      (lose_passed_back-IsSorted r.sum_item s' at_end r.pfs h) (inl refl)
backwards-Nears w o r (found k resp, s') h e on =
    landed-Nears w o (ahead w o r.sum_item) r (found k resp) s'
      (lose_passed_back r.sum_item (found k resp) s' r.pfs) (is_before o)
      (lose_passed_back-IsSorted r.sum_item s' (found k resp) r.pfs h) (inr (ground (arith, e, on)))

advance-back :
    (w : World) (o : Options) (r : Reader) (f : Found × ℕ)
    → o.reverse ≡ true
    → prev_from w.sums r.sum_item ≡ some f
    → advance w o r ≡ landed r (f.0, f.1, lose_passed_back r.sum_item f.0 f.1 r.pfs) (is_before o)
unfolding advance prev_item
advance-back w o r f back e = rw (back, e) refl

advance-forth :
    (w : World) (o : Options) (r : Reader)
    → o.reverse ≡ false
    → (let f = next_from (drop (r.sum_item - 1) w.sums) r.sum_item in
        advance w o r ≡ landed r (f.0, f.1, lose_passed r.sum_item f.0 f.1 r.pfs) (is_beyond o))
unfolding advance next_item
advance-forth w o r e = rw e refl

advance-exits :
    (w : World) (o : Options) (r : Reader)
    → o.reverse ≡ true
    → prev_from w.sums r.sum_item ≡ none
    → advance w o r ≡ exits
unfolding advance prev_item
advance-exits w o r back e = rw (back, e) refl

advance-Nears :
    (w : World) (o : Options) (r : Reader)
    → IsSorted r.pfs
    → Nears w o (ahead w o r.sum_item) (advance w o r)
advance-Nears w o r h = elim (Bool-cases o.reverse) [
  | inl back ↦ elim (Option-cases (prev_from w.sums r.sum_item)) [
    | inl e ↦ rw (advance-exits w o r back e) tt
    | inr (f, e) ↦ rw (advance-back w o r f back e) (
        backwards-Nears w o r f h back
          (subst (Downward w.sums r.sum_item) e (prev_from-Downward w.sums r.sum_item)))
  ]
  | inr e ↦ rw (advance-forth w o r e) (
      forwards-Nears w o r (next_from (drop (r.sum_item - 1) w.sums) r.sum_item) h e
        (next_from-Onward (drop (r.sum_item - 1) w.sums) r.sum_item))
]

or_else-Nears :
    (w : World) (o : Options) (n : ℕ) (f : Reader → Step) (s : ℕ) (x : Step)
    → Leaves (Stays s) x
    → ahead w o s < n
    → ((r : Reader) → Stays s r → Nears w o n (f r))
    → Nears w o n (or_else f x)
or_else-Nears w o n f s (passed r) h lt k = (h.0, subst (λ m. ahead w o m < n) (sym h.1) lt)
or_else-Nears w o n f s (stopped r) h lt k = k r h
or_else-Nears w o n f s exits h lt k = tt
or_else-Nears w o n f s starved h lt k = elim h [ ]

and_then-Nears :
    (w : World) (o : Options) (n : ℕ) (f : Reader → Step) (x : Step)
    → Nears w o n x
    → ((r : Reader) → IsSorted r.pfs → ahead w o r.sum_item < n → Nears w o n (f r))
    → Nears w o n (and_then f x)
and_then-Nears w o n f (passed r) h k = k r h.0 h.1
and_then-Nears w o n f (stopped r) h k = h
and_then-Nears w o n f exits h k = tt
and_then-Nears w o n f starved h k = elim h [ ]

Nears-more : (w : World) (o : Options) (m n : ℕ) (x : Step) → m ≤ n → Nears w o m x → Nears w o n x
Nears-more w o m n (passed r) le h = (h.0, omega (arith, le, h.1))
Nears-more w o m n (stopped r) le h = h
Nears-more w o m n exits le h = tt
Nears-more w o m n starved le h = elim h [ ]

do_pass-Nears :
    (w : World) (o : Options) (fuel : ℕ) (r : Reader)
    → ahead w o r.sum_item < fuel
    → IsSorted r.pfs
    → Nears w o (ahead w o r.sum_item) (do_pass w o fuel r)
unfolding do_pass
do_pass-Nears w o zero r lt h = absurd (omega (arith, lt))
do_pass-Nears w o (suc fuel) r lt h =
    let n : ℕ = ahead w o r.sum_item in
    and_then-Nears w o n (λ r'. or_else (do_pass w o fuel) (maybe_display w o r')) (advance w o r)
      (advance-Nears w o r h)
      (λ r' s near.
        or_else-Nears w o n (do_pass w o fuel) r'.sum_item (maybe_display w o r')
          (maybe_display-Stays w o r'.sum_item r' (s, refl)) near
          (λ r'' st.
            let near' : ahead w o r''.sum_item < n = subst (λ m. ahead w o m < n) (sym st.1) near in
            Nears-more w o (ahead w o r''.sum_item) n (do_pass w o fuel r'') (omega (arith, near'))
              (do_pass-Nears w o fuel r'' (omega (arith, near', lt)) st.0)))

Nears-Sorted : (w : World) (o : Options) (n : ℕ) (x : Step) → Nears w o n x → Sorted x
Nears-Sorted w o n (passed r) h = h.0
Nears-Sorted w o n (stopped r) h = h
Nears-Sorted w o n exits h = tt
Nears-Sorted w o n starved h = elim h [ ]

-- `do_pass` with the fuel of the programs.
pub pass-Nears :
    (w : World) (o : Options) (r : Reader)
    → IsSorted r.pfs
    → Nears w o (ahead w o r.sum_item) (do_pass w o (pass_fuel w) r)
pass-Nears w o r h = do_pass-Nears w o (pass_fuel w) r (ground arith) h

pub pass-Sorted :
    (w : World) (o : Options) (r : Reader) → IsSorted r.pfs → Sorted (do_pass w o (pass_fuel w) r)
pass-Sorted w o r h =
    Nears-Sorted w o (ahead w o r.sum_item) (do_pass w o (pass_fuel w) r) (pass-Nears w o r h)
