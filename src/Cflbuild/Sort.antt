-- ===== src/Cflbuild/Sort.antt =====
-- soft/cmd/cflbuild/cflbuild.c: SortAll, the sort of the list by the names of the conferences.
pub mod Order
pub mod Rows
pub mod Refines
use mnetsoft.Base.{
  ℕ, zero, suc, Bool, true, false, Option, none, some, ◌==◌, ltb, if◌then◌else◌, [], ◌∷◌,
}
use mnetsoft.Base.Text.{Text}
use mnetsoft.Cflbuild.Heap.{Ptr, null, Heap, at, get_next, ◌>>=◌}
use mnetsoft.Cflbuild.Links.Swap.{swap_nodes}

-- strcmp(a, b) > 0
unfoldable pub text_gt : Text → Text → Bool
text_gt [] b = false
text_gt (x ∷ xs) [] = true
text_gt (x ∷ xs) (y ∷ ys) = if x == y then text_gt xs ys else ltb y x

-- The variables of the loops.
pub record Sorting : Type 0 where
  pub conf1 : Ptr
  pub conf2 : Ptr
  pub swapped : Bool
  pub heap : Heap

-- The body of the inner loop, lines 520-526.
unfoldable pub compare_nodes : Ptr → Ptr → Bool → Heap → Option Sorting
compare_nodes p q s h = do
  a ← at h p (h.name p)
  b ← at h q (h.name q)
  if text_gt a b
      then (do
        g ← swap_nodes p q h
        some (record { conf1 = q; conf2 = p; swapped = true; heap = g }))
      else some (record { conf1 = p; conf2 = q; swapped = s; heap = h })

-- The inner loop with Conf2 at `q`, on fuel; none at a fault or where the fuel runs out.
unfoldable pub sort_row : ℕ → Ptr → Ptr → Bool → Heap → Option Sorting
unfolding compare_nodes
sort_row zero p q s h = none
sort_row (suc n) p q s h =
    if q == null then some (record { conf1 = p; conf2 = q; swapped = s; heap = h }) else do
      t ← compare_nodes p q s h
      c ← get_next t.conf2 t.heap
      sort_row n t.conf1 c t.swapped t.heap

-- The outer loop with Conf1 at `p`; the flag Swapped and the heap at its end.
unfoldable pub sort_nodes : ℕ → Ptr → Bool → Heap → Option (Bool × Heap)
unfolding sort_row
sort_nodes zero p s h = none
sort_nodes (suc n) p s h = if p == null then some (s, h) else do
  q ← get_next p h
  t ← sort_row n p q s h
  c ← get_next t.conf1 t.heap
  sort_nodes n c t.swapped t.heap
