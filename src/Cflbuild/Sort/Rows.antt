-- ===== src/Cflbuild/Sort/Rows.antt =====
-- soft/cmd/cflbuild: what SortAll does to the order of the nodes, as a function on lists.
use mathlib.Core.List.{Perm}
use mathlib.Core.List.Perm
use mnetsoft.Base.{
  ℕ, zero, suc, ◌≤◌, ◌≡◌, refl, inl, inr, Bool, true, not, ◌&&◌, if◌then◌else◌, List, [], ◌∷◌,
  arith, length, Bool-cases,
}
use mnetsoft.Base.Text.{Text}
use mnetsoft.Cflbuild.Heap.{Ptr}
use mnetsoft.Cflbuild.Chain.{all}
use mnetsoft.Cflbuild.Sort.{text_gt}
use mnetsoft.Cflbuild.Sort.Order.{text_gt_irrefl, text_gt-asymm, text_gt_trans}

module _ (name : Ptr → Text) where
  -- The least of `p` and the nodes `qs`, and the others in the order that the exchanges leave.
  unfoldable pub row : Ptr → List Ptr → Ptr × List Ptr
  row p [] = (p, [])
  row p (q ∷ qs) =
      let up = row q qs in
      let on = row p qs in if text_gt (name p) (name q) then (up.0, p ∷ up.1) else (on.0, q ∷ on.1)

  unfoldable pub exchange_sort : ℕ → List Ptr → List Ptr
  unfolding row
  exchange_sort zero ps = ps
  exchange_sort (suc n) [] = []
  exchange_sort (suc n) (p ∷ ps) = let r = row p ps in r.0 ∷ exchange_sort n r.1

  -- No name is above a name behind it.
  abbrev pub sorted : List Ptr → Bool
  sorted [] = true
  sorted (p ∷ ps) = all (λ q. not (text_gt (name p) (name q))) ps && sorted ps

  pub length-row : (p : Ptr) (qs : List Ptr) → length (row p qs).1 ≡ length qs
  unfolding row
  length-row p [] = refl
  length-row p (q ∷ qs) = elim (Bool-cases (text_gt (name p) (name q))) [
    | inl e ↦ rw (e, length-row q qs) refl
    | inr e ↦ rw (e, length-row p qs) refl
  ]

  pub length-exchange_sort : (n : ℕ) (ps : List Ptr) → length (exchange_sort n ps) ≡ length ps
  unfolding exchange_sort
  length-exchange_sort zero ps = refl
  length-exchange_sort (suc n) [] = refl
  length-exchange_sort (suc n) (p ∷ ps) =
      omega (arith, length-row p ps, length-exchange_sort n (row p ps).1)

  row-Perm : (p : Ptr) (qs : List Ptr) → Perm ((row p qs).0 ∷ (row p qs).1) (p ∷ qs)
  unfolding row
  row-Perm p [] = Perm.refl _
  row-Perm p (q ∷ qs) = elim (Bool-cases (text_gt (name p) (name q))) [
    | inl e ↦
        rw e (Perm.trans (Perm.swap p (row q qs).0 (row q qs).1) (Perm.cons p (row-Perm q qs)))
    | inr e ↦ rw e (
        Perm.trans (Perm.swap q (row p qs).0 (row p qs).1)
          (Perm.trans (Perm.cons q (row-Perm p qs)) (Perm.swap p q qs)))
  ]

  pub exchange_sort-Perm : (n : ℕ) (ps : List Ptr) → Perm (exchange_sort n ps) ps
  unfolding exchange_sort
  exchange_sort-Perm zero ps = Perm.refl _
  exchange_sort-Perm (suc n) [] = Perm.refl _
  exchange_sort-Perm (suc n) (p ∷ ps) =
      Perm.trans (Perm.cons (row p ps).0 (exchange_sort-Perm n (row p ps).1)) (row-Perm p ps)

  row-all :
      (f : Ptr → Bool) (p : Ptr) (qs : List Ptr)
      → f p ≡ true
      → all f qs ≡ true
      → (f (row p qs).0 && all f (row p qs).1) ≡ true
  unfolding row
  row-all f p [] h k = ground arith
  row-all f p (q ∷ qs) h k = elim (Bool-cases (text_gt (name p) (name q))) [
    | inl e ↦ rw e (ground (arith, row-all f q qs))
    | inr e ↦ rw e (ground (arith, row-all f p qs))
  ]

  exchange_sort-all :
      (f : Ptr → Bool) (n : ℕ) (ps : List Ptr) → all f ps ≡ true → all f (exchange_sort n ps) ≡ true
  unfolding exchange_sort
  exchange_sort-all f zero ps h = h
  exchange_sort-all f (suc n) [] h = h
  exchange_sort-all f (suc n) (p ∷ ps) h =
      ground (arith, row-all f p ps, exchange_sort-all f n (row p ps).1)

  row-least :
      (p : Ptr) (qs : List Ptr)
      → (not (text_gt (name (row p qs).0) (name p))
          && all (λ q. not (text_gt (name (row p qs).0) (name q))) (row p qs).1)
        ≡ true
  unfolding row
  row-least p [] = rw (text_gt_irrefl (name p)) refl
  row-least p (q ∷ qs) = elim (Bool-cases (text_gt (name p) (name q))) [
    | inl e ↦ rw e (
        ground (
          arith,
          row-least q qs,
          text_gt-asymm (name p) (name q),
          text_gt_trans (name (row q qs).0) (name q) (name p),
        ))
    | inr e ↦
        rw e (ground (arith, row-least p qs, text_gt_trans (name (row p qs).0) (name p) (name q)))
  ]

  pub exchange_sort-sorted :
      (n : ℕ) (ps : List Ptr) → length ps ≤ n → sorted (exchange_sort n ps) ≡ true
  unfolding exchange_sort
  exchange_sort-sorted zero [] h = refl
  exchange_sort-sorted zero (p ∷ ps) h = elim h [ ]
  exchange_sort-sorted (suc n) [] h = refl
  exchange_sort-sorted (suc n) (p ∷ ps) h =
      let r = row p ps in
      let a =
        exchange_sort-all (λ q. not (text_gt (name r.0) (name q))) n r.1
          (ground (arith, row-least p ps)) in
      let b = exchange_sort-sorted n r.1 (omega (arith, length-row p ps)) in rw (a, b) refl
