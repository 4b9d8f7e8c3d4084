-- ===== src/Bbsread/Sum/Backwards.antt =====
-- What `prev_item` of soft/cmd/bbsread/sum.c finds, and where a reading backwards starts.
use mnetsoft.Base.{
  ℕ, zero, suc, ◌+◌, ◌*◌, ◌^◌, ◌≤◌, ◌<◌, ◌≡◌, ◌∙◌, refl, ap, false, ◌&&◌, some, List, [], ◌∷◌,
  if◌then◌else◌, ◌==◌, ltb, leb, arith, length, get_elem?, Bool-cases, ==_iff, inl, inr,
}
use mathlib.Core.Path.{subst}
use mnetsoft.Base.Int.{pos}
use mnetsoft.Bbsread.Part.{Pfe}
use mnetsoft.Bbsread.Part.Entries.{IsSorted, entry, dropped, entry-lost_items}
use mnetsoft.Bbsread.Sum.{
  Sume, items_in, headsize, is_there, Found, found, at_end, prev_from, lose_passed_back, prev_item,
}
use mnetsoft.Bbsread.Sum.Items.{there_in, exists_item, NoneBetween, IsItem}

-- Backwards: the item at or before the start, or none at all up to it.
abbrev pub PrevOf : List Sume → ℕ → Found × ℕ → Type 0
PrevOf sums start (found k resp, sum_item) =
    (k ≤ start) × IsItem sums k resp × NoneBetween sums (k + 1) (start + 1) × (sum_item + 1 ≡ k)
PrevOf sums start (at_end, sum_item) = NoneBetween sums 1 (start + 1) × (sum_item ≡ 0)

NoneBetween-skip :
    (sums : List Sume) (a b : ℕ)
    → exists_item sums b ≡ false
    → NoneBetween sums a b
    → NoneBetween sums a (b + 1)
NoneBetween-skip sums a b d n = λ k lo hi. elim (Bool-cases (b == k)) [
  | inl same ↦ subst (λ x. exists_item sums x ≡ false) ((==_iff b k).0 same) d
  | inr other ↦ n k lo (ground (arith, other, hi))
]

PrevOf-skip :
    (sums : List Sume) (k : ℕ) (r : Found × ℕ)
    → exists_item sums (suc k) ≡ false
    → PrevOf sums k r
    → PrevOf sums (suc k) r
PrevOf-skip sums k (found i resp, j) d p = (
  omega (arith, p.0),
  p.1,
  NoneBetween-skip sums (i + 1) (suc k) d (subst (NoneBetween sums (i + 1)) (omega arith) p.2),
  p.3,
)
PrevOf-skip sums k (at_end, j) d p =
    (NoneBetween-skip sums 1 (suc k) d (subst (NoneBetween sums 1) (omega arith) p.0), p.1)

get_elem?-some :
    (sums : List Sume) (k : ℕ) → k < length sums → (s : Sume) × (get_elem? sums k ≡ some s)
get_elem?-some [] k h = elim h [ ]
get_elem?-some (s ∷ sums) zero h = (s, refl)
get_elem?-some (s ∷ sums) (suc k) h = get_elem?-some sums k (omega arith)

prev_from-PrevOf :
    (sums : List Sume) (start : ℕ)
    → start ≤ length sums
    → (r : Found × ℕ) × (prev_from sums start ≡ some r) × PrevOf sums start r
unfolding prev_from
prev_from-PrevOf sums zero h = ((at_end, 0), refl, ((λ k lo hi. absurd (omega arith)), refl))
prev_from-PrevOf sums (suc k) h =
    let (s, e) = get_elem?-some sums k h in
    elim (Bool-cases (is_there s)) [
      | inl there ↦ (
        (found (suc k) s.resp_no, k),
        rw (e, prev_from, there) refl,
        (
          omega arith,
          record { sume = s; at_k = e; there = there; responses = refl },
          (λ m lo hi. absurd (omega arith)),
          omega arith,
        ),
      )
      | inr dead ↦
          let (r, e', p) = prev_from-PrevOf sums k (omega arith) in
          (r, rw (e, prev_from, dead) e', PrevOf-skip sums k r (ap there_in e ∙ dead) p)
    ]

-- The items passed over are dropped from the participation list.
abbrev pub LostBack : List Pfe → ℕ → Found → List Pfe → Type 0
LostBack pfs start (found k resp) pfs' =
    (j : ℕ) → entry j pfs' ≡ (if ltb k j && leb j start then dropped (entry j pfs) else entry j pfs)
LostBack pfs start at_end pfs' =
    (j : ℕ) → entry j pfs' ≡ (if leb 1 j && leb j start then dropped (entry j pfs) else entry j pfs)

lose_passed_back-LostBack :
    (sums : List Sume) (start sum_item : ℕ) (f : Found) (pfs : List Pfe)
    → IsSorted pfs
    → PrevOf sums start (f, sum_item)
    → LostBack pfs start f (lose_passed_back start f sum_item pfs)
lose_passed_back-LostBack sums start sum_item (found k resp) pfs s p =
    λ j. ground (arith, entry-lost_items (k + 1) j (pos start) pfs s, p.0)
lose_passed_back-LostBack sums start sum_item at_end pfs s p =
    λ j. ground (arith, entry-lost_items 1 j (pos start) pfs s, p.1)

-- From an item number that is in the file, `prev_item` does not fail: it finds the last item at or
-- before it that is there, and drops the entries of exactly the items passed over; it finds none
-- only if there is none, and then drops the entries of all items from 1 to the start.
pub prev_item-PrevOf :
    (sums : List Sume) (start : ℕ) (pfs : List Pfe)
    → start ≤ length sums
    → IsSorted pfs
    → (f : Found) × (sum_item : ℕ) × (pfs' : List Pfe) × (prev_item sums start pfs
        ≡ some (f, sum_item, pfs'))
      × PrevOf sums start (f, sum_item)
      × LostBack pfs start f pfs'
unfolding prev_item
prev_item-PrevOf sums start pfs h s =
    let (r, e, p) = prev_from-PrevOf sums start h in
    (
      r.0,
      r.1,
      lose_passed_back start r.0 r.1 pfs,
      rw (e, prev_item) refl,
      p,
      lose_passed_back-LostBack sums start r.1 r.0 pfs s p,
    )

-- In a file of k entries, more than none, of 24 bytes (where a `long` has 8 bytes), the number of the
-- last item comes out as k - 1, so a reading backwards misses the last item; with entries of 16 bytes
-- (a `long` of 4) it comes out as k.
items_in-short :
    (k : ℕ)
    → 0 < k
    → k < 2 ^ 32
    → (items_in 24 (headsize + 24 * k) + 1 ≡ k) × (items_in 16 (headsize + 16 * k) ≡ k)
unfolding items_in
items_in-short k h b = (omega arith, omega arith)
