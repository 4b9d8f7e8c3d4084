-- ===== src/Bbsread/Sum/Items.antt =====
-- What `next_item` and `prev_item` of soft/cmd/bbsread/sum.c find.
use mnetsoft.Base.{
  ℕ, zero, suc, ◌+◌, ◌-◌, ◌≤◌, ◌<◌, ◌≡◌, ◌∙◌, refl, ap, Bool, true, false, ◌&&◌, inl, inr, Option,
  none, some, List, [], ◌∷◌, if◌then◌else◌, ◌==◌, ltb, leb, arith, drop, get_elem?, Bool-cases,
  ==_iff,
}
use mathlib.Core.Path.{subst}
use mnetsoft.Base.Int.{pos}
use mnetsoft.Bbsread.Parse.{minus_one}
use mnetsoft.Bbsread.Part.{Pfe}
use mnetsoft.Bbsread.Part.Entries.{IsSorted, entry, dropped, entry-lost_items}
use mnetsoft.Bbsread.Sum.{Sume, is_there, Found, found, at_end, next_from, lose_passed, next_item}

-- Item numbers start at 1.
abbrev pub item : List Sume → ℕ → Option Sume
item sums zero = none
item sums (suc k) = get_elem? sums k

abbrev pub there_in : Option Sume → Bool
there_in none = false
there_in (some s) = is_there s

abbrev pub exists_item : List Sume → ℕ → Bool
exists_item sums k = there_in (item sums k)

-- No item from `a` on and below `b` is there.
abbrev pub NoneBetween : List Sume → ℕ → ℕ → Type 0
NoneBetween sums a b = (k : ℕ) → a ≤ k → k < b → exists_item sums k ≡ false

-- The item is there, with this number of responses.
pub record IsItem (sums : List Sume) (k resp : ℕ) : Type 0 where
  pub sume : Sume
  pub at_k : item sums k ≡ some sume
  pub there : is_there sume ≡ true
  pub responses : sume.resp_no ≡ resp

-- Forwards: the next item that is there, or none at all from the start on.
abbrev pub NextOf : List Sume → ℕ → Found × ℕ → Type 0
NextOf sums start (found k resp, sum_item) =
    (start ≤ k) × IsItem sums k resp × NoneBetween sums start k × (sum_item ≡ k + 1)
NextOf sums start (at_end, sum_item) = (k : ℕ) → start ≤ k → exists_item sums k ≡ false

drop-cons :
    (xs : List Sume) (i : ℕ) (s : Sume) (ss : List Sume)
    → s ∷ ss ≡ drop i xs
    → (get_elem? xs i ≡ some s) × (ss ≡ drop (suc i) xs)
drop-cons [] zero s ss e = absurd (cc)
drop-cons [] (suc i) s ss e = absurd (cc)
drop-cons (x ∷ xs) zero s ss e = ((cc), (cc))
drop-cons (x ∷ xs) (suc i) s ss e = drop-cons xs i s ss e

drop-nil : (xs : List Sume) (i k : ℕ) → [] ≡ drop i xs → i ≤ k → get_elem? xs k ≡ none
drop-nil [] i k e h = refl
drop-nil (x ∷ xs) zero k e h = absurd (cc)
drop-nil (x ∷ xs) (suc i) zero e h = absurd (omega arith)
drop-nil (x ∷ xs) (suc i) (suc k) e h = drop-nil xs i k e (omega arith)

exists_item-past :
    (sums : List Sume) (i k : ℕ) → [] ≡ drop i sums → suc i ≤ k → exists_item sums k ≡ false
exists_item-past sums i zero e h = absurd (omega arith)
exists_item-past sums i (suc k) e h = ap there_in (drop-nil sums i k e (omega arith))

-- One more item that is not there in front.
NextOf-skip :
    (sums : List Sume) (i : ℕ) (r : Found × ℕ)
    → exists_item sums i ≡ false
    → NextOf sums (i + 1) r
    → NextOf sums i r
NextOf-skip sums i (found k resp, j) d n = (
  omega (arith, n.0),
  n.1,
  λ m lo hi. elim (Bool-cases (i == m)) [
    | inl same ↦ subst (λ x. exists_item sums x ≡ false) ((==_iff i m).0 same) d
    | inr other ↦ n.2 m (ground (arith, other, lo)) hi
  ],
  n.3,
)
NextOf-skip sums i (at_end, j) d n = λ m lo. elim (Bool-cases (i == m)) [
  | inl same ↦ subst (λ x. exists_item sums x ≡ false) ((==_iff i m).0 same) d
  | inr other ↦ n m (ground (arith, other, lo))
]

next_from-NextOf :
    (sums rest : List Sume) (k i : ℕ)
    → k ≡ suc i
    → rest ≡ drop i sums
    → NextOf sums k (next_from rest k)
unfolding next_from
next_from-NextOf sums [] k i same e = λ m h. exists_item-past sums i m e (omega (arith, same))
next_from-NextOf sums (s ∷ ss) k i same e =
    let (here, more) = drop-cons sums i s ss e in
    let at_k : item sums k ≡ some s = ap (item sums) same ∙ here in
    elim (Bool-cases (is_there s)) [
      | inl there ↦
          rw (there, next_from)
            (
              omega arith,
              record { sume = s; at_k = at_k; there = there; responses = refl },
              λ m lo hi. absurd (omega arith),
              refl,
            )
      | inr dead ↦
          rw (dead, next_from)
            (NextOf-skip sums k (next_from ss (k + 1)) (ap there_in at_k ∙ dead)
              (next_from-NextOf sums ss (k + 1) (suc i) (omega (arith, same)) more))
    ]

-- What the participation list says behind the search: the items passed over are dropped.
abbrev pub Lost : List Pfe → ℕ → Found → List Pfe → Type 0
Lost pfs start (found k resp) pfs' =
    (j : ℕ) → entry j pfs' ≡ (if leb start j && ltb j k then dropped (entry j pfs) else entry j pfs)
Lost pfs start at_end pfs' = (j : ℕ) → entry j pfs' ≡ entry j pfs

lose_passed-Lost :
    (sums : List Sume) (start sum_item : ℕ) (f : Found) (pfs : List Pfe)
    → 0 < start
    → IsSorted pfs
    → NextOf sums start (f, sum_item)
    → Lost pfs start f (lose_passed start f sum_item pfs)
lose_passed-Lost sums start sum_item (found k resp) pfs h s n =
    λ j. ground (arith, entry-lost_items start j (pos (k - 1)) pfs s, n.0)
lose_passed-Lost sums start sum_item at_end pfs h s n =
    λ j. ground (arith, entry-lost_items start j minus_one pfs s)

-- From an item number above 0 on, `next_item` finds the first item that is there, with its number
-- of responses, and goes on behind it; it finds none only if there is none. In a participation list
-- in ascending order it drops the entries of exactly the items passed over, but none where it finds
-- no item.
pub next_item-NextOf :
    (sums : List Sume) (start : ℕ) (pfs : List Pfe)
    → 0 < start
    → IsSorted pfs
    → NextOf sums start ((next_item sums start pfs).0, (next_item sums start pfs).1)
      × Lost pfs start (next_item sums start pfs).0 (next_item sums start pfs).2
unfolding next_item
next_item-NextOf sums start pfs h s =
    let r = next_from (drop (start - 1) sums) start in
    let n = next_from-NextOf sums (drop (start - 1) sums) start (start - 1) (omega arith) refl in
    (n, lose_passed-Lost sums start r.1 r.0 pfs h s n)
