-- ===== src/Bbsread/Sum/Order.antt =====
-- How `next_item` and `prev_item` (soft/cmd/bbsread/sum.c) move the place in the sum file, and that
-- they keep the participation list in ascending order.
use mnetsoft.Base.{
  ℕ, zero, suc, ◌+◌, ◌-◌, ◌≤◌, ◌<◌, ◌≡◌, refl, Option, none, some, List, [], ◌∷◌, length, drop,
  get_elem?, ◌==◌, arith, inl, inr, Bool-cases, Option-cases,
}
use mnetsoft.Base.Int.{pos}
use mnetsoft.Bbsread.Parse.{minus_one}
use mnetsoft.Bbsread.Part.{Pfe, loses}
use mnetsoft.Bbsread.Part.Entries.{IsSorted, apply-IsSorted}
use mnetsoft.Bbsread.Sum.{
  Sume, is_there, Found, found, at_end, next_from, prev_from, lose_passed, lose_passed_back,
}

pub length-drop : (xs : List Sume) (k : ℕ) → length (drop k xs) ≡ length xs - k
length-drop [] zero = refl
length-drop [] (suc k) = ground arith
length-drop (x ∷ xs) zero = ground arith
length-drop (x ∷ xs) (suc k) = ground (arith, length-drop xs k)

abbrev pub Onward : List Sume → ℕ → Found × ℕ → Type 0
Onward ss s (found k resp, s') = (s < s') × (0 < length ss)
Onward ss s (at_end, s') = Unit {0}

Onward-cons :
    (x : Sume) (ss : List Sume) (s : ℕ) (f : Found × ℕ) → Onward ss (s + 1) f → Onward (x ∷ ss) s f
Onward-cons x ss s (found k resp, s') h = (omega (arith, h.0), omega arith)
Onward-cons x ss s (at_end, s') h = tt

pub next_from-Onward : (ss : List Sume) (s : ℕ) → Onward ss s (next_from ss s)
unfolding next_from
next_from-Onward [] s = tt
next_from-Onward (x ∷ ss) s = elim (Bool-cases (is_there x)) [
  | inl e ↦ rw (Onward, e) (omega arith, omega arith)
  | inr e ↦ rw (Onward, e) (Onward-cons x ss s (next_from ss (s + 1)) (next_from-Onward ss (s + 1)))
]

get_elem?-below : (xs : List Sume) (k : ℕ) (x : Sume) → get_elem? xs k ≡ some x → k < length xs
get_elem?-below [] k x e = absurd (cc)
get_elem?-below (y ∷ ys) zero x e = omega arith
get_elem?-below (y ∷ ys) (suc k) x e = ground (arith, get_elem?-below ys k x e)

abbrev pub Downward : List Sume → ℕ → Option (Found × ℕ) → Type 0
Downward ss s none = Unit {0}
Downward ss s (some (found k resp, s')) = (s' < s) × (s ≤ length ss)
Downward ss s (some (at_end, s')) = Unit {0}

Downward-less :
    (ss : List Sume) (k : ℕ) (f : Option (Found × ℕ))
    → k < length ss
    → Downward ss k f
    → Downward ss (suc k) f
Downward-less ss k none b h = tt
Downward-less ss k (some (found j resp, s')) b h = (omega (arith, h.0), omega (arith, b))
Downward-less ss k (some (at_end, s')) b h = tt

pub prev_from-Downward : (ss : List Sume) (s : ℕ) → Downward ss s (prev_from ss s)
unfolding prev_from
prev_from-Downward ss zero = tt
prev_from-Downward ss (suc k) = elim (Option-cases (get_elem? ss k)) [
  | inl e ↦ rw (Downward, e) tt
  | inr (x, e) ↦ elim (Bool-cases (is_there x)) [
    | inl t ↦ rw (Downward, e, t) (omega arith, ground (arith, get_elem?-below ss k x e))
    | inr d ↦
        rw (Downward, e, d)
          (Downward-less ss k (prev_from ss k) (get_elem?-below ss k x e) (prev_from-Downward ss k))
  ]
]

pub lose_passed-IsSorted :
    (start s : ℕ) (f : Found) (pfs : List Pfe) → IsSorted pfs → IsSorted (lose_passed start f s pfs)
lose_passed-IsSorted start s (found k resp) pfs h = elim (Bool-cases (k == start)) [
  | inl e ↦ rw e h
  | inr e ↦ rw e (apply-IsSorted (loses start (pos (k - 1))) pfs h)
]
lose_passed-IsSorted start s at_end pfs h = elim (Bool-cases (s == start)) [
  | inl e ↦ rw e h
  | inr e ↦ rw e (apply-IsSorted (loses start minus_one) pfs h)
]

pub lose_passed_back-IsSorted :
    (start s : ℕ) (f : Found) (pfs : List Pfe)
    → IsSorted pfs
    → IsSorted (lose_passed_back start f s pfs)
lose_passed_back-IsSorted start s (found k resp) pfs h = elim (Bool-cases (k == start)) [
  | inl e ↦ rw e h
  | inr e ↦ rw e (apply-IsSorted (loses (k + 1) (pos start)) pfs h)
]
lose_passed_back-IsSorted start s at_end pfs h = elim (Bool-cases (s == start)) [
  | inl e ↦ rw e h
  | inr e ↦ rw e (apply-IsSorted (loses 1 (pos start)) pfs h)
]
