-- ===== src/Bank/Rich/Ranking.antt =====
-- The open accounts of soft/apps/bank/bank.c in the order of `wealthy`: a stable sort, richest first.
use mnetsoft.Base.{
  ℕ, zero, suc, ◌≡◌, refl, ap, true, List, [], ◌∷◌, ◌++◌, if◌then◌else◌, take, length, arith,
}
use mnetsoft.Base.Int.{ℤ, ltb_ℤ, ◌≤ℤ◌}
use mnetsoft.Base.Long.{is_even}
use mnetsoft.Bank.Cells.Totals.{listed}
use mnetsoft.Bank.Rich.{Holder}

-- the accounts in the cells from `cuid` on that are open
abbrev pub holders : ℕ → List ℤ → List Holder
holders cuid [] = []
holders cuid (c ∷ cs) =
    if is_even c
    then holders (suc cuid) cs
    else record { uid = cuid; bucks = listed c } ∷ holders (suc cuid) cs

-- behind all that are at least as rich
abbrev pub rank : Holder → List Holder → List Holder
rank h [] = h ∷ []
rank h (x ∷ xs) = if ltb_ℤ x.bucks h.bucks then h ∷ x ∷ xs else x ∷ rank h xs

-- insertion sort, in the order of the list
abbrev pub ranking : List Holder → List Holder → List Holder
ranking done [] = done
ranking done (h ∷ hs) = ranking (rank h done) hs

-- Each is at least as rich as the next.
abbrev pub IsRanked : List Holder → Type 0
IsRanked [] = Unit {0}
IsRanked (x ∷ []) = Unit {0}
IsRanked (x ∷ y ∷ xs) = (y.bucks ≤ℤ x.bucks) × IsRanked (y ∷ xs)

-- Nobody in the list is poorer than `a`.
abbrev pub AllAbove : ℤ → List Holder → Type 0
AllAbove a [] = Unit {0}
AllAbove a (x ∷ xs) = (a ≤ℤ x.bucks) × AllAbove a xs

pub rank-snoc_poorer :
    (h y : Holder) (xs : List Holder)
    → ltb_ℤ y.bucks h.bucks ≡ true
    → rank h (xs ++ y ∷ []) ≡ rank h xs ++ y ∷ []
rank-snoc_poorer h y [] p = rw p
rank-snoc_poorer h y (x ∷ xs) p = ground (arith, rank-snoc_poorer h y xs p)

pub rank_last : (h : Holder) (xs : List Holder) → AllAbove h.bucks xs → rank h xs ≡ xs ++ h ∷ []
rank_last h [] a = refl
rank_last h (x ∷ xs) a = ground (arith, rank_last h xs a.1)

pub IsRanked-init : (xs : List Holder) (y : Holder) → IsRanked (xs ++ y ∷ []) → IsRanked xs
IsRanked-init [] y r = tt
IsRanked-init (x ∷ []) y r = tt
IsRanked-init (x ∷ x' ∷ xs) y r = (r.0, IsRanked-init (x' ∷ xs) y r.1)

pub AllAbove-snoc :
    (a : ℤ) (xs : List Holder) (y : Holder)
    → IsRanked (xs ++ y ∷ [])
    → a ≤ℤ y.bucks
    → AllAbove a (xs ++ y ∷ [])
AllAbove-snoc a [] y r le = (le, tt)
AllAbove-snoc a (x ∷ []) y r le = (omega (arith, r.0), (le, tt))
AllAbove-snoc a (x ∷ x' ∷ xs) y r le =
    let ih = AllAbove-snoc a (x' ∷ xs) y r.1 le in (omega (arith, ih.0, r.0), ih)

pub IsRanked-rank : (h : Holder) (xs : List Holder) → IsRanked xs → IsRanked (rank h xs)
IsRanked-rank h [] r = tt
IsRanked-rank h (x ∷ []) r = ground arith
IsRanked-rank h (x ∷ y ∷ xs) r = ground (arith, IsRanked-rank h (y ∷ xs))

pub length-rank : (h : Holder) (xs : List Holder) → length (rank h xs) ≡ suc (length xs)
length-rank h [] = refl
length-rank h (x ∷ xs) = ground (arith, length-rank h xs)

take_shorter : (n : ℕ) (xs : List Holder) → take n (take (suc n) xs) ≡ take n xs
take_shorter zero xs = refl
take_shorter (suc n) [] = refl
take_shorter (suc n) (x ∷ xs) = ap (λ t. x ∷ t) (take_shorter n xs)

pub take-rank :
    (n : ℕ) (h : Holder) (xs : List Holder) → take n (rank h (take n xs)) ≡ take n (rank h xs)
take-rank zero h xs = refl
take-rank (suc n) h [] = refl
take-rank (suc n) h (x ∷ xs) = ground (arith, take-rank n h xs, take_shorter n (x ∷ xs))
