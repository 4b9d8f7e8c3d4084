-- ===== src/Cflbuild/Links/Exchanges.antt =====
-- soft/cmd/cflbuild: what exchanging two nodes of a list keeps.
use mnetsoft.Base.{◌≡◌, refl, Bool, true, List, [], ◌∷◌, ◌++◌, arith}
use mnetsoft.Cflbuild.Heap.{Ptr}
use mnetsoft.Cflbuild.Chain.{
  absent, distinct, apart, all, absent-append, distinct-append, apart-cons, all-append,
}

pub all-swap {ℓ} :
    {A : Type ℓ} (f : A → Bool) (p : A) (ms : List A) (q : A) (ys : List A)
    → all f (p ∷ ms ++ q ∷ ys) ≡ true
    → all f (q ∷ ms ++ p ∷ ys) ≡ true
all-swap f p ms q ys h = ground (arith, all-append f ms (q ∷ ys), all-append f ms (p ∷ ys))

pub absent-swap :
    (r p : Ptr) (ms : List Ptr) (q : Ptr) (ys : List Ptr)
    → absent r (p ∷ ms ++ q ∷ ys) ≡ true
    → absent r (q ∷ ms ++ p ∷ ys) ≡ true
absent-swap r p ms q ys h = ground (arith, absent-append r ms (q ∷ ys), absent-append r ms (p ∷ ys))

pub apart-swap :
    (xs : List Ptr) (p : Ptr) (ms : List Ptr) (q : Ptr) (ys : List Ptr)
    → apart xs (p ∷ ms ++ q ∷ ys) ≡ true
    → apart xs (q ∷ ms ++ p ∷ ys) ≡ true
apart-swap [] p ms q ys h = refl
apart-swap (x ∷ xs) p ms q ys h = ground (arith, absent-swap x p ms q ys, apart-swap xs p ms q ys)

pub distinct-swap :
    (p : Ptr) (ms : List Ptr) (q : Ptr) (ys : List Ptr)
    → distinct (p ∷ ms ++ q ∷ ys) ≡ true
    → distinct (q ∷ ms ++ p ∷ ys) ≡ true
distinct-swap p ms q ys h = ground (
  arith,
  absent-append p ms (q ∷ ys),
  absent-append q ms (p ∷ ys),
  distinct-append ms (q ∷ ys),
  distinct-append ms (p ∷ ys),
  apart-cons ms q ys,
  apart-cons ms p ys,
)
