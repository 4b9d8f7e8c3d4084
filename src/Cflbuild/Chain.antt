-- ===== src/Cflbuild/Chain.antt =====
-- soft/cmd/cflbuild: what the links of consecutive nodes say, each way.
use mnetsoft.Base.{◌≡◌, refl, Bool, true, false, not, ◌&&◌, List, [], ◌∷◌, ◌++◌, arith, ◌==◌}
use mathlib.Core.Bool.{and_assoc}
use mnetsoft.Cflbuild.Heap.{Ptr, put}

abbrev pub absent : Ptr → List Ptr → Bool
absent p [] = true
absent p (q ∷ qs) = not (p == q) && absent p qs

abbrev pub distinct : List Ptr → Bool
distinct [] = true
distinct (p ∷ ps) = absent p ps && distinct ps

abbrev pub apart : List Ptr → List Ptr → Bool
apart [] ys = true
apart (x ∷ xs) ys = absent x ys && apart xs ys

abbrev pub first : List Ptr → Ptr → Ptr
first [] e = e
first (p ∷ ps) e = p

abbrev pub last : Ptr → List Ptr → Ptr
last b [] = b
last b (p ∷ ps) = last p ps

-- Each node's next is the node behind it, the last one's is `e`.
abbrev pub forward : (Ptr → Ptr) → List Ptr → Ptr → Bool
forward nx [] e = true
forward nx (p ∷ ps) e = (nx p == first ps e) && forward nx ps e

-- Each node's prev is the node before it, the first one's is `b`.
abbrev pub backward : (Ptr → Ptr) → Ptr → List Ptr → Bool
backward pv b [] = true
backward pv b (p ∷ ps) = (pv p == b) && backward pv p ps

abbrev pub all {ℓ} : {A : Type ℓ} → (A → Bool) → List A → Bool
all f [] = true
all f (x ∷ xs) = f x && all f xs

pub absent-append :
    (p : Ptr) (xs ys : List Ptr) → absent p (xs ++ ys) ≡ (absent p xs && absent p ys)
absent-append p [] ys = refl
absent-append p (x ∷ xs) ys = rw (absent-append p xs ys, and_assoc)

pub distinct-append :
    (xs ys : List Ptr) → distinct (xs ++ ys) ≡ (distinct xs && (distinct ys && apart xs ys))
distinct-append [] ys = ground arith
distinct-append (x ∷ xs) ys = rw (absent-append x xs ys, distinct-append xs ys) (ground arith)

pub apart-append : (xs ys zs : List Ptr) → apart xs (ys ++ zs) ≡ (apart xs ys && apart xs zs)
apart-append [] ys zs = refl
apart-append (x ∷ xs) ys zs = rw (absent-append x ys zs, apart-append xs ys zs) (ground arith)

pub apart-cons :
    (xs : List Ptr) (q : Ptr) (ys : List Ptr) → apart xs (q ∷ ys) ≡ (absent q xs && apart xs ys)
apart-cons [] q ys = refl
apart-cons (x ∷ xs) q ys = rw (apart-cons xs q ys) (ground arith)

pub apart-nil : (xs : List Ptr) → apart xs [] ≡ true
apart-nil [] = refl
apart-nil (x ∷ xs) = apart-nil xs

pub all-append {ℓ} :
    {A : Type ℓ} (f : A → Bool) (xs ys : List A) → all f (xs ++ ys) ≡ (all f xs && all f ys)
all-append f [] ys = refl
all-append f (x ∷ xs) ys = rw (all-append f xs ys, and_assoc)

pub first-append : (xs ys : List Ptr) (e : Ptr) → first (xs ++ ys) e ≡ first xs (first ys e)
first-append [] ys e = refl
first-append (x ∷ xs) ys e = refl

pub last-append : (b : Ptr) (xs ys : List Ptr) → last b (xs ++ ys) ≡ last (last b xs) ys
last-append b [] ys = refl
last-append b (x ∷ xs) ys = last-append x xs ys

pub forward-append :
    (nx : Ptr → Ptr) (xs ys : List Ptr) (e : Ptr)
    → forward nx (xs ++ ys) e ≡ (forward nx xs (first ys e) && forward nx ys e)
forward-append nx [] ys e = refl
forward-append nx (x ∷ xs) ys e = rw (first-append xs ys e, forward-append nx xs ys e, and_assoc)

pub backward-append :
    (pv : Ptr → Ptr) (b : Ptr) (xs ys : List Ptr)
    → backward pv b (xs ++ ys) ≡ (backward pv b xs && backward pv (last b xs) ys)
backward-append pv b [] ys = refl
backward-append pv b (x ∷ xs) ys = rw (backward-append pv x xs ys, and_assoc)

pub apart-last :
    (x : Ptr) (xs ys : List Ptr) → apart (x ∷ xs) ys ≡ true → absent (last x xs) ys ≡ true
apart-last x [] ys h = ground arith
apart-last x (z ∷ zs) ys h = apart-last z zs ys (ground arith)

pub put_same {ℓ} : {A : Type ℓ} (f : Ptr → A) (p : Ptr) (v : A) → put f p v p ≡ v
unfolding put
put_same f p v = ground arith

pub put_other {ℓ} :
    {A : Type ℓ} (f : Ptr → A) (p : Ptr) (v : A) (r : Ptr) → (r == p) ≡ false → put f p v r ≡ f r
unfolding put
put_other f p v r h = rw h refl

pub forward-cons :
    (nx : Ptr → Ptr) (p : Ptr) (ps : List Ptr) (e : Ptr)
    → nx p ≡ first ps e
    → forward nx ps e ≡ true
    → forward nx (p ∷ ps) e ≡ true
forward-cons nx p ps e h t = ground arith

pub backward-cons :
    (pv : Ptr → Ptr) (b p : Ptr) (ps : List Ptr)
    → pv p ≡ b
    → backward pv p ps ≡ true
    → backward pv b (p ∷ ps) ≡ true
backward-cons pv b p ps h t = ground arith

-- A write elsewhere keeps the values.
pub all-put :
    (f : Ptr → Bool) (p : Ptr) (v : Bool) (xs : List Ptr)
    → absent p xs ≡ true
    → all (put f p v) xs ≡ all f xs
unfolding put
all-put f p v [] h = refl
all-put f p v (x ∷ xs) h = ground (arith, all-put f p v xs)

-- A write elsewhere keeps the links.
pub forward-put :
    (nx : Ptr → Ptr) (p v : Ptr) (xs : List Ptr) (e : Ptr)
    → absent p xs ≡ true
    → forward (put nx p v) xs e ≡ forward nx xs e
unfolding put
forward-put nx p v [] e h = refl
forward-put nx p v (x ∷ xs) e h = ground (arith, forward-put nx p v xs e)

pub backward-put :
    (pv : Ptr → Ptr) (p v b : Ptr) (xs : List Ptr)
    → absent p xs ≡ true
    → backward (put pv p v) b xs ≡ backward pv b xs
unfolding put
backward-put pv p v b [] h = refl
backward-put pv p v b (x ∷ xs) h = ground (arith, backward-put pv p v x xs)

pub absent-last : (p x : Ptr) (xs : List Ptr) → absent p (x ∷ xs) ≡ true → (last x xs == p) ≡ false
absent-last p x [] h = ground arith
absent-last p x (y ∷ ys) h = absent-last p y ys (ground arith)

-- A write of the last node's next changes where the links lead.
pub forward-last :
    (nx : Ptr → Ptr) (x : Ptr) (xs : List Ptr) (e v : Ptr)
    → distinct (x ∷ xs) ≡ true
    → forward nx (x ∷ xs) e ≡ true
    → forward (put nx (last x xs) v) (x ∷ xs) v ≡ true
unfolding put
forward-last nx x [] e v d h = ground arith
forward-last nx x (y ∷ ys) e v d h = ground (arith, forward-last nx y ys e v, absent-last x y ys)

pub backward-first :
    (pv : Ptr → Ptr) (x : Ptr) (xs : List Ptr) (b v : Ptr)
    → absent x xs ≡ true
    → backward pv b (x ∷ xs) ≡ true
    → backward (put pv x v) v (x ∷ xs) ≡ true
unfolding put
backward-first pv x xs b v d h = ground (arith, backward-put pv x v x xs)
