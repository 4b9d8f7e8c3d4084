-- ===== src/Cflbuild/Public/Lookup.antt =====
-- soft/cmd/cflbuild/cflsub.c: the look-up of a conference by its numbers.
use mnetsoft.Base.{
  ℕ, ◌+◌, ◌≤◌, ◌≡◌, refl, sym, inl, inr, true, false, none, some, ◌==◌, List, [], ◌∷◌, ◌++◌, arith,
  length, Bool-cases, Option-cases,
}
use mathlib.Core.Path.{subst}
use mathlib.Core.List.{append_assoc}
use mnetsoft.Base.Text.{Text}
use mnetsoft.Cflbuild.Public.{
  PublicConf, Category, Reading, read_public, empty_reading, conf_in, conf_in_cats, which_conf,
  disp_public_conf,
}
use mnetsoft.Cflbuild.Public.Table.{
  flat, conf_nums, cat_nums, rising, flat-append, read_public-IsTable,
}

conf_in-append :
    (f : PublicConf → ℕ) (k : ℕ) (xs ys : List PublicConf)
    → conf_in f k (xs ++ ys) ≡ elim (conf_in f k xs) [ none ↦ conf_in f k ys | some p ↦ some p ]
unfolding conf_in
conf_in-append f k [] ys = refl
conf_in-append f k (x ∷ xs) ys = elim (Bool-cases (f x == k)) [
  | inl e ↦ rw e refl
  | inr e ↦ rw e (conf_in-append f k xs ys)
]

conf_in_cats-flat :
    (k : ℕ) (cs : List Category) → conf_in_cats k cs ≡ conf_in (λ p. p.serial_num) k (flat cs)
unfolding conf_in_cats conf_in
conf_in_cats-flat k [] = refl
conf_in_cats-flat k (c ∷ cs) = elim (Option-cases (conf_in (λ p. p.serial_num) k c.conf_pub)) [
  | inl e ↦
      rw (conf_in-append (λ p. p.serial_num) k c.conf_pub (flat cs), conf_in_cats, e)
        (conf_in_cats-flat k cs)
  | inr (p, e) ↦
      rw (conf_in-append (λ p. p.serial_num) k c.conf_pub (flat cs), conf_in_cats, e) refl
]

rising-above :
    (lo : ℕ) (xs : List PublicConf) (p : PublicConf) (ys : List PublicConf) (hi : ℕ)
    → rising lo (xs ++ p ∷ ys) hi ≡ true
    → lo ≤ p.serial_num
rising-above lo [] p ys hi h = ground arith
rising-above lo (x ∷ xs) p ys hi h = ground (arith, rising-above (x.serial_num + 1) xs p ys hi)

rising-found :
    (lo : ℕ) (xs : List PublicConf) (p : PublicConf) (ys : List PublicConf) (hi : ℕ)
    → rising lo (xs ++ p ∷ ys) hi ≡ true
    → conf_in (λ q. q.serial_num) p.serial_num (xs ++ p ∷ ys) ≡ some p
unfolding conf_in
rising-found lo [] p ys hi h = ground arith
rising-found lo (x ∷ xs) p ys hi h =
    let a = rising-above (x.serial_num + 1) xs p ys hi (ground arith) in
    let z : (x.serial_num == p.serial_num) ≡ false = ground arith in
    rw z (rising-found (x.serial_num + 1) xs p ys hi (ground arith))

conf_nums-above :
    (k : ℕ) (xs : List PublicConf) (p : PublicConf) (ys : List PublicConf) (e : ℕ)
    → conf_nums k (xs ++ p ∷ ys) e ≡ true
    → k ≤ p.conf_num
conf_nums-above k [] p ys e h = ground arith
conf_nums-above k (x ∷ xs) p ys e h = ground (arith, conf_nums-above (k + 1) xs p ys e)

conf_nums-found :
    (k : ℕ) (xs : List PublicConf) (p : PublicConf) (ys : List PublicConf) (e : ℕ)
    → conf_nums k (xs ++ p ∷ ys) e ≡ true
    → conf_in (λ q. q.conf_num) p.conf_num (xs ++ p ∷ ys) ≡ some p
unfolding conf_in
conf_nums-found k [] p ys e h = ground arith
conf_nums-found k (x ∷ xs) p ys e h =
    let a = conf_nums-above (k + 1) xs p ys e (ground arith) in
    let z : (x.conf_num == p.conf_num) ≡ false = ground arith in
    rw z (conf_nums-found (k + 1) xs p ys e (ground arith))

-- What the numbers of the categories say of one of them.
cat_nums-above :
    (k : ℕ) (cs : List Category) (c : Category) (ds : List Category) (n m : ℕ)
    → cat_nums k (cs ++ c ∷ ds) n m ≡ true
    → k ≤ c.cat_num
cat_nums-above k [] c [] n m h = ground arith
cat_nums-above k [] c (d ∷ ds) n m h = ground arith
cat_nums-above k (b ∷ []) c ds n m h = ground (arith, cat_nums-above (k + 1) [] c ds n m)
cat_nums-above k (b ∷ b' ∷ bs) c ds n m h =
    ground (arith, cat_nums-above (k + 1) (b' ∷ bs) c ds n m)

cat_nums-rest :
    (k : ℕ) (b : Category) (cs : List Category) (c : Category) (ds : List Category) (n m : ℕ)
    → cat_nums k ((b ∷ cs) ++ c ∷ ds) n m ≡ true
    → (b.cat_num ≡ k) × (cat_nums (k + 1) (cs ++ c ∷ ds) n m ≡ true)
cat_nums-rest k b [] c ds n m h = ground arith
cat_nums-rest k b (b' ∷ bs) c ds n m h = ground arith

cat_nums-confs :
    (k : ℕ) (cs : List Category) (c : Category) (ds : List Category) (n m : ℕ)
    → cat_nums k (cs ++ c ∷ ds) n m ≡ true
    → (e : ℕ) × (conf_nums 0 c.conf_pub e ≡ true)
cat_nums-confs k [] c [] n m h = (m, ground arith)
cat_nums-confs k [] c (d ∷ ds) n m h = (length c.conf_pub, ground arith)
cat_nums-confs k (b ∷ bs) c ds n m h =
    cat_nums-confs (k + 1) bs c ds n m ((cat_nums-rest k b bs c ds n m h).1)

disp_public_conf-found :
    (k : ℕ) (cs : List Category) (c : Category) (ds : List Category) (n m : ℕ)
    (xs : List PublicConf) (p : PublicConf) (ys : List PublicConf)
    → cat_nums k (cs ++ c ∷ ds) n m ≡ true
    → c.conf_pub ≡ xs ++ p ∷ ys
    → disp_public_conf c.cat_num (cs ++ c ∷ ds) ≡ some c.conf_pub
unfolding disp_public_conf
disp_public_conf-found k [] c ds n m xs p ys h e =
    let z : (c.cat_num == c.cat_num) ≡ true = ground arith in rw (z, e) (nonempty xs)
  where
    nonempty :
        (zs : List PublicConf)
        → (elim (zs ++ p ∷ ys) [ [] ↦ none | q ∷ qs ↦ some (q ∷ qs) ]) ≡ some (zs ++ p ∷ ys)
    nonempty [] = refl
    nonempty (z ∷ zs) = refl
disp_public_conf-found k (b ∷ bs) c ds n m xs p ys h e =
    let r = cat_nums-rest k b bs c ds n m h in
    let a = cat_nums-above (k + 1) bs c ds n m r.1 in
    let z : (b.cat_num == c.cat_num) ≡ false = ground (arith, r) in
    rw z (disp_public_conf-found (k + 1) bs c ds n m xs p ys r.1 e)

-- Each conference `p` of a category `c` of the table that ReadPublicTxt makes of the first `n` lines of
-- public.txt, where no line makes ExtractConfName leave an array, is the one that GetConfFromPublicTxt
-- takes by the numbers that are shown: by SerialNum in the whole table, and by ConfNum in the list that
-- DispPublicConf gives for the category's number.
pub which_conf-read_public :
    (n : ℕ) (file : Text) (r : Reading) (cs : List Category) (c : Category) (ds : List Category)
    (xs : List PublicConf) (p : PublicConf) (ys : List PublicConf)
    → read_public n file empty_reading ≡ some r
    → r.cats ≡ cs ++ c ∷ ds
    → c.conf_pub ≡ xs ++ p ∷ ys
    → (which_conf r.cats none p.serial_num ≡ some p)
      × ((disp_public_conf c.cat_num r.cats ≡ some c.conf_pub)
          × (which_conf r.cats (some c.conf_pub) p.conf_num ≡ some p))
unfolding which_conf
which_conf-read_public n file r cs c ds xs p ys h e f =
    let t =
      read_public-IsTable n file empty_reading r (record { categories = refl; serials = refl }) h in
    let a : cat_nums 0 (cs ++ c ∷ ds) r.next_cat r.next_conf ≡ true =
      subst (λ us. cat_nums 0 us r.next_cat r.next_conf ≡ true) e t.categories in
    let k = cat_nums-confs 0 cs c ds r.next_cat r.next_conf a in
    let g : flat r.cats ≡ (flat cs ++ xs) ++ p ∷ (ys ++ flat ds) =
      rw (e, flat-append cs (c ∷ ds), f)
        (rw (append_assoc xs (p ∷ ys) (flat ds))
          (sym (append_assoc (flat cs) xs (p ∷ (ys ++ flat ds))))) in
    (
      rw (conf_in_cats-flat p.serial_num r.cats, g)
          (rising-found 0 (flat cs ++ xs) p (ys ++ flat ds) r.next_serial
            (subst (λ us. rising 0 us r.next_serial ≡ true) g t.serials)),
      (
        rw e (disp_public_conf-found 0 cs c ds r.next_cat r.next_conf xs p ys a f),
        rw f (conf_nums-found 0 xs p ys k.0 (subst (λ us. conf_nums 0 us k.0 ≡ true) f k.1)),
      ),
    )
