-- ===== src/Cflbuild/Public/Table.antt =====
-- soft/cmd/cflbuild/cflsub.c: the numbers in the table of the public conferences.
use mnetsoft.Base.{
  ℕ, zero, suc, ◌+◌, ◌-◌, ◌<◌, ◌≡◌, refl, sym, ◌∙◌, ap, inl, inr, Bool, true, false, ◌&&◌, some,
  ◌==◌, leb, List, [], ◌∷◌, ◌++◌, arith, length, Bool-cases, Option-cases,
}
use mathlib.Core.Path.{subst}
use mathlib.Core.List.{append_assoc, append-nil}
use mnetsoft.Base.Text.{Text, fgets}
use mnetsoft.Cflbuild.Public.{
  Line, other, category_line, conf_line, PublicConf, Category, Reading, add_conf, write_conf,
  take_line, extract_conf_name, read_public,
}

-- The conferences of the table in order.
abbrev pub flat : List Category → List PublicConf
flat [] = []
flat (cat ∷ cats) = cat.conf_pub ++ flat cats

-- ConfNum counts from `k` to before `e`.
abbrev pub conf_nums : ℕ → List PublicConf → ℕ → Bool
conf_nums k [] e = k == e
conf_nums k (p ∷ ps) e = p.conf_num == k && conf_nums (k + 1) ps e

abbrev pub some_conf_nums : List PublicConf → Bool
some_conf_nums ps = conf_nums 0 ps (length ps)

-- CatNum counts from `k` to before `next_cat`; ConfNum counts from 0 in each category, in the last one
-- to before `next_conf`.
abbrev pub cat_nums : ℕ → List Category → ℕ → ℕ → Bool
cat_nums k [] next_cat next_conf = k == next_cat
cat_nums k (c ∷ []) next_cat next_conf =
    c.cat_num == k && (conf_nums 0 c.conf_pub next_conf && k + 1 == next_cat)
cat_nums k (c ∷ d ∷ cs) next_cat next_conf =
    c.cat_num == k && (some_conf_nums c.conf_pub && cat_nums (k + 1) (d ∷ cs) next_cat next_conf)

-- SerialNum rises, from at least `lo` to below `hi`.
abbrev pub rising : ℕ → List PublicConf → ℕ → Bool
rising lo [] hi = leb lo hi
rising lo (p ∷ ps) hi = leb lo p.serial_num && rising (p.serial_num + 1) ps hi

pub record IsTable (r : Reading) : Type 0 where
  pub categories : cat_nums 0 r.cats r.next_cat r.next_conf ≡ true
  pub serials : rising 0 (flat r.cats) r.next_serial ≡ true

pub flat-append : (cs ds : List Category) → flat (cs ++ ds) ≡ flat cs ++ flat ds
flat-append [] ds = refl
flat-append (c ∷ cs) ds = rw (flat-append cs ds, append_assoc c.conf_pub (flat cs) (flat ds)) refl

conf_nums-end :
    (k : ℕ) (ps : List PublicConf) (p : PublicConf) (e : ℕ)
    → conf_nums k ps e ≡ true
    → p.conf_num ≡ e
    → conf_nums k (ps ++ p ∷ []) (e + 1) ≡ true
conf_nums-end k [] p e h f = ground arith
conf_nums-end k (q ∷ ps) p e h f = ground (arith, conf_nums-end (k + 1) ps p e)

conf_nums-length :
    (k : ℕ) (ps : List PublicConf) (e : ℕ) → conf_nums k ps e ≡ true → e ≡ k + length ps
conf_nums-length k [] e h = ground arith
conf_nums-length k (p ∷ ps) e h = ground (arith, conf_nums-length (k + 1) ps e)

rising-end :
    (lo : ℕ) (ps : List PublicConf) (p : PublicConf) (hi : ℕ)
    → rising lo ps hi ≡ true
    → p.serial_num ≡ hi
    → rising lo (ps ++ p ∷ []) (hi + 1) ≡ true
rising-end lo [] p hi h f = ground arith
rising-end lo (q ∷ ps) p hi h f = ground (arith, rising-end (q.serial_num + 1) ps p hi)

rising-later :
    (lo : ℕ) (ps : List PublicConf) (hi : ℕ) → rising lo ps hi ≡ true → rising lo ps (hi + 1) ≡ true
rising-later lo [] hi h = ground arith
rising-later lo (q ∷ ps) hi h = ground (arith, rising-later (q.serial_num + 1) ps hi)

cat_nums-later :
    (k : ℕ) (c : Category) (cs : List Category) (n m : ℕ) → cat_nums k (c ∷ cs) n m ≡ true → k < n
cat_nums-later k c [] n m h = ground arith
cat_nums-later k c (d ∷ ds) n m h = ground (arith, cat_nums-later (k + 1) d ds n m)

cat_nums-category :
    (k : ℕ) (cs : List Category) (n m : ℕ) (name : Text)
    → cat_nums k cs n m ≡ true
    → cat_nums k (cs ++ record { category = name; cat_num = n; conf_pub = [] } ∷ []) (n + 1) 0
      ≡ true
cat_nums-category k [] n m name h = ground arith
cat_nums-category k (c ∷ []) n m name h = ground (arith, conf_nums-length 0 c.conf_pub m)
cat_nums-category k (c ∷ d ∷ ds) n m name h =
    ground (arith, cat_nums-category (k + 1) (d ∷ ds) n m name)

cat_nums-cons :
    (k : ℕ) (c : Category) (cs : List Category) (n m : ℕ)
    → c.cat_num ≡ k
    → some_conf_nums c.conf_pub ≡ true
    → cat_nums (k + 1) cs n m ≡ true
    → k + 1 < n
    → cat_nums k (c ∷ cs) n m ≡ true
cat_nums-cons k c [] n m e f h l = absurd (ground arith)
cat_nums-cons k c (d ∷ ds) n m e f h l = ground arith

cat_nums-add_conf :
    (k : ℕ) (cs : List Category) (n m : ℕ) (p : PublicConf)
    → cat_nums k cs n m ≡ true
    → k < n
    → p.conf_num ≡ m
    → cat_nums k (add_conf (n - 1) p cs) n (m + 1) ≡ true
unfolding add_conf
cat_nums-add_conf k [] n m p h l e = absurd (ground arith)
cat_nums-add_conf k (c ∷ []) n m p h l e =
    let z : (c.cat_num == n - 1) ≡ true = ground arith in
    rw z (ground (arith, conf_nums-end 0 c.conf_pub p m))
cat_nums-add_conf k (c ∷ d ∷ ds) n m p h l e =
    let t = cat_nums-later (k + 1) d ds n m (ground arith) in
    let z : (c.cat_num == n - 1) ≡ false = ground arith in
    rw z (
      cat_nums-cons k c (add_conf (n - 1) p (d ∷ ds)) n (m + 1) (ground arith) (ground arith)
        (cat_nums-add_conf (k + 1) (d ∷ ds) n m p (ground arith) t e) t)

-- The conference comes behind all others.
flat-add_conf :
    (k : ℕ) (cs : List Category) (n m : ℕ) (p : PublicConf)
    → cat_nums k cs n m ≡ true
    → k < n
    → flat (add_conf (n - 1) p cs) ≡ flat cs ++ p ∷ []
unfolding add_conf
flat-add_conf k [] n m p h l = absurd (ground arith)
flat-add_conf k (c ∷ []) n m p h l =
    let z : (c.cat_num == n - 1) ≡ true = ground arith in
    rw (z, append-nil (c.conf_pub ++ p ∷ []), append-nil c.conf_pub) refl
flat-add_conf k (c ∷ d ∷ ds) n m p h l =
    let t = cat_nums-later (k + 1) d ds n m (ground arith) in
    let z : (c.cat_num == n - 1) ≡ false = ground arith in
    rw z (
      ap (λ ps. c.conf_pub ++ ps) (flat-add_conf (k + 1) (d ∷ ds) n m p (ground arith) t)
      ∙ sym (append_assoc c.conf_pub (flat (d ∷ ds)) (p ∷ [])))

cat_nums-none : (cs : List Category) (m : ℕ) → cat_nums 0 cs 0 m ≡ true → cs ≡ []
cat_nums-none [] m h = refl
cat_nums-none (c ∷ cs) m h = absurd (omega (arith, cat_nums-later 0 c cs 0 m h))

IsTable-take_line :
    (buffer : Text) (line : Line) (r : Reading) → IsTable r → IsTable (take_line buffer line r)
unfolding take_line write_conf
IsTable-take_line buffer other r t = t
IsTable-take_line buffer (category_line name) r t =
    let new : Category = record { category = name; cat_num = r.next_cat; conf_pub = [] } in
    record {
      categories = cat_nums-category 0 r.cats r.next_cat r.next_conf name t.categories;
      serials = rw (flat-append r.cats (new ∷ []), append-nil (flat r.cats)) t.serials;
    }
IsTable-take_line buffer (conf_line name) r t = elim (Bool-cases (r.next_cat == 0)) [
  | inl z ↦
      let e : r.next_cat ≡ 0 = ground arith in
      let n : r.cats ≡ [] =
        cat_nums-none r.cats r.next_conf
          (subst (λ k. cat_nums 0 r.cats k r.next_conf ≡ true) e t.categories) in
      record {
        categories = rw (z, n) (ground arith);
        serials = rw z (rising-later 0 (flat r.cats) r.next_serial t.serials);
      }
  | inr z ↦
      let p : PublicConf = record {
        conf_name = buffer;
        conf_num = r.next_conf;
        serial_num = r.next_serial;
      } in
      record {
        categories =
            rw z (
              cat_nums-add_conf 0 r.cats r.next_cat r.next_conf p t.categories (ground arith) refl);
        serials =
            rw (z, flat-add_conf 0 r.cats r.next_cat r.next_conf p t.categories (ground arith))
              (rising-end 0 (flat r.cats) p r.next_serial t.serials refl);
      }
]

pub read_public-IsTable :
    (n : ℕ) (file : Text) (r r' : Reading) → IsTable r → read_public n file r ≡ some r' → IsTable r'
unfolding read_public
read_public-IsTable zero file r r' t h = let k : r ≡ r' = ground arith in subst IsTable k t
read_public-IsTable (suc n) file r r' t h = elim (Option-cases (fgets 128 file)) [
  | inl e ↦ let k : r ≡ r' = ground (arith, (rw (read_public, e) at h)) in subst IsTable k t
  | inr ((line, rest), e) ↦ elim (Option-cases (extract_conf_name 30 line)) [
    | inl f ↦ absurd (ground (arith, (rw (read_public, e, f) at h)))
    | inr (l, f) ↦
        read_public-IsTable n rest (take_line line l r) r' (IsTable-take_line line l r t)
          (rw (read_public, e, f) at h)
  ]
]
