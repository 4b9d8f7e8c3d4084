-- ===== src/Bank/Rich/Table.antt =====
-- The array that `wealthy` of soft/apps/bank/bank.c keeps: the first ten of the ranking.
use mnetsoft.Base.{
  ℕ, zero, suc, ◌≤◌, ◌<◌, ◌≡◌, refl, ap, ◌∙◌, sym, true, false, List, [], ◌∷◌, ◌++◌, ltb, get_or,
  set, take, length, length-append, length-take, length-set, ltb→lt, arith, Bool-cases, inl, inr,
}
use mathlib.Core.Path.{subst}
use mathlib.Core.List.{append_assoc, append-nil, Perm, perm_middle}
use mathlib.Core.List.Perm
use mnetsoft.Base.Int.{ℤ, ltb_ℤ}
use mnetsoft.Base.Long.{is_even}
use mnetsoft.Bank.Cells.Totals.{listed}
use mnetsoft.Bank.Rich.{Holder, no_holder, slide, store_rich, place_rich, rank_cells, wealthy_table}
use mnetsoft.Bank.Rich.Ranking.{
  holders, rank, ranking, IsRanked, rank-snoc_poorer, rank_last, IsRanked-init, AllAbove-snoc,
  IsRanked-rank, length-rank, take-rank,
}

module _ {ℓ} {A : Type ℓ} where
  snoc_view :
      (n : ℕ) (xs : List A)
      → length xs ≡ suc n
      → (ys : List A) × (y : A) × (xs ≡ ys ++ y ∷ []) × (length ys ≡ n)
  snoc_view n [] e = absurd (omega arith)
  snoc_view zero (x ∷ []) e = ([], x, refl, refl)
  snoc_view zero (x ∷ x' ∷ xs) e = absurd (omega arith)
  snoc_view (suc n) (x ∷ xs) e =
      let (ys, y, split, len) = snoc_view n xs (omega arith) in
      (x ∷ ys, y, ap (λ t. x ∷ t) split, ap suc len)

  get_or-append : (ys : List A) (y d : A) (r : List A) → get_or (ys ++ y ∷ r) (length ys) d ≡ y
  get_or-append [] y d r = refl
  get_or-append (x ∷ ys) y d r = get_or-append ys y d r

  set-append : (ys : List A) (y v : A) (r : List A) → set (ys ++ y ∷ r) (length ys) v ≡ ys ++ v ∷ r
  set-append [] y v r = refl
  set-append (x ∷ ys) y v r = ap (λ t. x ∷ t) (set-append ys y v r)

  set-append_next :
      (ys : List A) (y z v : A) (r : List A)
      → set (ys ++ y ∷ z ∷ r) (suc (length ys)) v ≡ ys ++ y ∷ v ∷ r
  set-append_next [] y z v r = refl
  set-append_next (x ∷ ys) y z v r = ap (λ t. x ∷ t) (set-append_next ys y z v r)

slide_stop :
    (i : ℕ) (new : ℤ) (rich : List Holder)
    → ltb_ℤ (get_or rich i no_holder).bucks new ≡ false
    → slide (suc i) new rich ≡ (rich, suc i)
unfolding slide
slide_stop i new rich e = ground arith

slide_shift :
    (i : ℕ) (new : ℤ) (rich : List Holder)
    → ltb_ℤ (get_or rich i no_holder).bucks new ≡ true
    → suc i < 10
    → slide (suc i) new rich ≡ slide i new (set rich (suc i) (get_or rich i no_holder))
unfolding slide
slide_shift i new rich e lt = ground arith

slide_drop :
    (new : ℤ) (rich : List Holder)
    → ltb_ℤ (get_or rich 9 no_holder).bucks new ≡ true
    → slide 10 new rich ≡ slide 9 new rich
unfolding slide
slide_drop new rich e = ground arith

-- What the inner loop leaves, once the new element is stored.
abbrev Slid : Holder → ℕ → List Holder → List Holder × ℕ → Type 0
Slid h i want t = (t.1 ≤ i) × (set t.0 t.1 h ≡ want)

slide-rank :
    (h : Holder) (i : ℕ) (xs : List Holder) (z : Holder) (rest : List Holder)
    → length xs ≡ i
    → i < 10
    → IsRanked xs
    → Slid h i (rank h xs ++ rest) (slide i h.bucks (xs ++ z ∷ rest))
slide-rank h zero [] z rest e lt r = unfold slide in (omega arith, refl)
slide-rank h zero (x ∷ xs) z rest e lt r = absurd (omega arith)
slide-rank h (suc i) xs z rest e lt r =
    let (ys, y, split, len) = snoc_view i xs e in
    subst (λ t. Slid h (suc i) (rank h t ++ rest) (slide (suc i) h.bucks (t ++ z ∷ rest)))
      (sym split)
      (go ys y len (subst IsRanked split r) (
        slide-rank h i ys y (y ∷ rest) len (omega arith)
          (IsRanked-init ys y (subst IsRanked split r))))
  where
    go :
        (ys : List Holder) (y : Holder)
        → length ys ≡ i
        → IsRanked (ys ++ y ∷ [])
        → Slid h i (rank h ys ++ y ∷ rest) (slide i h.bucks (ys ++ y ∷ y ∷ rest))
        → Slid h
            (suc i)
            (rank h (ys ++ y ∷ []) ++ rest)
            (slide (suc i) h.bucks ((ys ++ y ∷ []) ++ z ∷ rest))
    go ys y len ranked ih =
        let at : get_or (ys ++ y ∷ z ∷ rest) i no_holder ≡ y =
          ap (λ k. get_or (ys ++ y ∷ z ∷ rest) k no_holder) (sym len)
          ∙ get_or-append ys y no_holder (z ∷ rest) in
        rw append_assoc (elim (Bool-cases (ltb_ℤ y.bucks h.bucks)) [
          | inl poorer ↦
              let moved : set (ys ++ y ∷ z ∷ rest) (suc i) (get_or (ys ++ y ∷ z ∷ rest) i no_holder)
                  ≡ ys ++ y ∷ y ∷ rest =
                ap (set (ys ++ y ∷ z ∷ rest) (suc i)) at
                ∙ ap (λ k. set (ys ++ y ∷ z ∷ rest) (suc k) y) (sym len)
                ∙ set-append_next ys y z y rest in
              rw
                (
                  slide_shift i h.bucks (ys ++ y ∷ z ∷ rest)
                      (ap (λ (t : Holder). ltb_ℤ t.bucks h.bucks) at ∙ poorer) lt,
                  moved,
                  rank-snoc_poorer h y ys poorer,
                  append_assoc,
                )
                (omega (arith, ih.0), ih.1)
          | inr above ↦
              let stored : set (ys ++ y ∷ z ∷ rest) (suc i) h ≡ ys ++ y ∷ h ∷ rest =
                ap (λ k. set (ys ++ y ∷ z ∷ rest) (suc k) h) (sym len)
                ∙ set-append_next ys y z h rest in
              rw
                (
                  slide_stop i h.bucks (ys ++ y ∷ z ∷ rest)
                      (ap (λ (t : Holder). ltb_ℤ t.bucks h.bucks) at ∙ above),
                  rank_last h (ys ++ y ∷ []) (AllAbove-snoc h.bucks ys y ranked (ground arith)),
                )
                (omega arith, rw (stored, append_assoc) (rw append_assoc))
        ])

-- `rich` and `n` when the accounts ranked so far are `all`.
record Table (all : List Holder) (t : List Holder × ℕ) : Type 0 where
  junk : List Holder
  splits : t.0 ≡ take 10 all ++ junk
  counted : t.1 ≡ length (take 10 all)
  width : length t.0 ≡ 10
  ranked : IsRanked all

IsRanked-take : (n : ℕ) (xs : List Holder) → IsRanked xs → IsRanked (take n xs)
IsRanked-take zero xs r = tt
IsRanked-take (suc n) [] r = tt
IsRanked-take (suc zero) (x ∷ xs) r = tt
IsRanked-take (suc (suc n)) (x ∷ []) r = tt
IsRanked-take (suc (suc n)) (x ∷ y ∷ xs) r = (r.0, IsRanked-take (suc n) (y ∷ xs) r.1)

-- One more account, while the array has room.
place_roomy :
    (h : Holder) (xs : List Holder) (z : Holder) (rest : List Holder)
    → length xs < 10
    → IsRanked xs
    → place_rich h (xs ++ z ∷ rest, length xs) ≡ (rank h xs ++ rest, suc (length xs))
unfolding place_rich
place_roomy h xs z rest lt r =
    let s = slide-rank h (length xs) xs z rest refl lt r in ground (arith, s.0, s.1)

take_whole {ℓ} : {A : Type ℓ} (xs r : List A) (n : ℕ) → length xs ≡ n → take n (xs ++ r) ≡ xs
take_whole [] r zero e = refl
take_whole [] r (suc n) e = absurd (omega arith)
take_whole (x ∷ xs) r zero e = absurd (omega arith)
take_whole (x ∷ xs) r (suc n) e = ap (λ t. x ∷ t) (take_whole xs r n (omega arith))

take_all {ℓ} : {A : Type ℓ} (xs : List A) (n : ℕ) → length xs ≤ n → take n xs ≡ xs
take_all [] zero le = refl
take_all [] (suc n) le = refl
take_all (x ∷ xs) zero le = absurd (omega arith)
take_all (x ∷ xs) (suc n) le = ap (λ t. x ∷ t) (take_all xs n (omega arith))

store_full : (h : Holder) (t : List Holder × ℕ) → t.1 < 10 → store_rich h 10 t ≡ (set t.0 t.1 h, 10)
unfolding store_rich
store_full h (r, i) lt = ground arith

full_poorer :
    (h : Holder) (ys : List Holder) (y : Holder)
    → length ys ≡ 9
    → IsRanked ys
    → ltb_ℤ y.bucks h.bucks ≡ true
    → place_rich h (ys ++ y ∷ [], 10) ≡ (take 10 (rank h (ys ++ y ∷ [])), 10)
unfolding place_rich
full_poorer h ys y len r poorer =
    let at : get_or (ys ++ y ∷ []) 9 no_holder ≡ y =
      ap (λ k. get_or (ys ++ y ∷ []) k no_holder) (sym len) ∙ get_or-append ys y no_holder [] in
    let s = slide-rank h 9 ys y [] len (omega arith) r in
    rw
      (
        slide_drop h.bucks (ys ++ y ∷ []) (ap (λ (t : Holder). ltb_ℤ t.bucks h.bucks) at ∙ poorer),
        rank-snoc_poorer h y ys poorer,
        take_whole (rank h ys) (y ∷ []) 10 (length-rank h ys ∙ ap suc len),
      )
      (store_full h _ (omega (arith, s.0)) ∙ ap (λ l. (l, 10)) (s.1 ∙ append-nil (rank h ys)))

full_above :
    (h : Holder) (ys : List Holder) (y : Holder)
    → length ys ≡ 9
    → IsRanked (ys ++ y ∷ [])
    → ltb_ℤ y.bucks h.bucks ≡ false
    → place_rich h (ys ++ y ∷ [], 10) ≡ (take 10 (rank h (ys ++ y ∷ [])), 10)
unfolding place_rich
full_above h ys y len r above =
    let at : get_or (ys ++ y ∷ []) 9 no_holder ≡ y =
      ap (λ k. get_or (ys ++ y ∷ []) k no_holder) (sym len) ∙ get_or-append ys y no_holder [] in
    rw
      (
        slide_stop 9 h.bucks (ys ++ y ∷ []) (ap (λ (t : Holder). ltb_ℤ t.bucks h.bucks) at ∙ above),
        rank_last h (ys ++ y ∷ []) (AllAbove-snoc h.bucks ys y r (ground arith)),
        take_whole (ys ++ y ∷ []) (h ∷ []) 10 (length-append ys (y ∷ []) ∙ omega arith),
      )
      (ground arith)

-- One more account, when the array is full.
place_full :
    (h : Holder) (xs : List Holder)
    → length xs ≡ 10
    → IsRanked xs
    → place_rich h (xs, 10) ≡ (take 10 (rank h xs), 10)
place_full h xs len r =
    let (ys, y, split, short) = snoc_view 9 xs len in
    subst (λ t. place_rich h (t, 10) ≡ (take 10 (rank h t), 10)) (sym split)
      (elim (Bool-cases (ltb_ℤ y.bucks h.bucks)) [
        | inl poorer ↦ full_poorer h ys y short (IsRanked-init ys y (subst IsRanked split r)) poorer
        | inr above ↦ full_above h ys y short (subst IsRanked split r) above
      ])

-- The ranking goes on in the array.
roomy-Table :
    (all : List Holder) (h : Holder) (junk : List Holder)
    → length all < 10
    → length (all ++ junk) ≡ 10
    → IsRanked all
    → Table (rank h all) (place_rich h (all ++ junk, length all))
roomy-Table all h [] lt w r = absurd (omega (arith, length-append all []))
roomy-Table all h (z ∷ rest) lt w r =
    let sizes = length-rank h all in
    rw (place_roomy h all z rest lt r) (record {
      junk = rest;
      splits = rw (take_all (rank h all) 10 (omega arith));
      counted = rw (take_all (rank h all) 10 (omega arith)) (omega arith);
      width = length-append (rank h all) rest ∙ omega (arith, length-append all (z ∷ rest));
      ranked = IsRanked-rank h all r;
    })

full-Table :
    (all : List Holder) (h : Holder)
    → 10 ≤ length all
    → IsRanked all
    → Table (rank h all) (place_rich h (take 10 all, 10))
full-Table all h le r =
    let ten = length-take 10 all in
    let sizes = length-take 10 (rank h all) in
    rw (place_full h (take 10 all) (omega arith) (IsRanked-take 10 all r), take-rank 10 h all)
      (record {
        junk = [];
        splits = sym (append-nil _);
        counted = omega (arith, length-rank h all);
        width = omega (arith, length-rank h all);
        ranked = IsRanked-rank h all r;
      })

nil_of_length {ℓ} : {A : Type ℓ} (xs : List A) → length xs ≡ 0 → xs ≡ []
nil_of_length [] e = refl
nil_of_length (x ∷ xs) e = absurd (omega arith)

place_rich-Table :
    (all : List Holder) (h : Holder) (t : List Holder × ℕ)
    → Table all t
    → Table (rank h all) (place_rich h t)
place_rich-Table all h (rich, n) tab = elim (Bool-cases (ltb (length all) 10)) [
  | inl roomy ↦
      let whole = take_all all 10 (omega (arith, ltb→lt (length all) 10 roomy)) in
      let same : rich ≡ all ++ tab.junk = tab.splits ∙ ap (λ l. l ++ tab.junk) whole in
      let count : n ≡ length all = tab.counted ∙ ap length whole in
      rw (same, count)
        (roomy-Table all h tab.junk (ltb→lt (length all) 10 roomy)
          (ap length (sym same) ∙ tab.width) tab.ranked)
  | inr full ↦
      let le : 10 ≤ length all = ground arith in
      let ten = length-take 10 all in
      let sizes = ap length tab.splits ∙ length-append (take 10 all) tab.junk in
      let same : rich ≡ take 10 all =
        tab.splits
        ∙ ap (λ l. take 10 all ++ l) (nil_of_length tab.junk (omega (arith, sizes, tab.width)))
        ∙ append-nil (take 10 all) in
      let count : n ≡ 10 = tab.counted ∙ omega arith in
      rw (same, count) (full-Table all h le tab.ranked)
]

rank_cells-Table :
    (cuid : ℕ) (cs : List ℤ) (all : List Holder) (t : List Holder × ℕ)
    → Table all t
    → Table (ranking all (holders cuid cs)) (rank_cells cuid cs t)
unfolding rank_cells
rank_cells-Table cuid [] all t tab = tab
rank_cells-Table cuid (c ∷ cs) all t tab = elim (Bool-cases (is_even c)) [
  | inl closed ↦ rw closed (rank_cells-Table (suc cuid) cs all t tab)
  | inr open_cell ↦
      let h : Holder = record { uid = cuid; bucks = listed c } in
      rw open_cell (
        rank_cells-Table (suc cuid) cs (rank h all) (place_rich h t) (place_rich-Table all h t tab))
]

wealthy_table-ranking :
    (junk : List Holder) (c : ℤ) (cs : List ℤ)
    → length junk ≡ 10
    → wealthy_table junk (c ∷ cs) ≡ take 10 (ranking [] (holders 1 cs))
unfolding wealthy_table
wealthy_table-ranking junk c cs w =
    let root : Holder = record { uid = 0; bucks = c } in
    let tab =
      rank_cells-Table 1 cs [] (set junk 0 root, 0)
        (record {
          junk = set junk 0 root;
          splits = refl;
          counted = refl;
          width = length-set junk 0 root ∙ w;
          ranked = tt;
        }) in
    rw (tab.splits, tab.counted) (take_whole (take 10 (ranking [] (holders 1 cs))) tab.junk _ refl)

ranking-IsRanked : (done hs : List Holder) → IsRanked done → IsRanked (ranking done hs)
ranking-IsRanked done [] r = r
ranking-IsRanked done (h ∷ hs) r = ranking-IsRanked (rank h done) hs (IsRanked-rank h done r)

rank-perm : (h : Holder) (xs : List Holder) → Perm (rank h xs) (h ∷ xs)
rank-perm h [] = Perm.refl _
rank-perm h (x ∷ xs) = elim (Bool-cases (ltb_ℤ x.bucks h.bucks)) [
  | inl before ↦ rw before (Perm.refl _)
  | inr behind ↦ rw behind (Perm.trans (Perm.cons x (rank-perm h xs)) (Perm.swap h x xs))
]

ranking-perm : (done hs : List Holder) → Perm (ranking done hs) (hs ++ done)
ranking-perm done [] = Perm.refl _
ranking-perm done (h ∷ hs) =
    Perm.trans (ranking-perm (rank h done) hs)
      (Perm.trans (Perm.append (Perm.refl hs) (rank-perm h done)) (perm_middle hs done))

-- The table of `wealthy` is the first ten of a list of the open accounts of uid 1 and up, each once
-- and richest first, whatever the array holds at first.
pub wealthy_table-richest :
    (junk : List Holder) (c : ℤ) (cs : List ℤ)
    → length junk ≡ 10
    → (ranked : List Holder) × (wealthy_table junk (c ∷ cs) ≡ take 10 ranked)
      × IsRanked ranked
      × Perm ranked (holders 1 cs)
wealthy_table-richest junk c cs w = (
  ranking [] (holders 1 cs),
  wealthy_table-ranking junk c cs w,
  ranking-IsRanked [] (holders 1 cs) tt,
  subst (Perm (ranking [] (holders 1 cs))) (append-nil (holders 1 cs))
      (ranking-perm [] (holders 1 cs)),
)
