-- ===== src/Grexhash/Realm/Room.antt =====
-- The realm of soft/libgrex/grexhash.c fits its buffer.
use mnetsoft.Base.{
  ℕ, ◌+◌, ◌-◌, ◌≤◌, ◌<◌, ◌≡◌, refl, ◌⊎◌, inl, inr, Bool, true, false, Option, none, some, [], ◌∷◌,
  if◌then◌else◌, ◌==◌, length, arith, Bool-cases, Option-cases,
}
use mathlib.Core.Path.{subst, ◌∙◌}
use mnetsoft.Base.Text.{Text}
use mnetsoft.Grexhash.Realm.{
  Dots, pass_dot, find_dots, foreign, copy_realm, choose_realm, kg_realmofhost,
}

abbrev ends_dot : Text → Bool
ends_dot [] = false
ends_dot (x ∷ []) = x == b'.'
ends_dot (x ∷ y ∷ ys) = ends_dot (y ∷ ys)

abbrev EndsIn : Bool → Option Text → Type 0
EndsIn b none = Unit {0}
EndsIn b (some s) = ends_dot s ≡ b

-- All that the pointers name ends in a dot, or nothing of it does.
record AllEnd (b : Bool) (d : Dots) : Type 0 where
  two : ends_dot d.s2 ≡ b
  three : EndsIn b d.s3
  four : EndsIn b d.s4

abbrev Counted : Dots → Type 0
Counted d = (d.c ≡ 0) ⊎ ((d.c ≡ 1) × AllEnd true d)

ends_mono : (o : Option Text) {b c : Bool} → EndsIn b o → b ≡ c → EndsIn c o
ends_mono o h e = subst (λ x. EndsIn x o) e h

pass_dot-AllEnd :
    (x : ℕ) (s1 : Text) (d : Dots) → AllEnd (ends_dot s1) d → AllEnd (ends_dot s1) (pass_dot x s1 d)
unfolding pass_dot
pass_dot-AllEnd x s1 d a = elim (Bool-cases (x == b'.')) [
  | inl dot ↦ rw dot (record { two = refl; three = a.two; four = a.three })
  | inr other ↦ rw other a
]

c-pass_dot : (x : ℕ) (s1 : Text) (d : Dots) → (pass_dot x s1 d).c ≡ d.c
unfolding pass_dot
c-pass_dot x s1 d = ground arith

find_dots-Counted :
    (xs : Text) (d : Dots) → AllEnd (ends_dot xs) d → d.c ≡ 0 → Counted (find_dots xs d)
unfolding find_dots
find_dots-Counted [] d a e = inl e
find_dots-Counted (x ∷ []) d a e = elim (Bool-cases (x == b'.')) [
  | inl dot ↦ rw dot (
      inr (
        refl,
        record {
          two = a.two ∙ dot;
          three = ends_mono d.s3 a.three dot;
          four = ends_mono d.s4 a.four dot;
        },
      ))
  | inr other ↦ rw other (inl e)
]
find_dots-Counted (x ∷ y ∷ ys) d a e =
    find_dots-Counted (y ∷ ys) (pass_dot x (y ∷ ys) d) (pass_dot-AllEnd x (y ∷ ys) d a)
      (c-pass_dot x (y ∷ ys) d ∙ e)

length-copy_realm :
    (t : Text) (n : ℕ) {r : Text}
    → copy_realm t n ≡ some r
    → length r + (if ends_dot t then 1 else 0) ≤ n - 1
unfolding copy_realm
length-copy_realm [] n e = ground arith
length-copy_realm (x ∷ []) n e = ground arith
length-copy_realm (x ∷ y ∷ ys) n e = elim (Option-cases (copy_realm (y ∷ ys) (n - 1))) [
  | inl full ↦ ground (arith, full)
  | inr (rest, fits) ↦ let ih = length-copy_realm (y ∷ ys) (n - 1) fits in ground (arith, fits, ih)
]

-- What is copied is what one of the pointers names.
choice :
    (s2 : Text) (s3 s4 : Option Text) (c rsize : ℕ) {r : Text}
    → choose_realm s2 s3 s4 c rsize ≡ some r
    → (t : Text) × (copy_realm t (rsize + c) ≡ some r)
      × (EndsIn true s3 → EndsIn true s4 → ends_dot t ≡ true)
unfolding choose_realm
choice s2 none s4 c rsize e = cc
choice s2 (some s3) none c rsize e = elim (Bool-cases (foreign s2 s3 c)) [
  | inl f ↦ cc (rw f at e)
  | inr f ↦ (s3, rw f at e, λ h3 h4. h3)
]
choice s2 (some s3) (some s4) c rsize e = elim (Bool-cases (foreign s2 s3 c)) [
  | inl f ↦ (s4, rw f at e, λ h3 h4. h4)
  | inr f ↦ (s3, rw f at e, λ h3 h4. h3)
]

chosen-fits :
    (d : Dots) (rsize : ℕ) {r : Text}
    → Counted d
    → 0 < rsize
    → choose_realm d.s2 d.s3 d.s4 d.c rsize ≡ some r
    → length r < rsize
chosen-fits d rsize k pos e =
    let (t, copied, ends) = choice d.s2 d.s3 d.s4 d.c rsize e in
    let room = length-copy_realm t (rsize + d.c) copied in
    elim k [
      | inl none_cut ↦ omega (arith, room, none_cut)
      | inr (one_cut, a) ↦ let dot = ends a.three a.four in omega (arith, rw dot at room, one_cut)
    ]

-- The realm and its terminator fit the buffer, whose size is not 0, also where the name of the host
-- ends in a dot, for which one byte more is allowed in the meantime.
pub length-kg_realmofhost :
    (hostname : Text) (rsize : ℕ) {r : Text}
    → 0 < rsize
    → kg_realmofhost hostname rsize ≡ some r
    → length r < rsize
unfolding kg_realmofhost
length-kg_realmofhost hostname rsize pos e =
    chosen-fits _ rsize
      (find_dots-Counted hostname (record { s2 = hostname; s3 = none; s4 = none; c = 0 })
        (record { two = refl; three = tt; four = tt }) refl)
      pos e
